-- ===== src/Proxy/Counters/Invariant.antt =====
-- What the counters count.
use sccache_dist_action.Common.{
  length, All, ℕ, zero, suc, ◌+◌, ◌≤◌, ◌<◌, ◌≡◌, refl, sym, ◌∙◌, subst, ◌⊎◌, true, false, List, [],
  ◌∷◌, ◌++◌, arith,
}
use sccache_dist_action.Proxy.Counters.{
  Counters, Place, accepted, counted, redialing, calling, leaving, closed, Relay, Move, fresh,
  advance, System, new_forwarder, note, report, Step, accept, move, status, Reach, here, next,
}
use sccache_dist_action.Proxy.Counters.Sums.{
  sum, sum_of_move, sum-middle, sum-cons, sum-map, All-replace, All-at, All-map,
}

-- 1 for a relay that is counted: in `total`; in `active`; in `dialFails`.
abbrev pub is_counted : Place → ℕ
is_counted accepted = 0
is_counted place = 1

abbrev pub is_active : Place → ℕ
is_active accepted = 0
is_active counted = 0
is_active (closed done) = 0
is_active place = 1

abbrev pub has_failed : Place → ℕ
has_failed (leaving false) = 1
has_failed (closed false) = 1
has_failed place = 0

-- The retries that a relay can have counted where it stands.
abbrev pub RetriesFit : Place → ℕ → Type 0
RetriesFit (redialing zero) n = n ≡ 0
RetriesFit (redialing (suc k)) n = (n ≡ k) × (suc k < 3)
RetriesFit (calling k) n = (n ≡ k) × (k < 3)
RetriesFit accepted n = n ≡ 0
RetriesFit counted n = n ≡ 0
RetriesFit place n = n ≤ 2

pub record CountsRight (s : System) : Type 0 where
  pub total : s.counters.total ≡ sum (λ r. is_counted r.place) s.relays
  pub active : s.counters.active ≡ sum (λ r. is_active r.place) s.relays
  pub fails : s.counters.dial_fails ≡ sum (λ r. has_failed r.place) s.relays
  pub retries : s.counters.dial_retries ≡ sum (λ r. r.retries) s.relays
  pub fit : All (λ r. RetriesFit r.place r.retries) s.relays

advance-total :
    (c : Counters) (r : Relay) (m : Move)
    → (advance c r m).0.total + is_counted r.place ≡ c.total + is_counted (advance c r m).1.place
unfolding advance
advance-total c r m = ground arith

advance-active :
    (c : Counters) (r : Relay) (m : Move)
    → is_active r.place ≤ c.active
    → (advance c r m).0.active + is_active r.place ≡ c.active + is_active (advance c r m).1.place
unfolding advance
advance-active c r m h = ground arith

advance-fails :
    (c : Counters) (r : Relay) (m : Move)
    → (advance c r m).0.dial_fails + has_failed r.place
      ≡ c.dial_fails + has_failed (advance c r m).1.place
unfolding advance
advance-fails c r m = ground arith

advance-retries :
    (c : Counters) (r : Relay) (m : Move)
    → (advance c r m).0.dial_retries + r.retries ≡ c.dial_retries + (advance c r m).1.retries
unfolding advance
advance-retries c r m = ground arith

advance-fit :
    (c : Counters) (r : Relay) (m : Move)
    → RetriesFit r.place r.retries
    → RetriesFit (advance c r m).1.place (advance c r m).1.retries
unfolding advance
advance-fit c r m h = ground arith

move-CountsRight :
    (s : System) (before later : List Relay) (r : Relay) (m : Move)
    → s.relays ≡ before ++ r ∷ later
    → CountsRight s
    → CountsRight (record {
      counters = (advance s.counters r m).0;
      relays = before ++ (advance s.counters r m).1 ∷ later;
    })
move-CountsRight s before later r m e right =
    let c = s.counters in
    let r' = (advance c r m).1 in
    let at = λ (f : Relay → ℕ) (a : ℕ) (h : a ≡ sum f s.relays). subst (λ rs. a ≡ sum f rs) e h in
    let active_here = at (λ q. is_active q.place) c.active right.active in
    let some_active : is_active r.place ≤ c.active =
      omega (arith, active_here, sum-middle (λ q. is_active q.place) before later r) in
    record {
      total =
          sum_of_move (λ q. is_counted q.place) before later r r' c.total _
            (at (λ q. is_counted q.place) c.total right.total) (advance-total c r m);
      active =
          sum_of_move (λ q. is_active q.place) before later r r' c.active _ active_here
            (advance-active c r m some_active);
      fails =
          sum_of_move (λ q. has_failed q.place) before later r r' c.dial_fails _
            (at (λ q. has_failed q.place) c.dial_fails right.fails) (advance-fails c r m);
      retries =
          sum_of_move (λ q. q.retries) before later r r' c.dial_retries _
            (at (λ q. q.retries) c.dial_retries right.retries) (advance-retries c r m);
      fit =
          let fits = subst (All (λ q. RetriesFit q.place q.retries)) e right.fit in
          All-replace _ _ (λ q h. h) before later r r' fits
            (advance-fit c r m (All-at (λ q. RetriesFit q.place q.retries) before later r fits));
    }

report-CountsRight : (s : System) → CountsRight s → CountsRight (report s)
unfolding report
report-CountsRight s right =
    let mark = s.counters.slowest_dial in
    record {
      total =
          right.total ∙ sym (sum-map (λ q. is_counted q.place) (note mark) (λ q. refl) s.relays);
      active =
          right.active ∙ sym (sum-map (λ q. is_active q.place) (note mark) (λ q. refl) s.relays);
      fails =
          right.fails ∙ sym (sum-map (λ q. has_failed q.place) (note mark) (λ q. refl) s.relays);
      retries = right.retries ∙ sym (sum-map (λ q. q.retries) (note mark) (λ q. refl) s.relays);
      fit =
          All-map (λ q. RetriesFit q.place q.retries) (λ q. RetriesFit q.place q.retries)
            (note mark) (λ q h. h) s.relays right.fit;
    }

Step-CountsRight : {s t : System} → Step s t → CountsRight s → CountsRight t
Step-CountsRight {s} (accept e) right = rw e (record {
  total = omega (arith, right.total, sum-cons (λ q. is_counted q.place) fresh s.relays);
  active = omega (arith, right.active, sum-cons (λ q. is_active q.place) fresh s.relays);
  fails = omega (arith, right.fails, sum-cons (λ q. has_failed q.place) fresh s.relays);
  retries = omega (arith, right.retries, sum-cons (λ q. q.retries) fresh s.relays);
  fit = (refl, right.fit);
})
Step-CountsRight {s} (move before later r m e k) right =
    rw k (move-CountsRight s before later r m e right)
Step-CountsRight {s} (status e) right = rw e (report-CountsRight s right)

pub Reach-CountsRight : {s t : System} → CountsRight s → Reach s t → CountsRight t
Reach-CountsRight right here = right
Reach-CountsRight right (next r st) = Step-CountsRight st (Reach-CountsRight right r)

new_forwarder-CountsRight : CountsRight new_forwarder
unfolding sum
new_forwarder-CountsRight = record {
  total = refl;
  active = refl;
  fails = refl;
  retries = refl;
  fit = tt;
}

-- However the relays of a forwarder and the reads of Status interleave, `total` is the number of
-- relays behind their first operation, `active` that of the relays between the two that count them,
-- `dialFails` that of the relays whose dial failed and was counted, and `dialRetries` the sum of the
-- retries of each relay.
pub counters_exact :
    {s : System}
    → Reach new_forwarder s
    → (s.counters.total ≡ sum (λ r. is_counted r.place) s.relays)
      × (s.counters.active ≡ sum (λ r. is_active r.place) s.relays)
      × (s.counters.dial_fails ≡ sum (λ r. has_failed r.place) s.relays)
      × (s.counters.dial_retries ≡ sum (λ r. r.retries) s.relays)
counters_exact r =
    let right = Reach-CountsRight new_forwarder-CountsRight r in
    (right.total, right.active, right.fails, right.retries)

abbrev pub IsQuiet : Relay → Type 0
IsQuiet r = (closed true ≡ r.place) ⊎ (closed false ≡ r.place)

quiet_inactive : (rs : List Relay) → All IsQuiet rs → sum (λ r. is_active r.place) rs ≡ 0
unfolding sum
quiet_inactive [] h = refl
quiet_inactive (r ∷ rs) (h, hs) = ground (arith, quiet_inactive rs hs)

quiet_counted : (rs : List Relay) → All IsQuiet rs → sum (λ r. is_counted r.place) rs ≡ length rs
unfolding sum
quiet_counted [] h = refl
quiet_counted (r ∷ rs) (h, hs) = ground (arith, quiet_counted rs hs)

-- When every relay has ended, no relay is counted as active, and each has been counted in `total`.
pub counters_at_rest :
    {s : System}
    → Reach new_forwarder s
    → All IsQuiet s.relays
    → (s.counters.active ≡ 0) × (s.counters.total ≡ length s.relays)
counters_at_rest {s} r quiet =
    let right = Reach-CountsRight new_forwarder-CountsRight r in
    (right.active ∙ quiet_inactive s.relays quiet, right.total ∙ quiet_counted s.relays quiet)
