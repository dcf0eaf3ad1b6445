-- ===== src/Proxy/Counters/Slowest.antt =====
-- The slowest-dial mark, kept by a compare-and-swap loop and taken by Status.
use sccache_dist_action.Common.{
  All, ℕ, ◌≤◌, ◌≡◌, refl, sym, ◌∙◌, subst, ◌⊎◌, inl, inr, List, [], ◌∷◌, ◌++◌, map, arith,
}
use sccache_dist_action.Proxy.Counters.{
  Counters, Place, accepted, counted, redialing, calling, loaded, settled, piping, leaving, closed,
  Relay, Move, advance, System, new_forwarder, note, report, Step, accept, move, status, Reach,
  here, next,
}
use sccache_dist_action.Proxy.Counters.Sums.{All-replace, All-at, All-map}

-- A value that no mark has lost: the mark stands as high, or a report since has shown as much.
abbrev pub IsShown : ℕ → Relay → ℕ → Type 0
IsShown mark r value = (value ≤ mark) ⊎ (value ≤ r.reported)

-- Behind the loop the relay's own time is shown; inside it, the value that it has loaded.
abbrev pub ShownAt : ℕ → Relay → Place → Type 0
ShownAt mark r (loaded done old) = IsShown mark r old
ShownAt mark r (settled done) = IsShown mark r r.took
ShownAt mark r piping = IsShown mark r r.took
ShownAt mark r (leaving done) = IsShown mark r r.took
ShownAt mark r (closed done) = IsShown mark r r.took
ShownAt mark r place = Unit

abbrev pub Shown : ℕ → Relay → Type 0
Shown mark r = ShownAt mark r r.place

advance-mark :
    (c : Counters) (r : Relay) (m : Move) → c.slowest_dial ≤ (advance c r m).0.slowest_dial
unfolding advance
advance-mark c r m = ground arith

advance-Shown :
    (c : Counters) (r : Relay) (m : Move)
    → Shown c.slowest_dial r
    → Shown (advance c r m).0.slowest_dial (advance c r m).1
unfolding advance
advance-Shown c r m h = ground arith

Shown-mono : (a b : ℕ) (r : Relay) → a ≤ b → Shown a r → Shown b r
Shown-mono a b r h k = ground arith

note-Shown : (mark : ℕ) (r : Relay) → Shown mark r → Shown 0 (note mark r)
unfolding note
note-Shown mark r h = ground arith

Step-Shown :
    {s t : System}
    → Step s t
    → All (Shown s.counters.slowest_dial) s.relays
    → All (Shown t.counters.slowest_dial) t.relays
unfolding report
Step-Shown {s} (accept e) h = rw e (tt, h)
Step-Shown {s} (move before later r m e k) h =
    let mark = s.counters.slowest_dial in
    let all = subst (All (Shown mark)) e h in
    rw k (
      All-replace (Shown mark) (Shown (advance s.counters r m).0.slowest_dial)
        (λ q shown. Shown-mono mark _ q (advance-mark s.counters r m) shown) before later r
        (advance s.counters r m).1 all
        (advance-Shown s.counters r m (All-at (Shown mark) before later r all)))
Step-Shown {s} (status e) h = rw e (
    All-map (Shown s.counters.slowest_dial) (Shown 0) (note s.counters.slowest_dial)
      (note-Shown s.counters.slowest_dial) s.relays h)

Reach-Shown :
    {s t : System}
    → All (Shown s.counters.slowest_dial) s.relays
    → Reach s t
    → All (Shown t.counters.slowest_dial) t.relays
Reach-Shown h here = h
Reach-Shown h (next r st) = Step-Shown st (Reach-Shown h r)

-- No slow dial is lost: however relays and reads of Status interleave, the time of each relay that
-- is behind its compare-and-swap loop is at most the present mark, or at most a mark that Status has
-- reported since the relay measured it.
pub slowest_dial_kept :
    {s : System} → Reach new_forwarder s → All (Shown s.counters.slowest_dial) s.relays
slowest_dial_kept r = Reach-Shown tt r

-- A relay has no time before it has measured one.
abbrev pub TimeFits : Place → ℕ → Type 0
TimeFits accepted took = took ≡ 0
TimeFits counted took = took ≡ 0
TimeFits (redialing n) took = took ≡ 0
TimeFits (calling n) took = took ≡ 0
TimeFits place took = Unit

-- 0, or the time of one of the relays.
abbrev pub IsTime : ℕ → List Relay → Type 0
IsTime mark [] = mark ≡ 0
IsTime mark (r ∷ rs) = (mark ≡ r.took) ⊎ IsTime mark rs

IsTime-zero : (rs : List Relay) → IsTime 0 rs
IsTime-zero [] = refl
IsTime-zero (r ∷ rs) = inr (IsTime-zero rs)

IsTime-here : (before later : List Relay) (r : Relay) → IsTime r.took (before ++ r ∷ later)
IsTime-here [] later r = inl refl
IsTime-here (x ∷ before) later r = inr (IsTime-here before later r)

IsTime-replace :
    (mark : ℕ) (before later : List Relay) (r r' : Relay)
    → (r.took ≡ 0) ⊎ (r'.took ≡ r.took)
    → IsTime mark (before ++ r ∷ later)
    → (mark ≡ 0) ⊎ IsTime mark (before ++ r' ∷ later)
IsTime-replace mark [] later r r' (inl unset) (inl e) = inl (e ∙ unset)
IsTime-replace mark [] later r r' (inr same) (inl e) = inr (inl (e ∙ sym same))
IsTime-replace mark [] later r r' h (inr k) = inr (inr k)
IsTime-replace mark (x ∷ before) later r r' h (inl e) = inr (inl e)
IsTime-replace mark (x ∷ before) later r r' h (inr k) =
    elim (IsTime-replace mark before later r r' h k) [
      | inl zero_mark ↦ inl zero_mark
      | inr found ↦ inr (inr found)
    ]

IsTime-map : (mark m : ℕ) (rs : List Relay) → IsTime mark rs → IsTime mark (map (note m) rs)
unfolding note
IsTime-map mark m [] h = h
IsTime-map mark m (r ∷ rs) (inl e) = inl e
IsTime-map mark m (r ∷ rs) (inr k) = inr (IsTime-map mark m rs k)

advance-TimeFits :
    (c : Counters) (r : Relay) (m : Move)
    → TimeFits r.place r.took
    → TimeFits (advance c r m).1.place (advance c r m).1.took
      × ((r.took ≡ 0) ⊎ ((advance c r m).1.took ≡ r.took))
unfolding advance
advance-TimeFits c r m h = ground arith

advance-time :
    (c : Counters) (r : Relay) (m : Move)
    → ((advance c r m).0.slowest_dial ≡ c.slowest_dial)
      ⊎ ((advance c r m).0.slowest_dial ≡ (advance c r m).1.took)
unfolding advance
advance-time c r m = ground arith

pub record MarkReal (s : System) : Type 0 where
  pub times : All (λ r. TimeFits r.place r.took) s.relays
  pub real : IsTime s.counters.slowest_dial s.relays

move-IsTime :
    (c : Counters) (r : Relay) (m : Move) (before later : List Relay)
    → (r.took ≡ 0) ⊎ ((advance c r m).1.took ≡ r.took)
    → IsTime c.slowest_dial (before ++ r ∷ later)
    → IsTime (advance c r m).0.slowest_dial (before ++ (advance c r m).1 ∷ later)
move-IsTime c r m before later h real = elim (advance-time c r m) [
  | inr own ↦ rw own (IsTime-here before later (advance c r m).1)
  | inl same ↦ elim (IsTime-replace c.slowest_dial before later r (advance c r m).1 h real) [
    | inl zero_mark ↦
        subst (λ x. IsTime x (before ++ (advance c r m).1 ∷ later)) (sym (same ∙ zero_mark))
          (IsTime-zero (before ++ (advance c r m).1 ∷ later))
    | inr found ↦ subst (λ x. IsTime x (before ++ (advance c r m).1 ∷ later)) (sym same) found
  ]
]

Step-MarkReal : {s t : System} → Step s t → MarkReal s → MarkReal t
unfolding report
Step-MarkReal {s} (accept e) h = rw e (record { times = (refl, h.times); real = inr h.real })
Step-MarkReal {s} (move before later r m e k) h =
    let times = subst (All (λ q. TimeFits q.place q.took)) e h.times in
    let (kept, set) =
      advance-TimeFits s.counters r m
        (All-at (λ q. TimeFits q.place q.took) before later r times) in
    rw k (record {
      times = All-replace _ _ (λ q fits. fits) before later r (advance s.counters r m).1 times kept;
      real =
          move-IsTime s.counters r m before later set
            (subst (IsTime s.counters.slowest_dial) e h.real);
    })
Step-MarkReal {s} (status e) h = rw e (record {
  times =
      All-map (λ q. TimeFits q.place q.took) (λ q. TimeFits q.place q.took)
        (note s.counters.slowest_dial) (λ q fits. fits) s.relays h.times;
  real = IsTime-zero (map (note s.counters.slowest_dial) s.relays);
})

Reach-MarkReal : {s t : System} → MarkReal s → Reach s t → MarkReal t
Reach-MarkReal h here = h
Reach-MarkReal h (next r st) = Step-MarkReal st (Reach-MarkReal h r)

-- The mark that Status reports is never made up: it is 0 or the time that one of the relays took.
pub slowest_dial_real :
    {s : System} → Reach new_forwarder s → IsTime s.counters.slowest_dial s.relays
slowest_dial_real r = (Reach-MarkReal (record { times = tt; real = refl }) r).real
