-- ===== src/Proxy/Status/Window.antt =====
-- What a line of `Status` in internal/proxy/proxy.go can show.
use sccache_dist_action.Common.{◌≤◌, refl, List, [], ◌∷◌, arith}
use sccache_dist_action.Proxy.Counters.{
  Counters, Relay, Move, advance, System, new_forwarder, report, Step, accept, move, status, Reach,
  here, next,
}
use sccache_dist_action.Proxy.Counters.Sums.{sum}
use sccache_dist_action.Proxy.Counters.Invariant.{is_counted, is_active, counters_exact}
use sccache_dist_action.Proxy.Status.{Reads, Taken}

-- What only grows.
pub record Grows (c : Counters) (d : Counters) : Type 0 where
  pub total : c.total ≤ d.total
  pub dial_retries : c.dial_retries ≤ d.dial_retries
  pub dial_fails : c.dial_fails ≤ d.dial_fails

advance-Grows : (c : Counters) (r : Relay) (m : Move) → Grows c (advance c r m).0
unfolding advance
advance-Grows c r m = record {
  total = ground arith;
  dial_retries = ground arith;
  dial_fails = ground arith;
}

Grows-refl : (c : Counters) → Grows c c
Grows-refl c = record { total = omega arith; dial_retries = omega arith; dial_fails = omega arith }

Grows-trans : (c d e : Counters) → Grows c d → Grows d e → Grows c e
Grows-trans c d e h k = record {
  total = omega (arith, h.total, k.total);
  dial_retries = omega (arith, h.dial_retries, k.dial_retries);
  dial_fails = omega (arith, h.dial_fails, k.dial_fails);
}

Step-Grows : {s t : System} → Step s t → Grows s.counters t.counters
unfolding report
Step-Grows {s} (accept e) = rw e (Grows-refl s.counters)
Step-Grows {s} (move before later r m e k) = rw k (advance-Grows s.counters r m)
Step-Grows {s} (status e) =
    rw e (record { total = omega arith; dial_retries = omega arith; dial_fails = omega arith })

Reach-Grows : {s t : System} → Reach s t → Grows s.counters t.counters
Reach-Grows {s} here = Grows-refl s.counters
Reach-Grows (next r st) = Grows-trans _ _ _ (Reach-Grows r) (Step-Grows st)

Reach-trans : {s t u : System} → Reach s t → Reach t u → Reach s u
Reach-trans r here = r
Reach-trans r (next q st) = next (Reach-trans r q) st

active_counted :
    (rs : List Relay) → sum (λ r. is_active r.place) rs ≤ sum (λ r. is_counted r.place) rs
unfolding sum
active_counted [] = omega arith
active_counted (r ∷ rs) = ground (arith, active_counted rs)

-- A line of Status never shows more active relays than relays, although it reads the two one after
-- the other; and what it shows as total, as retries and as failed dials lies between what the
-- counters held when the call began and when it ended.
pub status_window :
    {s t : System} (r : Reads)
    → Reach new_forwarder s
    → Taken s t r
    → (r.active ≤ r.total)
      × (s.counters.total ≤ r.total)
      × (r.total ≤ t.counters.total)
      × (s.counters.dial_retries ≤ r.dial_retries)
      × (r.dial_retries ≤ t.counters.dial_retries)
      × (s.counters.dial_fails ≤ r.dial_fails)
      × (r.dial_fails ≤ t.counters.dial_fails)
unfolding report
status_window {s} {t} r reached taken =
    let a = Reach-Grows taken.to_active in
    let b = Reach-Grows taken.to_total in
    let c = Reach-Grows taken.to_retries in
    let d = Reach-Grows taken.to_fails in
    let (total, active, _, _) =
      counters_exact (Reach-trans (next reached (status refl)) taken.to_active) in
    let fits = active_counted taken.at_active.relays in
    (
      omega (arith, taken.active_read, taken.total_read, total, active, fits, b.total),
      omega (arith, taken.total_read, a.total, b.total),
      omega (arith, taken.total_read, c.total, d.total),
      omega (arith, taken.retries_read, a.dial_retries, b.dial_retries, c.dial_retries),
      omega (arith, taken.retries_read, d.dial_retries),
      omega (arith, taken.fails_read, a.dial_fails, b.dial_fails, c.dial_fails, d.dial_fails),
      omega (arith, taken.fails_read),
    )
