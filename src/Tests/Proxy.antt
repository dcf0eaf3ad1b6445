-- ===== src/Tests/Proxy.antt =====
-- The relays.
use sccache_dist_action.Common.{
  ◌==◌, if◌then◌else◌, All, ok, err, ℕ, ◌+◌, ◌-◌, ◌≤◌, ◌≡◌, refl, ◌⊎◌, List, [], ◌∷◌,
}
use sccache_dist_action.Proxy.Dial.{Attempt, dial_attempts, dial_retrying}
use sccache_dist_action.Proxy.Dial.Laws.{FailsBefore, dial_retrying-decides}
use sccache_dist_action.Proxy.Counters.{
  Counters, Relay, Move, go, dial_succeeds, dial_fails_after, System, Reach, here, next, accept,
  move, status, new_forwarder, fresh, advance, report,
}
use sccache_dist_action.Proxy.Counters.Sums.{sum}
use sccache_dist_action.Proxy.Counters.Invariant.{is_counted, is_active, has_failed, counters_exact}
use sccache_dist_action.Proxy.Counters.Slowest.{Shown, slowest_dial_kept}

-- The first attempt fails, the second succeeds.
abbrev attempts : ℕ → Attempt ℕ ℕ
attempts n =
    if n == 1
    then record { outcome = err 7; elapsed = 3 }
    else record { outcome = ok 5; elapsed = 4 }

dial_retrying-decides_example :
    ((n : ℕ) × (c : ℕ) × (1 ≤ n)
      × (n ≤ dial_attempts)
      × FailsBefore attempts n
      × ((attempts n).outcome ≡ ok c)
      × ((dial_retrying attempts 0).outcome ≡ ok c)
      × ((dial_retrying attempts 0).retries ≡ n - 1))
    ⊎ ((e : ℕ) × FailsBefore attempts (dial_attempts + 1)
        × ((attempts dial_attempts).outcome ≡ err e)
        × ((dial_retrying attempts 0).outcome ≡ err e)
        × ((dial_retrying attempts 0).retries ≡ dial_attempts - 1))
dial_retrying-decides_example = dial_retrying-decides attempts 0

abbrev single : Counters × Relay → System
single (c, r) = record { counters = c; relays = r ∷ [] }

abbrev played : Counters × Relay → List Move → Counters × Relay
played p [] = p
played (c, r) (m ∷ ms) = played (advance c r m) ms

played-Reach :
    (p : Counters × Relay) (ms : List Move)
    → Reach new_forwarder (single p)
    → Reach new_forwarder (single (played p ms))
played-Reach p [] h = h
played-Reach (c, r) (m ∷ ms) h = played-Reach (advance c r m) ms (next h (move [] [] r m refl refl))

-- One connection is accepted; its first attempt fails, its second takes 50; then Status reads.
abbrev moves : List Move
moves = go ∷ go ∷ go ∷ dial_fails_after 9 ∷ go ∷ dial_succeeds 50 ∷ go ∷ go ∷ go ∷ []

abbrev first : Counters × Relay
first = (new_forwarder.counters, fresh)

abbrev before_status : System
before_status = single (played first moves)

it_shows : (before_status.counters.slowest_dial ≡ 50) × (before_status.counters.dial_retries ≡ 1)
unfolding advance
it_shows = (refl, refl)

history : Reach new_forwarder (report before_status)
history = next (played-Reach first moves (next here (accept refl))) (status refl)

counters_exact_example :
    let s = report before_status in
    (s.counters.total ≡ sum (λ r. is_counted r.place) s.relays)
    × (s.counters.active ≡ sum (λ r. is_active r.place) s.relays)
    × (s.counters.dial_fails ≡ sum (λ r. has_failed r.place) s.relays)
    × (s.counters.dial_retries ≡ sum (λ r. r.retries) s.relays)
counters_exact_example = counters_exact history

slowest_dial_kept_example :
    All (Shown (report before_status).counters.slowest_dial) (report before_status).relays
slowest_dial_kept_example = slowest_dial_kept history
