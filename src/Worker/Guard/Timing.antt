-- ===== src/Worker/Guard/Timing.antt =====
-- internal/worker/worker.go: the times of the loop at the end of `Run`. Times are in nanoseconds.
pub mod Noticed
pub mod Silence
use sccache_dist_action.Common.{
  if◌then◌else◌, ℤ, ◌≤ℤ◌, ltb_ℤ, pos, ℕ, ◌+◌, ◌≤◌, ◌≡◌, Bool, false, Option, none, some, List, [],
  ◌∷◌, arith,
}
use sccache_dist_action.Worker.Guard.{Guard, observe, new_guard}

-- `guardPoll`: 10 s, or PollInterval if that is longer.
unfoldable pub guard_poll : ℤ → ℤ
guard_poll poll_interval =
    if ltb_ℤ (pos 10000000000) poll_interval then poll_interval else pos 10000000000

-- The context of probeCoordinator ends after 5 s.
abbrev pub probe_timeout : ℕ
probe_timeout = 5000000000

-- A round: what the probe answers, how long it took, and how long the sleep behind it took, which is
-- `guardPoll` or, on a busy machine, longer. The context of `Run` does not end.
pub record Timed : Type 0 where
  pub present : Bool
  pub probe_took : ℕ
  pub slept : ℕ

-- The time at which the worker leaves, none if it is still there after the rounds given.
unfoldable pub leaves_at : Guard → ℕ → List Timed → Option ℕ
leaves_at g now [] = none
leaves_at g now (r ∷ rs) =
    let later = leaves_at (observe g r.present).0 (now + r.probe_took + r.slept) rs in
    if (observe g r.present).1 then some (now + r.probe_took) else later

-- When the probes end that the coordinator answers.
abbrev pub answer_times : ℕ → List Timed → List ℕ
answer_times now [] = []
answer_times now (r ∷ rs) =
    let later = answer_times (now + r.probe_took + r.slept) rs in
    if r.present then (now + r.probe_took) ∷ later else later

-- When the rounds are over.
abbrev pub time_after : ℕ → List Timed → ℕ
time_after now [] = now
time_after now (r ∷ rs) = time_after (now + r.probe_took + r.slept) rs

abbrev pub Sleeps : ℕ → Timed → Type 0
Sleeps poll r = poll ≤ r.slept

-- A probe that is not answered, and that keeps its timeout, with a sleep of at most `most`.
abbrev pub IsMiss : ℕ → Timed → Type 0
IsMiss most r = (r.present ≡ false) × (r.probe_took ≤ probe_timeout) × (r.slept ≤ most)

-- The poll of the guard is never faster than every 10 s, whatever poll-interval is.
pub guard_poll-slow : (poll_interval : ℤ) → pos 10000000000 ≤ℤ guard_poll poll_interval
unfolding guard_poll
guard_poll-slow poll_interval = ground arith
