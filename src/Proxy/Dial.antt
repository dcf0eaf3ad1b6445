-- ===== src/Proxy/Dial.antt =====
-- internal/proxy/proxy.go: `dialRetrying`, for any backend. Times are in nanoseconds.
pub mod Laws
use sccache_dist_action.Common.{ltb, if◌then◌else◌, Result, ok, err, ℕ, zero, suc, ◌+◌, ◌-◌}

abbrev pub dial_attempts : ℕ
dial_attempts = 3

abbrev pub dial_attempt_timeout : ℕ
dial_attempt_timeout = 4000000000

abbrev pub min_spacing : ℕ
min_spacing = 100000000

-- One call of `f.dial`: a connection or an error, and how long the call took.
pub record Attempt (E C : Type 0) : Type 0 where
  pub outcome : Result E C
  pub elapsed : ℕ

-- What `dialRetrying` returns, what it added to `dialRetries`, and the time that it took.
pub record Dialed (E C : Type 0) : Type 0 where
  pub outcome : Result E C
  pub retries : ℕ
  pub took : ℕ

-- `attempt > 1` counts a retry.
abbrev count_retry : ℕ → ℕ → ℕ
count_retry attempt retries = if ltb 1 attempt then retries + 1 else retries

-- `time.Sleep(time.Until(start.Add(100 * time.Millisecond)))`, made if `attempt < dialAttempts`: a
-- time in the past does not sleep.
abbrev pause : ℕ → ℕ → ℕ
pause attempt elapsed = if ltb attempt dial_attempts then min_spacing - elapsed else 0

-- The loop, with `left` rounds still to make and the error of the last one.
dial_from : {E C : Type 0} → (ℕ → Attempt E C) → ℕ → ℕ → E → ℕ → ℕ → Dialed E C
dial_from dial zero attempt e retries took = record {
  outcome = err e;
  retries = retries;
  took = took;
}
dial_from dial (suc left) attempt e retries took = elim (dial attempt).outcome [
  | ok r ↦ record {
    outcome = ok r;
    retries = count_retry attempt retries;
    took = took + (dial attempt).elapsed;
  }
  | err e' ↦
      dial_from dial left (attempt + 1) e' (count_retry attempt retries)
        (took + (dial attempt).elapsed + pause attempt (dial attempt).elapsed)
]

-- `nil` stands for the error before the first attempt.
unfoldable pub dial_retrying : {E C : Type 0} → (ℕ → Attempt E C) → E → Dialed E C
unfolding dial_from
dial_retrying dial nil = dial_from dial dial_attempts 1 nil 0 0
