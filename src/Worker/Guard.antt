-- ===== src/Worker/Guard.antt =====
-- internal/worker/worker.go: `guard` and the loop at the end of `Run` that feeds it.
pub mod Streak
pub mod Loop
pub mod Timing
use sccache_dist_action.Common.{
  if◌then◌else◌, ℤ, leb_ℤ, pos, ℕ, suc, ◌+◌, Bool, false, List, [], ◌∷◌,
}

-- `misses` counts reads, so it stays far below the range of a Go `int`.
pub record Guard : Type 0 where
  pub threshold : ℤ
  pub misses : ℕ

unfoldable pub observe : Guard → Bool → Guard × Bool
observe g present =
    if present
    then (record g { misses = 0 }, false)
    else (record g { misses = g.misses + 1 }, leb_ℤ g.threshold (pos (g.misses + 1)))

-- `&guard{threshold: c.TeardownThresh}`.
abbrev pub new_guard : ℤ → Guard
new_guard threshold = record { threshold = threshold; misses = 0 }

-- What the `select` behind a read does.
pub data Wake : Type 0 where
  cancelled : Wake
  elapsed : Wake

-- One round of the loop: what the probe of the coordinator answers, and the `select` behind it.
pub record Round : Type 0 where
  pub present : Bool
  pub wake : Wake

-- `gone k`: Run returned nil at the k-th read. `stopped k`: it returned ctx.Err() behind that read.
-- `watching`: it is still in the loop after the given rounds.
pub data Watch : Type 0 where
  gone : ℕ → Watch
  stopped : ℕ → Watch
  watching : Guard → Watch

unfoldable pub guard_loop : Guard → ℕ → List Round → Watch
guard_loop g k [] = watching g
guard_loop g k (r ∷ rs) =
    let next = guard_loop (observe g r.present).0 (suc k) rs in
    if (observe g r.present).1
    then gone (suc k)
    else elim r.wake [ cancelled ↦ stopped (suc k) | elapsed ↦ next ]
