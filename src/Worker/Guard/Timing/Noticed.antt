-- ===== src/Worker/Guard/Timing/Noticed.antt =====
-- How soon the loop at the end of `Run` in internal/worker/worker.go notices that the coordinator is
-- gone.
use sccache_dist_action.Common.{
  Bool-cases, length, All, product_suc, product_mono, pos, ℕ, zero, suc, ◌+◌, ◌-◌, ◌*◌, ◌≤◌, ◌≡◌,
  refl, inl, inr, some, List, [], ◌∷◌, ◌++◌, arith,
}
use sccache_dist_action.Worker.Guard.{Guard, observe, new_guard}
use sccache_dist_action.Worker.Guard.Timing.{Timed, leaves_at, time_after, probe_timeout, IsMiss}

-- The miss that fills a run of `left + 1` misses comes in time.
leaves_in_time_from :
    (left most now : ℕ) (g : Guard) (rs : List Timed)
    → g.threshold ≡ pos (g.misses + suc left)
    → All (IsMiss most) rs
    → suc left ≤ length rs
    → (t : ℕ) × (leaves_at g now rs ≡ some t) × (t ≤ now + suc left * probe_timeout + left * most)
unfolding leaves_at observe
leaves_in_time_from left most now g [] e h k = absurd (omega (arith, k))
leaves_in_time_from zero most now g (r ∷ rs) e ((miss, took, slept), h) k =
    (now + r.probe_took, ground arith, ground arith)
leaves_in_time_from (suc left) most now g (r ∷ rs) e ((miss, took, slept), h) k =
    let (t, leaves, bound) =
      leaves_in_time_from left most (now + r.probe_took + r.slept)
        (record g { misses = g.misses + 1 }) rs (ground arith) h (omega (arith, k)) in
    (t, ground arith, omega (arith, bound, took, slept, product_suc left most))

-- The same from any state that the guard can be in.
leaves_in_time :
    (t most now : ℕ) (g : Guard) (rs : List Timed)
    → g.threshold ≡ pos (suc t)
    → g.misses ≤ t
    → All (IsMiss most) rs
    → suc t ≤ length rs
    → (T : ℕ) × (leaves_at g now rs ≡ some T) × (T ≤ now + suc t * probe_timeout + t * most)
leaves_in_time t most now g rs e low h k =
    let left = t - g.misses in
    let (T, leaves, bound) =
      leaves_in_time_from left most now g rs (ground arith) h (omega arith) in
    (
      T,
      leaves,
      omega (
        arith,
        bound,
        product_mono (suc left) (suc t) probe_timeout (omega arith),
        product_mono left t most (omega arith),
      ),
    )

time_after-le : (now : ℕ) (rs : List Timed) → now ≤ time_after now rs
time_after-le now [] = omega arith
time_after-le now (r ∷ rs) = omega (arith, time_after-le (now + r.probe_took + r.slept) rs)

vanished_from :
    (t most now : ℕ) (g : Guard) (seen unanswered : List Timed)
    → g.threshold ≡ pos (suc t)
    → g.misses ≤ t
    → All (IsMiss most) unanswered
    → suc t ≤ length unanswered
    → (T : ℕ) × (leaves_at g now (seen ++ unanswered) ≡ some T)
      × (T ≤ time_after now seen + suc t * probe_timeout + t * most)
unfolding leaves_at observe
vanished_from t most now g [] unanswered e low h k =
    leaves_in_time t most now g unanswered e low h k
vanished_from t most now g (r ∷ seen) unanswered e low h k =
    elim (Bool-cases (observe g r.present).1) [
      | inl up ↦ (
        now + r.probe_took,
        rw up refl,
        omega (arith, time_after-le (now + r.probe_took + r.slept) seen),
      )
      | inr more ↦
          let (T, leaves, bound) =
            vanished_from t most (now + r.probe_took + r.slept) (observe g r.present).0 seen
              unanswered (ground arith) (ground arith) h k in
          (T, rw more leaves, bound)
    ]

-- A vanished coordinator is noticed in time: with a positive threshold t, after whatever rounds
-- `seen`, if at least t more are not answered, the worker has left by t probe timeouts and t - 1
-- sleeps after them.
pub vanished_noticed :
    (t most now : ℕ) (seen unanswered : List Timed)
    → All (IsMiss most) unanswered
    → suc t ≤ length unanswered
    → (T : ℕ) × (leaves_at (new_guard (pos (suc t))) now (seen ++ unanswered) ≡ some T)
      × (T ≤ time_after now seen + suc t * probe_timeout + t * most)
vanished_noticed t most now seen unanswered h k =
    vanished_from t most now (new_guard (pos (suc t))) seen unanswered refl (omega arith) h k
