-- ===== src/Worker/Supervisor/Progress.antt =====
-- What the supervisor gets done when its world lets it.
use sccache_dist_action.Common.{
  ℕ, zero, suc, ◌+◌, ◌-◌, ◌≤◌, ◌<◌, ◌≡◌, refl, sym, ◌∙◌, subst, false, some, List, [], ◌∷◌, ◌++◌,
  arith,
}
use sccache_dist_action.Worker.Supervisor.{
  selecting, pacing, Supervisor, Event, probed, step, run, pass, take_tick, pace, take_timer,
  started,
}
use sccache_dist_action.Worker.Supervisor.Invariant.{Inv, run-Inv}

-- A restart under way: the wait passes and the next start succeeds.
abbrev pub recovery : ℕ → ℕ → List Event
recovery wait pid = pace ∷ pass wait ∷ take_timer ∷ started (some pid) ∷ []

-- Once a restart has begun, when `minUptime` has passed and the start succeeds, the new server is
-- the one that runs, and the restart is counted.
pub recovery_lem :
    (s : Supervisor) (wait pid : ℕ)
    → Inv s
    → s.phase ≡ pacing
    → s.min_uptime ≤ wait
    → let t = run s (recovery wait pid) in
      (t.phase ≡ selecting)
      × (t.cmd ≡ some pid)
      × (t.alive ≡ pid ∷ [])
      × (t.restarts ≡ s.restarts + 1)
unfolding run step
recovery_lem s wait pid inv h k = ground arith

-- `n` probes of a server that does not answer.
abbrev pub unanswered : ℕ → List Event
unanswered zero = []
unanswered (suc n) = take_tick ∷ probed false ∷ unanswered n

stuck_step :
    (s : Supervisor)
    → s.phase ≡ selecting
    → s.ended ≡ false
    → s.misses + 1 < s.threshold
    → step (step s take_tick) (probed false) ≡ record s { misses = s.misses + 1 }
unfolding step
stuck_step s p e h = ground arith

stuck_last :
    (s : Supervisor)
    → s.phase ≡ selecting
    → s.ended ≡ false
    → s.threshold ≤ s.misses + 1
    → (step (step s take_tick) (probed false)).phase ≡ pacing
unfolding step
stuck_last s p e h = ground arith

stuck :
    (n : ℕ) (s : Supervisor)
    → s.phase ≡ selecting
    → s.ended ≡ false
    → s.misses + suc n ≡ s.threshold
    → (run s (unanswered (suc n))).phase ≡ pacing
unfolding run
stuck zero s p e h = stuck_last s p e (omega arith)
stuck (suc n) s p e h =
    subst (λ t. (run t (unanswered (suc n))).phase ≡ pacing) (sym (stuck_step s p e (omega arith)))
      (stuck n (record s { misses = s.misses + 1 }) p e (omega arith))

stuck_all :
    (s : Supervisor)
    → s.phase ≡ selecting
    → s.ended ≡ false
    → s.misses ≡ 0
    → s.misses < s.threshold
    → (run s (unanswered s.threshold)).phase ≡ pacing
stuck_all s p e m h =
    let n : s.threshold ≡ suc (s.threshold - 1) = omega arith in
    subst (λ k. (run s (unanswered k)).phase ≡ pacing) (sym n)
      (stuck (s.threshold - 1) s p e (omega arith))

pub run-append : (s : Supervisor) (es fs : List Event) → run s (es ++ fs) ≡ run (run s es) fs
unfolding run
run-append s [] fs = refl
run-append s (e ∷ es) fs = run-append (step s e) es fs

step-min_uptime : (s : Supervisor) (e : Event) → (step s e).min_uptime ≡ s.min_uptime
unfolding step
step-min_uptime s e = ground arith

run-min_uptime : (s : Supervisor) (es : List Event) → (run s es).min_uptime ≡ s.min_uptime
unfolding run
run-min_uptime s [] = refl
run-min_uptime s (e ∷ es) = run-min_uptime (step s e) es ∙ step-min_uptime s e

-- A server that stops answering is replaced: under the invariant, from a supervisor at its `select` that has counted no
-- miss, `threshold` unanswered probes, then a wait of `minUptime` and a start that succeeds, lead
-- back to the `select` with the new server running and no other.
pub stuck_server_replaced :
    (s : Supervisor) (pid : ℕ)
    → Inv s
    → s.phase ≡ selecting
    → s.ended ≡ false
    → s.misses ≡ 0
    → let t = run s (unanswered s.threshold ++ recovery s.min_uptime pid) in
      (t.phase ≡ selecting) × (t.cmd ≡ some pid) × (t.alive ≡ pid ∷ [])
stuck_server_replaced s pid inv p e m =
    let t = run s (unanswered s.threshold) in
    let same : t.min_uptime ≡ s.min_uptime = run-min_uptime s (unanswered s.threshold) in
    let up =
      recovery_lem t s.min_uptime pid (run-Inv s (unanswered s.threshold) inv)
        (stuck_all s p e m inv.misses_below) (omega arith) in
    rw (run-append s (unanswered s.threshold) (recovery s.min_uptime pid)) (up.0, up.1, up.2)
