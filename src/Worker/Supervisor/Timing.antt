-- ===== src/Worker/Supervisor/Timing.antt =====
-- internal/worker/supervise.go and the constants of worker.go: how soon a server that has stopped
-- answering is replaced. Times are in nanoseconds.
use sccache_dist_action.Common.{
  length, All, product_suc, ℕ, suc, ◌+◌, ◌*◌, ◌≤◌, ◌<◌, ◌≡◌, sym, ap, ◌∙◌, subst, false, some, List,
  [], ◌∷◌, ◌++◌, arith,
}
use sccache_dist_action.Worker.Supervisor.{
  selecting, pacing, Supervisor, Event, probed, step, run, pass, take_tick, pace, started,
}
use sccache_dist_action.Worker.Supervisor.Invariant.{Inv, run-Inv}
use sccache_dist_action.Worker.Supervisor.Progress.{run-append}

abbrev pub server_probe_interval : ℕ
server_probe_interval = 10000000000

abbrev pub server_probe_timeout : ℕ
server_probe_timeout = 15000000000

abbrev pub server_probe_threshold : ℕ
server_probe_threshold = 3

-- A round of `run` whose probe fails, after the time given.
abbrev pub failed_round : ℕ → ℕ → List Event
failed_round interval took = pass interval ∷ take_tick ∷ pass took ∷ probed false ∷ []

abbrev pub failed_rounds : ℕ → List ℕ → List Event
failed_rounds interval [] = []
failed_rounds interval (took ∷ rest) = failed_round interval took ++ failed_rounds interval rest

-- What `restart` does when no wait is due, and the start takes `boot`.
abbrev pub prompt_restart : ℕ → ℕ → List Event
prompt_restart boot pid = pace ∷ pass boot ∷ started (some pid) ∷ []

round_goes_on :
    (s : Supervisor) (interval took : ℕ)
    → s.phase ≡ selecting
    → s.ended ≡ false
    → s.misses + 1 < s.threshold
    → run s (failed_round interval took)
      ≡ record s { misses = s.misses + 1; clock = s.clock + interval + took }
unfolding run step
round_goes_on s interval took p e h = ground arith

round_ends :
    (s : Supervisor) (interval took : ℕ)
    → s.phase ≡ selecting
    → s.ended ≡ false
    → s.threshold ≤ s.misses + 1
    → let t = run s (failed_round interval took) in
      (t.phase ≡ pacing)
      × (t.launched ≡ s.launched)
      × (t.min_uptime ≡ s.min_uptime)
      × (t.clock ≡ s.clock + interval + took)
unfolding run step
round_ends s interval took p e h = ground arith

-- At the head of `restart`, `n` rounds after `s`.
abbrev IsRestarting : Supervisor → ℕ → ℕ → ℕ → Supervisor → Type 0
IsRestarting s interval bound n t =
    (t.phase ≡ pacing)
    × (t.launched ≡ s.launched)
    × (t.min_uptime ≡ s.min_uptime)
    × (s.clock + interval ≤ t.clock)
    × (t.clock ≤ s.clock + n * (interval + bound))

one_more :
    (s t : Supervisor) (interval bound took n : ℕ)
    → took ≤ bound
    → IsRestarting
        (record s { misses = s.misses + 1; clock = s.clock + interval + took })
        interval
        bound
        n
        t
    → IsRestarting s interval bound (suc n) t
one_more s t interval bound took n k (p, l, m, low, high) =
    (p, l, m, omega (arith, low), omega (arith, high, k, product_suc n (interval + bound)))

rounds_restart :
    (tooks : List ℕ) (s : Supervisor) (interval bound : ℕ)
    → s.phase ≡ selecting
    → s.ended ≡ false
    → s.misses < s.threshold
    → s.misses + length tooks ≡ s.threshold
    → All (λ took. took ≤ bound) tooks
    → IsRestarting s interval bound (length tooks) (run s (failed_rounds interval tooks))
rounds_restart [] s interval bound p e m h k = absurd (omega arith)
rounds_restart (took ∷ []) s interval bound p e m h (k, _) =
    let (phase, same, same', now) = round_ends s interval took p e (omega arith) in
    (phase, same, same', omega (arith, now), omega (arith, now, k))
rounds_restart (took ∷ next ∷ rest) s interval bound p e m h (k, ks) =
    let s' = record s { misses = s.misses + 1; clock = s.clock + interval + took } in
    let later = failed_rounds interval (next ∷ rest) in
    subst (IsRestarting s interval bound (length (took ∷ next ∷ rest)))
      (sym (
        run-append s (failed_round interval took) later
        ∙ ap (λ t. run t later) (round_goes_on s interval took p e (omega arith))))
      (one_more s (run s' later) interval bound took (length (next ∷ rest)) k
        (rounds_restart (next ∷ rest) s' interval bound p e (omega arith) (omega arith) ks))

restarts_promptly :
    (s : Supervisor) (boot pid : ℕ)
    → Inv s
    → s.phase ≡ pacing
    → s.launched + s.min_uptime ≤ s.clock
    → let t = run s (prompt_restart boot pid) in
      (t.phase ≡ selecting) × (t.cmd ≡ some pid) × (t.alive ≡ pid ∷ []) × (t.clock ≡ s.clock + boot)
unfolding run step
restarts_promptly s boot pid inv p h = ground arith

-- A server that stops answering is replaced in time: under the invariant, from a supervisor at its
-- `select` that has counted no miss, whose `minUptime` is no longer than its interval, `threshold`
-- probes that fail, each after the interval and within the bound, lead to a restart that starts the
-- next server at once; when the start succeeds, the new server runs and no other, no later than
-- `threshold` intervals and probes after, and the time of the start.
pub stuck_server_replaced_in_time :
    (s : Supervisor) (interval bound boot pid : ℕ) (tooks : List ℕ)
    → Inv s
    → s.phase ≡ selecting
    → s.ended ≡ false
    → s.misses ≡ 0
    → s.min_uptime ≤ interval
    → length tooks ≡ s.threshold
    → All (λ took. took ≤ bound) tooks
    → let t = run s (failed_rounds interval tooks ++ prompt_restart boot pid) in
      (t.phase ≡ selecting)
      × (t.cmd ≡ some pid)
      × (t.alive ≡ pid ∷ [])
      × (t.clock ≤ s.clock + s.threshold * (interval + bound) + boot)
stuck_server_replaced_in_time s interval bound boot pid tooks inv p e m u n k =
    let t = run s (failed_rounds interval tooks) in
    let (phase, same, same', low, high) =
      rounds_restart tooks s interval bound p e inv.misses_below (omega arith) k in
    let (up, cmd, alive, now) =
      restarts_promptly t boot pid (run-Inv s (failed_rounds interval tooks) inv) phase
        (omega (arith, same, same', low, inv.past)) in
    let high' : t.clock ≤ s.clock + s.threshold * (interval + bound) =
      subst (λ j. t.clock ≤ s.clock + j * (interval + bound)) n high in
    rw (run-append s (failed_rounds interval tooks) (prompt_restart boot pid))
      (up, cmd, alive, omega (arith, now, high'))
