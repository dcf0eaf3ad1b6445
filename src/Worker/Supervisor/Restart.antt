-- ===== src/Worker/Supervisor/Restart.antt =====
-- Why and when a server is replaced.
use sccache_dist_action.Common.{
  ℕ, ◌+◌, ◌≤◌, ◌≡◌, refl, ◌∙◌, ◌≢◌, Bool, true, false, List, [], ◌∷◌, ◌++◌, append-nil, some, arith,
}
use sccache_dist_action.Worker.Guard.Streak.{EndsInMisses, streak, streak-EndsInMisses_iff}
use sccache_dist_action.Worker.Supervisor.{
  Phase, probing, pacing, starting, Supervisor, Event, probed, started, waiting, step, run,
  launched_with,
}
use sccache_dist_action.Worker.Supervisor.Invariant.{Inv}

-- The answer to a probe that the supervisor counts.
abbrev pub counted : Phase → Bool → Event → List Bool
counted probing false (probed b) = b ∷ []
counted _ _ _ = []

-- The answers counted of the server that runs, or ran last: those `before` are forgotten when
-- another is launched.
abbrev heard : Phase → Event → List Bool → List Bool
heard starting (started (some pid)) before = []
heard _ _ before = before

abbrev pub since_launch : List Bool → Supervisor → List Event → List Bool
since_launch before s [] = before
since_launch before s (e ∷ es) =
    since_launch (heard s.phase e (before ++ counted s.phase s.ended e)) (step s e) es

streak-append : (n : ℕ) (ps qs : List Bool) → streak n (ps ++ qs) ≡ streak (streak n ps) qs
unfolding streak
streak-append n [] qs = refl
streak-append n (true ∷ ps) qs = streak-append 0 ps qs
streak-append n (false ∷ ps) qs = streak-append (n + 1) ps qs

-- Nothing is counted while there is no server.
abbrev IsQuiet : Phase → ℕ → Type 0
IsQuiet pacing n = n ≡ 0
IsQuiet (waiting due) n = n ≡ 0
IsQuiet starting n = n ≡ 0
IsQuiet phase n = Unit

step-IsQuiet :
    (s : Supervisor) (e : Event)
    → IsQuiet s.phase s.misses
    → IsQuiet (step s e).phase (step s e).misses
unfolding step
step-IsQuiet s e h = ground arith

-- The supervisor counts no more misses than end the answers.
step-le-streak :
    (s : Supervisor) (e : Event) (before : List Bool)
    → IsQuiet s.phase s.misses
    → s.misses ≤ streak 0 before
    → (step s e).misses ≤ streak 0 (heard s.phase e (before ++ counted s.phase s.ended e))
unfolding step streak
step-le-streak s e before q h =
    ground (arith, streak-append 0 before (counted s.phase s.ended e), append-nil before)

run-le-streak :
    (s : Supervisor) (es : List Event) (before : List Bool)
    → IsQuiet s.phase s.misses
    → s.misses ≤ streak 0 before
    → (run s es).misses ≤ streak 0 (since_launch before s es)
unfolding run
run-le-streak s [] before q h = h
run-le-streak s (e ∷ es) before q h =
    run-le-streak (step s e) es (heard s.phase e (before ++ counted s.phase s.ended e))
      (step-IsQuiet s e q) (step-le-streak s e before q h)

restart_reason :
    (s : Supervisor) (e : Event)
    → s.phase ≡ probing
    → (step s e).phase ≡ pacing
    → (e ≡ probed false) × (s.threshold ≤ s.misses + 1)
unfolding step
restart_reason s e p h = ground arith

step-threshold : (s : Supervisor) (e : Event) → (step s e).threshold ≡ s.threshold
unfolding step
step-threshold s e = ground arith

run-threshold : (s : Supervisor) (es : List Event) → (run s es).threshold ≡ s.threshold
unfolding run
run-threshold s [] = refl
run-threshold s (e ∷ es) = run-threshold (step s e) es ∙ step-threshold s e

enough :
    (t : ℕ) (s : Supervisor) (n : ℕ)
    → s.threshold ≡ t
    → s.threshold ≤ s.misses + 1
    → s.misses ≤ n
    → t ≤ streak n (false ∷ [])
unfolding streak
enough t s n e h k = omega arith

-- A restart after a probe: the answers of the server that runs, counted since its own launch, end in
-- at least `threshold` failures, the last of them just received; those of earlier servers do not count.
pub restart-EndsInMisses :
    (threshold min_uptime clock pid : ℕ) (es : List Event) (e : Event)
    → let s₀ = launched_with threshold min_uptime clock pid in
      (run s₀ es).phase ≡ probing
      → (step (run s₀ es) e).phase ≡ pacing
      → (e ≡ probed false) × EndsInMisses threshold (since_launch [] s₀ es ++ false ∷ [])
restart-EndsInMisses threshold min_uptime clock pid es e p h =
    let s₀ = launched_with threshold min_uptime clock pid in
    let (failed, long) = restart_reason (run s₀ es) e p h in
    let heard_all = run-le-streak s₀ es [] tt (omega arith) in
    let answers = since_launch [] s₀ es in
    (
      failed,
      (streak-EndsInMisses_iff threshold (answers ++ false ∷ [])).0 (
          rw (streak-append 0 answers (false ∷ []))
            (enough threshold (run s₀ es) (streak 0 answers) (run-threshold s₀ es) long heard_all)),
    )

-- Launches are spaced: under the invariant, one is made no sooner than `minUptime` after the one before it.
pub launch_paced :
    (s : Supervisor) (e : Event)
    → Inv s
    → s.phase ≢ starting
    → (step s e).phase ≡ starting
    → (s.launched + s.min_uptime ≤ (step s e).launched) × ((step s e).launched ≡ s.clock)
unfolding step
launch_paced s e inv h k = ground arith
