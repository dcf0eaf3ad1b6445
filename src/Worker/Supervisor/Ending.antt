-- ===== src/Worker/Supervisor/Ending.antt =====
-- internal/worker/supervise.go: the supervisor behind the end of its context.
use sccache_dist_action.Common.{
  ◌==◌, if◌then◌else◌, ℕ, ◌+◌, ◌*◌, ◌≤◌, ◌≡◌, refl, ◌∙◌, ◌≢◌, ◌⊎◌, inl, inr, product_suc, Bool,
  true, Option, none, some, List, [], ◌∷◌, arith,
}
use sccache_dist_action.Worker.Supervisor.{
  Phase, selecting, probing, pacing, waiting, starting, finished, Supervisor, Event, probed, step,
  run, pass, take_done, pace, take_done_waiting, started,
}
use sccache_dist_action.Worker.Supervisor.Invariant.{Inv, step-Inv, run-Inv}

-- The places of the goroutine, numbered.
abbrev place : Phase → ℕ
place finished = 0
place selecting = 1
place probing = 2
place pacing = 3
place (waiting due) = 4
place starting = 5

-- Whether an event moves the goroutine to another place, and whether that is the start of a server.
abbrev pub moved : Phase → Phase → ℕ
moved from to = if place from == place to then 0 else 1

abbrev pub begun : Phase → Phase → ℕ
begun from to = if place to == 5 then moved from to else 0

-- The moves of the goroutine along a run, and the starts that it begins.
pub moves : Supervisor → List Event → ℕ
moves s [] = 0
moves s (e ∷ es) = moved s.phase (step s e).phase + moves (step s e) es

pub starts : Supervisor → List Event → ℕ
starts s [] = 0
starts s (e ∷ es) = begun s.phase (step s e).phase + starts (step s e) es

-- At most so many moves are left, if no start is begun.
abbrev at_select : Option ℕ → ℕ
at_select none = 2
at_select (some pid) = 5

moves_left : Phase → Option ℕ → ℕ
moves_left finished cmd = 0
moves_left selecting cmd = at_select cmd
moves_left probing cmd = 1
moves_left (waiting due) cmd = 3
moves_left pacing cmd = 4
moves_left starting cmd = 6

step_counts :
    (s : Supervisor) (e : Event)
    → Inv s
    → s.ended ≡ true
    → let t = step s e in
      (moved s.phase t.phase + moves_left t.phase t.cmd
        ≤ moves_left s.phase s.cmd + 4 * begun s.phase t.phase)
      × (t.ended ≡ true)
unfolding step moves_left
step_counts s e inv h = ground arith

run_counts :
    (s : Supervisor) (es : List Event)
    → Inv s
    → s.ended ≡ true
    → moves s es ≤ moves_left s.phase s.cmd + 4 * starts s es
unfolding moves starts
run_counts s [] inv h = omega arith
run_counts s (e ∷ es) inv h =
    let (here, ended) = step_counts s e inv h in
    let later = run_counts (step s e) es (step-Inv s e inv) ended in omega (arith, here, later)

moves_left-le : (p : Phase) (cmd : Option ℕ) → moves_left p cmd ≤ 6
unfolding moves_left
moves_left-le p cmd = ground arith

-- A start is begun no sooner than `minUptime` after the one before it.
step_spaced :
    (s : Supervisor) (e : Event)
    → Inv s
    → let t = step s e in
      ((begun s.phase t.phase ≡ 0) × (t.launched ≡ s.launched))
      ⊎ ((begun s.phase t.phase ≡ 1) × (s.launched + s.min_uptime ≤ t.launched))
unfolding step
step_spaced s e inv = ground arith

step-min_uptime : (s : Supervisor) (e : Event) → (step s e).min_uptime ≡ s.min_uptime
unfolding step
step-min_uptime s e = ground arith

run_spaced :
    (s : Supervisor) (es : List Event) (uptime : ℕ)
    → Inv s
    → s.min_uptime ≡ uptime
    → s.launched + starts s es * uptime ≤ (run s es).clock
unfolding run starts
run_spaced s [] uptime inv h = omega (arith, inv.past)
run_spaced s (e ∷ es) uptime inv h =
    let later = run_spaced (step s e) es uptime (step-Inv s e inv) (step-min_uptime s e ∙ h) in
    elim (step_spaced s e inv) [
      | inl (none_begun, same) ↦ rw none_begun (omega (arith, later, same))
      | inr (one, spaced) ↦
          rw one (omega (arith, later, spaced, h, product_suc (starts (step s e) es) uptime))
    ]

-- What the goroutine meets next, where its world answers: `answered` is what a pending probe returns,
-- `r` what a pending start returns.
abbrev pub toward_end : Bool → Option ℕ → Phase → Event
toward_end answered r selecting = take_done
toward_end answered r probing = probed answered
toward_end answered r pacing = pace
toward_end answered r (waiting due) = take_done_waiting
toward_end answered r starting = started r
toward_end answered r finished = pass 0

goes_on :
    (s : Supervisor)
    → Inv s
    → s.ended ≡ true
    → s.phase ≢ finished
    → (answered : Bool) (r : Option ℕ)
    → moved s.phase (step s (toward_end answered r s.phase)).phase ≡ 1
unfolding step
goes_on s inv h k answered r = ground arith

finished_cases : (p : Phase) → (p ≡ finished) ⊎ (p ≢ finished)
finished_cases finished = inl refl
finished_cases selecting = inr (λ e. cc)
finished_cases probing = inr (λ e. cc)
finished_cases pacing = inr (λ e. cc)
finished_cases (waiting due) = inr (λ e. cc)
finished_cases starting = inr (λ e. cc)

finished-alive : (s : Supervisor) → Inv s → s.phase ≡ finished → s.alive ≡ []
finished-alive s inv h = ground (arith, inv.only_server, inv.serverless)

step-ended : (s : Supervisor) (e : Event) → s.ended ≡ true → (step s e).ended ≡ true
unfolding step
step-ended s e h = ground arith

run-ended : (s : Supervisor) (es : List Event) → s.ended ≡ true → (run s es).ended ≡ true
unfolding run
run-ended s [] h = h
run-ended s (e ∷ es) h = run-ended (step s e) es (step-ended s e h)

-- Under the invariant, once the context has ended, whatever happens then, in whatever order: the
-- goroutine of `run` makes at most six moves, and four more for each start of a server that it still
-- begins; the starts are `minUptime` apart, the first of them as long after the last launch; and
-- either `run` has returned, with no server running, or another move can be made: the context's case
-- at a `select`, and elsewhere whatever a pending probe or start returns.
pub ended_context_finishes :
    (s : Supervisor) (es : List Event)
    → Inv s
    → s.ended ≡ true
    → let t = run s es in
      (moves s es ≤ 6 + 4 * starts s es)
      × (s.launched + starts s es * s.min_uptime ≤ t.clock)
      × (((t.phase ≡ finished) × (t.alive ≡ []))
          ⊎ ((answered : Bool) (r : Option ℕ)
              → moved t.phase (step t (toward_end answered r t.phase)).phase ≡ 1))
ended_context_finishes s es inv h =
    let t = run s es in
    let inv' = run-Inv s es inv in
    (
      omega (arith, run_counts s es inv h, moves_left-le s.phase s.cmd),
      run_spaced s es s.min_uptime inv refl,
      elim (finished_cases t.phase) [
        | inl done ↦ inl (done, finished-alive t inv' done)
        | inr not_yet ↦ inr (goes_on t inv' (run-ended s es h) not_yet)
      ],
    )
