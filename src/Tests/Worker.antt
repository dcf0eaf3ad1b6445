-- ===== src/Tests/Worker.antt =====
-- The worker.
use sccache_dist_action.Common.{
  length, Occurs, codes, pos, ok, err, ℕ, ◌+◌, ◌*◌, ◌≤◌, ◌≡◌, refl, ◌≢◌, ◌⊎◌, Option, Bool, true,
  false, none, some, List, [], ◌∷◌, ◌++◌, arith,
}
use sccache_dist_action.Effects.{and_then, perform}
use sccache_dist_action.Worker.Guard.{observe, new_guard, Round, elapsed, gone, guard_loop}
use sccache_dist_action.Worker.Guard.Streak.{EndsInMisses}
use sccache_dist_action.Worker.Guard.Loop.{reads, gone-EndsInMisses}
use sccache_dist_action.Worker.Supervisor.{
  Supervisor, Phase, selecting, probing, pacing, starting, finished, Event, pass, end_context,
  take_tick, take_done, probed, pace, take_timer, started, server_exits, take_exit, step,
  launched_with,
}
use sccache_dist_action.Worker.Supervisor.Invariant.{
  Inv, step-Inv, launched_with-Inv, run-one_server,
}
use sccache_dist_action.Worker.Supervisor.Restart.{since_launch, restart-EndsInMisses}
use sccache_dist_action.Worker.Supervisor.Ending.{
  moves, starts, moved, toward_end, ended_context_finishes,
}
use sccache_dist_action.Worker.Supervisor.Timing.{
  server_probe_interval, server_probe_timeout, server_probe_threshold, failed_rounds,
  prompt_restart, stuck_server_replaced_in_time,
}
use sccache_dist_action.Worker.Run.Lifecycle.{lifecycle, vanished_coordinator_ends_run}
use sccache_dist_action.Worker.Run.{Action, World, RunError, unfinished}
use sccache_dist_action.Worker.Run.Shutdown.{run-closes}
use sccache_dist_action.Tests.Farm.{table, worker_config}
use sccache_dist_action.Worker.Supervisor
use sccache_dist_action.Worker.Run

-- Reads of the guard, the context never cancelled.
abbrev read : Bool → Round
read present = record { present = present; wake = elapsed }

abbrev rounds : List Round
rounds = read true ∷ read false ∷ read false ∷ []

leaves : guard_loop (new_guard (pos 2)) 0 rounds ≡ gone 3
unfolding guard_loop observe
leaves = refl

gone-EndsInMisses_example :
    (seen : List Round) × (rest : List Round) × (rounds ≡ seen ++ rest)
    × (3 ≡ 0 + length seen)
    × EndsInMisses 2 (reads seen)
gone-EndsInMisses_example = gone-EndsInMisses 1 3 rounds leaves

-- Two probes in a row fail, the server is replaced, and then the context ends.
abbrev events : List Event
events =
    take_tick
    ∷ probed false
    ∷ take_tick
    ∷ probed false
    ∷ pass 10
    ∷ pace
    ∷ started (some 8)
    ∷ end_context
    ∷ take_done
    ∷ []

run-one_server_example : length (Supervisor.run (launched_with 2 5 0 7) events).alive ≤ 1
run-one_server_example = run-one_server 2 5 0 7 events (ground arith)

abbrev launched : Supervisor
launched = launched_with 2 5 0 7

launched_lem : Inv launched
launched_lem = launched_with-Inv 2 5 0 7 (ground arith)

-- The first server misses a probe and exits; the second one does not answer.
abbrev second_server : List Event
second_server =
    take_tick
    ∷ probed false
    ∷ server_exits
    ∷ take_exit
    ∷ pass 5
    ∷ pace
    ∷ started (some 8)
    ∷ take_tick
    ∷ probed false
    ∷ take_tick
    ∷ []

it_probes : (Supervisor.run launched second_server).phase ≡ probing
unfolding Supervisor.run step
it_probes = refl

it_restarts : (step (Supervisor.run launched second_server) (probed false)).phase ≡ pacing
unfolding Supervisor.run step
it_restarts = refl

its_answers : since_launch [] launched second_server ≡ false ∷ []
unfolding step
its_answers = refl

restart-EndsInMisses_example :
    (probed false ≡ probed false)
    × EndsInMisses 2 (since_launch [] launched second_server ++ false ∷ [])
restart-EndsInMisses_example =
    restart-EndsInMisses 2 5 0 7 second_server (probed false) it_probes it_restarts

-- The context ends while a probe is pending that will fail.
abbrev ending : Supervisor
ending = step (step launched take_tick) end_context

ending-Inv : Inv ending
ending-Inv =
    step-Inv (step launched take_tick) end_context (step-Inv launched take_tick launched_lem)

its_context_ended : ending.ended ≡ true
unfolding step
its_context_ended = refl

ended_context_finishes_example :
    let es = pass 3 ∷ probed false ∷ [] in
    let t = Supervisor.run ending es in
    (moves ending es ≤ 6 + 4 * starts ending es)
    × (ending.launched + starts ending es * ending.min_uptime ≤ t.clock)
    × (((t.phase ≡ finished) × (t.alive ≡ []))
        ⊎ ((answered : Bool) (r : Option ℕ)
            → moved t.phase (step t (toward_end answered r t.phase)).phase ≡ 1))
ended_context_finishes_example =
    ended_context_finishes ending (pass 3 ∷ probed false ∷ []) ending-Inv its_context_ended

-- The coordinator answers the second probe, and is gone later.
abbrev world : World ℕ
world = record {
  refuses = λ a. none;
  first_rounds = read false ∷ read true ∷ [];
  guard_rounds = read true ∷ read false ∷ read false ∷ read false ∷ read false ∷ read false ∷ [];
  worker_index_input = codes "2";
  conf_path = λ name. codes "/tmp/" ++ name;
}

abbrev worker : Run.Run ℕ
worker = Run.run table worker_config (codes "77-worker-2") world

it_leaves : worker.result ≢ err unfinished
unfolding Run.run and_then perform guard_loop observe
it_leaves e = ground arith

run-closes_example :
    (before : List Action) × (worker.trace ≡ before ++ Action.close_mesh ∷ [])
    × (Occurs Action.supervise before
        → (start : List Action) × (before ≡ start ++ Action.stop_supervisor ∷ []))
run-closes_example = run-closes table worker_config (codes "77-worker-2") world refl it_leaves

first_probe_answered : (Run.wait_for_coordinator {E = ℕ} world.first_rounds).result ≡ ok tt
unfolding Run.wait_for_coordinator
first_probe_answered = refl

ends_in_misses : EndsInMisses 5 (reads world.guard_rounds)
ends_in_misses = (true ∷ [], refl)

vanished_coordinator_ends_run_example :
    worker
    ≡ record { result = ok tt; trace = lifecycle table worker_config (codes "77-worker-2") world }
vanished_coordinator_ends_run_example =
    vanished_coordinator_ends_run table worker_config (codes "77-worker-2") world 4 (λ a. refl)
      first_probe_answered refl (refl, (refl, (refl, (refl, (refl, (refl, tt)))))) ends_in_misses

-- The supervisor of a worker, 10 s after the launch; the next three probes take their whole timeout,
-- and the start a second.
abbrev worker_supervisor : Supervisor
worker_supervisor = launched_with server_probe_threshold server_probe_interval 0 7

abbrev timeouts : List ℕ
timeouts = server_probe_timeout ∷ server_probe_timeout ∷ server_probe_timeout ∷ []

stuck_server_replaced_in_time_example :
    let t =
      Supervisor.run worker_supervisor
        (failed_rounds server_probe_interval timeouts ++ prompt_restart 1000000000 8) in
    (t.phase ≡ selecting)
    × (t.cmd ≡ some 8)
    × (t.alive ≡ 8 ∷ [])
    × (t.clock ≤ 0 + 3 * (server_probe_interval + server_probe_timeout) + 1000000000)
stuck_server_replaced_in_time_example =
    stuck_server_replaced_in_time worker_supervisor server_probe_interval server_probe_timeout
      1000000000 8 timeouts
      (launched_with-Inv server_probe_threshold server_probe_interval 0 7 (omega arith)) refl refl
      refl (omega arith) refl (omega arith)
