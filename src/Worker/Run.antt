-- ===== src/Worker/Run.antt =====
-- internal/worker/worker.go: `Run`, as the sequence of the calls it makes.
pub mod Waiting
pub mod Shutdown
pub mod Lifecycle
use sccache_dist_action.Common.{
  Result, Text, codes, ok, err, ℕ, Bool, true, false, Option, List, [], ◌∷◌, ◌++◌,
}
use sccache_dist_action.Effects.{Outcome, and_then, perform, emit, fail}
use sccache_dist_action.Config.{Config}
use sccache_dist_action.SccacheDist.Conf.{server_conf}
use sccache_dist_action.Worker.Address.{worker_index, server_public_addr}
use sccache_dist_action.Worker.Guard.{
  Round, Wake, cancelled, elapsed, Watch, gone, stopped, watching, guard_loop, new_guard,
}

pub data Action : Type 0 where
  join_mesh : Text → Action
  listen_bridge : Action  -- net.Listen on 127.0.0.1:10600
  serve_bridge : Text → Action  -- go schedFwd.Serve, and what it dials
  listen_exposure : Action  -- mesh.Listen(":10501")
  serve_exposure : Action
  write_file : Text → Text → Action
  launch : Text → Text → Action  -- sup.launch: the configuration and the log level
  supervise : Action  -- go sup.run
  start_status : Action
  stop_supervisor : Action  -- the deferred stopSup(); <-supDone
  close_mesh : Action  -- the deferred mesh.Close()

-- `unfinished`: the function has not returned yet after the rounds given.
pub data RunError (E : Type 0) : Type 0 where
  refused : E → RunError E
  context_ended : RunError E
  unfinished : RunError E

-- The rounds of the loop that waits for the coordinator, and of the one that guards it.
pub record World (E : Type 0) : Type 0 where
  pub refuses : Action → Option (RunError E)
  pub first_rounds : List Round
  pub guard_rounds : List Round
  pub worker_index_input : Text
  pub conf_path : Text → Text

abbrev pub Run : Type 0 → Type 0
Run E = Outcome Action (RunError E) (Unit {0})

infixr 5 ◌&>◌
abbrev pub ◌&>◌ : {E : Type 0} → Run E → Run E → Run E
m &> k = and_then m (λ _. k)

-- The deferred call of a function that returns.
unfoldable pub after_return :
    {E : Type 0} → Result (RunError E) (Unit {0}) → List Action → Action → List Action
after_return (ok _) calls x = calls ++ x ∷ []
after_return (err (refused e)) calls x = calls ++ x ∷ []
after_return (err context_ended) calls x = calls ++ x ∷ []
after_return (err unfinished) calls x = calls

unfoldable pub defer : {E : Type 0} → Action → Run E → Run E
unfolding after_return
defer x m = record { result = m.result; trace = after_return m.result m.trace x }

-- A round of the loop: what the probe answers, and the `select` behind it.
abbrev pub waited : {E : Type 0} → Bool → Wake → Run E → Run E
waited true wake rest = emit []
waited false cancelled rest = fail context_ended
waited false elapsed rest = rest

-- `for !probeCoordinator(mesh, coordHost)`
unfoldable pub wait_for_coordinator : {E : Type 0} → List Round → Run E
wait_for_coordinator [] = fail unfinished
wait_for_coordinator (r ∷ rs) = waited r.present r.wake (wait_for_coordinator rs)

abbrev watched : {E : Type 0} → Watch → Run E
watched (gone _) = emit []
watched (stopped _) = fail context_ended
watched (watching _) = fail unfinished

abbrev pub guard_coordinator : {E : Type 0} → Config → World E → Run E
guard_coordinator c w = watched (guard_loop (new_guard c.teardown_thresh) 0 w.guard_rounds)

-- From `go sup.run` on.
unfoldable pub guard_supervised : {E : Type 0} → Config → World E → Run E
unfolding defer
guard_supervised c w =
    defer stop_supervisor (emit (supervise ∷ start_status ∷ []) &> guard_coordinator c w)

abbrev pub write_conf : {E : Type 0} → (ℕ → Bool) → Config → World E → Run E
write_conf table c w = perform w.refuses (
    write_file (w.conf_path (codes "sccache-server.conf")) (
      server_conf table c.oauth_secret (server_public_addr (worker_index w.worker_index_input))
        (codes "http://127.0.0.1:10600") (w.conf_path (codes "sccache-dist-server-cache"))))

abbrev pub launch_server : {E : Type 0} → Config → World E → Run E
launch_server c w =
    perform w.refuses (launch (w.conf_path (codes "sccache-server.conf")) c.server_log)

-- From the configuration of the server on.
unfoldable pub serve : {E : Type 0} → (ℕ → Bool) → Config → World E → Run E
unfolding guard_supervised
serve table c w = write_conf table c w &> launch_server c w &> guard_supervised c w

unfoldable pub bridge : {E : Type 0} → Config → World E → Run E
bridge c w =
    perform w.refuses listen_bridge
    &> emit (serve_bridge (c.run_prefix ++ codes "-coordinator:10600") ∷ [])
    &> perform w.refuses listen_exposure
    &> emit (serve_exposure ∷ [])

unfoldable pub run : {E : Type 0} → (ℕ → Bool) → Config → Text → World E → Run E
unfolding bridge wait_for_coordinator serve defer
run table c hostname w =
    perform w.refuses (join_mesh hostname)
    &> defer close_mesh (bridge c w &> wait_for_coordinator w.first_rounds &> serve table c w)
