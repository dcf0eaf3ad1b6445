-- ===== src/Worker/Run/Lifecycle.antt =====
-- The whole run of a worker whose coordinator vanishes.
use sccache_dist_action.Common.{
  Text, codes, pos, ok, ℕ, suc, ◌≡◌, refl, ◌++◌, none, Bool, List, [], ◌∷◌, arith,
}
use sccache_dist_action.Effects.{and_then, perform}
use sccache_dist_action.Config.{Config}
use sccache_dist_action.SccacheDist.Conf.{server_conf}
use sccache_dist_action.Worker.Address.{worker_index, server_public_addr}
use sccache_dist_action.Worker.Guard.{guard_loop, new_guard, gone}
use sccache_dist_action.Worker.Guard.Streak.{EndsInMisses}
use sccache_dist_action.Worker.Guard.Loop.{reads, AllElapsed, EndsInMisses-gone}
use sccache_dist_action.Worker.Run.{
  Action, World, Run, wait_for_coordinator, serve, bridge, run, defer,
}
use sccache_dist_action.Worker.Run.Waiting.{wait_for_coordinator-trace}

returned :
    {E : Type 0} (m : Run E)
    → m.result ≡ ok tt
    → m.trace ≡ []
    → m ≡ record { result = ok tt; trace = [] }
returned m h k = ground (arith, h, k)

module _ {E : Type 0} (table : ℕ → Bool) (c : Config) (hostname : Text) (w : World E) where
  -- Everything that a worker does from its start to its end.
  abbrev pub lifecycle : List Action
  lifecycle =
      Action.join_mesh hostname
      ∷ Action.listen_bridge
      ∷ Action.serve_bridge (c.run_prefix ++ codes "-coordinator:10600")
      ∷ Action.listen_exposure
      ∷ Action.serve_exposure
      ∷ Action.write_file (w.conf_path (codes "sccache-server.conf")) (
          server_conf table c.oauth_secret (server_public_addr (worker_index w.worker_index_input))
            (codes "http://127.0.0.1:10600") (w.conf_path (codes "sccache-dist-server-cache")))
      ∷ Action.launch (w.conf_path (codes "sccache-server.conf")) c.server_log
      ∷ Action.supervise
      ∷ Action.start_status
      ∷ Action.stop_supervisor
      ∷ Action.close_mesh
      ∷ []

  left_at :
      (k : ℕ)
      → ((a : Action) → w.refuses a ≡ none)
      → (wait_for_coordinator {E = E} w.first_rounds).result ≡ ok tt
      → guard_loop (new_guard c.teardown_thresh) 0 w.guard_rounds ≡ gone k
      → run table c hostname w ≡ record { result = ok tt; trace = lifecycle }
  unfolding run serve bridge defer and_then perform
  left_at k accepts answers h =
      rw
        (
          accepts (Action.join_mesh hostname),
          accepts Action.listen_bridge,
          accepts Action.listen_exposure,
          returned (wait_for_coordinator {E = E} w.first_rounds) answers
              (wait_for_coordinator-trace E w.first_rounds),
          accepts (
              Action.write_file (w.conf_path (codes "sccache-server.conf")) (
                server_conf table c.oauth_secret
                  (server_public_addr (worker_index w.worker_index_input))
                  (codes "http://127.0.0.1:10600")
                  (w.conf_path (codes "sccache-dist-server-cache")))),
          accepts (Action.launch (w.conf_path (codes "sccache-server.conf")) c.server_log),
          h,
        )
        refl

  -- The worker of a coordinator that vanishes: with a positive threshold t, if no call is refused, a
  -- probe of the first loop is answered, the context is not cancelled, and the guard's probes end in
  -- t misses in a row, `Run` returns nil, and what it has done from start to end is: join the mesh,
  -- open and serve its bridge and its exposure, write the server's configuration, launch the server,
  -- supervise it and log its status, stop the supervisor, and leave the mesh.
  pub vanished_coordinator_ends_run :
      (t : ℕ)
      → ((a : Action) → w.refuses a ≡ none)
      → (wait_for_coordinator {E = E} w.first_rounds).result ≡ ok tt
      → c.teardown_thresh ≡ pos (suc t)
      → AllElapsed w.guard_rounds
      → EndsInMisses (suc t) (reads w.guard_rounds)
      → run table c hostname w ≡ record { result = ok tt; trace = lifecycle }
  vanished_coordinator_ends_run t accepts answers threshold elapse ends =
      let (k, left, _) = EndsInMisses-gone t w.guard_rounds elapse ends in
      left_at k accepts answers (rw threshold left)
