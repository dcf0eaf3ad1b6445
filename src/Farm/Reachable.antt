-- ===== src/Farm/Reachable.antt =====
-- The coordinator's `Run` and a worker's `Run` together: the server that the worker tells the
-- scheduler of is reached through a forward of the coordinator.
use sccache_dist_action.Common.{
  All, Occurs, ℤ, Text, codes, pos, ℕ, ◌≤◌, ◌≡◌, sym, subst, Bool, some, List, [], ◌∷◌, ◌++◌,
}
use sccache_dist_action.Stdlib.Decimal.{itoa}
use sccache_dist_action.Config.{Config}
use sccache_dist_action.SccacheDist.Toml.{Entry, read_file}
use sccache_dist_action.SccacheDist.Quoted.{IsCommon}
use sccache_dist_action.SccacheDist.RoundTrip.{entry}
use sccache_dist_action.Main.Phase.{node_hostname}
use sccache_dist_action.Coordinator.Forward.{forward_spec}
use sccache_dist_action.Coordinator.Run as Coordinator
use sccache_dist_action.Coordinator.Run.{prefix_of, rounds, wait, serve_forward}
use sccache_dist_action.Coordinator.Run.Forwards.{forwards_before_wait, IsForwarded}
use sccache_dist_action.Worker.Run as Worker
use sccache_dist_action.Farm.Servers.{conf, content, launched_server_is_forwarded}

-- In a farm with one run prefix, for worker n of 1 to ExpectedWorkers, whose index is as Itoa prints
-- it and whose port fits in 16 bits: if the coordinator waits for registrations, and the worker has
-- launched its server, then there is a port such that the server reads, in the configuration that the
-- worker wrote right before the launch, this port at 127.0.0.1 as its address, and the coordinator,
-- before it began to wait, relayed this port to the worker's own name in the tailnet. The secret and
-- the cache's path have only characters that Go and TOML write alike.
pub worker_is_reachable :
    {E F : Type 0} (table : ℕ → Bool) (coordinator worker : Config) (here there : Text)
    (w : Coordinator.World E) (v : Worker.World F) (n : ℕ) (expected : ℤ)
    → worker.run_prefix ≡ coordinator.run_prefix
    → worker.mode ≡ codes "worker"
    → v.worker_index_input ≡ itoa (pos n)
    → 1 ≤ n
    → n ≤ 55035
    → n ≤ rounds coordinator.expected_workers
    → All (IsCommon table) worker.oauth_secret
    → All (IsCommon table) (v.conf_path (codes "sccache-dist-server-cache"))
    → Occurs
        (Worker.Action.launch (conf table worker there v) worker.server_log)
        (Worker.run table worker there v).trace
    → Occurs (wait expected) (Coordinator.run table coordinator here w).trace
    → (port : ℤ) × ((start rest : List Worker.Action) × ((Worker.run table worker there v).trace
          ≡ start
            ++ Worker.Action.write_file (conf table worker there v) (content table worker there v)
              ∷ Worker.Action.launch (conf table worker there v) worker.server_log
              ∷ rest))
      × ((entries : List Entry) × (read_file 9 [] (content table worker there v) ≡ some entries)
          × Occurs (entry [] (codes "public_addr") (codes "127.0.0.1:" ++ itoa port)) entries)
      × ((before later : List Coordinator.Action) × ((Coordinator.run table coordinator here
              w).trace
            ≡ before ++ wait coordinator.expected_workers ∷ later)
          × Occurs
              (serve_forward port (node_hostname worker v.worker_index_input ++ codes ":10501"))
              before)
worker_is_reachable table coordinator worker here there w v n expected same mode index low high fits
      secret cache launched waits =
    let (target, written, told) =
      launched_server_is_forwarded table worker there v n mode index low high secret cache
        launched in
    let (before, later, trace, _, forwarded) =
      forwards_before_wait table coordinator here w expected waits in
    let port = (forward_spec (prefix_of worker) (pos n)).0 in
    (
      (forward_spec (prefix_of worker) (pos n)).0,
      written,
      told,
      (
        before,
        later,
        trace,
        subst (λ t. Occurs (serve_forward port t) before) target
            (subst (λ p. IsForwarded (p ++ codes "-worker-") n before) (sym same)
              (forwarded n low fits)),
      ),
    )
