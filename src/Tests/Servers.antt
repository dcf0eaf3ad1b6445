-- ===== src/Tests/Servers.antt =====
-- The worker's server, reached through the coordinator.
use sccache_dist_action.Common.{
  All, Occurs, ℤ, Text, codes, pos, ℕ, ◌≡◌, refl, Bool, true, false, none, some, List, [], ◌∷◌,
  ◌++◌, arith,
}
use sccache_dist_action.Effects.{and_then, perform}
use sccache_dist_action.Stdlib.Decimal.{itoa}
use sccache_dist_action.Worker.Guard.{Round, elapsed, guard_loop, observe}
use sccache_dist_action.Worker.Run.{Action, World, run}
use sccache_dist_action.Coordinator.Run as Run
use sccache_dist_action.Coordinator.Run.{wait, serve_forward}
use sccache_dist_action.Tests.Coordinator as Coordinator
use sccache_dist_action.Farm.Reachable.{worker_is_reachable}
use sccache_dist_action.Main.Phase.{node_hostname}
use sccache_dist_action.SccacheDist.Toml.{Entry, read_file}
use sccache_dist_action.SccacheDist.Quoted.{IsCommon}
use sccache_dist_action.SccacheDist.RoundTrip.{entry}
use sccache_dist_action.Farm.Servers.{conf, content}
use sccache_dist_action.Tests.Farm.{table, coordinator_config, worker_config}

abbrev read : Bool → Round
read present = record { present = present; wake = elapsed }

-- The coordinator answers the second probe, and is there until the rounds are over.
abbrev farm : World ℕ
farm = record {
  refuses = λ a. none;
  first_rounds = read false ∷ read true ∷ [];
  guard_rounds = read true ∷ [];
  worker_index_input = itoa (pos 2);
  conf_path = λ name. codes "/tmp/" ++ name;
}

abbrev calls : List Action
calls = (run table worker_config (codes "77-worker-2") farm).trace

it_launches :
    Occurs
      (Action.launch (conf table worker_config (codes "77-worker-2") farm) worker_config.server_log)
      calls
unfolding run and_then perform guard_loop observe
it_launches = ground arith

secret : All (IsCommon table) (codes "s3")
secret = ground arith

cache : All (IsCommon table) (codes "/tmp/sccache-dist-server-cache")
cache = ground arith

abbrev server_conf_path : Text
server_conf_path = conf table worker_config (codes "77-worker-2") farm

abbrev server_content : Text
server_content = content table worker_config (codes "77-worker-2") farm

worker_is_reachable_example :
    (port : ℤ) × ((start rest : List Action) × (calls
        ≡ start
          ++ Action.write_file server_conf_path server_content
            ∷ Action.launch server_conf_path worker_config.server_log
            ∷ rest))
    × ((entries : List Entry) × (read_file 9 [] server_content ≡ some entries)
        × Occurs (entry [] (codes "public_addr") (codes "127.0.0.1:" ++ itoa port)) entries)
    × ((before later : List Run.Action) × (Coordinator.calls ≡ before ++ wait (pos 2) ∷ later)
        × Occurs
            (serve_forward port (node_hostname worker_config (itoa (pos 2)) ++ codes ":10501"))
            before)
worker_is_reachable_example =
    worker_is_reachable table coordinator_config worker_config Coordinator.hostname
      (codes "77-worker-2") Coordinator.world farm 2 (pos 2) refl refl refl (omega arith)
      (omega arith) (omega arith) secret cache it_launches Coordinator.run_waits
