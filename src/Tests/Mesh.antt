-- ===== src/Tests/Mesh.antt =====
-- The tailnet.
use sccache_dist_action.Coordinator.Registration.{wait_for_registered_servers}
use sccache_dist_action.Farm.Waits.{
  counted, counted_round, mesh_verdict, scheduler_verdict, waits_agree,
}
use sccache_dist_action.Common.{
  ◌==◌, if◌then◌else◌, ◌≤ℤ◌, Text, codes, pos, ok, err, ℕ, ◌≤◌, ◌≡◌, refl, ◌≢◌, Bool, true, false,
  none, some, List, [], ◌∷◌, ◌++◌, map, arith,
}
use sccache_dist_action.Stdlib.Decimal.{itoa, atoi, parse_int}
use sccache_dist_action.Tsmesh.Peers.{Peer}
use sccache_dist_action.Tsmesh.Up.{Answers, up, Accounts, up-Accounts, context_ended}
use sccache_dist_action.Tsmesh.Wait.{Round, wait_for_workers}
use sccache_dist_action.Worker.Address.{worker_index, server_public_addr}
use sccache_dist_action.Coordinator.Forward.{forward_spec}
use sccache_dist_action.Main.Phase.{node_hostname}
use sccache_dist_action.Farm.Addresses.{
  worker_prefix, forward_reaches_worker, forward_misses_worker,
}
use sccache_dist_action.Tests.Farm.{worker_config}

-- The first attempt does not come up, the second does.
abbrev answers : ℕ → Answers ℕ
answers n = record {
  start = none;
  up = if n == 1 then some 3 else none;
  client = none;
  ends_before = false;
}

up-Accounts_example : Accounts (up answers context_ended).result (up answers context_ended).live
up-Accounts_example = up-Accounts answers context_ended

abbrev peer : Text → Bool → Peer
peer host online = record { host = host; online = online; ip = []; path = [] }

abbrev peers : List Peer
peers =
    peer (codes "77-worker-1") true ∷ peer (codes "77-worker-2") false ∷ peer (codes "x") true ∷ []

abbrev waits : List (Round ℕ)
waits = record { seen = ok peers; ended = false } ∷ record { seen = err 1; ended = true } ∷ []

low : 1 ≤ 3
low = omega arith

high : 3 ≤ 55035
high = omega arith

forward_reaches_worker_example :
    let raw = itoa (pos 3) in
    let (port, target) = forward_spec (worker_prefix (codes "77")) (pos 3) in
    (target ≡ node_hostname worker_config raw ++ codes ":10501")
    × (server_public_addr (worker_index raw) ≡ codes "127.0.0.1:" ++ itoa port)
    × (port ≡ pos 10503)
forward_reaches_worker_example = forward_reaches_worker worker_config 3 refl low high

not_itoa : codes "01" ≢ itoa (worker_index (codes "01"))
unfolding itoa worker_index atoi parse_int
not_itoa e = ground arith

forward_misses_worker_example :
    let (port, target) = forward_spec (worker_prefix (codes "77")) (worker_index (codes "01")) in
    (server_public_addr (worker_index (codes "01")) ≡ codes "127.0.0.1:" ++ itoa port)
    × (target ≢ node_hostname worker_config (codes "01") ++ codes ":10501")
forward_misses_worker_example = forward_misses_worker worker_config (codes "01") refl not_itoa

both_fit : pos 1 ≤ℤ pos 2
both_fit = ground arith

waits_agree_example :
    mesh_verdict (wait_for_workers (codes "77-worker-") (pos 2) (pos 1) (ok peers) waits)
    ≡ scheduler_verdict (pos 1) (
        wait_for_registered_servers
          (pos 2)
          (counted (codes "77-worker-") (ok peers))
          (map (counted_round (codes "77-worker-")) waits))
waits_agree_example = waits_agree (codes "77-worker-") (pos 2) (pos 1) (ok peers) waits both_fit
