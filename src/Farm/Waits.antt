-- ===== src/Farm/Waits.antt =====
-- The coordinator's wait in internal/coordinator/coordinator.go against the one in
-- internal/tsmesh/tsmesh.go, which `waitForRegisteredServers` says it has the semantics of.
use sccache_dist_action.Common.{
  length, ℤ, ◌≤ℤ◌, ltb_ℤ, Result, Text, pos, ok, err, ◌≡◌, refl, Bool, true, false, not, Option,
  none, some, List, [], ◌∷◌, map, arith,
}
use sccache_dist_action.Tsmesh.Peers.{Peer, filter_online}
use sccache_dist_action.Tsmesh.Wait as Mesh
use sccache_dist_action.Tsmesh.Wait.{
  Waited, ready, timed_out, polling, workers_ready, wait_for_workers,
}
use sccache_dist_action.Coordinator.Registration as Scheduler
use sccache_dist_action.Coordinator.Registration.{wait_for_registered_servers}

-- What the scheduler would answer if the registered servers were the peers that are online.
abbrev pub counted : {E : Type 0} → Text → Result E (List Peer) → Result E ℤ
counted prefix (ok ps) = ok (pos (length (filter_online ps prefix)))
counted prefix (err e) = err e

abbrev pub counted_round : {E : Type 0} → Text → Mesh.Round E → Scheduler.Round E
counted_round prefix r = record { answer = counted prefix r.seen; ended = r.ended }

-- How a wait ends: the number of workers, and whether the coordinator goes on. None: not yet.
abbrev pub Verdict : Type 0
Verdict = Option (ℤ × Bool)

abbrev pub mesh_verdict : Waited → Verdict
mesh_verdict (ready found) = some (pos (length found), true)
mesh_verdict (timed_out found) = some (pos (length found), false)
mesh_verdict polling = none

-- `if registered < c.MinWorkers` follows the wait in `Run`.
abbrev pub scheduler_verdict : ℤ → Option ℤ → Verdict
scheduler_verdict min none = none
scheduler_verdict min (some n) = some (n, not (ltb_ℤ n min))

-- With min <= expected, the two waits end after the same rounds, with the same number of workers and
-- the same decision, whatever the peers and the errors are, if the scheduler counts the workers that
-- are online.
pub waits_agree :
    {E : Type 0} (prefix : Text) (expected min : ℤ) (final : Result E (List Peer))
    (rs : List (Mesh.Round E))
    → min ≤ℤ expected
    → mesh_verdict (wait_for_workers prefix expected min final rs)
      ≡ scheduler_verdict min (
          wait_for_registered_servers expected
            (counted prefix final)
            (map (counted_round prefix) rs))
unfolding wait_for_workers wait_for_registered_servers workers_ready filter_online
waits_agree prefix expected min final [] h = refl
waits_agree prefix expected min final (r ∷ rs) h =
    ground (arith, waits_agree prefix expected min final rs h)
