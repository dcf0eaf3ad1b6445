-- ===== src/Tsmesh/Wait.antt =====
-- internal/tsmesh/tsmesh.go: `workersReady` and `WaitForWorkers`.
use sccache_dist_action.Common.{
  if◌then◌else◌, length, ℤ, ◌≤ℤ◌, leb_ℤ, Result, Text, pos, ok, err, ◌≡◌, Bool, true, false, not,
  List, [], ◌∷◌, arith,
}
use sccache_dist_action.Tsmesh.Peers.{Peer, filter_online}

unfoldable pub workers_ready : ℤ → ℤ → ℤ → Bool → Bool
workers_ready online expected min timed_out =
    if not timed_out then leb_ℤ expected online else leb_ℤ min online

-- One round: what `Peers` returns, and whether the `select` behind it finds the context ended.
pub record Round (E : Type 0) : Type 0 where
  pub seen : Result E (List Peer)
  pub ended : Bool

-- Returned with a nil error; returned with the context's; still polling after the given rounds.
pub data Waited : Type 0 where
  ready : List Peer → Waited
  timed_out : List Peer → Waited
  polling : Waited

abbrev online_of : {E : Type 0} → Text → Result E (List Peer) → List Peer
online_of prefix (ok ps) = filter_online ps prefix
online_of prefix (err e) = filter_online [] prefix

abbrev count : List Peer → ℤ
count ps = pos (length ps)

abbrev enough : {E : Type 0} → Text → ℤ → ℤ → Result E (List Peer) → Bool
enough prefix expected min (ok ps) =
    workers_ready (count (filter_online ps prefix)) expected min false
enough prefix expected min (err e) = false

-- `final` is what `Peers` returns once the context has ended.
unfoldable pub wait_for_workers :
    {E : Type 0} → Text → ℤ → ℤ → Result E (List Peer) → List (Round E) → Waited
unfolding workers_ready
wait_for_workers prefix expected min final [] = polling
wait_for_workers prefix expected min final (r ∷ rs) =
    let rest = wait_for_workers prefix expected min final rs in
    if enough prefix expected min r.seen
    then ready (online_of prefix r.seen)
    else if r.ended
    then (if workers_ready (count (online_of prefix final)) expected min true
        then ready (online_of prefix final)
        else timed_out (online_of prefix final))
    else rest

-- With min <= expected, the wait never reports success with fewer than min peers.
pub wait_for_workers-min :
    {E : Type 0} (prefix : Text) (expected min : ℤ) (final : Result E (List Peer))
    (rs : List (Round E)) (found : List Peer)
    → min ≤ℤ expected
    → wait_for_workers prefix expected min final rs ≡ ready found
    → min ≤ℤ pos (length found)
unfolding wait_for_workers
wait_for_workers-min prefix expected min final [] found h e = cc
wait_for_workers-min prefix expected min final (r ∷ rs) found h e =
    ground (arith, wait_for_workers-min prefix expected min final rs found h)
