-- ===== src/Proxy/Tandem.antt =====
-- internal/proxy/proxy.go: two relays in a row, as on each way through the farm: the forward of the
-- coordinator and the exposure of the worker's server, or the bridge of a worker and the exposure of
-- the scheduler. What the one writes to its backend, the tailnet carries to the client of the other.
pub mod Wire
pub mod Invariant
pub mod Delivery
pub mod Rounds
pub mod GivesUp
use sccache_dist_action.Common.{if◌then◌else◌, ℕ, Bool, true, false, ◌||◌, List, [], ◌∷◌}
use sccache_dist_action.Proxy.Session.{
  Conn, new_conn, Session, Side, at_client, at_backend, PeerMove, send, finish, reset, peer,
  new_session,
}
use sccache_dist_action.Proxy.Session as Session

-- `near` has the caller for its client, and `far` the server for its backend; the backend of `near`
-- and the client of `far` are the two ends of one connection through the tailnet.
pub record Tandem : Type 0 where
  pub near : Session
  pub far : Session

pub data Hop : Type 0 where
  near_hop : Hop
  far_hop : Hop

pub data Event : Type 0 where
  caller : PeerMove → Event
  server : PeerMove → Event
  works : Hop → Side → Event  -- the pipe of that relay that reads that side
  returns : Hop → Event  -- that relay, behind `<-done` twice
  carry_up : Event  -- the tailnet's, toward the server and toward the caller
  carry_down : Event
  cut : Event  -- the connection through the tailnet fails, at both its ends

-- What is written and has not arrived.
abbrev pub in_flight : List ℕ → List ℕ → List ℕ
in_flight written [] = written
in_flight [] (_ ∷ _) = []
in_flight (_ ∷ written) (_ ∷ sent) = in_flight written sent

-- The next byte on its way from one end of the connection to the other arrives, or its end behind
-- all bytes.
abbrev pub arriving : Side → List ℕ → Bool → List Session.Event
arriving side (b ∷ _) shut = peer side (send b) ∷ []
arriving side [] true = peer side finish ∷ []
arriving side [] false = []

abbrev pub carried : Side → Conn → Conn → List Session.Event
carried side src dst =
    arriving side (in_flight src.written dst.sent) (src.half_closed || src.closed)

-- What an event is for each relay.
abbrev pub near_events : Tandem → Event → List Session.Event
near_events p (caller m) = peer at_client m ∷ []
near_events p (server m) = []
near_events p (works near_hop side) = Session.Event.pump side ∷ []
near_events p (works far_hop side) = []
near_events p (returns near_hop) = Session.Event.leave ∷ []
near_events p (returns far_hop) = []
near_events p carry_up = []
near_events p carry_down = carried at_backend p.far.client p.near.backend
near_events p cut = peer at_backend reset ∷ []

abbrev pub far_events : Tandem → Event → List Session.Event
far_events p (caller m) = []
far_events p (server m) = peer at_backend m ∷ []
far_events p (works near_hop side) = []
far_events p (works far_hop side) = Session.Event.pump side ∷ []
far_events p (returns near_hop) = []
far_events p (returns far_hop) = Session.Event.leave ∷ []
far_events p carry_up = carried at_client p.near.backend p.far.client
far_events p carry_down = []
far_events p cut = peer at_client reset ∷ []

unfoldable pub step : Tandem → Event → Tandem
step p e = record {
  near = Session.run p.near (near_events p e);
  far = Session.run p.far (far_events p e);
}

unfoldable pub run : Tandem → List Event → Tandem
run p [] = p
run p (e ∷ es) = run (step p e) es

-- Both relays have dialed, and every connection can half-close, as those of TCP and of the tailnet can.
abbrev pub new_tandem : Tandem
new_tandem = record {
  near = new_session (new_conn true) (new_conn true);
  far = new_session (new_conn true) (new_conn true);
}
