-- ===== src/Proxy/Session.antt =====
-- internal/proxy/proxy.go: `relay` behind a dial that succeeded, with both directions, copies that
-- fail and connections that cannot half-close. A move is a byte of a copy, or what a peer does.
pub mod Round
pub mod Peers
pub mod Invariant
pub mod Closing
pub mod Ending
pub mod Gone
pub mod Refines
use sccache_dist_action.Common.{
  if◌then◌else◌, ℕ, Bool, true, false, not, ◌&&◌, ◌||◌, List, [], ◌∷◌, ◌++◌,
}

-- A connection as the relay sees it: what its peer has sent, and what of it is still to read;
-- whether the peer has half-closed, or the connection failed (a reset); what the relay has written
-- to it, and how it closed it.
pub record Conn : Type 0 where
  pub sent : List ℕ
  pub unread : List ℕ
  pub ended : Bool
  pub failed : Bool
  pub written : List ℕ
  pub half_closed : Bool
  pub closed : Bool
  pub can_half_close : Bool  -- does it have CloseWrite?

abbrev pub new_conn : Bool → Conn
new_conn can_half_close = record {
  sent = [];
  unread = [];
  ended = false;
  failed = false;
  written = [];
  half_closed = false;
  closed = false;
  can_half_close = can_half_close;
}

-- `closeWrite`
abbrev pub close_write : Conn → Conn
close_write c =
    if c.can_half_close then record c { half_closed = true } else record c { closed = true }

abbrev pub takes_writes : Conn → Bool
takes_writes c = not (c.failed || c.half_closed || c.closed)

-- A round of io.Copy(dst, src), with what follows it in `pipe` if it is the last: the two
-- connections, and whether the pipe is done.
abbrev pub passed : ℕ → List ℕ → Bool → Conn → Conn → Conn × Conn × Bool
passed b rest true src dst =
    (record src { unread = rest }, record dst { written = dst.written ++ b ∷ [] }, false)
passed b rest false src dst = (record src { unread = rest }, close_write dst, true)

abbrev pub read_next : List ℕ → Bool → Conn → Conn → Conn × Conn × Bool
read_next (b ∷ rest) ended src dst = passed b rest (takes_writes dst) src dst
read_next [] true src dst = (src, close_write dst, true)
read_next [] false src dst = (src, dst, false)

unfoldable pub pipe_round : Conn → Conn → Conn × Conn × Bool
pipe_round src dst =
    if src.failed || src.closed
    then (src, close_write dst, true)
    else read_next src.unread src.ended src dst

-- The client's connection and the dialed one, which pipes are done, and whether `relay` has returned.
pub record Session : Type 0 where
  pub client : Conn
  pub backend : Conn
  pub up_done : Bool  -- pipe(r, c, done)
  pub down_done : Bool  -- pipe(c, r, done)
  pub left : Bool

pub data Side : Type 0 where
  at_client : Side
  at_backend : Side

pub data PeerMove : Type 0 where
  send : ℕ → PeerMove
  finish : PeerMove
  reset : PeerMove

pub data Event : Type 0 where
  peer : Side → PeerMove → Event
  pump : Side → Event  -- the pipe that reads that side
  leave : Event  -- `relay`, behind `<-done` twice

abbrev pub after_peer : PeerMove → Conn → Conn
after_peer (send b) c =
    if c.ended || c.failed
    then c
    else record c { sent = c.sent ++ b ∷ []; unread = c.unread ++ b ∷ [] }
after_peer finish c = record c { ended = true }
after_peer reset c = record c { failed = true }

-- The same session with the sides swapped.
abbrev pub flip : Session → Session
flip s = record {
  client = s.backend;
  backend = s.client;
  up_done = s.down_done;
  down_done = s.up_done;
  left = s.left;
}

unfoldable pub pumped : Bool → Session → Session
unfolding pipe_round
pumped true s = s
pumped false s =
    let (c, r, done) = pipe_round s.client s.backend in
    record s { client = c; backend = r; up_done = done }

unfoldable pub pump_up : Session → Session
unfolding pumped
pump_up s = pumped s.up_done s

-- The deferred r.Close() and c.Close().
abbrev pub leave_relay : Session → Session
leave_relay s = record s {
  client = record s.client { closed = true };
  backend = record s.backend { closed = true };
  left = true;
}

unfoldable pub step : Session → Event → Session
unfolding pump_up
step s (peer at_client m) = record s { client = after_peer m s.client }
step s (peer at_backend m) = record s { backend = after_peer m s.backend }
step s (pump at_client) = pump_up s
step s (pump at_backend) = flip (pump_up (flip s))
step s leave = if s.up_done && s.down_done then leave_relay s else s

unfoldable pub run : Session → List Event → Session
unfolding step
run s [] = s
run s (e ∷ es) = run (step s e) es

abbrev pub new_session : Conn → Conn → Session
new_session c r = record {
  client = c;
  backend = r;
  up_done = false;
  down_done = false;
  left = false;
}
