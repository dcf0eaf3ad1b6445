-- ===== src/Spike/Relay.antt =====
-- spike/tsnet-conn/tsbridge/main.go: the goroutine of a connection, behind a dial that succeeded. It
-- closes both connections when the copy to the client ends, and half-closes none.
use sccache_dist_action.Common.{if◌then◌else◌, ℕ, Bool, true, false, ◌||◌, List, [], ◌∷◌, ◌++◌}
use sccache_dist_action.Proxy.Session.{
  Conn, takes_writes, Session, at_client, at_backend, Event, peer, pump, leave, after_peer, flip,
  leave_relay,
}

-- A round of io.Copy(dst, src).
abbrev pub passed : ℕ → List ℕ → Bool → Conn → Conn → Conn × Conn × Bool
passed b rest true src dst =
    (record src { unread = rest }, record dst { written = dst.written ++ b ∷ [] }, false)
passed b rest false src dst = (record src { unread = rest }, dst, true)

abbrev pub read_next : List ℕ → Bool → Conn → Conn → Conn × Conn × Bool
read_next (b ∷ rest) ended src dst = passed b rest (takes_writes dst) src dst
read_next [] true src dst = (src, dst, true)
read_next [] false src dst = (src, dst, false)

unfoldable pub copy_round : Conn → Conn → Conn × Conn × Bool
copy_round src dst =
    if src.failed || src.closed then (src, dst, true) else read_next src.unread src.ended src dst

unfoldable pub copied : Bool → Session → Session
unfolding copy_round
copied true s = s
copied false s =
    let (c, r, done) = copy_round s.client s.backend in
    record s { client = c; backend = r; up_done = done }

-- The goroutine goes on when the copy to the client has ended.
unfoldable pub bridge_step : Session → Event → Session
unfolding copied
bridge_step s (peer at_client m) = record s { client = after_peer m s.client }
bridge_step s (peer at_backend m) = record s { backend = after_peer m s.backend }
bridge_step s (pump at_client) = copied s.up_done s
bridge_step s (pump at_backend) = flip (copied s.down_done (flip s))
bridge_step s leave = if s.down_done then leave_relay s else s

unfoldable pub bridge_run : Session → List Event → Session
unfolding bridge_step
bridge_run s [] = s
bridge_run s (e ∷ es) = bridge_run (bridge_step s e) es
