-- ===== src/Proxy/Session/Refines.antt =====
-- internal/proxy/proxy.go: what a `relay` promises its two peers, as two pipes that deliver in order
-- and end behind the last byte, and that its steps keep to it.
use sccache_dist_action.Common.{
  Bool-cases, ℕ, ◌≡◌, refl, ap, ◌∙◌, subst, inl, inr, Bool, true, false, ◌&&◌, ◌||◌, List, [], ◌∷◌,
  ◌++◌, append-nil, arith,
}
use sccache_dist_action.Proxy.Session.{
  Conn, close_write, new_conn, read_next, pipe_round, Session, at_client, at_backend, PeerMove,
  send, finish, reset, Event, peer, pump, leave, after_peer, flip, pumped, pump_up, step,
  new_session, takes_writes,
}
use sccache_dist_action.Proxy.Session.Round.{Way, IsHeld}
use sccache_dist_action.Proxy.Session.Closing.{opened, run-Able}
use sccache_dist_action.Proxy.Session.Invariant.{
  run-IsSound, new-IsSound, IsSound, flip-IsSound, not_left,
}

-- One direction, as its two peers see it.
pub record Pipe : Type 0 where
  pub sent : List ℕ
  pub delivered : List ℕ
  pub source_ended : Bool
  pub target_ended : Bool

-- What a pipe may do at once: nothing; take a byte, until its source has ended; be ended by its
-- source; deliver the next byte; and tell its target of the end, when all is delivered.
pub data Does (p : Pipe) (q : Pipe) : Type 0 where
  nothing : q ≡ p → Does p q
  takes : (b : ℕ) → p.source_ended ≡ false → q ≡ record p { sent = p.sent ++ b ∷ [] } → Does p q
  is_ended : q ≡ record p { source_ended = true } → Does p q
  delivers :
      (b : ℕ) (rest : List ℕ)
      → p.sent ≡ p.delivered ++ b ∷ rest
      → q ≡ record p { delivered = p.delivered ++ b ∷ [] }
      → Does p q
  tells_end :
      p.source_ended ≡ true → p.sent ≡ p.delivered → q ≡ record p { target_ended = true } → Does p q

abbrev pub pipe_of : Conn → Conn → Pipe
pipe_of src dst = record {
  sent = src.sent;
  delivered = dst.written;
  source_ended = src.ended;
  target_ended = dst.half_closed;
}

-- No connection has failed, and both can half-close.
abbrev pub IsHealthy : Session → Type 0
IsHealthy s =
    (s.client.failed ≡ false)
    × (s.backend.failed ≡ false)
    × (s.client.can_half_close ≡ true)
    × (s.backend.can_half_close ≡ true)

read_next-Does :
    (unread : List ℕ) (ended : Bool) (src dst : Conn)
    → src.unread ≡ unread
    → src.ended ≡ ended
    → dst.failed ≡ false
    → dst.can_half_close ≡ true
    → Way false src dst
    → Does
        (pipe_of src dst)
        (pipe_of (read_next unread ended src dst).0 (read_next unread ended src dst).1)
read_next-Does (b ∷ rest) ended src dst u d fine able (held, e, (same, half, whole)) =
    rw (fine, half, whole) (delivers b rest (e ∙ ap (λ t. dst.written ++ t) (same ∙ u)) refl)
read_next-Does [] true src dst u d fine able (held, e, (same, half, whole)) =
    rw able (tells_end d (e ∙ ap (λ t. dst.written ++ t) (same ∙ u) ∙ append-nil dst.written) refl)
read_next-Does [] false src dst u d fine able w = nothing refl

pumped-Does :
    (done : Bool) (s : Session)
    → s.up_done ≡ done
    → IsSound s
    → IsHealthy s
    → Does (pipe_of s.client s.backend) (pipe_of (pumped done s).client (pumped done s).backend)
unfolding pumped pipe_round
pumped-Does true s up h k = nothing refl
pumped-Does false s up (a, b, c, d, l) (fine, fine', able, able') =
    let goes_on = still_open s.client s.left fine able (not_left s l up) c in
    rw goes_on (
      read_next-Does s.client.unread s.client.ended s.client s.backend refl refl fine' able'
        (subst (λ x. Way x s.client s.backend) up a))
  where
    still_open :
        (c : Conn) (left : Bool)
        → c.failed ≡ false
        → c.can_half_close ≡ true
        → left ≡ false
        → IsHeld left c
        → (c.failed || c.closed) ≡ false
    still_open c left fine able here h = ground arith

-- The other direction does not notice.
close_write-pipe_of : (src dst : Conn) → pipe_of (close_write dst) src ≡ pipe_of dst src
close_write-pipe_of src dst = elim (Bool-cases dst.can_half_close) [
  | inl can ↦ rw can refl
  | inr cannot ↦ rw cannot refl
]

read_next-pipe_of :
    (unread : List ℕ) (ended : Bool) (src dst : Conn)
    → pipe_of (read_next unread ended src dst).1 (read_next unread ended src dst).0
      ≡ pipe_of dst src
read_next-pipe_of (b ∷ rest) ended src dst = elim (Bool-cases (takes_writes dst)) [
  | inl taken ↦ rw taken refl
  | inr lost ↦ rw lost (close_write-pipe_of src dst)
]
read_next-pipe_of [] true src dst = close_write-pipe_of src dst
read_next-pipe_of [] false src dst = refl

pumped-pipe_of :
    (done : Bool) (s : Session)
    → pipe_of (pumped done s).backend (pumped done s).client ≡ pipe_of s.backend s.client
unfolding pumped pipe_round
pumped-pipe_of true s = refl
pumped-pipe_of false s = elim (Bool-cases (s.client.failed || s.client.closed)) [
  | inl over ↦ rw over (close_write-pipe_of s.client s.backend)
  | inr goes_on ↦ rw goes_on (read_next-pipe_of s.client.unread s.client.ended s.client s.backend)
]

after_peer-Does :
    (m : PeerMove) (src dst : Conn)
    → src.failed ≡ false
    → Does (pipe_of src dst) (pipe_of (after_peer m src) dst)
      × Does (pipe_of dst src) (pipe_of dst (after_peer m src))
after_peer-Does (send b) src dst fine = elim (Bool-cases src.ended) [
  | inl over ↦ rw over (nothing refl, nothing refl)
  | inr goes_on ↦ rw (goes_on, fine) (takes b refl refl, nothing refl)
]
after_peer-Does finish src dst fine = (is_ended refl, nothing refl)
after_peer-Does reset src dst fine = (nothing refl, nothing refl)

-- Both directions.
abbrev Both : Session → Session → Type 0
Both s t =
    Does (pipe_of s.client s.backend) (pipe_of t.client t.backend)
    × Does (pipe_of s.backend s.client) (pipe_of t.backend t.client)

flip-IsHealthy : (s : Session) → IsHealthy s → IsHealthy (flip s)
flip-IsHealthy s (a, b, c, d) = (b, a, d, c)

pump_up-Both : (s : Session) → IsSound s → IsHealthy s → Both s (pump_up s)
unfolding pump_up
pump_up-Both s h k = (pumped-Does s.up_done s refl h k, nothing (pumped-pipe_of s.up_done s))

step-Both : (s : Session) (e : Event) → IsSound s → IsHealthy s → Both s (step s e)
unfolding step
step-Both s (peer at_client m) h (fine, _, _, _) = after_peer-Does m s.client s.backend fine
step-Both s (peer at_backend m) h (_, fine, _, _) =
    let (a, b) = after_peer-Does m s.backend s.client fine in (b, a)
step-Both s (pump at_client) h k = pump_up-Both s h k
step-Both s (pump at_backend) h k =
    let (a, b) = pump_up-Both (flip s) (flip-IsSound s h) (flip-IsHealthy s k) in (b, a)
step-Both s leave h k = elim (Bool-cases (s.up_done && s.down_done)) [
  | inl over ↦ rw over (nothing refl, nothing refl)
  | inr goes_on ↦ rw goes_on (nothing refl, nothing refl)
]

-- A relay of two connections that can half-close is a pair of pipes: as long as no connection has
-- failed, whatever happens next is, for each direction, one of the things that a pipe does, or
-- nothing.
pub relay_refines_pipes :
    (es : List Event) (e : Event)
    → (opened es).client.failed ≡ false
    → (opened es).backend.failed ≡ false
    → Does
        (pipe_of (opened es).client (opened es).backend)
        (pipe_of (step (opened es) e).client (step (opened es) e).backend)
      × Does
          (pipe_of (opened es).backend (opened es).client)
          (pipe_of (step (opened es) e).backend (step (opened es) e).client)
relay_refines_pipes es e fine fine' =
    let start = new_session (new_conn true) (new_conn true) in
    let (able, able') = run-Able true true start es (refl, refl) in
    step-Both (opened es) e (run-IsSound start es (new-IsSound true true))
      (fine, fine', able, able')
