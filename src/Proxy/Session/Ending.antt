-- ===== src/Proxy/Session/Ending.antt =====
-- internal/proxy/proxy.go: when the pipes of a `relay` are done.
use sccache_dist_action.Common.{
  Bool-cases, false_ne_true, length, ℕ, ◌+◌, ◌≤◌, ◌<◌, ◌≡◌, refl, sym, ◌∙◌, ◌⊎◌, inl, inr, Bool,
  true, false, ◌&&◌, ◌||◌, List, [], ◌∷◌, arith,
}
use sccache_dist_action.Proxy.Session.{
  Conn, close_write, takes_writes, read_next, pipe_round, Session, Side, at_client, at_backend,
  PeerMove, send, finish, reset, Event, peer, pump, leave, after_peer, flip, pumped, pump_up, step,
  run,
}

-- The rounds that a pipe gets.
abbrev pub turn : Side → Event → ℕ
turn at_client (pump at_client) = 1
turn at_backend (pump at_backend) = 1
turn side e = 0

abbrev pub turns : Side → List Event → ℕ
turns side [] = 0
turns side (e ∷ es) = turn side e + turns side es

-- The peer of the connection has half-closed it, or it has failed.
abbrev pub HasEnded : Conn → Type 0
HasEnded c = (c.ended || c.failed) ≡ true

-- A pipe that is done, or needs at most `n` rounds.
abbrev pub Ending : Bool → Conn → ℕ → Type 0
Ending done src n = (done ≡ true) ⊎ (HasEnded src × (length src.unread < n))

abbrev pub Ends : Side → Session → ℕ → Type 0
Ends at_client s n = Ending s.up_done s.client n
Ends at_backend s n = Ending s.down_done s.backend n

read_next-Ending :
    (unread : List ℕ) (ended : Bool) (src dst : Conn) (n : ℕ)
    → src.ended ≡ ended
    → src.failed ≡ false
    → HasEnded src
    → length unread < 1 + n
    → Ending (read_next unread ended src dst).2 (read_next unread ended src dst).0 n
read_next-Ending (b ∷ rest) ended src dst n d f e h = elim (Bool-cases (takes_writes dst)) [
  | inl takes ↦ rw takes (inr (e, omega (arith, h)))
  | inr lost ↦ rw lost (inl refl)
]
read_next-Ending [] true src dst n d f e h = inl refl
read_next-Ending [] false src dst n d f e h = absurd (ground arith)

pipe_round-Ending :
    (src dst : Conn) (n : ℕ)
    → HasEnded src
    → length src.unread < 1 + n
    → Ending (pipe_round src dst).2 (pipe_round src dst).0 n
unfolding pipe_round
pipe_round-Ending src dst n e h = elim (Bool-cases (src.failed || src.closed)) [
  | inl over ↦ rw over (inl refl)
  | inr goes_on ↦
      rw goes_on (read_next-Ending src.unread src.ended src dst n refl (ground arith) e h)
]

close_write-Stays :
    (done : Bool) (c : Conn) (n : ℕ) → Ending done c n → Ending done (close_write c) n
close_write-Stays done c n h = elim (Bool-cases c.can_half_close) [
  | inl can ↦ rw can h
  | inr cannot ↦ rw cannot h
]

read_next-Stays :
    (unread : List ℕ) (ended done : Bool) (src dst : Conn) (n : ℕ)
    → Ending done dst n
    → Ending done (read_next unread ended src dst).1 n
read_next-Stays (b ∷ rest) ended done src dst n h = elim (Bool-cases (takes_writes dst)) [
  | inl takes ↦ rw takes h
  | inr lost ↦ rw lost (close_write-Stays done dst n h)
]
read_next-Stays [] true done src dst n h = close_write-Stays done dst n h
read_next-Stays [] false done src dst n h = h

pipe_round-Stays :
    (done : Bool) (src dst : Conn) (n : ℕ)
    → Ending done dst n
    → Ending done (pipe_round src dst).1 n
unfolding pipe_round
pipe_round-Stays done src dst n h = elim (Bool-cases (src.failed || src.closed)) [
  | inl over ↦ rw over (close_write-Stays done dst n h)
  | inr goes_on ↦ rw goes_on (read_next-Stays src.unread src.ended done src dst n h)
]

pumped-Ending :
    (done : Bool) (s : Session) (n : ℕ)
    → s.up_done ≡ done
    → Ends at_client s (1 + n)
    → Ends at_client (pumped done s) n
unfolding pumped
pumped-Ending true s n up h = inl up
pumped-Ending false s n up (inl done) = absurd (false_ne_true (sym up ∙ done))
pumped-Ending false s n up (inr (e, h)) = pipe_round-Ending s.client s.backend n e h

pumped-Stays :
    (done : Bool) (s : Session) (n : ℕ) → Ends at_backend s n → Ends at_backend (pumped done s) n
unfolding pumped
pumped-Stays true s n h = h
pumped-Stays false s n h = pipe_round-Stays s.down_done s.client s.backend n h

after_peer-Stays :
    (m : PeerMove) (done : Bool) (c : Conn) (n : ℕ)
    → Ending done c n
    → Ending done (after_peer m c) n
after_peer-Stays m done c n (inl over) = inl over
after_peer-Stays (send b) done c n (inr (e, h)) = rw e (inr (e, h))
after_peer-Stays finish done c n (inr (e, h)) = inr (refl, h)
after_peer-Stays reset done c n (inr (e, h)) = inr (ground arith, h)

leave-Stays : (side : Side) (s : Session) (n : ℕ) → Ends side s n → Ends side (step s leave) n
unfolding step
leave-Stays at_client s n h = elim (Bool-cases (s.up_done && s.down_done)) [
  | inl over ↦ rw over (inl (ground arith))
  | inr goes_on ↦ rw goes_on h
]
leave-Stays at_backend s n h = elim (Bool-cases (s.up_done && s.down_done)) [
  | inl over ↦ rw over (inl (ground arith))
  | inr goes_on ↦ rw goes_on h
]

Ending-le : (done : Bool) (c : Conn) (n m : ℕ) → n ≤ m → Ending done c n → Ending done c m
Ending-le done c n m h (inl over) = inl over
Ending-le done c n m h (inr (e, k)) = inr (e, omega (arith, h, k))

pub Ends-le : (side : Side) (s : Session) (n m : ℕ) → n ≤ m → Ends side s n → Ends side s m
Ends-le at_client s n m h k = Ending-le s.up_done s.client n m h k
Ends-le at_backend s n m h k = Ending-le s.down_done s.backend n m h k

step-Ends :
    (side : Side) (e : Event) (s : Session) (n : ℕ)
    → Ends side s (turn side e + n)
    → Ends side (step s e) n
unfolding step pump_up
step-Ends at_client (pump at_client) s n h = pumped-Ending s.up_done s n refl h
step-Ends at_backend (pump at_backend) s n h = pumped-Ending s.down_done (flip s) n refl h
step-Ends at_client (pump at_backend) s n h =
    pumped-Stays s.down_done (flip s) n (Ends-le at_client s (0 + n) n (omega arith) h)
step-Ends at_backend (pump at_client) s n h =
    pumped-Stays s.up_done s n (Ends-le at_backend s (0 + n) n (omega arith) h)
step-Ends at_client (peer at_client p) s n h =
    after_peer-Stays p s.up_done s.client n (Ends-le at_client s (0 + n) n (omega arith) h)
step-Ends at_backend (peer at_backend p) s n h =
    after_peer-Stays p s.down_done s.backend n (Ends-le at_backend s (0 + n) n (omega arith) h)
step-Ends at_client (peer at_backend p) s n h = Ends-le at_client s (0 + n) n (omega arith) h
step-Ends at_backend (peer at_client p) s n h = Ends-le at_backend s (0 + n) n (omega arith) h
step-Ends at_client leave s n h =
    leave-Stays at_client s n (Ends-le at_client s (0 + n) n (omega arith) h)
step-Ends at_backend leave s n h =
    leave-Stays at_backend s n (Ends-le at_backend s (0 + n) n (omega arith) h)

pub run-Ends :
    (side : Side) (es : List Event) (s : Session) (n : ℕ)
    → Ends side s (turns side es + n)
    → Ends side (run s es) n
unfolding run
run-Ends side [] s n h = Ends-le side s (0 + n) n (omega arith) h
run-Ends side (e ∷ es) s n h = run-Ends side es (step s e) n (
    step-Ends side e s (turns side es + n) (
      Ends-le side s (turns side (e ∷ es) + n) (turn side e + (turns side es + n)) (omega arith) h))

-- No round left to wait for.
pub over_now : (done : Bool) (c : Conn) → Ending done c 0 → done ≡ true
over_now done c (inl over) = over
over_now done c (inr (e, h)) = absurd (omega (arith, h))

pub up_over :
    (s : Session) (es : List Event)
    → HasEnded s.client
    → length s.client.unread < turns at_client es
    → (run s es).up_done ≡ true
up_over s es e h =
    over_now (run s es).up_done (run s es).client
      (run-Ends at_client es s 0 (inr (e, omega (arith, h))))

pub down_over :
    (s : Session) (es : List Event)
    → HasEnded s.backend
    → length s.backend.unread < turns at_backend es
    → (run s es).down_done ≡ true
down_over s es e h =
    over_now (run s es).down_done (run s es).backend
      (run-Ends at_backend es s 0 (inr (e, omega (arith, h))))
