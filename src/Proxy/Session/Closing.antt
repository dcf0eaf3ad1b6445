-- ===== src/Proxy/Session/Closing.antt =====
-- internal/proxy/proxy.go: when a `relay` closes its two connections.
use sccache_dist_action.Common.{
  Bool-cases, ℕ, ◌≡◌, refl, ◌∙◌, ◌⊎◌, inl, inr, Bool, true, false, ◌||◌, List, [], ◌∷◌, arith,
}
use sccache_dist_action.Proxy.Session.{
  Conn, new_conn, close_write, takes_writes, passed, read_next, pipe_round, Session, at_client,
  at_backend, PeerMove, send, finish, reset, Event, peer, pump, leave, after_peer, flip, pumped,
  pump_up, step, run, new_session,
}
use sccache_dist_action.Proxy.Session.Round.{IsHeld}
use sccache_dist_action.Proxy.Session.Invariant.{HasLeft, run-IsSound, new-IsSound}

-- Whether a connection can half-close never changes.
abbrev pub Able : Bool → Bool → Session → Type 0
Able up down s = (s.client.can_half_close ≡ up) × (s.backend.can_half_close ≡ down)

close_write-able : (c : Conn) → (close_write c).can_half_close ≡ c.can_half_close
close_write-able c = ground arith

passed-able :
    (takes : Bool) (b : ℕ) (rest : List ℕ) (src dst : Conn)
    → ((passed b rest takes src dst).0.can_half_close ≡ src.can_half_close)
      × ((passed b rest takes src dst).1.can_half_close ≡ dst.can_half_close)
passed-able true b rest src dst = (refl, refl)
passed-able false b rest src dst = (refl, close_write-able dst)

read_next-able :
    (unread : List ℕ) (ended : Bool) (src dst : Conn)
    → ((read_next unread ended src dst).0.can_half_close ≡ src.can_half_close)
      × ((read_next unread ended src dst).1.can_half_close ≡ dst.can_half_close)
read_next-able (b ∷ rest) ended src dst = passed-able (takes_writes dst) b rest src dst
read_next-able [] true src dst = (refl, close_write-able dst)
read_next-able [] false src dst = (refl, refl)

pipe_round-able :
    (src dst : Conn)
    → ((pipe_round src dst).0.can_half_close ≡ src.can_half_close)
      × ((pipe_round src dst).1.can_half_close ≡ dst.can_half_close)
unfolding pipe_round
pipe_round-able src dst = elim (Bool-cases (src.failed || src.closed)) [
  | inl over ↦ rw over (refl, close_write-able dst)
  | inr goes_on ↦ rw goes_on (read_next-able src.unread src.ended src dst)
]

pumped-Able : (done up down : Bool) (s : Session) → Able up down s → Able up down (pumped done s)
unfolding pumped
pumped-Able true up down s h = h
pumped-Able false up down s (h, h') =
    let (a, b) = pipe_round-able s.client s.backend in (a ∙ h, b ∙ h')

after_peer-able : (m : PeerMove) (c : Conn) → (after_peer m c).can_half_close ≡ c.can_half_close
after_peer-able (send b) c = ground arith
after_peer-able finish c = refl
after_peer-able reset c = refl

step-Able : (up down : Bool) (s : Session) (e : Event) → Able up down s → Able up down (step s e)
unfolding step pump_up
step-Able up down s (peer at_client m) (h, h') = (after_peer-able m s.client ∙ h, h')
step-Able up down s (peer at_backend m) (h, h') = (h, after_peer-able m s.backend ∙ h')
step-Able up down s (pump at_client) h = pumped-Able s.up_done up down s h
step-Able up down s (pump at_backend) (h, h') =
    let (a, b) = pumped-Able s.down_done down up (flip s) (h', h) in (b, a)
step-Able up down s leave h = ground (arith, h)

pub run-Able :
    (up down : Bool) (s : Session) (es : List Event) → Able up down s → Able up down (run s es)
unfolding run
run-Able up down s [] h = h
run-Able up down s (e ∷ es) h = run-Able up down (step s e) es (step-Able up down s e h)

-- A relay of two connections that can half-close.
abbrev pub opened : List Event → Session
opened es = run (new_session (new_conn true) (new_conn true)) es

held-HasLeft :
    (s : Session) (c : Conn)
    → IsHeld s.left c
    → HasLeft s
    → c.can_half_close ≡ true
    → c.closed ≡ true
    → (s.up_done ≡ true) × (s.down_done ≡ true)
held-HasLeft s c h l able closed = ground (arith, h, l)

-- A half-close in one direction does not cut the other: with connections that can half-close, if the
-- relay has closed one of the two, both pipes are done.
pub closed_behind_both :
    (es : List Event)
    → ((opened es).client.closed ≡ true) ⊎ ((opened es).backend.closed ≡ true)
    → ((opened es).up_done ≡ true) × ((opened es).down_done ≡ true)
closed_behind_both es closed =
    let start = new_session (new_conn true) (new_conn true) in
    let (a, b, h, h', l) = run-IsSound start es (new-IsSound true true) in
    let (able, able') = run-Able true true start es (refl, refl) in
    elim closed [
      | inl c ↦ held-HasLeft (opened es) (opened es).client h l able c
      | inr c ↦ held-HasLeft (opened es) (opened es).backend h' l able' c
    ]
