-- ===== src/Proxy/Session/Invariant.antt =====
-- internal/proxy/proxy.go: what holds of a `relay` whatever its peers do and however its two pipes
-- interleave.
use sccache_dist_action.Common.{
  Bool-cases, false_ne_true, ◌≡◌, refl, sym, ◌∙◌, subst, ◌⊎◌, inl, inr, Bool, true, false, ◌&&◌,
  List, [], ◌∷◌, arith,
}
use sccache_dist_action.Proxy.Session.{
  Conn, new_conn, pipe_round, Session, at_client, at_backend, Event, peer, pump, leave, flip,
  pumped, pump_up, leave_relay, step, run, new_session,
}
use sccache_dist_action.Proxy.Session.Peers.{from_peer, to_peer, peer-IsHeld}
use sccache_dist_action.Proxy.Session.Round.{Way, IsHeld, pipe_round-Kept}

abbrev pub HasLeft : Session → Type 0
HasLeft s = (s.left ≡ false) ⊎ ((s.up_done ≡ true) × (s.down_done ≡ true))

abbrev pub IsSound : Session → Type 0
IsSound s =
    Way s.up_done s.client s.backend
    × Way s.down_done s.backend s.client
    × IsHeld s.left s.client
    × IsHeld s.left s.backend
    × HasLeft s

pub flip-IsSound : (s : Session) → IsSound s → IsSound (flip s)
flip-IsSound s (up, down, h, h', l) = (down, up, h', h, ground (arith, l))

pub not_left : (s : Session) → HasLeft s → s.up_done ≡ false → s.left ≡ false
not_left s (inl here) e = here
not_left s (inr (up, down)) e = absurd (false_ne_true (sym e ∙ up))

pumped-IsSound :
    (done : Bool) (s : Session) → s.up_done ≡ done → IsSound s → IsSound (pumped done s)
unfolding pumped
pumped-IsSound true s e h = h
pumped-IsSound false s e (up, down, h, h', l) =
    let here = not_left s l e in
    let (a, b, c, d) =
      pipe_round-Kept s.down_done s.client s.backend (subst (λ x. Way x s.client s.backend) e up)
        down (subst (λ x. IsHeld x s.client) here h) (subst (λ x. IsHeld x s.backend) here h') in
    (
      a,
      b,
      subst (λ x. IsHeld x (pipe_round s.client s.backend).0) (sym here) c,
      subst (λ x. IsHeld x (pipe_round s.client s.backend).1) (sym here) d,
      inl here,
    )

pump_up-IsSound : (s : Session) → IsSound s → IsSound (pump_up s)
unfolding pump_up
pump_up-IsSound s h = pumped-IsSound s.up_done s refl h

leave-Way :
    (src dst : Conn)
    → Way true src dst
    → Way true (record src { closed = true }) (record dst { closed = true })
leave-Way src dst (rest, e, (why, shut)) = (rest, e, (why, inr refl))

leave-IsSound :
    (s : Session) → s.up_done ≡ true → s.down_done ≡ true → IsSound s → IsSound (leave_relay s)
leave-IsSound s up down (a, b, c, d, l) = (
  subst (λ x. Way x (leave_relay s).client (leave_relay s).backend) (sym up)
      (leave-Way s.client s.backend (subst (λ x. Way x s.client s.backend) up a)),
  subst (λ x. Way x (leave_relay s).backend (leave_relay s).client) (sym down)
      (leave-Way s.backend s.client (subst (λ x. Way x s.backend s.client) down b)),
  inr (inl refl),
  inr (inl refl),
  inr (up, down),
)

pub step-IsSound : (s : Session) (e : Event) → IsSound s → IsSound (step s e)
unfolding step
step-IsSound s (peer at_client m) (a, b, c, d, l) = (
  from_peer m s.up_done s.client s.backend a,
  to_peer m s.down_done s.backend s.client b,
  peer-IsHeld m s.left s.client c,
  d,
  l,
)
step-IsSound s (peer at_backend m) (a, b, c, d, l) = (
  to_peer m s.up_done s.client s.backend a,
  from_peer m s.down_done s.backend s.client b,
  c,
  peer-IsHeld m s.left s.backend d,
  l,
)
step-IsSound s (pump at_client) h = pump_up-IsSound s h
step-IsSound s (pump at_backend) h =
    flip-IsSound (pump_up (flip s)) (pump_up-IsSound (flip s) (flip-IsSound s h))
step-IsSound s leave h = elim (Bool-cases (s.up_done && s.down_done)) [
  | inl over ↦ rw over (leave-IsSound s (ground arith) (ground arith) h)
  | inr goes_on ↦ rw goes_on h
]

pub run-IsSound : (s : Session) (es : List Event) → IsSound s → IsSound (run s es)
unfolding run
run-IsSound s [] h = h
run-IsSound s (e ∷ es) h = run-IsSound (step s e) es (step-IsSound s e h)

new_conn-Way : (up down : Bool) → Way false (new_conn up) (new_conn down)
new_conn-Way up down = ([], refl, (refl, refl, refl))

pub new-IsSound : (up down : Bool) → IsSound (new_session (new_conn up) (new_conn down))
new-IsSound up down = (new_conn-Way up down, new_conn-Way down up, inl refl, inl refl, inl refl)

-- Whatever the peers do, and however the pipes take turns: each side gets a prefix of what the other
-- sent; a pipe that is done has shut its destination, and has passed on all that its source sent and
-- will send, unless one of the two connections failed or the source cannot be half-closed.
pub session_delivers :
    (up down : Bool) (es : List Event)
    → let s = run (new_session (new_conn up) (new_conn down)) es in
      Way s.up_done s.client s.backend × Way s.down_done s.backend s.client
session_delivers up down es =
    let (a, b, c, d, l) =
      run-IsSound (new_session (new_conn up) (new_conn down)) es (new-IsSound up down) in
    (a, b)
