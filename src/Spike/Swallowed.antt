-- ===== src/Spike/Swallowed.antt =====
-- spike/tsnet-conn/tsbridge/main.go: what becomes of a client's end.
use sccache_dist_action.Common.{
  Bool-cases, All, ℕ, ◌≡◌, refl, sym, subst, inl, inr, Bool, true, false, ◌||◌, List, [], ◌∷◌,
}
use sccache_dist_action.Proxy.Session.{
  Conn, takes_writes, Session, at_client, at_backend, Event, peer, pump, leave, flip, new_conn,
  new_session,
}
use sccache_dist_action.Spike.Relay.{read_next, copy_round, copied, bridge_step, bridge_run}

-- The backend's peer does nothing.
abbrev pub IsUnanswered : Event → Type 0
IsUnanswered (peer at_backend m) = ⊥
IsUnanswered e = Unit

-- Nothing comes from it, and it is open.
abbrev pub IsWaiting : Conn → Type 0
IsWaiting c =
    (c.unread ≡ [])
    × (c.ended ≡ false)
    × (c.failed ≡ false)
    × (c.half_closed ≡ false)
    × (c.closed ≡ false)

abbrev Waits : Session → Type 0
Waits s = IsWaiting s.backend × (s.down_done ≡ false)

read_next-IsWaiting :
    (unread : List ℕ) (ended : Bool) (src dst : Conn)
    → IsWaiting dst
    → IsWaiting (read_next unread ended src dst).1
read_next-IsWaiting (b ∷ rest) ended src dst h = elim (Bool-cases (takes_writes dst)) [
  | inl takes ↦ rw takes h
  | inr lost ↦ rw lost h
]
read_next-IsWaiting [] true src dst h = h
read_next-IsWaiting [] false src dst h = h

copied_up-Waits : (done : Bool) (s : Session) → Waits s → Waits (copied done s)
unfolding copied copy_round
copied_up-Waits true s h = h
copied_up-Waits false s (h, d) = elim (Bool-cases (s.client.failed || s.client.closed)) [
  | inl over ↦ rw over (h, d)
  | inr goes_on ↦
      rw goes_on (read_next-IsWaiting s.client.unread s.client.ended s.client s.backend h, d)
]

copied_down-Waits : (s : Session) → Waits s → flip (copied s.down_done (flip s)) ≡ s
unfolding copied copy_round
copied_down-Waits s ((u, e, f, h, c), d) = rw (d, f, c, u, e) refl

bridge_step-Waits : (s : Session) (e : Event) → IsUnanswered e → Waits s → Waits (bridge_step s e)
unfolding bridge_step
bridge_step-Waits s (peer at_client m) quiet h = h
bridge_step-Waits s (peer at_backend m) quiet h = absurd quiet
bridge_step-Waits s (pump at_client) quiet h = copied_up-Waits s.up_done s h
bridge_step-Waits s (pump at_backend) quiet h = subst Waits (sym (copied_down-Waits s h)) h
bridge_step-Waits s leave quiet (h, d) = rw d (h, refl)

bridge_run-Waits :
    (s : Session) (es : List Event) → All IsUnanswered es → Waits s → Waits (bridge_run s es)
unfolding bridge_run
bridge_run-Waits s [] quiet h = h
bridge_run-Waits s (e ∷ es) (quiet, later) h =
    bridge_run-Waits (bridge_step s e) es later (bridge_step-Waits s e quiet h)

-- The bridge of the experiment swallows a client's end: as long as the backend's peer does nothing,
-- its connection is neither half-closed nor closed, however the client ended and however often the
-- two copies have had a round.
bridge_swallows_end :
    (up down : Bool) (es : List Event)
    → All IsUnanswered es
    → IsWaiting (bridge_run (new_session (new_conn up) (new_conn down)) es).backend
bridge_swallows_end up down es quiet =
    (bridge_run-Waits (new_session (new_conn up) (new_conn down)) es quiet
      ((refl, refl, refl, refl, refl), refl)).0
