-- ===== src/Proxy/Tandem/GivesUp.antt =====
-- How the end of a caller reaches the server through two relays.
use sccache_dist_action.Common.{
  Bool-cases, length, ℕ, ◌+◌, ◌≤◌, ◌<◌, ◌≡◌, refl, sym, ap, ◌∙◌, inl, inr, ◌⊎◌, ◌≢◌, Bool, true,
  false, ◌||◌, List, [], ◌∷◌, ◌++◌, append-nil, append_assoc, arith,
}
use sccache_dist_action.Proxy.Session.{Conn, Session, Side, at_client, at_backend, send, after_peer}
use sccache_dist_action.Proxy.Session as Session
use sccache_dist_action.Proxy.Session.Round.{IsShut}
use sccache_dist_action.Proxy.Session.Ending.{HasEnded, over_now}
use sccache_dist_action.Proxy.Session.Gone.{is_shut}
use sccache_dist_action.Proxy.Tandem.{
  Tandem, near_hop, far_hop, Event, caller, server, works, returns, carry_up, carry_down, cut,
  in_flight, arriving, far_events, step, run, new_tandem,
}
use sccache_dist_action.Proxy.Tandem.Rounds.{rounds, near-Ends, far-Ends}
use sccache_dist_action.Proxy.Tandem.Wire.{Hears, run-Hears}
use sccache_dist_action.Proxy.Tandem.Invariant.{
  Wire, Inv, in_flight-append, grown_up, up_silent, step-Inv, run-Inv, new-Inv,
}

-- What the tailnet carries toward the server: a byte at a time, and then the end.
abbrev pub carry_of : Event → ℕ
carry_of carry_up = 1
carry_of e = 0

abbrev pub carries : List Event → ℕ
carries [] = 0
carries (e ∷ es) = carry_of e + carries es

abbrev pub pending : Tandem → List ℕ
pending p = in_flight p.near.backend.written p.far.client.sent

-- The first relay has shut its connection, and the second has seen the end, or has at most `n` bytes
-- and the end before it.
abbrev Arrives : ℕ → Conn → Conn → Type 0
Arrives n src dst = IsShut src × (HasEnded dst ⊎ (length (in_flight src.written dst.sent) < n))

Arrives-le : (n m : ℕ) (src dst : Conn) → n ≤ m → Arrives n src dst → Arrives m src dst
Arrives-le n m src dst h (shut, inl over) = (shut, inl over)
Arrives-le n m src dst h (shut, inr few) = (shut, inr (omega (arith, h, few)))

lower :
    (n : ℕ) (p : Tandem)
    → Arrives (0 + n) p.near.backend p.far.client
    → Arrives n p.near.backend p.far.client
lower n p h = Arrives-le (0 + n) n p.near.backend p.far.client (omega arith) h

still_ended : (c d : Conn) → Hears c d → HasEnded c → HasEnded d
still_ended c d (_, e, f) h = ground (arith, f)

quiet-Arrives :
    (p : Tandem) (e : Event) (n : ℕ)
    → Inv p
    → e ≢ carry_up
    → Arrives n p.near.backend p.far.client
    → Arrives n (step p e).near.backend (step p e).far.client
unfolding step
quiet-Arrives p e n v ne (shut, h) =
    let (more, written, kept) = grown_up p v e in
    let (none_more, shut') = kept shut in
    let heard = run-Hears at_client p.far (far_events p e) (up_silent p e ne) in
    let same : (step p e).near.backend.written ≡ p.near.backend.written =
      written
      ∙ ap (λ t. p.near.backend.written ++ t) none_more
      ∙ append-nil p.near.backend.written in
    (
      shut',
      elim h [
        | inl over ↦ inl (still_ended p.far.client (step p e).far.client heard over)
        | inr few ↦ inr (rw (same, heard.0) few)
      ],
    )

shorter :
    (b : ℕ) (rest : List ℕ) (n : ℕ) (src dst : Conn)
    → src.written ≡ dst.sent ++ (b ∷ rest)
    → length (in_flight src.written dst.sent) < 1 + n
    → length (in_flight src.written (dst.sent ++ b ∷ [])) < n
shorter b rest n src dst e h =
    rw
      (in_flight-append src.written (dst.sent ++ b ∷ []) rest
        (e ∙ sym (append_assoc dst.sent (b ∷ []) rest)))
      (omega (arith, h, ap length (in_flight-append src.written dst.sent (b ∷ rest) e)))

sent-Arrives :
    (b : ℕ) (rest : List ℕ) (n : ℕ) (src dst : Conn)
    → src.written ≡ dst.sent ++ (b ∷ rest)
    → Arrives (1 + n) src dst
    → Arrives n src (after_peer (send b) dst)
sent-Arrives b rest n src dst e (closed, h) = elim (Bool-cases (dst.ended || dst.failed)) [
  | inl over ↦ rw over (closed, inl over)
  | inr goes_on ↦ rw goes_on (closed, inr (shorter b rest n src dst e (few h goes_on)))
]
  where
    few :
        (HasEnded dst ⊎ (length (in_flight src.written dst.sent) < 1 + n))
        → (dst.ended || dst.failed) ≡ false
        → length (in_flight src.written dst.sent) < 1 + n
    few (inl over) open_yet = absurd (ground (arith, over))
    few (inr h) open_yet = h

-- What arrives at the second relay is one byte less to come, or the end.
arrive-Arrives :
    (fl : List ℕ) (shut : Bool) (src : Conn) (s : Session) (n : ℕ)
    → in_flight src.written s.client.sent ≡ fl
    → (src.half_closed || src.closed) ≡ shut
    → Wire src s.client
    → Arrives (1 + n) src s.client
    → Arrives n src (Session.run s (arriving at_client fl shut)).client
unfolding Session.run
arrive-Arrives (b ∷ fl) shut src s n e k (rest, same, last) h =
    let left : rest ≡ b ∷ fl = sym (in_flight-append src.written s.client.sent rest same) ∙ e in
    sent-Arrives b fl n src s.client (same ∙ ap (λ t. s.client.sent ++ t) left) h
arrive-Arrives [] true src s n e k w (closed, h) = (closed, inl refl)
arrive-Arrives [] false src s n e k w (closed, h) = absurd (ground (arith, closed))

up-Arrives :
    (p : Tandem) (n : ℕ)
    → Inv p
    → Arrives (1 + n) p.near.backend p.far.client
    → Arrives n (step p carry_up).near.backend (step p carry_up).far.client
unfolding step Session.run
up-Arrives p n v h =
    arrive-Arrives (pending p) (p.near.backend.half_closed || p.near.backend.closed) p.near.backend
      p.far n refl refl v.up_wire h

step-Arrives :
    (p : Tandem) (e : Event) (n : ℕ)
    → Inv p
    → Arrives (carry_of e + n) p.near.backend p.far.client
    → Arrives n (step p e).near.backend (step p e).far.client
step-Arrives p carry_up n v h = up-Arrives p n v h
step-Arrives p (caller m) n v h = quiet-Arrives p (caller m) n v (λ e. cc) (lower n p h)
step-Arrives p (server m) n v h = quiet-Arrives p (server m) n v (λ e. cc) (lower n p h)
step-Arrives p (works hop side) n v h = quiet-Arrives p (works hop side) n v (λ e. cc) (lower n p h)
step-Arrives p (returns hop) n v h = quiet-Arrives p (returns hop) n v (λ e. cc) (lower n p h)
step-Arrives p carry_down n v h = quiet-Arrives p carry_down n v (λ e. cc) (lower n p h)
step-Arrives p cut n v h = quiet-Arrives p cut n v (λ e. cc) (lower n p h)

run-Arrives :
    (es : List Event) (p : Tandem) (n : ℕ)
    → Inv p
    → Arrives (carries es + n) p.near.backend p.far.client
    → Arrives n (run p es).near.backend (run p es).far.client
unfolding run
run-Arrives [] p n v h = lower n p h
run-Arrives (e ∷ es) p n v h = run-Arrives es (step p e) n (step-Inv p v e) (
    step-Arrives p e (carries es + n) v (
      Arrives-le (carries (e ∷ es) + n) (carry_of e + (carries es + n)) p.near.backend p.far.client
        (omega arith) h))

-- A caller that gives up shows at the server, through both relays: if the caller has half-closed or
-- its connection has failed, and then its pipe has a round for every byte still to read and one more,
-- the tailnet carries every byte in flight and one thing more, and the second relay's pipe has a round
-- for every byte still to read and one more, the server's connection is half-closed or closed,
-- whatever else happens meanwhile, and whatever the server does, be it nothing.
pub giving_up_reaches_server :
    (es first second third : List Event)
    → let p = run new_tandem es in
      let q = run p first in
      let r = run q second in
      HasEnded p.near.client
      → length p.near.client.unread < rounds near_hop first
      → length (pending q) < carries second
      → length r.far.client.unread < rounds far_hop third
      → IsShut (run r third).far.backend
giving_up_reaches_server es first second third ended a b c =
    let p = run new_tandem es in
    let q = run p first in
    let r = run q second in
    let t = run r third in
    let v = run-Inv p first (run-Inv new_tandem es new-Inv) in
    let w = run-Inv r third (run-Inv q second v) in
    let over =
      over_now q.near.up_done q.near.client (near-Ends first p 0 (inr (ended, omega (arith, a)))) in
    let (_, arrived) =
      run-Arrives second q 0 v (is_shut q.near v.near_sound.0 over, inr (omega (arith, b))) in
    let gone = seen r arrived in
    let over' =
      over_now t.far.up_done t.far.client (far-Ends third r 0 (inr (gone, omega (arith, c)))) in
    is_shut t.far w.far_sound.0 over'
  where
    seen : (r : Tandem) → (HasEnded r.far.client ⊎ (length (pending r) < 0)) → HasEnded r.far.client
    seen r (inl over) = over
    seen r (inr none_left) = absurd (omega (arith, none_left))
