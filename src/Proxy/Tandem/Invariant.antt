-- ===== src/Proxy/Tandem/Invariant.antt =====
-- What holds of two relays in a row whatever happens.
use sccache_dist_action.Common.{
  All, Bool-cases, ℕ, ◌≡◌, refl, sym, ap, ◌∙◌, subst, inl, inr, ◌≢◌, Bool, true, false, ◌||◌, List,
  [], ◌∷◌, ◌++◌, append_assoc, arith,
}
use sccache_dist_action.Proxy.Session.{
  Conn, new_conn, Session, Side, at_client, at_backend, send, finish, reset, peer, after_peer,
  new_session,
}
use sccache_dist_action.Proxy.Session as Session
use sccache_dist_action.Proxy.Session.Round.{IsShut}
use sccache_dist_action.Proxy.Session.Invariant.{IsSound, run-IsSound, new-IsSound}
use sccache_dist_action.Proxy.Session.Closing.{Able, run-Able}
use sccache_dist_action.Proxy.Tandem.{
  Tandem, near_hop, far_hop, Event, caller, server, works, returns, carry_up, carry_down, cut,
  in_flight, arriving, near_events, far_events, step, run, new_tandem,
}
use sccache_dist_action.Proxy.Tandem.Wire.{conn_at, Grows, Hears, IsSilentAt, run-Grows, run-Hears}

-- What has arrived at one end of the connection is what was written at the other, up to what is in
-- flight; an end that arrived has all bytes before it.
abbrev pub Wire : Conn → Conn → Type 0
Wire src dst =
    (rest : List ℕ) × (src.written ≡ dst.sent ++ rest)
    × (dst.ended ≡ true → (rest ≡ []) × IsShut src)

pub in_flight-append :
    (written sent rest : List ℕ) → written ≡ sent ++ rest → in_flight written sent ≡ rest
in_flight-append written [] rest e = e
in_flight-append [] (b ∷ sent) rest e = cc
in_flight-append (a ∷ written) (b ∷ sent) rest e = in_flight-append written sent rest (cc)

grown-Wire : (src src' dst : Conn) → Grows src src' → Wire src dst → Wire src' dst
grown-Wire src src' dst (more, e, kept) (rest, same, last) = (
  rest ++ more,
  e ∙ ap (λ t. t ++ more) same ∙ append_assoc dst.sent rest more,
  λ ended.
      let (none_left, shut) = last ended in
      let (no_more, shut') = kept shut in (rw (none_left, no_more) refl, shut'),
)

heard-Wire : (src dst dst' : Conn) → Hears dst dst' → Wire src dst → Wire src dst'
heard-Wire src dst dst' (same_sent, same_end, _) (rest, e, last) =
    (rest, e ∙ ap (λ t. t ++ rest) (sym same_sent), λ ended. last (sym same_end ∙ ended))

sent-Wire :
    (b : ℕ) (rest : List ℕ) (src dst : Conn)
    → src.written ≡ dst.sent ++ (b ∷ rest)
    → (dst.ended ≡ true → (b ∷ rest ≡ []) × IsShut src)
    → Wire src (after_peer (send b) dst)
sent-Wire b rest src dst e last = elim (Bool-cases (dst.ended || dst.failed)) [
  | inl over ↦ rw over (b ∷ rest, e, last)
  | inr goes_on ↦ rw goes_on (
    rest,
    e ∙ sym (append_assoc dst.sent (b ∷ []) rest),
    λ ended. absurd (not_both ended goes_on),
  )
]
  where
    not_both : dst.ended ≡ true → (dst.ended || dst.failed) ≡ false → ⊥
    not_both h k = absurd (ground arith)

IsShut-of : (c : Conn) → (c.half_closed || c.closed) ≡ true → IsShut c
IsShut-of c h = ground arith

-- What arrives, keeps the wire in order.
arrive-Wire :
    (side : Side) (fl : List ℕ) (shut : Bool) (src : Conn) (s : Session)
    → in_flight src.written (conn_at side s).sent ≡ fl
    → (src.half_closed || src.closed) ≡ shut
    → Wire src (conn_at side s)
    → Wire src (conn_at side (Session.run s (arriving side fl shut)))
unfolding Session.run Session.step
arrive-Wire at_client (b ∷ fl) shut src s e k (rest, same, last) =
    let left : rest ≡ b ∷ fl = sym (in_flight-append src.written s.client.sent rest same) ∙ e in
    sent-Wire b fl src s.client (same ∙ ap (λ t. s.client.sent ++ t) left)
      (λ ended. subst (λ t. (t ≡ []) × IsShut src) left (last ended))
arrive-Wire at_backend (b ∷ fl) shut src s e k (rest, same, last) =
    let left : rest ≡ b ∷ fl = sym (in_flight-append src.written s.backend.sent rest same) ∙ e in
    sent-Wire b fl src s.backend (same ∙ ap (λ t. s.backend.sent ++ t) left)
      (λ ended. subst (λ t. (t ≡ []) × IsShut src) left (last ended))
arrive-Wire at_client [] true src s e k (rest, same, last) = (
  rest,
  same,
  λ ended. (sym (in_flight-append src.written s.client.sent rest same) ∙ e, IsShut-of src k),
)
arrive-Wire at_backend [] true src s e k (rest, same, last) = (
  rest,
  same,
  λ ended. (sym (in_flight-append src.written s.backend.sent rest same) ∙ e, IsShut-of src k),
)
arrive-Wire side [] false src s e k w = w

-- Both relays are as a relay always is, and both ways of the connection between them are in order.
pub record Inv (p : Tandem) : Type 0 where
  pub near_sound : IsSound p.near
  pub far_sound : IsSound p.far
  pub up_wire : Wire p.near.backend p.far.client
  pub down_wire : Wire p.far.client p.near.backend

-- The events that carry nothing toward a relay are silent to it.
pub up_silent :
    (p : Tandem) (e : Event) → e ≢ carry_up → All (IsSilentAt at_client) (far_events p e)
up_silent p (caller m) ne = tt
up_silent p (server m) ne = (tt, tt)
up_silent p (works near_hop side) ne = tt
up_silent p (works far_hop side) ne = (tt, tt)
up_silent p (returns near_hop) ne = tt
up_silent p (returns far_hop) ne = (tt, tt)
up_silent p carry_up ne = absurd (ne refl)
up_silent p carry_down ne = tt
up_silent p cut ne = (tt, tt)

down_silent :
    (p : Tandem) (e : Event) → e ≢ carry_down → All (IsSilentAt at_backend) (near_events p e)
down_silent p (caller m) ne = (tt, tt)
down_silent p (server m) ne = tt
down_silent p (works near_hop side) ne = (tt, tt)
down_silent p (works far_hop side) ne = tt
down_silent p (returns near_hop) ne = (tt, tt)
down_silent p (returns far_hop) ne = tt
down_silent p carry_up ne = tt
down_silent p carry_down ne = absurd (ne refl)
down_silent p cut ne = (tt, tt)

module _ (p : Tandem) (v : Inv p) where
  pub grown_up : (e : Event) → Grows p.near.backend (step p e).near.backend
  unfolding step
  grown_up e = run-Grows at_backend p.near (near_events p e) v.near_sound

  grown_down : (e : Event) → Grows p.far.client (step p e).far.client
  unfolding step
  grown_down e = run-Grows at_client p.far (far_events p e) v.far_sound

  up_kept : (e : Event) → e ≢ carry_up → Wire (step p e).near.backend (step p e).far.client
  unfolding step
  up_kept e ne =
      heard-Wire (step p e).near.backend p.far.client (step p e).far.client
        (run-Hears at_client p.far (far_events p e) (up_silent p e ne))
        (grown-Wire p.near.backend (step p e).near.backend p.far.client (grown_up e) v.up_wire)

  down_kept : (e : Event) → e ≢ carry_down → Wire (step p e).far.client (step p e).near.backend
  unfolding step
  down_kept e ne =
      heard-Wire (step p e).far.client p.near.backend (step p e).near.backend
        (run-Hears at_backend p.near (near_events p e) (down_silent p e ne))
        (grown-Wire p.far.client (step p e).far.client p.near.backend (grown_down e) v.down_wire)

  up_carried : Wire (step p carry_up).near.backend (step p carry_up).far.client
  unfolding step Session.run
  up_carried =
      arrive-Wire at_client (in_flight p.near.backend.written p.far.client.sent)
        (p.near.backend.half_closed || p.near.backend.closed) p.near.backend p.far refl refl
        v.up_wire

  down_carried : Wire (step p carry_down).far.client (step p carry_down).near.backend
  unfolding step Session.run
  down_carried =
      arrive-Wire at_backend (in_flight p.far.client.written p.near.backend.sent)
        (p.far.client.half_closed || p.far.client.closed) p.far.client p.near refl refl v.down_wire

  up_next : (e : Event) → Wire (step p e).near.backend (step p e).far.client
  up_next (caller m) = up_kept (caller m) (λ h. cc)
  up_next (server m) = up_kept (server m) (λ h. cc)
  up_next (works hop side) = up_kept (works hop side) (λ h. cc)
  up_next (returns hop) = up_kept (returns hop) (λ h. cc)
  up_next carry_up = up_carried
  up_next carry_down = up_kept carry_down (λ h. cc)
  up_next cut = up_kept cut (λ h. cc)

  down_next : (e : Event) → Wire (step p e).far.client (step p e).near.backend
  down_next (caller m) = down_kept (caller m) (λ h. cc)
  down_next (server m) = down_kept (server m) (λ h. cc)
  down_next (works hop side) = down_kept (works hop side) (λ h. cc)
  down_next (returns hop) = down_kept (returns hop) (λ h. cc)
  down_next carry_up = down_kept carry_up (λ h. cc)
  down_next carry_down = down_carried
  down_next cut = down_kept cut (λ h. cc)

  pub step-Inv : (e : Event) → Inv (step p e)
  unfolding step
  step-Inv e = record {
    near_sound = run-IsSound p.near (near_events p e) v.near_sound;
    far_sound = run-IsSound p.far (far_events p e) v.far_sound;
    up_wire = up_next e;
    down_wire = down_next e;
  }

pub run-Inv : (p : Tandem) (es : List Event) → Inv p → Inv (run p es)
unfolding run
run-Inv p [] v = v
run-Inv p (e ∷ es) v = run-Inv (step p e) es (step-Inv p v e)

new-Wire : (c d : Bool) → Wire (new_conn c) (new_conn d)
new-Wire c d = ([], refl, λ ended. cc)

pub new-Inv : Inv new_tandem
new-Inv = record {
  near_sound = new-IsSound true true;
  far_sound = new-IsSound true true;
  up_wire = new-Wire true true;
  down_wire = new-Wire true true;
}

-- All four connections can half-close.
abbrev pub AllAble : Tandem → Type 0
AllAble p = Able true true p.near × Able true true p.far

pub run-AllAble : (p : Tandem) (es : List Event) → AllAble p → AllAble (run p es)
unfolding run step
run-AllAble p [] h = h
run-AllAble p (e ∷ es) (h, h') =
    run-AllAble (step p e) es
      (run-Able true true p.near (near_events p e) h, run-Able true true p.far (far_events p e) h')
