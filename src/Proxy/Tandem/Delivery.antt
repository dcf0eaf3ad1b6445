-- ===== src/Proxy/Tandem/Delivery.antt =====
-- What two relays in a row pass on.
use sccache_dist_action.Common.{
  ◌≡◌, refl, sym, ap, ◌∙◌, subst, inl, inr, ℕ, Bool, true, false, ◌||◌, List, ◌++◌, append-nil,
  append_assoc, arith,
}
use sccache_dist_action.Proxy.Session.{Conn}
use sccache_dist_action.Proxy.Session.Round.{Way, Reason}
use sccache_dist_action.Proxy.Tandem.{Tandem, Event, run, new_tandem}
use sccache_dist_action.Proxy.Tandem.Wire.{shut_done}
use sccache_dist_action.Proxy.Tandem.Invariant.{Wire, run-Inv, new-Inv, run-AllAble}

-- A connection failed: the caller's, the one through the tailnet at either end, or the server's.
abbrev pub has_failed : Tandem → Bool
has_failed p =
    p.near.client.failed || p.near.backend.failed || p.far.client.failed || p.far.backend.failed

-- What one side gets of the other: the first of the bytes that were sent, and all that were and will
-- be, once the pipe before it is done, if no connection failed.
abbrev pub IsPassedOn : Conn → Conn → Bool → Bool → Type 0
IsPassedOn src dst done fails =
    (rest : List ℕ) × (src.sent ≡ dst.written ++ rest)
    × (done ≡ true → fails ≡ false → (dst.written ≡ src.sent) × (src.ended ≡ true))

-- One pipe, if neither of its connections failed.
done_whole :
    (done : Bool) (src dst : Conn)
    → Way done src dst
    → src.can_half_close ≡ true
    → done ≡ true
    → src.failed ≡ false
    → dst.failed ≡ false
    → (dst.written ≡ src.sent) × (src.ended ≡ true)
done_whole false src dst w able over f g = cc
done_whole true src dst (rest, e, (why, shut)) able over f g = whole why
  where
    whole : Reason rest src dst → (dst.written ≡ src.sent) × (src.ended ≡ true)
    whole (inl (all, ended)) =
        (sym (e ∙ ap (λ t. dst.written ++ t) all ∙ append-nil dst.written), ended)
    whole (inr h) = absurd (ground (arith, h))

-- Two pipes with the connection between them.
module _ (a b c d : Conn) (done done' : Bool) (way : Way done a b) (wire : Wire b c)
    (way' : Way done' c d) (able : a.can_half_close ≡ true) (able' : c.can_half_close ≡ true) where
  all_through :
      done' ≡ true
      → (a.failed || b.failed || c.failed || d.failed) ≡ false
      → (d.written ≡ a.sent) × (a.ended ≡ true)
  all_through over fine =
      let (got, ended) = done_whole done' c d way' able' over (ground arith) (ground arith) in
      let (none_left, shut) = wire.2 ended in
      let (got', ended') =
        done_whole done a b way able (shut_done done a b way shut) (ground arith) (ground arith) in
      let arrived : c.sent ≡ b.written =
        sym (wire.1 ∙ ap (λ t. c.sent ++ t) none_left ∙ append-nil c.sent) in
      (got ∙ arrived ∙ got', ended')

  passed_on : IsPassedOn a d done' (a.failed || b.failed || c.failed || d.failed)
  passed_on = (
    way'.0 ++ (wire.0 ++ way.0),
    way.1
        ∙ ap (λ t. t ++ way.0) (wire.1 ∙ ap (λ t. t ++ wire.0) way'.1)
        ∙ append_assoc (d.written ++ way'.0) wire.0 way.0
        ∙ append_assoc d.written way'.0 (wire.0 ++ way.0),
    all_through,
  )

failed_either_way : (a b c d : Bool) → (d || c || b || a) ≡ (a || b || c || d)
failed_either_way a b c d = ground arith

-- Through two relays in a row, whatever the caller, the server and the tailnet do, and however the
-- four pipes take turns: the server gets a prefix of what the caller sent, and the caller a prefix of
-- what the server sent. If the last pipe toward the one is done and none of the connections failed,
-- it has got all that the other sent, and the other has ended.
pub tandem_delivers :
    (es : List Event)
    → let p = run new_tandem es in
      IsPassedOn p.near.client p.far.backend p.far.up_done (has_failed p)
      × IsPassedOn p.far.backend p.near.client p.near.down_done (has_failed p)
tandem_delivers es =
    let p = run new_tandem es in
    let v = run-Inv new_tandem es new-Inv in
    let ((ca, ba), (ca', ba')) = run-AllAble new_tandem es ((refl, refl), (refl, refl)) in
    let up =
      passed_on p.near.client p.near.backend p.far.client p.far.backend p.near.up_done p.far.up_done
        v.near_sound.0 v.up_wire v.far_sound.0 ca ca' in
    let down =
      passed_on p.far.backend p.far.client p.near.backend p.near.client p.far.down_done
        p.near.down_done v.far_sound.1 v.down_wire v.near_sound.1 ba' ba in
    (
      up,
      subst (IsPassedOn p.far.backend p.near.client p.near.down_done)
          (failed_either_way p.near.client.failed p.near.backend.failed p.far.client.failed
            p.far.backend.failed)
          down,
    )
