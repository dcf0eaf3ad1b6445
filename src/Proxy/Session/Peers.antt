-- ===== src/Proxy/Session/Peers.antt =====
-- internal/proxy/proxy.go: what the peers of a relay's two connections do to them.
use sccache_dist_action.Common.{
  Bool-cases, false_ne_true, ℕ, ◌≡◌, refl, sym, ap, ◌∙◌, inl, inr, Bool, true, false, ◌||◌, List,
  [], ◌∷◌, ◌++◌, append_assoc, arith,
}
use sccache_dist_action.Proxy.Session.{Conn, PeerMove, send, finish, reset, after_peer}
use sccache_dist_action.Proxy.Session.Round.{Reason, Way, IsHeld}

-- What a peer does leaves what it has got, and adds to what it has sent.
send-Way :
    (done : Bool) (b : ℕ) (src dst : Conn)
    → src.ended ≡ false
    → src.failed ≡ false
    → Way done src dst
    → Way done (record src { sent = src.sent ++ b ∷ []; unread = src.unread ++ b ∷ [] }) dst
send-Way true b src dst goes_on fine (rest, e, (why, shut)) = (
  rest ++ b ∷ [],
  ap (λ t. t ++ b ∷ []) e ∙ append_assoc dst.written rest (b ∷ []),
  (later why, shut),
)
  where
    later : Reason rest src dst → Reason (rest ++ b ∷ []) src dst
    later (inl (all, over)) = absurd (false_ne_true (sym goes_on ∙ over))
    later (inr why) = inr why
send-Way false b src dst goes_on fine (rest, e, (same, is_open, whole)) = (
  rest ++ b ∷ [],
  ap (λ t. t ++ b ∷ []) e ∙ append_assoc dst.written rest (b ∷ []),
  (ap (λ t. t ++ b ∷ []) same, is_open, whole),
)

pub from_peer :
    (m : PeerMove) (done : Bool) (src dst : Conn)
    → Way done src dst
    → Way done (after_peer m src) dst
from_peer (send b) done src dst w = elim (Bool-cases (src.ended || src.failed)) [
  | inl over ↦ rw over w
  | inr goes_on ↦ rw goes_on (send-Way done b src dst (ground arith) (ground arith) w)
]
from_peer finish true src dst (rest, e, (why, shut)) = (rest, e, (ended why, shut))
  where
    ended : Reason rest src dst → Reason rest (record src { ended = true }) dst
    ended (inl (all, over)) = inl (all, refl)
    ended (inr why) = inr why
from_peer finish false src dst w = w
from_peer reset true src dst (rest, e, (why, shut)) = (rest, e, (inr (inl refl), shut))
from_peer reset false src dst w = w

sent-Way :
    (done : Bool) (sent unread : List ℕ) (src dst : Conn)
    → Way done src dst
    → Way done src (record dst { sent = sent; unread = unread })
sent-Way true sent unread src dst w = w
sent-Way false sent unread src dst w = w

pub to_peer :
    (m : PeerMove) (done : Bool) (src dst : Conn)
    → Way done src dst
    → Way done src (after_peer m dst)
to_peer (send b) done src dst w = elim (Bool-cases (dst.ended || dst.failed)) [
  | inl over ↦ rw over w
  | inr goes_on ↦ rw goes_on (sent-Way done (dst.sent ++ b ∷ []) (dst.unread ++ b ∷ []) src dst w)
]
to_peer finish true src dst w = w
to_peer finish false src dst w = w
to_peer reset true src dst (rest, e, (why, shut)) = (rest, e, (inr (inr (inl refl)), shut))
to_peer reset false src dst w = w

pub peer-IsHeld :
    (m : PeerMove) (left : Bool) (c : Conn) → IsHeld left c → IsHeld left (after_peer m c)
peer-IsHeld (send b) left c h = elim (Bool-cases (c.ended || c.failed)) [
  | inl over ↦ rw over h
  | inr goes_on ↦ rw goes_on h
]
peer-IsHeld finish left c h = h
peer-IsHeld reset left c h = h
