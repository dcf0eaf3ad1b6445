-- ===== src/Proxy/Session/Round.antt =====
-- internal/proxy/proxy.go: what a round of a pipe does to the two connections of a relay.
use sccache_dist_action.Common.{
  Bool-cases, ℕ, ◌≡◌, refl, sym, ap, ◌∙◌, ◌⊎◌, inl, inr, Bool, true, false, ◌||◌, List, [], ◌∷◌,
  ◌++◌, append_assoc, arith,
}
use sccache_dist_action.Proxy.Session.{
  Conn, close_write, takes_writes, passed, read_next, pipe_round,
}

-- Why a pipe is done: all that will come is passed on, or a connection failed, or the source was
-- closed by the other pipe, which cannot half-close it.
abbrev pub Reason : List ℕ → Conn → Conn → Type 0
Reason rest src dst =
    ((rest ≡ []) × (src.ended ≡ true))
    ⊎ (src.failed ≡ true)
    ⊎ (dst.failed ≡ true)
    ⊎ (src.can_half_close ≡ false)

abbrev pub IsShut : Conn → Type 0
IsShut c = (c.half_closed ≡ true) ⊎ (c.closed ≡ true)

-- A pipe at work has passed on what it read, and its destination is open; one that is done has shut it.
abbrev pub Standing : Bool → List ℕ → Conn → Conn → Type 0
Standing false rest src dst = (rest ≡ src.unread) × (dst.half_closed ≡ false) × (dst.closed ≡ false)
Standing true rest src dst = Reason rest src dst × IsShut dst

-- What the destination got is what the source sent, up to a rest.
abbrev pub Way : Bool → Conn → Conn → Type 0
Way done src dst = (rest : List ℕ) × (src.sent ≡ dst.written ++ rest) × Standing done rest src dst

-- A connection is closed when `relay` has returned, or in place of a half-close.
abbrev pub IsHeld : Bool → Conn → Type 0
IsHeld left c = (c.closed ≡ false) ⊎ (left ≡ true) ⊎ (c.can_half_close ≡ false)

pub close_write-IsShut : (c : Conn) → IsShut (close_write c)
close_write-IsShut c = elim (Bool-cases c.can_half_close) [
  | inl can ↦ rw can (inl refl)
  | inr cannot ↦ rw cannot (inr refl)
]

close_write-same :
    (c : Conn)
    → ((close_write c).sent ≡ c.sent)
      × ((close_write c).unread ≡ c.unread)
      × ((close_write c).ended ≡ c.ended)
      × ((close_write c).failed ≡ c.failed)
      × ((close_write c).written ≡ c.written)
      × ((close_write c).can_half_close ≡ c.can_half_close)
close_write-same c = elim (Bool-cases c.can_half_close) [
  | inl can ↦ rw can (refl, refl, refl, refl, refl, refl)
  | inr cannot ↦ rw cannot (refl, refl, refl, refl, refl, refl)
]

close_write-IsHeld : (left : Bool) (c : Conn) → IsHeld left c → IsHeld left (close_write c)
close_write-IsHeld left c h = ground arith

-- A pipe that ends shuts its destination.
ends :
    (src dst : Conn) (rest : List ℕ)
    → src.sent ≡ dst.written ++ rest
    → Reason rest src dst
    → Way true src (close_write dst)
ends src dst rest e why = elim (Bool-cases dst.can_half_close) [
  | inl can ↦ rw can (rest, e, (why, inl refl))
  | inr cannot ↦ rw cannot (rest, e, (why, inr refl))
]

-- The other way does not depend on how this pipe ends.
close_write-Way : (done : Bool) (src dst : Conn) → Way done dst src → Way done (close_write dst) src
close_write-Way false src dst w = elim (Bool-cases dst.can_half_close) [
  | inl can ↦ rw can w
  | inr cannot ↦ rw cannot w
]
close_write-Way true src dst w = elim (Bool-cases dst.can_half_close) [
  | inl can ↦ rw can (rw can at w)
  | inr cannot ↦ rw cannot (rw cannot at w)
]

-- What a round of a pipe at work keeps: its own way, the other one, and how its two ends are held.
abbrev pub Kept : Bool → Bool → Conn × Conn × Bool → Type 0
Kept other left t = Way t.2 t.0 t.1 × Way other t.1 t.0 × IsHeld left t.0 × IsHeld left t.1

-- The other way does not depend on what this pipe reads and writes.
copied-Way :
    (done : Bool) (unread written : List ℕ) (src dst : Conn)
    → Way done dst src
    → Way done (record dst { written = written }) (record src { unread = unread })
copied-Way true unread written src dst w = w
copied-Way false unread written src dst w = w

passed-Kept :
    (takes other left : Bool) (b : ℕ) (rest : List ℕ) (src dst : Conn)
    → (takes ≡ false → dst.failed ≡ true)
    → src.unread ≡ b ∷ rest
    → Way false src dst
    → Way other dst src
    → IsHeld left src
    → IsHeld left dst
    → Kept other left (passed b rest takes src dst)
passed-Kept false other left b rest src dst fails next (held, e, same) w h h' = (
  ends (record src { unread = rest }) dst held e (inr (inr (inl (fails refl)))),
  close_write-Way other (record src { unread = rest }) dst
      (copied-Way other rest dst.written src dst w),
  h,
  close_write-IsHeld left dst h',
)
passed-Kept true other left b rest src dst fails next (held, e, (same, is_open, whole)) w h h' = (
  (
    rest,
    e ∙ ap (λ t. dst.written ++ t) (same ∙ next) ∙ sym (append_assoc dst.written (b ∷ []) rest),
    (refl, is_open, whole),
  ),
  copied-Way other rest (dst.written ++ b ∷ []) src dst w,
  h,
  h',
)

takes_writes-failed :
    (c : Conn) → c.half_closed ≡ false → c.closed ≡ false → takes_writes c ≡ false → c.failed ≡ true
takes_writes-failed c h k e = ground arith

read_next-Kept :
    (unread : List ℕ) (ended other left : Bool) (src dst : Conn)
    → src.unread ≡ unread
    → src.ended ≡ ended
    → Way false src dst
    → Way other dst src
    → IsHeld left src
    → IsHeld left dst
    → Kept other left (read_next unread ended src dst)
read_next-Kept (b ∷ rest) ended other left src dst u d (held, e, (same, half, whole)) w h h' =
    passed-Kept (takes_writes dst) other left b rest src dst (takes_writes-failed dst half whole) u
      (held, e, (same, half, whole)) w h h'
read_next-Kept [] true other left src dst u d (held, e, (same, is_open, whole)) w h h' = (
  ends src dst held e (inl (same ∙ u, d)),
  close_write-Way other src dst w,
  h,
  close_write-IsHeld left dst h',
)
read_next-Kept [] false other left src dst u d now w h h' = (now, w, h, h')

pub pipe_round-Kept :
    (other : Bool) (src dst : Conn)
    → Way false src dst
    → Way other dst src
    → IsHeld false src
    → IsHeld false dst
    → Kept other false (pipe_round src dst)
unfolding pipe_round
pipe_round-Kept other src dst (held, e, now) w h h' = elim (Bool-cases (src.failed || src.closed)) [
  | inl over ↦ rw over (
    ends src dst held e (stopped src dst h over),
    close_write-Way other src dst w,
    h,
    close_write-IsHeld false dst h',
  )
  | inr goes_on ↦
      rw goes_on
        (read_next-Kept src.unread src.ended other false src dst refl refl (held, e, now) w h h')
]
  where
    stopped :
        {rest : List ℕ} (src dst : Conn)
        → IsHeld false src
        → (src.failed || src.closed) ≡ true
        → Reason rest src dst
    stopped src dst h over = ground arith
