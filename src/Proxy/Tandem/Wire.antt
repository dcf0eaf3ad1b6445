-- ===== src/Proxy/Tandem/Wire.antt =====
-- What a relay does to the connection between it and the next relay.
use sccache_dist_action.Common.{
  All, Bool-cases, false_ne_true, ℕ, ◌≡◌, refl, sym, ap, ◌∙◌, inl, inr, Bool, true, false, ◌||◌,
  ◌&&◌, List, [], ◌∷◌, ◌++◌, append-nil, append_assoc,
}
use sccache_dist_action.Proxy.Session.{
  Conn, close_write, takes_writes, passed, read_next, pipe_round, Session, Side, at_client,
  at_backend, PeerMove, send, finish, reset, Event, peer, pump, leave, after_peer, flip, pumped,
  pump_up, step, run,
}
use sccache_dist_action.Proxy.Session.Round.{IsShut, Way}
use sccache_dist_action.Proxy.Session.Invariant.{IsSound, step-IsSound}

abbrev pub conn_at : Side → Session → Conn
conn_at at_client s = s.client
conn_at at_backend s = s.backend

-- What a relay does to a connection: it writes more, but nothing to one that it has shut.
abbrev pub Grows : Conn → Conn → Type 0
Grows c d = (more : List ℕ) × (d.written ≡ c.written ++ more) × (IsShut c → (more ≡ []) × IsShut d)

-- What comes from the peer of a connection is as it was; and a failure stays.
abbrev pub Hears : Conn → Conn → Type 0
Hears c d = (d.sent ≡ c.sent) × (d.ended ≡ c.ended) × (c.failed ≡ true → d.failed ≡ true)

-- The reading end of a pipe, and the writing one.
abbrev AsSource : Conn → Conn → Type 0
AsSource c d =
    Hears c d × (d.written ≡ c.written) × (d.half_closed ≡ c.half_closed) × (d.closed ≡ c.closed)

abbrev AsTarget : Conn → Conn → Type 0
AsTarget c d = Hears c d × ((more : List ℕ) × (d.written ≡ c.written ++ more))

abbrev Piped : Conn → Conn → Conn × Conn × Bool → Type 0
Piped src dst t = AsSource src t.0 × AsTarget dst t.1

close_write-AsTarget : (c : Conn) → AsTarget c (close_write c)
close_write-AsTarget c = elim (Bool-cases c.can_half_close) [
  | inl can ↦ rw can ((refl, refl, λ f. f), ([], sym (append-nil c.written)))
  | inr cannot ↦ rw cannot ((refl, refl, λ f. f), ([], sym (append-nil c.written)))
]

same-AsSource : (c : Conn) → AsSource c c
same-AsSource c = ((refl, refl, λ f. f), refl, refl, refl)

passed-Piped :
    (takes : Bool) (b : ℕ) (rest : List ℕ) (src dst : Conn)
    → Piped src dst (passed b rest takes src dst)
passed-Piped true b rest src dst =
    (((refl, refl, λ f. f), refl, refl, refl), ((refl, refl, λ f. f), (b ∷ [], refl)))
passed-Piped false b rest src dst =
    (((refl, refl, λ f. f), refl, refl, refl), close_write-AsTarget dst)

read_next-Piped :
    (unread : List ℕ) (ended : Bool) (src dst : Conn)
    → Piped src dst (read_next unread ended src dst)
read_next-Piped (b ∷ rest) ended src dst = passed-Piped (takes_writes dst) b rest src dst
read_next-Piped [] true src dst = (same-AsSource src, close_write-AsTarget dst)
read_next-Piped [] false src dst =
    (same-AsSource src, ((refl, refl, λ f. f), ([], sym (append-nil dst.written))))

pipe_round-Piped : (src dst : Conn) → Piped src dst (pipe_round src dst)
unfolding pipe_round
pipe_round-Piped src dst = elim (Bool-cases (src.failed || src.closed)) [
  | inl over ↦ rw over (same-AsSource src, close_write-AsTarget dst)
  | inr goes_on ↦ rw goes_on (read_next-Piped src.unread src.ended src dst)
]

same-Grows : (c : Conn) → Grows c c
same-Grows c = ([], sym (append-nil c.written), λ shut. (refl, shut))

-- Changes that leave alone what is written and how the connection is shut.
quiet-Grows :
    (c d : Conn)
    → d.written ≡ c.written
    → d.half_closed ≡ c.half_closed
    → d.closed ≡ c.closed
    → Grows c d
quiet-Grows c d e h k = ([], e ∙ sym (append-nil c.written), λ shut. (refl, still shut))
  where
    still : IsShut c → IsShut d
    still (inl half) = inl (h ∙ half)
    still (inr whole) = inr (k ∙ whole)

open_now : (src dst : Conn) → Way false src dst → ¬ IsShut dst
open_now src dst (rest, e, (same, half, whole)) (inl shut) =
    absurd (false_ne_true (sym half ∙ shut))
open_now src dst (rest, e, (same, half, whole)) (inr shut) =
    absurd (false_ne_true (sym whole ∙ shut))

-- A connection that the relay has shut has its pipe behind it.
pub shut_done : (done : Bool) (src dst : Conn) → Way done src dst → IsShut dst → done ≡ true
shut_done true src dst w shut = refl
shut_done false src dst w shut = absurd (open_now src dst w shut)

pumped-Grows :
    (done : Bool) (s : Session)
    → Way done s.client s.backend
    → Grows s.client (pumped done s).client × Grows s.backend (pumped done s).backend
unfolding pumped
pumped-Grows true s w = (same-Grows s.client, same-Grows s.backend)
pumped-Grows false s w =
    let ((_, a, b, c), (_, (more, e))) = pipe_round-Piped s.client s.backend in
    (
      quiet-Grows s.client (pipe_round s.client s.backend).0 a b c,
      (more, e, λ shut. absurd (open_now s.client s.backend w shut)),
    )

pumped-Hears :
    (done : Bool) (s : Session)
    → Hears s.client (pumped done s).client × Hears s.backend (pumped done s).backend
unfolding pumped
pumped-Hears true s = ((refl, refl, λ f. f), (refl, refl, λ f. f))
pumped-Hears false s = let ((a, _, _, _), (b, _)) = pipe_round-Piped s.client s.backend in (a, b)

after_peer-Grows : (m : PeerMove) (c : Conn) → Grows c (after_peer m c)
after_peer-Grows (send b) c = elim (Bool-cases (c.ended || c.failed)) [
  | inl over ↦ rw over (same-Grows c)
  | inr goes_on ↦ rw goes_on (
      quiet-Grows c (record c { sent = c.sent ++ b ∷ []; unread = c.unread ++ b ∷ [] }) refl refl
        refl)
]
after_peer-Grows finish c = quiet-Grows c (record c { ended = true }) refl refl refl
after_peer-Grows reset c = quiet-Grows c (record c { failed = true }) refl refl refl

closed-Grows : (c : Conn) → Grows c (record c { closed = true })
closed-Grows c = ([], sym (append-nil c.written), λ shut. (refl, inr refl))

-- Whatever happens at a relay, its two connections only grow.
step-Grows :
    (side : Side) (s : Session) (e : Event)
    → IsSound s
    → Grows (conn_at side s) (conn_at side (step s e))
unfolding step pump_up
step-Grows at_client s (peer at_client m) h = after_peer-Grows m s.client
step-Grows at_client s (peer at_backend m) h = same-Grows s.client
step-Grows at_client s (pump at_client) h = (pumped-Grows s.up_done s h.0).0
step-Grows at_client s (pump at_backend) h = (pumped-Grows s.down_done (flip s) h.1).1
step-Grows at_client s leave h = elim (Bool-cases (s.up_done && s.down_done)) [
  | inl over ↦ rw over (closed-Grows s.client)
  | inr goes_on ↦ rw goes_on (same-Grows s.client)
]
step-Grows at_backend s (peer at_client m) h = same-Grows s.backend
step-Grows at_backend s (peer at_backend m) h = after_peer-Grows m s.backend
step-Grows at_backend s (pump at_client) h = (pumped-Grows s.up_done s h.0).1
step-Grows at_backend s (pump at_backend) h = (pumped-Grows s.down_done (flip s) h.1).0
step-Grows at_backend s leave h = elim (Bool-cases (s.up_done && s.down_done)) [
  | inl over ↦ rw over (closed-Grows s.backend)
  | inr goes_on ↦ rw goes_on (same-Grows s.backend)
]

abbrev IsReset : PeerMove → Type 0
IsReset (send b) = ⊥
IsReset finish = ⊥
IsReset reset = Unit

-- A move of the relay itself, of the other peer, or a failure.
abbrev pub IsSilentAt : Side → Event → Type 0
IsSilentAt at_client (peer at_client m) = IsReset m
IsSilentAt at_client (peer at_backend m) = Unit
IsSilentAt at_backend (peer at_client m) = Unit
IsSilentAt at_backend (peer at_backend m) = IsReset m
IsSilentAt side (pump _) = Unit
IsSilentAt side leave = Unit

step-Hears :
    (side : Side) (s : Session) (e : Event)
    → IsSilentAt side e
    → Hears (conn_at side s) (conn_at side (step s e))
unfolding step pump_up
step-Hears at_client s (peer at_client (send b)) h = absurd h
step-Hears at_client s (peer at_client finish) h = absurd h
step-Hears at_client s (peer at_client reset) h = (refl, refl, λ f. refl)
step-Hears at_client s (peer at_backend m) h = (refl, refl, λ f. f)
step-Hears at_client s (pump at_client) h = (pumped-Hears s.up_done s).0
step-Hears at_client s (pump at_backend) h = (pumped-Hears s.down_done (flip s)).1
step-Hears at_client s leave h = elim (Bool-cases (s.up_done && s.down_done)) [
  | inl over ↦ rw over (refl, refl, λ f. f)
  | inr goes_on ↦ rw goes_on (refl, refl, λ f. f)
]
step-Hears at_backend s (peer at_client m) h = (refl, refl, λ f. f)
step-Hears at_backend s (peer at_backend (send b)) h = absurd h
step-Hears at_backend s (peer at_backend finish) h = absurd h
step-Hears at_backend s (peer at_backend reset) h = (refl, refl, λ f. refl)
step-Hears at_backend s (pump at_client) h = (pumped-Hears s.up_done s).1
step-Hears at_backend s (pump at_backend) h = (pumped-Hears s.down_done (flip s)).0
step-Hears at_backend s leave h = elim (Bool-cases (s.up_done && s.down_done)) [
  | inl over ↦ rw over (refl, refl, λ f. f)
  | inr goes_on ↦ rw goes_on (refl, refl, λ f. f)
]

Grows-trans : (c d e : Conn) → Grows c d → Grows d e → Grows c e
Grows-trans c d e (more, h, kept) (more', h', kept') = (
  more ++ more',
  h' ∙ ap (λ t. t ++ more') h ∙ append_assoc c.written more more',
  λ shut.
      let (none_more, shut') = kept shut in
      let (none_more', shut_after) = kept' shut' in (rw (none_more, none_more') refl, shut_after),
)

pub run-Grows :
    (side : Side) (s : Session) (es : List Event)
    → IsSound s
    → Grows (conn_at side s) (conn_at side (run s es))
unfolding run
run-Grows side s [] h = same-Grows (conn_at side s)
run-Grows side s (e ∷ es) h =
    Grows-trans (conn_at side s) (conn_at side (step s e)) (conn_at side (run (step s e) es))
      (step-Grows side s e h) (run-Grows side (step s e) es (step-IsSound s e h))

pub run-Hears :
    (side : Side) (s : Session) (es : List Event)
    → All (IsSilentAt side) es
    → Hears (conn_at side s) (conn_at side (run s es))
unfolding run
run-Hears side s [] h = (refl, refl, λ f. f)
run-Hears side s (e ∷ es) (h, rest) =
    let (a, b, f) = step-Hears side s e h in
    let (a', b', f') = run-Hears side (step s e) es rest in (a' ∙ a, b' ∙ b, λ k. f' (f k))
