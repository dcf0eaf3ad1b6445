-- ===== src/Proxy/Stream.antt =====
-- internal/proxy/proxy.go: `pipe` and `closeWrite`, for one direction of a connection that passes
-- any number of relays. A link is one connection on the way, as its reader sees it: the first is the
-- sender's, the last is the receiver's. A copy that fails is not modelled.
pub mod Delivery
pub mod Progress
use sccache_dist_action.Common.{replicate, ℕ, zero, suc, Bool, true, false, List, [], ◌∷◌, ◌++◌}

-- The bytes that are written and not yet read, and whether the writer has half-closed behind them.
pub record Link : Type 0 where
  pub queue : List ℕ
  pub ended : Bool

abbrev pub new_link : Link
new_link = record { queue = []; ended = false }

-- One round of io.Copy(dst, src): a byte is passed on; the end of `src` ends the copy, and
-- closeWrite half-closes `dst`; with nothing to read, it waits.
abbrev pub copy : List ℕ → Bool → Link → Link × Link
copy (b ∷ q) ended dst =
    (record { queue = q; ended = ended }, record dst { queue = dst.queue ++ b ∷ [] })
copy [] true dst = (record { queue = []; ended = true }, record dst { ended = true })
copy [] false dst = (record { queue = []; ended = false }, dst)

abbrev pub pipe : Link → Link → Link × Link
pipe src dst = copy src.queue src.ended dst

-- A round of the pipe from link `i` to the next.
unfoldable pub pump : ℕ → List Link → List Link
pump i [] = []
pump i (src ∷ []) = src ∷ []
pump zero (src ∷ dst ∷ ls) = (pipe src dst).0 ∷ (pipe src dst).1 ∷ ls
pump (suc i) (src ∷ dst ∷ ls) = src ∷ pump i (dst ∷ ls)

-- The links, and all that the sender has written.
pub record Stream : Type 0 where
  pub sent : List ℕ
  pub links : List Link

pub data Event : Type 0 where
  send : ℕ → Event
  finish : Event  -- the sender half-closes
  pumps : ℕ → Event

abbrev pub write_first : ℕ → Bool → Link → List Link → Stream → Stream
write_first b true l ls s = s
write_first b false l ls s = record {
  sent = s.sent ++ b ∷ [];
  links = record l { queue = l.queue ++ b ∷ [] } ∷ ls;
}

abbrev pub at_first : Event → List Link → Stream → Stream
at_first e [] s = s
at_first (send b) (l ∷ ls) s = write_first b l.ended l ls s
at_first finish (l ∷ ls) s = record s { links = record l { ended = true } ∷ ls }
at_first (pumps i) (l ∷ ls) s = record s { links = pump i (l ∷ ls) }

unfoldable pub step : Stream → Event → Stream
unfolding pump
step s e = at_first e s.links s

unfoldable pub run : Stream → List Event → Stream
unfolding step
run s [] = s
run s (e ∷ es) = run (step s e) es

-- A connection through `n` relays.
abbrev pub new_stream : ℕ → Stream
new_stream n = record { sent = []; links = replicate (suc n) new_link }

-- What the receiver has got, and whether it has seen the end.
abbrev pub last : List Link → Link
last [] = new_link
last (l ∷ []) = l
last (l ∷ m ∷ ls) = last (m ∷ ls)
