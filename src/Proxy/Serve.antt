-- ===== src/Proxy/Serve.antt =====
-- internal/proxy/proxy.go: `Serve`, over what `ln.Accept` returns.
use sccache_dist_action.Common.{
  All, ℕ, ◌+◌, ◌≡◌, refl, sym, ◌∙◌, ◌≢◌, Bool, true, false, List, [], ◌∷◌, ◌++◌, append-nil,
  append_assoc,
}

pub data Accepted : Type 0 where
  connection : ℕ → Accepted
  listener_closed : Accepted  -- an error that is net.ErrClosed
  other_error : Accepted

-- The connections handed to `relay`, the naps of 100 ms, and whether `Serve` has returned.
pub record Served : Type 0 where
  pub relayed : List ℕ
  pub naps : ℕ
  pub returned : Bool

unfoldable pub serve : Served → List Accepted → Served
serve s [] = s
serve s (connection c ∷ calls) = serve (record s { relayed = s.relayed ++ c ∷ [] }) calls
serve s (listener_closed ∷ calls) = record s { returned = true }
serve s (other_error ∷ calls) = serve (record s { naps = s.naps + 1 }) calls

abbrev pub serving : Served
serving = record { relayed = []; naps = 0; returned = false }

-- The connections among what Accept returned.
abbrev pub connections : List Accepted → List ℕ
connections [] = []
connections (connection c ∷ calls) = c ∷ connections calls
connections (listener_closed ∷ calls) = connections calls
connections (other_error ∷ calls) = connections calls

abbrev pub IsOpen : List Accepted → Type 0
IsOpen = All (λ a. a ≢ listener_closed)

serve-relayed :
    (s : Served) (calls : List Accepted)
    → IsOpen calls
    → ((serve s calls).relayed ≡ s.relayed ++ connections calls)
      × ((serve s calls).returned ≡ s.returned)
unfolding serve
serve-relayed s [] h = (sym (append-nil s.relayed), refl)
serve-relayed s (connection c ∷ calls) (h, hs) =
    let (all, same) = serve-relayed (record s { relayed = s.relayed ++ c ∷ [] }) calls hs in
    (all ∙ append_assoc s.relayed (c ∷ []) (connections calls), same)
serve-relayed s (listener_closed ∷ calls) (h, hs) = absurd (h refl)
serve-relayed s (other_error ∷ calls) (h, hs) =
    serve-relayed (record s { naps = s.naps + 1 }) calls hs

-- Until its listener is closed, `Serve` goes on, and relays every accepted connection once, in
-- order, whatever other errors Accept returns in between.
pub serve_open :
    (calls : List Accepted)
    → IsOpen calls
    → ((serve serving calls).relayed ≡ connections calls) × ((serve serving calls).returned ≡ false)
serve_open calls h = serve-relayed serving calls h

serve-append :
    (s : Served) (calls later : List Accepted)
    → IsOpen calls
    → serve s (calls ++ later) ≡ serve (serve s calls) later
unfolding serve
serve-append s [] later h = refl
serve-append s (connection c ∷ calls) later (h, hs) =
    serve-append (record s { relayed = s.relayed ++ c ∷ [] }) calls later hs
serve-append s (listener_closed ∷ calls) later (h, hs) = absurd (h refl)
serve-append s (other_error ∷ calls) later (h, hs) =
    serve-append (record s { naps = s.naps + 1 }) calls later hs

-- A closed listener ends `Serve`: nothing that follows is relayed.
pub serve_closed :
    (calls later : List Accepted)
    → IsOpen calls
    → ((serve serving (calls ++ listener_closed ∷ later)).returned ≡ true)
      × ((serve serving (calls ++ listener_closed ∷ later)).relayed ≡ connections calls)
unfolding serve
serve_closed calls later h =
    rw (serve-append serving calls (listener_closed ∷ later) h) (refl, (serve_open calls h).0)
