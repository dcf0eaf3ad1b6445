-- ===== src/Proxy/Counters/Sums.antt =====
-- Sums over the relays, and predicates on all of them, where one relay moves.
use sccache_dist_action.Common.{All, All-weaken, ℕ, ◌+◌, ◌≡◌, refl, List, [], ◌∷◌, ◌++◌, map, arith}
use sccache_dist_action.Proxy.Counters.{Relay}

unfoldable pub sum : (Relay → ℕ) → List Relay → ℕ
sum f [] = 0
sum f (r ∷ rs) = f r + sum f rs

pub sum-middle :
    (f : Relay → ℕ) (before later : List Relay) (r : Relay)
    → sum f (before ++ r ∷ later) ≡ sum f before + f r + sum f later
unfolding sum
sum-middle f [] later r = omega arith
sum-middle f (x ∷ before) later r = omega (arith, sum-middle f before later r)

pub sum-cons : (f : Relay → ℕ) (r : Relay) (rs : List Relay) → sum f (r ∷ rs) ≡ f r + sum f rs
unfolding sum
sum-cons f r rs = refl

pub sum-map :
    (f : Relay → ℕ) (g : Relay → Relay)
    → ((r : Relay) → f (g r) ≡ f r)
    → (rs : List Relay) → sum f (map g rs) ≡ sum f rs
unfolding sum
sum-map f g h [] = refl
sum-map f g h (r ∷ rs) = omega (arith, h r, sum-map f g h rs)

module _ (P Q : Relay → Type 0) (weaken : (r : Relay) → P r → Q r) where
  pub All-replace :
      (before later : List Relay) (r r' : Relay)
      → All P (before ++ r ∷ later)
      → Q r'
      → All Q (before ++ r' ∷ later)
  All-replace [] later r r' (p, h) q = (q, All-weaken P Q weaken later h)
  All-replace (x ∷ before) later r r' (p, h) q = (weaken x p, All-replace before later r r' h q)

pub All-at :
    (P : Relay → Type 0) (before later : List Relay) (r : Relay) → All P (before ++ r ∷ later) → P r
All-at P [] later r (p, h) = p
All-at P (x ∷ before) later r (p, h) = All-at P before later r h

pub All-map :
    (P Q : Relay → Type 0) (g : Relay → Relay)
    → ((r : Relay) → P r → Q (g r))
    → (rs : List Relay) → All P rs
    → All Q (map g rs)
All-map P Q g h [] all = tt
All-map P Q g h (r ∷ rs) (p, all) = (h r p, All-map P Q g h rs all)

-- A counter that equals a sum still does when one relay and the counter change by the same.
pub sum_of_move :
    (f : Relay → ℕ) (before later : List Relay) (r r' : Relay) (a a' : ℕ)
    → a ≡ sum f (before ++ r ∷ later)
    → a' + f r ≡ a + f r'
    → a' ≡ sum f (before ++ r' ∷ later)
sum_of_move f before later r r' a a' e h =
    omega (arith, sum-middle f before later r, sum-middle f before later r')
