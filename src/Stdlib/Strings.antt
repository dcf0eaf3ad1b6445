-- ===== src/Stdlib/Strings.antt =====
-- strings.HasPrefix, Contains, Split at one character, and TrimSpace.
use sccache_dist_action.Common.{
  leb, ◌==◌, if◌then◌else◌, Text, codes, ℕ, ◌≡◌, refl, Bool, true, false, ◌&&◌, ◌||◌, List, [], ◌∷◌,
  ◌++◌,
}

unfoldable pub has_prefix : Text → Text → Bool
has_prefix s [] = true
has_prefix [] (_ ∷ _) = false
has_prefix (c ∷ s) (d ∷ p) = c == d && has_prefix s p

unfoldable pub contains : Text → Text → Bool
unfolding has_prefix
contains [] sub = has_prefix [] sub
contains (c ∷ s) sub = has_prefix (c ∷ s) sub || contains s sub

or_true : (b : Bool) → (b || true) ≡ true
or_true true = refl
or_true false = refl

contains_of_prefix : (t sub : Text) → has_prefix t sub ≡ true → contains t sub ≡ true
unfolding contains
contains_of_prefix [] sub h = h
contains_of_prefix (c ∷ t) sub h = rw h refl

pub contains-later : (s t sub : Text) → has_prefix t sub ≡ true → contains (s ++ t) sub ≡ true
unfolding contains
contains-later [] t sub h = contains_of_prefix t sub h
contains-later (c ∷ s) t sub h =
    rw (contains-later s t sub h) (or_true (has_prefix (c ∷ (s ++ t)) sub))

-- The part before the first separator and the parts behind it, one longer than the separators.
split_from : ℕ → Text → Text → List Text
split_from sep cur [] = cur ∷ []
split_from sep cur (c ∷ s) = elim (c == sep) [
  | true ↦ cur ∷ split_from sep [] s
  | false ↦ split_from sep (cur ++ c ∷ []) s
]

unfoldable pub split : Text → ℕ → List Text
unfolding split_from
split s sep = split_from sep [] s

-- unicode.IsSpace.
abbrev pub is_space : ℕ → Bool
is_space c =
    (leb 9 c && leb c 13)
    || c == 32
    || c == 0x85
    || c == 0xa0
    || c == 0x1680
    || (leb 0x2000 c && leb c 0x200a)
    || c == 0x2028
    || c == 0x2029
    || c == 0x202f
    || c == 0x205f
    || c == 0x3000

unfoldable pub trim_left : Text → Text
trim_left [] = []
trim_left (c ∷ s) = if is_space c then trim_left s else c ∷ s

-- Drops the white space that ends a text: a space is kept only before something that is kept.
abbrev keep_before : ℕ → Text → Text
keep_before c [] = if is_space c then [] else c ∷ []
keep_before c (d ∷ s) = c ∷ d ∷ s

unfoldable pub trim_right : Text → Text
trim_right [] = []
trim_right (c ∷ s) = keep_before c (trim_right s)

unfoldable pub trim_space : Text → Text
unfolding trim_left trim_right
trim_space s = trim_right (trim_left s)

tests :
    (trim_space (codes " \ta b \n") ≡ codes "a b")
    × (split (codes "a,,b") b',' ≡ codes "a" ∷ [] ∷ codes "b" ∷ [])
    × (contains (codes "x\nSCCACHE_J=4") (codes "SCCACHE_J=") ≡ true)
    × (contains (codes "SCCACHE_") (codes "SCCACHE_J=") ≡ false)
unfolding trim_space split contains
tests = (refl, refl, refl, refl)
