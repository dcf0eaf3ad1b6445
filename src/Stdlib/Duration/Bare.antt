-- ===== src/Stdlib/Duration/Bare.antt =====
-- time.ParseDuration of a number without a unit.
use sccache_dist_action.Common.{
  ltb, ◌==◌, ◌||◌, Bool-cases, All, Text, codes, text_eq, text_eq_iff, ℕ, ◌+◌, ◌-◌, ◌*◌, ◌/◌, ◌≤◌,
  ◌≡◌, refl, ◌⊎◌, inl, inr, true, false, none, some, [], ◌∷◌, length, pos, arith,
}
use sccache_dist_action.Stdlib.Duration.{
  top_bit, is_digit, leading_int, starts_number, shorter, Number, after_point, group_number, group,
  groups, parse_duration, unit_name, unit_size,
}

abbrev pub AreDigits : Text → Type 0
AreDigits = All (λ c. (b'0' ≤ c) × (c ≤ b'9'))

digit : (c : ℕ) → b'0' ≤ c → c ≤ b'9' → is_digit c ≡ true
digit c h k = ground arith

-- The number takes the whole text, or overflows.
leading_int-digits :
    (x : ℕ) (s : Text)
    → AreDigits s
    → (leading_int x s ≡ none) ⊎ ((y : ℕ) × (leading_int x s ≡ some (y, [])))
unfolding leading_int
leading_int-digits x [] h = inr (x, refl)
leading_int-digits x (c ∷ s) ((low, high), h) =
    let over = ltb (top_bit / 10) x || ltb top_bit (x * 10 + (c - b'0')) in
    elim (Bool-cases over) [
      | inl e ↦ inl (rw (digit c low high, e, leading_int) refl)
      | inr e ↦ rw (digit c low high, e, leading_int) (leading_int-digits (x * 10 + (c - b'0')) s h)
    ]

group_number-digits :
    (s : Text)
    → AreDigits s
    → (group_number s ≡ none) ⊎ ((n : Number) × (group_number s ≡ some n) × (n.rest ≡ []))
unfolding group_number after_point
group_number-digits s h = elim (leading_int-digits 0 s h) [
  | inl e ↦ inl (rw e refl)
  | inr (y, e) ↦ inr (after_point (shorter [] s) y [], rw e refl, refl)
]

group-digits : (fraction : ℕ → ℕ → ℕ → ℕ) (s : Text) → AreDigits s → group fraction s ≡ none
unfolding group unit_name unit_size text_eq
group-digits fraction s h = elim (Bool-cases (starts_number s)) [
  | inr other ↦ rw other refl
  | inl starts ↦ elim (group_number-digits s h) [
    | inl e ↦ rw (starts, e) refl
    | inr (n, e, rest) ↦ elim (Bool-cases n.digits) [
      | inl some_digit ↦ rw (starts, e, some_digit, rest) refl
      | inr no_digit ↦ rw (starts, e, no_digit) refl
    ]
  ]
]

groups-digits :
    (fraction : ℕ → ℕ → ℕ → ℕ) (c : ℕ) (s : Text)
    → AreDigits (c ∷ s)
    → groups fraction (length (c ∷ s)) 0 (c ∷ s) ≡ none
unfolding groups
groups-digits fraction c s h = rw (group-digits fraction (c ∷ s) h, groups) refl

-- A number without a unit is no duration, but for a single zero.
pub parse_duration-digits :
    (fraction : ℕ → ℕ → ℕ → ℕ) (c : ℕ) (s : Text)
    → AreDigits (c ∷ s)
    → (parse_duration fraction (c ∷ s) ≡ none)
      ⊎ ((c ∷ s ≡ codes "0") × (parse_duration fraction (c ∷ s) ≡ some (pos 0)))
unfolding parse_duration
parse_duration-digits fraction c s h =
    let minus : (c == b'-') ≡ false = ground (arith, h) in
    let plus : (c == b'+') ≡ false = ground (arith, h) in
    elim (Bool-cases (text_eq (c ∷ s) (codes "0"))) [
      | inl zero ↦ inr ((text_eq_iff (c ∷ s) (codes "0")).0 zero, rw (minus, plus, zero) refl)
      | inr other ↦ inl (rw (minus, plus, other, groups-digits fraction c s h) refl)
    ]
