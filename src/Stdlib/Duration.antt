-- ===== src/Stdlib/Duration.antt =====
-- time.ParseDuration. The only floating-point step, the nanoseconds of a fraction of a unit, is a
-- parameter: `fraction f scale unit` is uint64(float64(f) * (float64(unit) / scale)).
pub mod Bare
use sccache_dist_action.Common.{
  ltb, leb, ◌==◌, if◌then◌else◌, length, ℤ, sub_ℕ, Text, codes, text_eq, pos, ℕ, zero, suc, ◌+◌,
  ◌-◌, ◌*◌, ◌/◌, ◌%◌, ◌^◌, ◌≡◌, refl, Bool, true, false, ◌&&◌, ◌||◌, Option, none, some, [], ◌∷◌,
}

abbrev pub second : ℕ
second = 1000000000

-- 1 << 63
abbrev pub top_bit : ℕ
top_bit = 9223372036854775808

abbrev pub is_digit : ℕ → Bool
is_digit c = leb b'0' c && leb c b'9'

-- `leadingInt`: the number before the rest, none on overflow.
pub leading_int : ℕ → Text → Option (ℕ × Text)
leading_int x [] = some (x, [])
leading_int x (c ∷ s) = elim (is_digit c) [
  | false ↦ some (x, c ∷ s)
  | true ↦
      if ltb (top_bit / 10) x || ltb top_bit (x * 10 + (c - b'0'))
      then none
      else leading_int (x * 10 + (c - b'0')) s
]

-- `leadingFraction`: the digits that still fit, the scale, and the rest.
pub leading_fraction : ℕ → ℕ → Bool → Text → ℕ × ℕ × Text
leading_fraction x scale over [] = (x, scale, [])
leading_fraction x scale over (c ∷ s) = elim (is_digit c) [
  | false ↦ (x, scale, c ∷ s)
  | true ↦
      if over || ltb ((top_bit - 1) / 10) x || ltb top_bit (x * 10 + (c - b'0'))
      then leading_fraction x scale true s
      else leading_fraction (x * 10 + (c - b'0')) (scale * 10) false s
]

-- The unit: up to the next digit or point.
pub unit_name : Text → Text × Text
unit_name [] = ([], [])
unit_name (c ∷ s) =
    if c == b'.' || is_digit c then ([], c ∷ s) else (c ∷ (unit_name s).0, (unit_name s).1)

-- `unitMap`; micro is written with u, U+00B5 or U+03BC.
pub unit_size : Text → Option ℕ
unfolding text_eq
unit_size u =
    if text_eq u (codes "ns")
    then some 1
    else if text_eq u (codes "us") || text_eq u (0xb5 ∷ codes "s") || text_eq u (0x3bc ∷ codes "s")
    then some 1000
    else if text_eq u (codes "ms")
    then some 1000000
    else if text_eq u (codes "s")
    then some second
    else if text_eq u (codes "m")
    then some 60000000000
    else if text_eq u (codes "h")
    then some 3600000000000
    else none

-- The number of a group before its unit: value, fraction, scale, whether there was a digit, rest.
pub record Number : Type 0 where
  pub value : ℕ
  pub part : ℕ
  pub scale : ℕ
  pub digits : Bool
  pub rest : Text

abbrev pub shorter : Text → Text → Bool
shorter s t = ltb (length s) (length t)

pub after_point : Bool → ℕ → Text → Number
unfolding leading_fraction
after_point pre v [] = record { value = v; part = 0; scale = 1; digits = pre; rest = [] }
after_point pre v (c ∷ s) =
    if c == b'.'
    then (let (f, scale, rest) = leading_fraction 0 1 false s in
        record { value = v; part = f; scale = scale; digits = pre || shorter rest s; rest = rest })
    else record { value = v; part = 0; scale = 1; digits = pre; rest = c ∷ s }

abbrev pub bind {ℓ κ} : {A : Type ℓ} {B : Type κ} → Option A → (A → Option B) → Option B
bind none f = none
bind (some a) f = f a

-- The next character of a group must be a digit or a point.
abbrev pub starts_number : Text → Bool
starts_number [] = false
starts_number (c ∷ s) = c == b'.' || is_digit c

pub group_number : Text → Option Number
unfolding leading_int after_point
group_number s = bind (leading_int 0 s) λ p. some (after_point (shorter p.1 s) p.0 p.1)

module _ (fraction : ℕ → ℕ → ℕ → ℕ) where
  -- The value of a group in nanoseconds, none on overflow.
  pub group_value : Number → ℕ → Option ℕ
  group_value n unit =
      if ltb (top_bit / unit) n.value
      then none
      else if n.part == 0
      then some (n.value * unit)
      else if ltb top_bit (n.value * unit + fraction n.part n.scale unit)
      then none
      else some (n.value * unit + fraction n.part n.scale unit)

  -- One round of the loop: the value of a group, and what follows it.
  pub group : Text → Option (ℕ × Text)
  unfolding group_number unit_name unit_size group_value
  group s =
      if starts_number s
      then bind (group_number s) (λ n.
        if n.digits
        then (let (name, rest) = unit_name n.rest in
            bind (unit_size name) λ unit. bind (group_value n unit) λ v. some (v, rest))
        else none)
      else none

  -- The loop, with the sum so far, a uint64. Each group takes a character or more, so the length of the text
  -- bounds the rounds.
  pub groups : ℕ → ℕ → Text → Option ℕ
  groups fuel d [] = some d
  groups zero d (c ∷ s) = none
  groups (suc fuel) d (c ∷ s) = elim (group (c ∷ s)) [
    | none ↦ none
    | some g ↦
        if ltb top_bit ((d + g.0) % 2 ^ 64) then none else groups fuel ((d + g.0) % 2 ^ 64) g.1
  ]

  abbrev signed : Bool → ℕ → Option ℤ
  signed true d = some (sub_ℕ 0 d)
  signed false d = if ltb (top_bit - 1) d then none else some (pos d)

  abbrev unsigned_part : Bool → Text → Option ℤ
  unsigned_part neg [] = none
  unsigned_part neg (c ∷ s) =
      if text_eq (c ∷ s) (codes "0")
      then some (pos 0)
      else bind (groups (length (c ∷ s)) 0 (c ∷ s)) (signed neg)

  unfoldable pub parse_duration : Text → Option ℤ
  unfolding group groups text_eq
  parse_duration [] = none
  parse_duration (c ∷ s) =
      if c == b'-'
      then unsigned_part true s
      else if c == b'+'
      then unsigned_part false s
      else unsigned_part false (c ∷ s)

tests :
    let none_left = λ (f scale unit : ℕ). f * unit / scale in
    (parse_duration none_left (codes "300s") ≡ some (pos 300000000000))
    × (parse_duration none_left (codes "1m30s") ≡ some (pos 90000000000))
    × (parse_duration none_left (codes "-1.5h") ≡ some (sub_ℕ 0 5400000000000))
    × (parse_duration none_left (codes "5") ≡ none)
    × (parse_duration none_left (codes "0") ≡ some (pos 0))
    × (parse_duration none_left (codes "") ≡ none)
unfolding parse_duration
tests = (refl, refl, refl, refl, refl, refl)
