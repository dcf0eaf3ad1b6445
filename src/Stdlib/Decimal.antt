-- ===== src/Stdlib/Decimal.antt =====
-- strconv.Itoa, strconv.Atoi and strconv.ParseBool.
pub mod RoundTrip
use sccache_dist_action.Common.{
  ℕ, zero, suc, ◌+◌, ◌-◌, ◌*◌, ◌/◌, ◌%◌, ◌≡◌, refl, Bool, true, false, ◌||◌, Option, none, some, [],
  ◌∷◌, ltb, leb, ◌==◌, if◌then◌else◌, ℤ, pos, negsuc, sub_ℕ, Text, codes, text_eq,
}

-- The digits of `n` before `out`; the fuel bounds their number.
unfoldable pub digits : ℕ → ℕ → Text → Text
digits zero n out = out
digits (suc fuel) n out = elim (ltb n 10) [
  | true ↦ (b'0' + n) ∷ out
  | false ↦ digits fuel (n / 10) ((b'0' + n % 10) ∷ out)
]

-- A number has at most as many digits as its value, plus one.
unfoldable pub itoa_ℕ : ℕ → Text
unfolding digits
itoa_ℕ n = digits (suc n) n []

unfoldable pub itoa : ℤ → Text
unfolding itoa_ℕ
itoa (pos n) = itoa_ℕ n
itoa (negsuc n) = b'-' ∷ itoa_ℕ (suc n)

-- What strconv.Atoi returns: a value, or an error with the value that comes with it.
pub data Parsed : Type 0 where
  good : ℤ → Parsed
  syntax_error : Parsed
  range_error : ℤ → Parsed

pub data Unsigned : Type 0 where
  magnitude : ℕ → Unsigned
  not_digits : Unsigned
  too_large : Unsigned

abbrev pub max_uint64 : ℕ
max_uint64 = 18446744073709551615

-- strconv.ParseUint in base 10: the first bad character or the first overflow decides.
pub scan : Text → ℕ → Unsigned
scan [] n = magnitude n
scan (c ∷ s) n =
    if ltb c b'0' || ltb b'9' c
    then not_digits
    else if ltb max_uint64 (n * 10 + (c - b'0'))
    then too_large
    else scan s (n * 10 + (c - b'0'))

abbrev parse_uint : Text → Unsigned
parse_uint [] = not_digits
parse_uint (c ∷ s) = scan (c ∷ s) 0

-- strconv.ParseInt after the sign: 2^63 is the cutoff.
abbrev signed : Bool → Unsigned → Parsed
signed neg not_digits = syntax_error
signed false too_large = range_error (pos 9223372036854775807)
signed true too_large = range_error (negsuc 9223372036854775807)
signed false (magnitude n) =
    if leb 9223372036854775808 n then range_error (pos 9223372036854775807) else good (pos n)
signed true (magnitude n) =
    if ltb 9223372036854775808 n then range_error (negsuc 9223372036854775807) else good (sub_ℕ 0 n)

unfoldable pub parse_int : Text → Parsed
unfolding scan
parse_int [] = syntax_error
parse_int (c ∷ s) =
    if c == b'+'
    then signed false (parse_uint s)
    else if c == b'-'
    then signed true (parse_uint s)
    else signed false (parse_uint (c ∷ s))

abbrev no_error : Parsed → Option ℤ
no_error (good n) = some n
no_error syntax_error = none
no_error (range_error n) = none

-- A range error leaves the nearest value.
abbrev value_left : Parsed → ℤ
value_left (good n) = n
value_left syntax_error = pos 0
value_left (range_error n) = n

-- `n, err := strconv.Atoi(s)` with `err == nil`.
unfoldable pub atoi : Text → Option ℤ
atoi s = no_error (parse_int s)

-- `n, _ := strconv.Atoi(s)`.
unfoldable pub atoi_value : Text → ℤ
atoi_value s = value_left (parse_int s)

-- strconv.ParseBool.
unfoldable pub parse_bool : Text → Option Bool
unfolding text_eq
parse_bool s =
    if text_eq s (codes "1")
      || text_eq s (codes "t")
      || text_eq s (codes "T")
      || text_eq s (codes "true")
      || text_eq s (codes "TRUE")
      || text_eq s (codes "True")
    then some true
    else if text_eq s (codes "0")
        || text_eq s (codes "f")
        || text_eq s (codes "F")
        || text_eq s (codes "false")
        || text_eq s (codes "FALSE")
        || text_eq s (codes "False")
    then some false
    else none

itoa_tests :
    (itoa (pos 10501) ≡ codes "10501") × (itoa (negsuc 6) ≡ codes "-7") × (itoa (pos 0) ≡ codes "0")
unfolding itoa
itoa_tests = (refl, refl, refl)

atoi_tests :
    (atoi (codes "+3") ≡ some (pos 3))
    × (atoi (codes "-0") ≡ some (pos 0))
    × (atoi (codes "007") ≡ some (pos 7))
    × (atoi (codes "") ≡ none)
    × (atoi (codes "1x") ≡ none)
    × (atoi (codes "9223372036854775808") ≡ none)
    × (atoi_value (codes "99999999999999999999") ≡ pos 9223372036854775807)
    × (atoi (codes "-9223372036854775808") ≡ some (negsuc 9223372036854775807))
unfolding atoi atoi_value parse_int
atoi_tests = (refl, refl, refl, refl, refl, refl, refl, refl)
