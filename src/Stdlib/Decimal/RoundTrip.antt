-- ===== src/Stdlib/Decimal/RoundTrip.antt =====
-- Itoa, and Atoi behind it.
use native.Mathlib.Decide.{dec_lt}
use sccache_dist_action.Common.{
  All, ℕ, zero, suc, ◌+◌, ◌/◌, ◌%◌, ◌≤◌, ◌<◌, ◌≡◌, ◌∙◌, some, [], ◌∷◌, arith, ℤ, pos, negsuc,
  IsInt64, Text,
}
use sccache_dist_action.Stdlib.Decimal.{
  digits, itoa_ℕ, itoa, scan, magnitude, max_uint64, parse_int, atoi, atoi_value, good,
}

-- A text that begins with a digit.
abbrev pub HasDigitHead : Text → Type 0
HasDigitHead [] = ⊥
HasDigitHead (c ∷ s) = (b'0' ≤ c) × (c ≤ b'9')

scan_last :
    (n : ℕ) (out : Text) → n ≤ max_uint64 → scan ((b'0' + n % 10) ∷ out) (n / 10) ≡ scan out n
unfolding scan
scan_last n out h = ground arith

scan_one : (n : ℕ) (out : Text) → n < 10 → scan ((b'0' + n) ∷ out) 0 ≡ scan out n
unfolding scan
scan_one n out h = ground arith

pub digits_small : (fuel n : ℕ) (out : Text) → n < 10 → digits (suc fuel) n out ≡ (b'0' + n) ∷ out
unfolding digits
digits_small fuel n out h = ground arith

pub digits_large :
    (fuel n : ℕ) (out : Text)
    → 10 ≤ n
    → digits (suc fuel) n out ≡ digits fuel (n / 10) ((b'0' + n % 10) ∷ out)
unfolding digits
digits_large fuel n out h = ground arith

scan-digits :
    (fuel n : ℕ) (out : Text) → n < fuel → n ≤ max_uint64 → scan (digits fuel n out) 0 ≡ scan out n
scan-digits zero n out h k = elim h [ ]
scan-digits (suc fuel) n out h k = elim (dec_lt n 10) [
  | yes small ↦ rw (digits_small fuel n out small) (scan_one n out small)
  | no large ↦ rw (digits_large fuel n out (omega arith)) (
      scan-digits fuel (n / 10) ((b'0' + n % 10) ∷ out) (omega arith) (omega arith)
      ∙ scan_last n out k)
]

-- What holds of the ten digits holds of all that is written.
pub digits-All {ℓ} :
    (P : ℕ → Type ℓ)
    → ((d : ℕ) → d < 10 → P (b'0' + d))
    → (fuel n : ℕ) (out : Text) → All P out
    → All P (digits fuel n out)
digits-All P each zero n out h = unfold digits in h
digits-All P each (suc fuel) n out h = elim (dec_lt n 10) [
  | yes small ↦ rw (digits_small fuel n out small) (each n small, h)
  | no large ↦
      rw (digits_large fuel n out (omega arith))
        (digits-All P each fuel (n / 10) ((b'0' + n % 10) ∷ out) (each (n % 10) (omega arith), h))
]

pub itoa_ℕ-All {ℓ} :
    (P : ℕ → Type ℓ) → ((d : ℕ) → d < 10 → P (b'0' + d)) → (n : ℕ) → All P (itoa_ℕ n)
unfolding itoa_ℕ
itoa_ℕ-All P each n = digits-All P each (suc n) n [] tt

digits-HasDigitHead : (fuel n : ℕ) (out : Text) → n < fuel → HasDigitHead (digits fuel n out)
digits-HasDigitHead zero n out h = elim h [ ]
digits-HasDigitHead (suc fuel) n out h = elim (dec_lt n 10) [
  | yes small ↦ rw (digits_small fuel n out small) (omega arith)
  | no large ↦
      rw (digits_large fuel n out (omega arith))
        (digits-HasDigitHead fuel (n / 10) ((b'0' + n % 10) ∷ out) (omega arith))
]

pub itoa_ℕ-HasDigitHead : (n : ℕ) → HasDigitHead (itoa_ℕ n)
unfolding itoa_ℕ
itoa_ℕ-HasDigitHead n = digits-HasDigitHead (suc n) n [] (omega arith)

scan-itoa_ℕ : (n : ℕ) → n ≤ max_uint64 → scan (itoa_ℕ n) 0 ≡ magnitude n
unfolding itoa_ℕ scan
scan-itoa_ℕ n h = unfold scan in scan-digits (suc n) n [] (omega arith) h

parse_int_of_scan :
    (s : Text) (n : ℕ)
    → HasDigitHead s
    → scan s 0 ≡ magnitude n
    → n ≤ 9223372036854775807
    → parse_int s ≡ good (pos n)
unfolding parse_int
parse_int_of_scan [] n h e k = absurd h
parse_int_of_scan (c ∷ s) n h e k = ground arith

parse_int-itoa : (n : ℕ) → n ≤ 9223372036854775807 → parse_int (itoa (pos n)) ≡ good (pos n)
unfolding itoa
parse_int-itoa n h =
    parse_int_of_scan (itoa_ℕ n) n (itoa_ℕ-HasDigitHead n) (scan-itoa_ℕ n (omega arith)) h

pub atoi-itoa : (n : ℕ) → n ≤ 9223372036854775807 → atoi (itoa (pos n)) ≡ some (pos n)
unfolding atoi
atoi-itoa n h = rw (parse_int-itoa n h)

parse_int_of_negative :
    (s : Text) (n : ℕ)
    → HasDigitHead s
    → scan s 0 ≡ magnitude (suc n)
    → n ≤ 9223372036854775807
    → parse_int (b'-' ∷ s) ≡ good (negsuc n)
unfolding parse_int
parse_int_of_negative [] n h e k = absurd h
parse_int_of_negative (c ∷ s) n h e k = ground arith

pub atoi-itoa_negative :
    (n : ℕ) → n ≤ 9223372036854775807 → atoi (itoa (negsuc n)) ≡ some (negsuc n)
unfolding atoi itoa
atoi-itoa_negative n h = rw (
    parse_int_of_negative (itoa_ℕ (suc n)) n (itoa_ℕ-HasDigitHead (suc n))
      (scan-itoa_ℕ (suc n) (omega arith)) h)

-- A number of Go's int, written and read.
pub atoi-itoa_ℤ : (a : ℤ) → IsInt64 a → atoi (itoa a) ≡ some a
atoi-itoa_ℤ (pos n) h = atoi-itoa n h
atoi-itoa_ℤ (negsuc n) h = atoi-itoa_negative n h

pub atoi_value-itoa : (n : ℕ) → n ≤ 9223372036854775807 → atoi_value (itoa (pos n)) ≡ pos n
unfolding atoi_value
atoi_value-itoa n h = rw (parse_int-itoa n h)
