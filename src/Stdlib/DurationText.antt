-- ===== src/Stdlib/DurationText.antt =====
-- time.Duration: `Round` and `String`, of durations that are not negative, in nanoseconds.
use sccache_dist_action.Common.{
  ltb, ◌==◌, if◌then◌else◌, Text, codes, is_empty, ℕ, zero, suc, ◌+◌, ◌-◌, ◌/◌, ◌%◌, ◌≡◌, refl,
  ◌&&◌, [], ◌∷◌, ◌++◌,
}
use sccache_dist_action.Stdlib.Decimal.{itoa_ℕ}

-- Round(m): to the nearest multiple, half way up. Near the maximum of int64, Go keeps the maximum.
unfoldable pub round_to : ℕ → ℕ → ℕ
round_to m d =
    let up = if ltb (d % m + d % m) m then d - d % m else d + (m - d % m) in
    if ltb 9223372036854775807 up then 9223372036854775807 else up

-- fmtFrac: the digits of `v % 10 ^ prec` behind a point, without the zeros at the end.
unfoldable pub fraction_digits : ℕ → ℕ → Text → Text
fraction_digits zero v out = out
fraction_digits (suc prec) v out =
    fraction_digits prec (v / 10)
      (if is_empty out && (v % 10 == 0) then [] else (b'0' + v % 10) ∷ out)

abbrev with_point : Text → Text
with_point [] = []
with_point (c ∷ s) = b'.' ∷ c ∷ s

unfoldable pub decimal : ℕ → ℕ → ℕ → Text
decimal prec scale v = itoa_ℕ (v / scale) ++ with_point (fraction_digits prec v [])

-- Hours and minutes are left out where they are 0, but minutes not behind hours.
abbrev clock : ℕ → ℕ → Text → Text
clock hours minutes seconds =
    if ltb 0 hours
    then itoa_ℕ hours ++ codes "h" ++ itoa_ℕ minutes ++ codes "m" ++ seconds
    else if ltb 0 minutes
    then itoa_ℕ minutes ++ codes "m" ++ seconds
    else seconds

unfoldable pub duration_text : ℕ → Text
unfolding decimal
duration_text d =
    if d == 0
    then codes "0s"
    else if ltb d 1000
    then itoa_ℕ d ++ codes "ns"
    else if ltb d 1000000
    then decimal 3 1000 d ++ codes "µs"
    else if ltb d 1000000000
    then decimal 6 1000000 d ++ codes "ms"
    else clock (d / 3600000000000) (d / 60000000000 % 60)
        (decimal 9 1000000000 (d % 60000000000) ++ codes "s")

duration_text_tests :
    (duration_text 0 ≡ codes "0s")
    × (duration_text 3900000000 ≡ codes "3.9s")
    × (duration_text 3600000000000 ≡ codes "1h0m0s")
    × (duration_text 90050000000 ≡ codes "1m30.05s")
    × (duration_text 12000000 ≡ codes "12ms")
    × (duration_text 1500 ≡ codes "1.5µs")
    × (duration_text (round_to 1000000 2500499999) ≡ codes "2.5s")
    × (duration_text (round_to 1000000 499999) ≡ codes "0s")
    × (round_to 1000000 500000 ≡ 1000000)
unfolding duration_text decimal fraction_digits itoa_ℕ round_to
duration_text_tests = (refl, refl, refl, refl, refl, refl, refl, refl, refl)
