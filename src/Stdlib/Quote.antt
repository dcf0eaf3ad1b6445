-- ===== src/Stdlib/Quote.antt =====
-- strconv.Quote, which fmt's %q is on a string. Which code points from U+0080 on are printable is
-- Unicode's table, a parameter.
use sccache_dist_action.Common.{
  ltb, leb, ◌==◌, if◌then◌else◌, Text, codes, ℕ, zero, suc, ◌+◌, ◌-◌, ◌/◌, ◌%◌, ◌≡◌, refl, Bool,
  true, ◌&&◌, ◌||◌, Option, none, some, [], ◌∷◌, ◌++◌,
}

pub hex_digit : ℕ → ℕ
hex_digit d = if ltb d 10 then b'0' + d else b'a' + (d - 10)

-- The last `n` hexadecimal digits, before `out`.
pub hex : ℕ → ℕ → Text → Text
unfolding hex_digit
hex zero v out = out
hex (suc n) v out = hex n (v / 16) (hex_digit (v % 16) ∷ out)

-- unicode.IsPrint: among the ASCII characters, those from space to tilde.
abbrev pub is_print : (ℕ → Bool) → ℕ → Bool
is_print table c = if ltb c 0x80 then leb 0x20 c && leb c 0x7e else table c

-- The letter of a short escape.
abbrev pub short_escape : ℕ → Option ℕ
short_escape c =
    if c == 7
    then some b'a'
    else if c == 8
    then some b'b'
    else if c == 9
    then some b't'
    else if c == 10
    then some b'n'
    else if c == 11
    then some b'v'
    else if c == 12
    then some b'f'
    else if c == 13
    then some b'r'
    else none

abbrev pub escaped : ℕ → Option ℕ → Text
escaped c (some letter) = b'\\' ∷ letter ∷ []
escaped c none =
    if ltb c 0x20 || c == 0x7f
    then b'\\' ∷ b'x' ∷ hex 2 c []
    else if ltb c 0x10000
    then b'\\' ∷ b'u' ∷ hex 4 c []
    else b'\\' ∷ b'U' ∷ hex 8 c []

unfoldable pub quote_char : (ℕ → Bool) → ℕ → Text
unfolding hex
quote_char table c =
    if c == b'"' || c == b'\\'
    then b'\\' ∷ c ∷ []
    else if is_print table c
    then c ∷ []
    else escaped c (short_escape c)

unfoldable pub quote_body : (ℕ → Bool) → Text → Text
quote_body table [] = []
quote_body table (c ∷ s) = quote_char table c ++ quote_body table s

unfoldable pub quote : (ℕ → Bool) → Text → Text
quote table s = b'"' ∷ quote_body table s ++ b'"' ∷ []

tests :
    quote (λ c. true) (codes "a\"b\\" ++ 10 ∷ 0x1b ∷ 0xe9 ∷ [])
    ≡ codes "\"a\\\"b\\\\\\n\\x1b" ++ 0xe9 ∷ b'"' ∷ []
unfolding quote quote_body quote_char
tests = refl
