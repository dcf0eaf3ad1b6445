-- ===== src/SccacheDist/Toml.antt =====
-- How sccache reads such a file back: the part of TOML that the files use, by TOML's own rules for
-- basic strings, written independently of Go's quoting.
use sccache_dist_action.Common.{
  ltb, leb, ◌==◌, if◌then◌else◌, Text, ℕ, zero, suc, ◌+◌, ◌-◌, ◌*◌, Bool, true, false, not, ◌&&◌,
  ◌||◌, Option, none, some, List, [], ◌∷◌,
}

-- What the reader of a basic string expects next.
pub data Mode : Type 0 where
  plain : Mode
  escape : Mode
  hex_digits : ℕ → ℕ → Mode  -- how many are left, and the value so far

abbrev hex_value : ℕ → Option ℕ
hex_value c =
    if leb b'0' c && leb c b'9'
    then some (c - b'0')
    else if leb b'a' c && leb c b'f'
    then some (c - b'a' + 10)
    else if leb b'A' c && leb c b'F'
    then some (c - b'A' + 10)
    else none

-- \b \t \n \f \r \" \\ are TOML's short escapes.
abbrev unescaped : ℕ → Option ℕ
unescaped c =
    if c == b'b'
    then some 8
    else if c == b't'
    then some 9
    else if c == b'n'
    then some 10
    else if c == b'f'
    then some 12
    else if c == b'r'
    then some 13
    else if c == b'"' || c == b'\\'
    then some c
    else none

-- A control character other than the tab cannot stand in a basic string.
abbrev pub is_control : ℕ → Bool
is_control c = (ltb c 0x20 && not (c == 9)) || c == 0x7f

abbrev pub prepend : ℕ → Option (Text × Text) → Option (Text × Text)
prepend c none = none
prepend c (some (s, rest)) = some (c ∷ s, rest)

abbrev prepend_some : Option ℕ → Option (Text × Text) → Option (Text × Text)
prepend_some none r = none
prepend_some (some c) r = prepend c r

-- The string up to the closing quotation mark, and the text behind it.
unfoldable pub read_string : Mode → Text → Option (Text × Text)
read_string mode [] = none
read_string plain (c ∷ s) =
    let body = read_string plain s in
    let special = read_string escape s in
    if c == b'"'
    then some ([], s)
    else if c == b'\\'
    then special
    else if is_control c
    then none
    else prepend c body
read_string escape (c ∷ s) =
    let body = read_string plain s in
    let short = read_string (hex_digits 4 0) s in
    let long = read_string (hex_digits 8 0) s in
    if c == b'u' then short else if c == b'U' then long else prepend_some (unescaped c) body
read_string (hex_digits left v) (c ∷ s) = elim (hex_value c) [
  | none ↦ none
  | some d ↦ elim (left == 1) [
    | true ↦ prepend (v * 16 + d) (read_string plain s)
    | false ↦ read_string (hex_digits (left - 1) (v * 16 + d)) s
  ]
]

pub data Value : Type 0 where
  text : Text → Value
  number : Text → Value

-- A setting with the table that it stands in.
pub record Entry : Type 0 where
  pub section : Text
  pub key : Text
  pub value : Value

-- The text before the first `sep`, and the text behind it.
unfoldable pub until : ℕ → Text → Option (Text × Text)
until sep [] = none
until sep (c ∷ s) = if c == sep then some ([], s) else prepend c (until sep s)

abbrev pub bind {ℓ κ} : {A : Type ℓ} {B : Type κ} → Option A → (A → Option B) → Option B
bind none f = none
bind (some a) f = f a

-- The end of a line.
abbrev pub line_end : Text → Option Text
line_end [] = none
line_end (c ∷ s) = if c == 10 then some s else none

-- A value: a basic string and the end of its line, or the characters up to the end of the line.
unfoldable pub read_value : Text → Option (Value × Text)
unfolding read_string until
read_value [] = none
read_value (c ∷ s) =
    if c == b'"'
    then bind (read_string plain s) (λ r. bind (line_end r.1) λ rest. some (text r.0, rest))
    else bind (until 10 (c ∷ s)) (λ r. some (number r.0, r.1))

-- The space behind the equals sign.
abbrev drop_space : Text → Text
drop_space [] = []
drop_space (c ∷ s) = if c == 32 then s else c ∷ s

-- The key is written before ` =`.
abbrev key_of : Text → Text
key_of [] = []
key_of (c ∷ s) = if c == 32 then [] else c ∷ key_of s

abbrev with_entry : Entry → Option (List Entry) → Option (List Entry)
with_entry e none = none
with_entry e (some es) = some (e ∷ es)

-- The settings of a file of at most `lines` lines.
unfoldable pub read_file : ℕ → Text → Text → Option (List Entry)
unfolding until
read_file lines section [] = some []
read_file zero section (c ∷ s) = none
read_file (suc lines) section (c ∷ s) = elim (c == b'[') [
  | true ↦ bind (until b']' s) λ name. bind (line_end name.1) λ rest. read_file lines name.0 rest
  | false ↦ bind (until b'=' (c ∷ s)) λ key. bind (read_value (drop_space key.1)) λ v.
      with_entry (record { section = section; key = key_of key.0; value = v.0 })
        (read_file lines section v.1)
]
