-- ===== src/SccacheDist/Foreign.antt =====
-- `%q` in internal/sccachedist/sccachedist.go, on the characters that TOML escapes otherwise.
use sccache_dist_action.Common.{
  All, Text, ℕ, ◌<◌, ◌≡◌, refl, ◌≢◌, ◌⊎◌, inl, inr, Bool, none, [], ◌∷◌, ◌++◌, append_assoc, arith,
}
use sccache_dist_action.Stdlib.Quote.{hex, quote_char, quote_body, quote}
use sccache_dist_action.SccacheDist.Conf.{scheduler_conf}
use sccache_dist_action.SccacheDist.Toml.{plain, read_string, read_value, read_file}
use sccache_dist_action.SccacheDist.RoundTrip.{read_value_addr, read_value_type}
use sccache_dist_action.SccacheDist.Quoted.{IsCommon, read_string-quote_char}

-- A control character that TOML has no short escape for, or that Go writes by one of its own.
abbrev pub IsForeign : ℕ → Type 0
IsForeign c = ((c < 0x20) ⊎ (c ≡ 0x7f)) × (c ≢ 8) × (c ≢ 9) × (c ≢ 10) × (c ≢ 12) × (c ≢ 13)

-- Neither of the characters that Go writes as \a or \v.
abbrev IsHex : ℕ → Type 0
IsHex c = (c ≢ 7) × (c ≢ 11)

foreign_cases : (c : ℕ) → ((c ≡ 7) ⊎ (c ≡ 11)) ⊎ IsHex c
foreign_cases c = ground arith

module _ (table : ℕ → Bool) where
  foreign_hex : (c : ℕ) → IsForeign c → IsHex c → quote_char table c ≡ b'\\' ∷ b'x' ∷ hex 2 c []
  unfolding quote_char
  foreign_hex c h k = ground arith

  foreign_short :
      (c : ℕ) (rest : Text)
      → (c ≡ 7) ⊎ (c ≡ 11)
      → read_string plain (quote_char table c ++ rest) ≡ none
  unfolding read_string quote_char
  foreign_short c rest (inl e) = rw e refl
  foreign_short c rest (inr e) = rw e refl

  -- How Go writes such a character begins with an escape that TOML does not have.
  read_foreign :
      (c : ℕ) (rest : Text) → IsForeign c → read_string plain (quote_char table c ++ rest) ≡ none
  unfolding read_string
  read_foreign c rest h = elim (foreign_cases c) [
    | inl short ↦ foreign_short c rest short
    | inr long ↦ rw (foreign_hex c h long) refl
  ]

  read_string-foreign :
      (before later rest : Text) (c : ℕ)
      → All (IsCommon table) before
      → IsForeign c
      → read_string plain (quote_body table (before ++ c ∷ later) ++ rest) ≡ none
  unfolding quote_body
  read_string-foreign [] later rest c h k =
      rw (append_assoc (quote_char table c) (quote_body table later) rest, read_foreign c _ k) refl
  read_string-foreign (b ∷ before) later rest c (h, hs) k =
      rw
        (
          append_assoc (quote_char table b) (quote_body table (before ++ c ∷ later)) rest,
          read_string-quote_char table b _ h,
          read_string-foreign before later rest c hs k,
        )
        refl

  -- A token with such a character in it makes a file that TOML refuses at that value.
  pub read_value_refuses :
      (before later rest : Text) (c : ℕ)
      → All (IsCommon table) before
      → IsForeign c
      → read_value (quote table (before ++ c ∷ later) ++ 10 ∷ rest) ≡ none
  unfolding read_value quote
  read_value_refuses before later rest c h k =
      rw
        (
          append_assoc (quote_body table (before ++ c ∷ later)) (b'"' ∷ []) (10 ∷ rest),
          read_string-foreign before later (b'"' ∷ 10 ∷ rest) c h k,
        )
        refl

  -- A token that holds a control character which Go writes as \a, \v or in hexadecimal, behind
  -- characters that the two notations write alike, makes a configuration of the scheduler that TOML
  -- does not read.
  pub scheduler_conf_unreadable :
      (before later : Text) (c : ℕ)
      → All (IsCommon table) before
      → IsForeign c
      → read_file 7 [] (scheduler_conf table (before ++ c ∷ later)) ≡ none
  unfolding read_file scheduler_conf
  scheduler_conf_unreadable before later c h k =
      rw (read_value_addr, read_value_type, read_value_refuses before later _ c h k) refl
