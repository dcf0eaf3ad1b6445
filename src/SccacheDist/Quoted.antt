-- ===== src/SccacheDist/Quoted.antt =====
-- `%q` in internal/sccachedist/sccachedist.go, on the characters that TOML writes alike.
use native.Mathlib.Decide.{ℕ_discrete}
use sccache_dist_action.Common.{
  ◌==◌, All, Text, ℕ, ◌≡◌, refl, ◌≢◌, ◌⊎◌, inl, inr, Bool, true, false, some, [], ◌∷◌, ◌++◌,
  append_assoc, arith,
}
use sccache_dist_action.Stdlib.Quote.{is_print, quote_char, quote_body, quote}
use sccache_dist_action.SccacheDist.Toml.{plain, read_string, prepend, is_control, text, read_value}

eq_false : (a b : ℕ) → a ≢ b → (a == b) ≡ false
eq_false a b h = ground arith

module _ (table : ℕ → Bool) where
  -- A character that the two notations write alike: a printable one, or one of \b \t \n \f \r.
  abbrev pub IsCommon : ℕ → Type 0
  IsCommon c = (is_print table c ≡ true) ⊎ (c ≡ 8) ⊎ (c ≡ 9) ⊎ (c ≡ 10) ⊎ (c ≡ 12) ⊎ (c ≡ 13)

  -- One character is written so that it is read back.
  abbrev ReadBack : ℕ → Text → Type 0
  ReadBack c rest =
      read_string plain (quote_char table c ++ rest) ≡ prepend c (read_string plain rest)

  read_mark : (rest : Text) → ReadBack b'"' rest
  unfolding read_string quote_char
  read_mark rest = refl

  read_backslash : (rest : Text) → ReadBack b'\\' rest
  unfolding read_string quote_char
  read_backslash rest = refl

  read_escaped :
      (rest : Text)
      → ReadBack 8 rest × ReadBack 9 rest × ReadBack 10 rest × ReadBack 12 rest × ReadBack 13 rest
  unfolding read_string quote_char
  read_escaped rest = (refl, refl, refl, refl, refl)

  quote_char_of_print :
      (c : ℕ) → is_print table c ≡ true → c ≢ b'"' → c ≢ b'\\' → quote_char table c ≡ c ∷ []
  unfolding quote_char
  quote_char_of_print c p m b = rw (eq_false c b'"' m, eq_false c b'\\' b, p) refl

  print_not_control : (c : ℕ) → is_print table c ≡ true → is_control c ≡ false
  print_not_control c p = ground arith

  read_plain :
      (c : ℕ) (rest : Text)
      → is_control c ≡ false
      → c ≢ b'"'
      → c ≢ b'\\'
      → read_string plain (c ∷ rest) ≡ prepend c (read_string plain rest)
  unfolding read_string
  read_plain c rest p m b = rw (eq_false c b'"' m, eq_false c b'\\' b, p) refl

  read_printed : (c : ℕ) (rest : Text) → is_print table c ≡ true → ReadBack c rest
  read_printed c rest p = elim (ℕ_discrete c b'"') [
    | yes mark ↦ rw mark (read_mark rest)
    | no m ↦ elim (ℕ_discrete c b'\\') [
      | yes backslash ↦ rw backslash (read_backslash rest)
      | no b ↦ rw (quote_char_of_print c p m b) (read_plain c rest (print_not_control c p) m b)
    ]
  ]

  pub read_string-quote_char : (c : ℕ) (rest : Text) → IsCommon c → ReadBack c rest
  read_string-quote_char c rest (inl p) = read_printed c rest p
  read_string-quote_char c rest (inr (inl e)) = rw e (read_escaped rest).0
  read_string-quote_char c rest (inr (inr (inl e))) = rw e (read_escaped rest).1
  read_string-quote_char c rest (inr (inr (inr (inl e)))) = rw e (read_escaped rest).2
  read_string-quote_char c rest (inr (inr (inr (inr (inl e))))) = rw e (read_escaped rest).3
  read_string-quote_char c rest (inr (inr (inr (inr (inr e))))) = rw e (read_escaped rest).4

  read_string-quote_body :
      (s rest : Text)
      → All IsCommon s
      → read_string plain (quote_body table s ++ b'"' ∷ rest) ≡ some (s, rest)
  unfolding quote_body
  read_string-quote_body [] rest h = unfold read_string in refl
  read_string-quote_body (c ∷ s) rest (h, hs) =
      rw
        (
          append_assoc (quote_char table c) (quote_body table s) (b'"' ∷ rest),
          read_string-quote_char c _ h,
          read_string-quote_body s rest hs,
        )
        refl

  pub read_value-quote :
      (s rest : Text)
      → All IsCommon s
      → read_value (quote table s ++ 10 ∷ rest) ≡ some (text s, rest)
  unfolding read_value quote
  read_value-quote s rest h =
      rw
        (
          append_assoc (quote_body table s) (b'"' ∷ []) (10 ∷ rest),
          read_string-quote_body s (10 ∷ rest) h,
        )
        refl
