-- ===== src/Farm/Settings.antt =====
-- Lines of the form `key=value`, as the runner documents for the files that GITHUB_OUTPUT and
-- GITHUB_ENV name, and how they are read.
use sccache_dist_action.Common.{
  ◌==◌, Bool-cases, All, All-append, Text, codes, ℕ, ◌≡◌, refl, sym, ap, ◌∙◌, ◌≢◌, ◌⊎◌, inl, inr,
  true, false, Option, none, some, List, [], ◌∷◌, ◌++◌, append-nil, append_assoc, arith,
}
use sccache_dist_action.Coordinator.Run.{setting}

-- The lines of a text, the first of which has begun with `cur`; the last may have no newline.
abbrev last_line : Text → List Text
last_line [] = []
last_line (c ∷ cur) = (c ∷ cur) ∷ []

lines : Text → Text → List Text
lines cur [] = last_line cur
lines cur (c ∷ s) = elim (c == b'\n') [ true ↦ cur ∷ lines [] s | false ↦ lines (cur ++ c ∷ []) s ]

-- A line up to its first equals sign, and what follows it.
cut : Text → Text → Option (Text × Text)
cut key [] = none
cut key (c ∷ s) = elim (c == b'=') [ true ↦ some (key, s) | false ↦ cut (key ++ c ∷ []) s ]

abbrev keep : Option (Text × Text) → List (Text × Text) → List (Text × Text)
keep none rest = rest
keep (some x) rest = x ∷ rest

abbrev entries_of : List Text → List (Text × Text)
entries_of [] = []
entries_of (l ∷ ls) = keep (cut [] l) (entries_of ls)

unfoldable pub settings : Text → List (Text × Text)
unfolding lines cut
settings s = entries_of (lines [] s)

abbrev pub OneLine : Text → Type 0
OneLine = All (λ c. c ≢ b'\n')

abbrev pub IsName : Text → Type 0
IsName = All (λ c. c ≢ b'=')

-- A file whose last line is whole.
abbrev pub IsWhole : Text → Type 0
IsWhole s = (s ≡ []) ⊎ ((t : Text) × (s ≡ t ++ b'\n' ∷ []))

lines-line :
    (cur s rest : Text) → OneLine s → lines cur (s ++ b'\n' ∷ rest) ≡ (cur ++ s) ∷ lines [] rest
unfolding lines
lines-line cur [] rest h = ap (λ t. t ∷ lines [] rest) (sym (append-nil cur))
lines-line cur (c ∷ s) rest (ne, h) =
    let other : (c == b'\n') ≡ false = ground arith in
    rw (other, lines)
      (lines-line (cur ++ c ∷ []) s rest h
        ∙ ap (λ t. t ∷ lines [] rest) (append_assoc cur (c ∷ []) s))

lines-whole :
    (cur s t : Text)
    → lines cur ((s ++ b'\n' ∷ []) ++ t) ≡ lines cur (s ++ b'\n' ∷ []) ++ lines [] t
unfolding lines
lines-whole cur [] t = refl
lines-whole cur (c ∷ s) t = elim (Bool-cases (c == b'\n')) [
  | inl ends ↦ rw (ends, lines) (ap (λ x. cur ∷ x) (lines-whole [] s t))
  | inr goes_on ↦ rw (goes_on, lines) (lines-whole (cur ++ c ∷ []) s t)
]

cut-name : (key name v : Text) → IsName name → cut key (name ++ b'=' ∷ v) ≡ some (key ++ name, v)
unfolding cut
cut-name key [] v h = ap (λ t. some (t, v)) (sym (append-nil key))
cut-name key (c ∷ name) v (ne, h) =
    let other : (c == b'=') ≡ false = ground arith in
    rw (other, cut)
      (cut-name (key ++ c ∷ []) name v h ∙ ap (λ t. some (t, v)) (append_assoc key (c ∷ []) name))

keep-append :
    (o : Option (Text × Text)) (xs ys : List (Text × Text)) → keep o (xs ++ ys) ≡ keep o xs ++ ys
keep-append none xs ys = refl
keep-append (some x) xs ys = refl

entries_of-append : (ls ms : List Text) → entries_of (ls ++ ms) ≡ entries_of ls ++ entries_of ms
entries_of-append [] ms = refl
entries_of-append (l ∷ ls) ms =
    ap (keep (cut [] l)) (entries_of-append ls ms)
    ∙ keep-append (cut [] l) (entries_of ls) (entries_of ms)

-- What is appended to a file whose last line is whole.
pub settings-append : (s t : Text) → IsWhole s → settings (s ++ t) ≡ settings s ++ settings t
unfolding settings
settings-append s t (inl e) = rw e refl
settings-append s t (inr (r, e)) = rw e (
    ap entries_of (lines-whole [] r t)
    ∙ entries_of-append (lines [] (r ++ b'\n' ∷ [])) (lines [] t))

equals_line : ◌≢◌ {A = ℕ} b'=' b'\n'
equals_line e = absurd (omega (arith, e))

-- A line that is written is read back.
settings-setting :
    (key v rest : Text)
    → IsName key
    → OneLine key
    → OneLine v
    → settings (setting key v ++ rest) ≡ (key, v) ∷ settings rest
unfolding settings
settings-setting key v rest h k k' =
    let line = (key ++ codes "=") ++ v in
    let one : OneLine line =
      All-append (λ c. c ≢ b'\n') (key ++ codes "=") v
        (All-append (λ c. c ≢ b'\n') key (codes "=") k (equals_line, tt)) k' in
    ap (λ t. entries_of (lines [] t)) (append_assoc line (codes "\n") rest)
    ∙ ap entries_of (lines-line [] line rest one)
    ∙ ap (λ o. keep o (entries_of (lines [] rest)))
        (ap (cut []) (append_assoc key (codes "=") v) ∙ cut-name [] key v h)

-- The value of each name, and the lines that set them.
abbrev pub written : List (Text × Text) → List Text
written [] = []
written ((key, v) ∷ rest) = setting key v ∷ written rest

abbrev pub AreSettings : List (Text × Text) → Type 0
AreSettings = All (λ x. IsName x.0 × OneLine x.0 × OneLine x.1)

abbrev pub concat : List Text → Text
concat [] = []
concat (l ∷ ls) = l ++ concat ls

pub settings-written :
    (xs : List (Text × Text)) → AreSettings xs → settings (concat (written xs)) ≡ xs
settings-written [] h = unfold settings lines in refl
settings-written ((key, v) ∷ xs) ((n, k, k'), h) =
    settings-setting key v (concat (written xs)) n k k'
    ∙ ap (λ t. (key, v) ∷ t) (settings-written xs h)
