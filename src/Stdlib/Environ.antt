-- ===== src/Stdlib/Environ.antt =====
-- The environment that a child process gets from a list of `key=value` entries: os/exec keeps the
-- last entry of each key.
use native.Mathlib.Decide.{ℕ_discrete}
use sccache_dist_action.Common.{
  ◌==◌, if◌then◌else◌, All, Text, ◌≡◌, refl, ap, ◌∙◌, ◌≢◌, Option, none, some, List, [], ◌∷◌, ◌++◌,
  arith,
}

-- The value of an entry, if it is one of the key.
unfoldable pub value_of : Text → Text → Option Text
value_of [] [] = none
value_of [] (c ∷ e) = if c == b'=' then some e else none
value_of (k ∷ key) [] = none
value_of (k ∷ key) (c ∷ e) = if c == k then value_of key e else none

abbrev pub or_else : Option Text → Option Text → Option Text
or_else (some v) o = some v
or_else none o = o

unfoldable pub env_value : Text → List Text → Option Text
env_value key [] = none
env_value key (e ∷ es) = or_else (env_value key es) (value_of key e)

or_else_assoc : (a b c : Option Text) → or_else (or_else a b) c ≡ or_else a (or_else b c)
or_else_assoc a b c = ground arith

pub or_else-none : (a : Option Text) → a ≡ or_else a none
or_else-none none = refl
or_else-none (some v) = refl

pub env_value-append :
    (key : Text) (es fs : List Text)
    → env_value key (es ++ fs) ≡ or_else (env_value key fs) (env_value key es)
unfolding env_value
env_value-append key [] fs = or_else-none (env_value key fs)
env_value-append key (e ∷ es) fs =
    rw (env_value-append key es fs)
      (or_else_assoc (env_value key fs) (env_value key es) (value_of key e))

-- Without an equals sign.
abbrev pub IsKey : Text → Type 0
IsKey = All (λ c. c ≢ b'=')

-- An entry belongs to one key.
pub value_of-other :
    (key other v : Text)
    → IsKey key
    → IsKey other
    → key ≢ other
    → value_of key (other ++ b'=' ∷ v) ≡ none
unfolding value_of
value_of-other [] [] v hk ho ne = absurd (ne refl)
value_of-other [] (o ∷ other) v hk (h, ho) ne = ground arith
value_of-other (k ∷ key) [] v (h, hk) ho ne = ground arith
value_of-other (k ∷ key) (o ∷ other) v (h, hk) (h', ho) ne = elim (ℕ_discrete o k) [
  | yes same ↦
      let rest = value_of-other key other v hk ho (λ e. ne (rw (same, e) refl)) in ground arith
  | no differs ↦ ground arith
]

-- An entry of another key does not change a value.
pub env_value-other :
    (key other v : Text) (es : List Text)
    → IsKey key
    → IsKey other
    → key ≢ other
    → env_value key (es ++ (other ++ b'=' ∷ v) ∷ []) ≡ env_value key es
unfolding env_value
env_value-other key other v es h k ne =
    env_value-append key es ((other ++ b'=' ∷ v) ∷ [])
    ∙ ap (λ o. or_else o (env_value key es)) (value_of-other key other v h k ne)
