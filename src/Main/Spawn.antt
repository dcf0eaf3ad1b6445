-- ===== src/Main/Spawn.antt =====
-- cmd/sccache-dist-action/procctl.go: the environment that `spawnForwarder` gives the forwarder.
use native.Mathlib.Decide.{ℕ_discrete}
use sccache_dist_action.Common.{
  if◌then◌else◌, Text, codes, ◌≡◌, refl, sym, ap, ◌∙◌, ◌≢◌, ◌⊎◌, inl, inr, true, false, none, some,
  List, [], ◌∷◌, ◌++◌, arith,
}
use sccache_dist_action.Stdlib.Strings.{has_prefix}
use sccache_dist_action.Stdlib.Environ.{
  IsKey, value_of-other, or_else-none, value_of, or_else, env_value, env_value-append,
}

-- The loop: an entry of RUNNER_TRACKING_ID is left out.
without_tracking : List Text → List Text
without_tracking [] = []
without_tracking (e ∷ es) =
    if has_prefix e (codes "RUNNER_TRACKING_ID=")
    then without_tracking es
    else e ∷ without_tracking es

unfoldable pub forwarder_env : List Text → List Text
unfolding without_tracking
forwarder_env environ = without_tracking environ ++ codes "SCCACHE_ACTION_FORWARDER=1" ∷ []

-- A prefix test with `key=` succeeds exactly on the entries of the key.
value_of-has_prefix :
    (key e : Text)
    → ((has_prefix e (key ++ b'=' ∷ []) ≡ false) × (value_of key e ≡ none))
      ⊎ ((v : Text) × (has_prefix e (key ++ b'=' ∷ []) ≡ true)
          × (value_of key e ≡ some v)
          × (e ≡ key ++ b'=' ∷ v))
unfolding has_prefix value_of
value_of-has_prefix [] [] = inl (refl, refl)
value_of-has_prefix [] (c ∷ e) = elim (ℕ_discrete c b'=') [
  | yes same ↦ inr (e, ground arith, ground arith, rw same refl)
  | no differs ↦ inl (ground arith, ground arith)
]
value_of-has_prefix (k ∷ key) [] = inl (refl, refl)
value_of-has_prefix (k ∷ key) (c ∷ e) = elim (ℕ_discrete c k) [
  | yes same ↦ elim (value_of-has_prefix key e) [
    | inl (h, h') ↦ inl (ground arith, ground arith)
    | inr (v, h, h', h'') ↦ inr (v, ground arith, ground arith, rw (same, h'') refl)
  ]
  | no differs ↦ inl (ground arith, ground arith)
]

abbrev pub tracking : Text
tracking = codes "RUNNER_TRACKING_ID"

abbrev pub forwarder : Text
forwarder = codes "SCCACHE_ACTION_FORWARDER"

tracking-IsKey : IsKey tracking
tracking-IsKey = ground arith

forwarder-IsKey : IsKey forwarder
forwarder-IsKey = ground arith

without_tracking-tracking : (es : List Text) → env_value tracking (without_tracking es) ≡ none
unfolding without_tracking env_value
without_tracking-tracking [] = refl
without_tracking-tracking (e ∷ es) = elim (value_of-has_prefix tracking e) [
  | inl (other, absent) ↦ rw other (rw (without_tracking-tracking es, absent) refl)
  | inr (v, own, _, _) ↦ rw own (without_tracking-tracking es)
]

without_tracking-other :
    (key : Text) (es : List Text)
    → IsKey key
    → key ≢ tracking
    → env_value key (without_tracking es) ≡ env_value key es
unfolding without_tracking env_value
without_tracking-other key [] h ne = refl
without_tracking-other key (e ∷ es) h ne = elim (value_of-has_prefix tracking e) [
  | inl (other, _) ↦
      rw other (ap (λ o. or_else o (value_of key e)) (without_tracking-other key es h ne))
  | inr (v, own, _, entry) ↦ rw own (
      without_tracking-other key es h ne
      ∙ sym (
          ap (or_else (env_value key es))
            (ap (value_of key) entry ∙ value_of-other key tracking v h tracking-IsKey ne)
          ∙ sym (or_else-none (env_value key es))))
]

own-other :
    (key : Text)
    → IsKey key
    → key ≢ forwarder
    → env_value key (codes "SCCACHE_ACTION_FORWARDER=1" ∷ []) ≡ none
unfolding env_value
own-other key h ne = value_of-other key forwarder (codes "1") h forwarder-IsKey ne

-- The forwarder has no RUNNER_TRACKING_ID, however often the environment sets it; it has
-- SCCACHE_ACTION_FORWARDER=1; every other variable has the value that it has in the parent.
pub forwarder_env_values :
    (environ : List Text)
    → (env_value tracking (forwarder_env environ) ≡ none)
      × (env_value forwarder (forwarder_env environ) ≡ some (codes "1"))
      × ((key : Text)
          → IsKey key
          → key ≢ tracking
          → key ≢ forwarder
          → env_value key (forwarder_env environ) ≡ env_value key environ)
unfolding forwarder_env
forwarder_env_values environ =
    let own = codes "SCCACHE_ACTION_FORWARDER=1" ∷ [] in
    (
      env_value-append tracking (without_tracking environ) own
          ∙ unfold env_value value_of in without_tracking-tracking environ,
      env_value-append forwarder (without_tracking environ) own ∙ unfold env_value value_of in refl,
      λ key h ne ne'.
          env_value-append key (without_tracking environ) own
          ∙ ap (λ o. or_else o (env_value key (without_tracking environ))) (own-other key h ne')
          ∙ without_tracking-other key environ h ne,
    )
