-- ===== src/Config/Validity.antt =====
-- Which environments are accepted, and what a configuration then promises to the two modes.
use sccache_dist_action.Common.{
  ℤ, ◌≤ℤ◌, Text, codes, text_eq, text_eq_sound, is_empty, is_empty_ne, ne_is_empty, pos, ok, ℕ, ◌≡◌,
  refl, sym, ◌∙◌, subst, ◌≢◌, ◌↔◌, ◌⊎◌, inl, inr, true, false, [], ◌∷◌, arith,
}
use sccache_dist_action.Config.{
  Config, check_counts, or_default, atoi_or, inputs, is_coordinator, is_worker, coordinator_inputs,
  checked, load_from,
}

-- What the rest of the program relies on.
pub record IsValid (c : Config) : Type 0 where
  pub known_mode : (c.mode ≡ codes "coordinator") ⊎ (c.mode ≡ codes "worker")
  pub has_secret : c.oauth_secret ≢ []
  pub has_prefix : c.run_prefix ≢ []
  pub coordinator_counts :
      c.mode ≡ codes "coordinator"
      → (pos 1 ≤ℤ c.min_workers) × (c.min_workers ≤ℤ c.expected_workers)

coordinator_inputs-IsValid :
    (get : Text → Text) (c d : Config)
    → coordinator_inputs get c ≡ ok d
    → (d.mode ≡ c.mode)
      × (d.oauth_secret ≡ c.oauth_secret)
      × (d.run_prefix ≡ c.run_prefix)
      × (pos 1 ≤ℤ d.min_workers)
      × (d.min_workers ≤ℤ d.expected_workers)
unfolding coordinator_inputs
coordinator_inputs-IsValid get c d h = ground arith

checked-IsValid : (get : Text → Text) (c d : Config) → checked get c ≡ ok d → IsValid d
unfolding checked
checked-IsValid get c d h = ground (
  arith,
  coordinator_inputs-IsValid get c d,
  text_eq_sound c.mode (codes "coordinator"),
  text_eq_sound c.mode (codes "worker"),
  is_empty_ne c.oauth_secret,
  is_empty_ne c.run_prefix,
)

-- What of a configuration is taken over unchanged.
abbrev Keeps : Config → Config → Type 0
Keeps c d =
    (d.mode ≡ c.mode)
    × (d.oauth_secret ≡ c.oauth_secret)
    × (d.run_prefix ≡ c.run_prefix)
    × (d.server_log ≡ c.server_log)
    × (d.slots ≡ c.slots)

checked-Keeps : (get : Text → Text) (c d : Config) → checked get c ≡ ok d → Keeps c d
unfolding checked
checked-Keeps get c d h = ground arith

-- Every configuration that `loadFrom` returns has a known mode, a secret and a prefix, and a
-- coordinator's has 1 <= min-workers <= expected-workers; mode and secret are the inputs', and the
-- prefix is the input, or the run id where that is empty.
pub load_from-IsValid :
    (fraction : ℕ → ℕ → ℕ → ℕ) (get : Text → Text) (d : Config)
    → load_from fraction get ≡ ok d
    → IsValid d
      × (d.mode ≡ get (codes "INPUT_MODE"))
      × (d.oauth_secret ≡ get (codes "INPUT_OAUTH_SECRET"))
      × (d.run_prefix ≡ or_default (get (codes "INPUT_RUN_PREFIX")) (get (codes "GITHUB_RUN_ID")))
unfolding load_from
load_from-IsValid fraction get d h =
    let c = inputs fraction get in
    let kept = checked-Keeps get c d h in (checked-IsValid get c d h, kept.0, kept.1, kept.2)

pub check_counts-ok :
    (expected min : ℤ) (c : Config)
    → pos 1 ≤ℤ min
    → min ≤ℤ expected
    → check_counts expected min c ≡ ok (record c { expected_workers = expected; min_workers = min })
unfolding check_counts
check_counts-ok expected min c h k = ground arith

check_counts-sound :
    (expected min : ℤ) (c d : Config)
    → check_counts expected min c ≡ ok d
    → (pos 1 ≤ℤ min) × (min ≤ℤ expected)
unfolding check_counts
check_counts-sound expected min c d h = ground arith

-- The counts of workers fit: 1 <= min <= expected, as they are read.
abbrev pub CountsFit : (Text → Text) → Type 0
CountsFit get =
    let expected = atoi_or (get (codes "INPUT_EXPECTED_WORKERS")) (pos 0) in
    let min = atoi_or (get (codes "INPUT_MIN_WORKERS")) expected in
    (pos 1 ≤ℤ min) × (min ≤ℤ expected)

coordinator_inputs_sound :
    (get : Text → Text) (c d : Config) → coordinator_inputs get c ≡ ok d → CountsFit get
unfolding coordinator_inputs
coordinator_inputs_sound get c d h =
    check_counts-sound (atoi_or (get (codes "INPUT_EXPECTED_WORKERS")) (pos 0)) _ c d h

coordinator_inputs_ok :
    (get : Text → Text) (c : Config)
    → CountsFit get
    → let expected = atoi_or (get (codes "INPUT_EXPECTED_WORKERS")) (pos 0) in
      let min = atoi_or (get (codes "INPUT_MIN_WORKERS")) expected in
      coordinator_inputs get c ≡ ok (record c { expected_workers = expected; min_workers = min })
unfolding coordinator_inputs
coordinator_inputs_ok get c fit =
    check_counts-ok (atoi_or (get (codes "INPUT_EXPECTED_WORKERS")) (pos 0)) _ c fit.0 fit.1

-- What an environment must hold.
pub record Acceptable (get : Text → Text) : Type 0 where
  pub known_mode :
      (get (codes "INPUT_MODE") ≡ codes "coordinator") ⊎ (get (codes "INPUT_MODE") ≡ codes "worker")
  pub has_secret : get (codes "INPUT_OAUTH_SECRET") ≢ []
  pub has_prefix : (get (codes "INPUT_RUN_PREFIX") ≢ []) ⊎ (get (codes "GITHUB_RUN_ID") ≢ [])
  pub counts : get (codes "INPUT_MODE") ≡ codes "coordinator" → CountsFit get

-- The same in terms of the fields read so far.
abbrev Passes : (Text → Text) → Config → Type 0
Passes get c =
    ((c.mode ≡ codes "coordinator") ⊎ (c.mode ≡ codes "worker"))
    × (c.oauth_secret ≢ [])
    × (c.run_prefix ≢ [])
    × (c.mode ≡ codes "coordinator" → CountsFit get)

pub checked_worker :
    (get : Text → Text) (c : Config)
    → is_coordinator c.mode ≡ false
    → is_worker c.mode ≡ true
    → is_empty c.oauth_secret ≡ false
    → is_empty c.run_prefix ≡ false
    → checked get c ≡ ok c
unfolding checked
checked_worker get c e w k p = simp (e, w, k, p)

pub checked_coordinator :
    (get : Text → Text) (c : Config)
    → is_coordinator c.mode ≡ true
    → is_empty c.oauth_secret ≡ false
    → is_empty c.run_prefix ≡ false
    → checked get c ≡ coordinator_inputs get c
unfolding checked
checked_coordinator get c e k p = simp (e, k, p)

pub mode_worker :
    (m : Text) → m ≡ codes "worker" → (is_coordinator m ≡ false) × (is_worker m ≡ true)
unfolding text_eq
mode_worker m e = rw e (refl, refl)

pub mode_coordinator : (m : Text) → m ≡ codes "coordinator" → is_coordinator m ≡ true
unfolding text_eq
mode_coordinator m e = rw e refl

checked-ok : (get : Text → Text) (c : Config) → Passes get c → (d : Config) × (checked get c ≡ ok d)
checked-ok get c (inl coordinator, secret, prefix, counts) =
    let expected = atoi_or (get (codes "INPUT_EXPECTED_WORKERS")) (pos 0) in
    let min = atoi_or (get (codes "INPUT_MIN_WORKERS")) expected in
    (
      record c { expected_workers = expected; min_workers = min },
      checked_coordinator get c (mode_coordinator c.mode coordinator)
            (ne_is_empty c.oauth_secret secret) (ne_is_empty c.run_prefix prefix)
          ∙ coordinator_inputs_ok get c (counts coordinator),
    )
checked-ok get c (inr worker, secret, prefix, counts) =
    let (other, known) = mode_worker c.mode worker in
    (
      c,
      checked_worker get c other known (ne_is_empty c.oauth_secret secret)
          (ne_is_empty c.run_prefix prefix),
    )

checked_counts :
    (get : Text → Text) (c d : Config)
    → c.mode ≡ codes "coordinator"
    → c.oauth_secret ≢ []
    → c.run_prefix ≢ []
    → checked get c ≡ ok d
    → CountsFit get
checked_counts get c d e k p h = coordinator_inputs_sound get c d (
    sym (
      checked_coordinator get c (mode_coordinator c.mode e) (ne_is_empty c.oauth_secret k)
        (ne_is_empty c.run_prefix p))
    ∙ h)

or_default_ne_iff : (v d : Text) → (or_default v d ≢ []) ↔ ((v ≢ []) ⊎ (d ≢ []))
unfolding or_default
or_default_ne_iff [] d = (λ h. inr h, λ h. elim h [ inl k ↦ absurd (k refl) | inr k ↦ k ])
or_default_ne_iff (c ∷ v) d = (λ h. inl h, λ h e. cc)

-- An environment is accepted exactly when its mode is known, its secret is not empty, its prefix or
-- its run id is not empty, and, for a coordinator, 1 <= min-workers <= expected-workers, where a
-- count of expected workers that is no number is 0, and min-workers is by default the expected.
pub load_from-ok_iff :
    (fraction : ℕ → ℕ → ℕ → ℕ) (get : Text → Text)
    → ((d : Config) × (load_from fraction get ≡ ok d)) ↔ Acceptable get
unfolding load_from
load_from-ok_iff fraction get =
    let c = inputs fraction get in
    (
      λ (d, h).
          let (valid, mode, secret, prefix) = load_from-IsValid fraction get d h in
          record {
            known_mode =
                subst (λ m. (m ≡ codes "coordinator") ⊎ (m ≡ codes "worker")) mode valid.known_mode;
            has_secret = subst (λ k. k ≢ []) secret valid.has_secret;
            has_prefix =
                (or_default_ne_iff (get (codes "INPUT_RUN_PREFIX")) (get (codes "GITHUB_RUN_ID"))).0
                  (subst (λ p. p ≢ []) prefix valid.has_prefix);
            counts = λ e.
                checked_counts get c d e (subst (λ k. k ≢ []) secret valid.has_secret)
                  (subst (λ p. p ≢ []) prefix valid.has_prefix) h;
          },
      λ a. checked-ok get c (
        a.known_mode,
        a.has_secret,
        (or_default_ne_iff (get (codes "INPUT_RUN_PREFIX")) (get (codes "GITHUB_RUN_ID"))).1
            a.has_prefix,
        a.counts,
      ),
    )
