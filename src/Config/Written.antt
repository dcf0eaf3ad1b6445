-- ===== src/Config/Written.antt =====
-- internal/config/config.go: a configuration that is written into the environment.
use sccache_dist_action.Common.{
  ℤ, ◌≤ℤ◌, IsInt64, Text, codes, is_empty, ne_is_empty, pos, negsuc, ok, ℕ, ◌*◌, ◌≤◌, ◌≡◌, refl,
  sym, ap, ◌∙◌, ◌≢◌, ◌⊎◌, inl, inr, Bool, true, false, some, [], ◌∷◌, arith,
}
use sccache_dist_action.Stdlib.Decimal.{itoa, atoi, parse_int, parse_bool}
use sccache_dist_action.Stdlib.Decimal.RoundTrip.{
  HasDigitHead, itoa_ℕ-All, itoa_ℕ-HasDigitHead, atoi-itoa, atoi-itoa_ℤ,
}
use sccache_dist_action.Stdlib.Duration.{second}
use sccache_dist_action.Stdlib.Duration.Bare.{AreDigits, parse_duration-digits}
use sccache_dist_action.Config.{
  Config, atoi_or, bool_or, dur_or, inputs, coordinator_inputs, checked, load_from,
}
use sccache_dist_action.Config.Defaults.{or_default-some}
use sccache_dist_action.Config.Validity.{
  check_counts-ok, checked_worker, checked_coordinator, mode_worker, mode_coordinator,
}

itoa-ne : (a : ℤ) → is_empty (itoa a) ≡ false
unfolding itoa
itoa-ne (pos n) = ne_is_empty _ (λ e. not_nil _ (itoa_ℕ-HasDigitHead n) e)
  where
    not_nil : (s : Text) → HasDigitHead s → s ≢ []
    not_nil [] h = absurd h
    not_nil (c ∷ s) h = λ e. cc
itoa-ne (negsuc n) = refl

atoi_or-itoa : (a d : ℤ) → IsInt64 a → atoi_or (itoa a) d ≡ a
unfolding atoi_or
atoi_or-itoa a d h = rw (itoa-ne a, atoi-itoa_ℤ a h) refl

-- A Boolean as a workflow writes it.
abbrev pub bool_word : Bool → Text
bool_word true = codes "true"
bool_word false = codes "false"

bool_or-bool_word : (b d : Bool) → bool_or (bool_word b) d ≡ b
unfolding bool_or parse_bool
bool_or-bool_word true d = refl
bool_or-bool_word false d = refl

atoi_zero : atoi (codes "0") ≡ some (pos 0)
unfolding atoi parse_int
atoi_zero = refl

some_zero : (n : ℕ) → some (pos n) ≡ some (pos 0) → n ≡ 0
some_zero n h = cc

module _ (fraction : ℕ → ℕ → ℕ → ℕ) where
  dur_or-digits :
      (s : Text) (n : ℕ) (d : ℤ)
      → HasDigitHead s
      → AreDigits s
      → atoi s ≡ some (pos n)
      → n ≤ 9223372036
      → dur_or fraction s d ≡ pos (n * second)
  unfolding dur_or
  dur_or-digits [] n d head digits e h = absurd head
  dur_or-digits (c ∷ s) n d head digits e h = elim (parse_duration-digits fraction c s digits) [
    | inl no_unit ↦ rw (no_unit, e) (ground (arith, h))
    | inr (zero, found) ↦
        let n_zero : n ≡ 0 = some_zero n (sym e ∙ ap atoi zero ∙ atoi_zero) in
        rw (found, n_zero) refl
  ]

  -- A number of seconds without a unit.
  pub dur_or-itoa :
      (n : ℕ) (d : ℤ) → n ≤ 9223372036 → dur_or fraction (itoa (pos n)) d ≡ pos (n * second)
  unfolding itoa
  dur_or-itoa n d h =
      dur_or-digits (itoa (pos n)) n d (itoa_ℕ-HasDigitHead n)
        (itoa_ℕ-All (λ c. (b'0' ≤ c) × (c ≤ b'9')) (λ i k. (omega arith, omega (arith, k))) n)
        (atoi-itoa n (omega (arith, h))) h

-- An environment with the fields of a configuration that the inputs give in either mode; the two
-- durations are whole seconds.
pub record Writes (get : Text → Text) (c : Config) (wait poll : ℕ) : Type 0 where
  pub mode : get (codes "INPUT_MODE") ≡ c.mode
  pub oauth_secret : get (codes "INPUT_OAUTH_SECRET") ≡ c.oauth_secret
  pub tags : get (codes "INPUT_TAGS") ≡ c.tags
  pub run_prefix : get (codes "INPUT_RUN_PREFIX") ≡ c.run_prefix
  pub wait_timeout : get (codes "INPUT_WAIT_TIMEOUT") ≡ itoa (pos wait)
  pub slots : get (codes "INPUT_SLOTS") ≡ itoa c.slots
  pub poll_interval : get (codes "INPUT_POLL_INTERVAL") ≡ itoa (pos poll)
  pub teardown_thresh : get (codes "INPUT_TEARDOWN_THRESHOLD") ≡ itoa c.teardown_thresh
  pub dist_fallback : get (codes "INPUT_DIST_FALLBACK") ≡ bool_word c.dist_fallback
  pub server_log : get (codes "INPUT_SERVER_LOG") ≡ c.server_log
  pub expected_workers : get (codes "INPUT_EXPECTED_WORKERS") ≡ itoa c.expected_workers
  pub min_workers : get (codes "INPUT_MIN_WORKERS") ≡ itoa c.min_workers

-- A configuration that inputs can give, with durations of so many seconds: a worker's has no counts.
pub record IsWritable (c : Config) (wait poll : ℕ) : Type 0 where
  pub counts :
      ((c.mode ≡ codes "coordinator")
        × (pos 1 ≤ℤ c.min_workers)
        × (c.min_workers ≤ℤ c.expected_workers)
        × IsInt64 c.expected_workers)
      ⊎ ((c.mode ≡ codes "worker") × (c.expected_workers ≡ pos 0) × (c.min_workers ≡ pos 0))
  pub has_secret : c.oauth_secret ≢ []
  pub has_tags : c.tags ≢ []
  pub has_prefix : c.run_prefix ≢ []
  pub has_log : c.server_log ≢ []
  pub slots_fit : IsInt64 c.slots
  pub threshold_fits : IsInt64 c.teardown_thresh
  pub wait_seconds : (wait ≤ 9223372036) × (c.wait_timeout ≡ pos (wait * second))
  pub poll_seconds : (poll ≤ 9223372036) × (c.poll_interval ≡ pos (poll * second))

module _ (fraction : ℕ → ℕ → ℕ → ℕ) (get : Text → Text) (c : Config) (wait poll : ℕ)
    (writes : Writes get c wait poll) (writable : IsWritable c wait poll) where
  inputs-Writes : inputs fraction get ≡ record c { expected_workers = pos 0; min_workers = pos 0 }
  unfolding inputs
  inputs-Writes =
      rw
        (
          writes.mode,
          writes.oauth_secret,
          writes.tags,
          writes.run_prefix,
          writes.wait_timeout,
          writes.slots,
          writes.poll_interval,
          writes.teardown_thresh,
          writes.dist_fallback,
          writes.server_log,
          or_default-some c.tags (codes "tag:ci-sccache") writable.has_tags,
          or_default-some c.run_prefix (get (codes "GITHUB_RUN_ID")) writable.has_prefix,
          or_default-some c.server_log (codes "info,sccache_compile=trace") writable.has_log,
          dur_or-itoa fraction wait (pos 300000000000) writable.wait_seconds.0,
          dur_or-itoa fraction poll (pos second) writable.poll_seconds.0,
          atoi_or-itoa c.slots (pos 0) writable.slots_fit,
          atoi_or-itoa c.teardown_thresh (pos 5) writable.threshold_fits,
          bool_or-bool_word c.dist_fallback true,
          writable.wait_seconds.1,
          writable.poll_seconds.1,
        )
        refl

  abbrev before_counts : Config
  before_counts = record c { expected_workers = pos 0; min_workers = pos 0 }

  read_worker :
      c.mode ≡ codes "worker"
      → c.expected_workers ≡ pos 0
      → c.min_workers ≡ pos 0
      → checked get before_counts ≡ ok c
  read_worker e expected min =
      let (other, known) = mode_worker c.mode e in
      checked_worker get before_counts other known (ne_is_empty c.oauth_secret writable.has_secret)
        (ne_is_empty c.run_prefix writable.has_prefix)
      ∙ ap ok (same_counts expected min)
    where
      same_counts : c.expected_workers ≡ pos 0 → c.min_workers ≡ pos 0 → before_counts ≡ c
      same_counts expected min =
          ap (λ n. record c { expected_workers = n; min_workers = pos 0 }) (sym expected)
          ∙ ap (λ n. record c { min_workers = n }) (sym min)

  read_coordinator :
      c.mode ≡ codes "coordinator"
      → pos 1 ≤ℤ c.min_workers
      → c.min_workers ≤ℤ c.expected_workers
      → IsInt64 c.expected_workers
      → checked get before_counts ≡ ok c
  unfolding coordinator_inputs
  read_coordinator e low high fits =
      checked_coordinator get before_counts (mode_coordinator c.mode e)
        (ne_is_empty c.oauth_secret writable.has_secret)
        (ne_is_empty c.run_prefix writable.has_prefix)
      ∙ rw
          (
            writes.expected_workers,
            writes.min_workers,
            atoi_or-itoa c.expected_workers (pos 0) fits,
            atoi_or-itoa c.min_workers c.expected_workers (min_fits low high fits),
          )
          (check_counts-ok c.expected_workers c.min_workers before_counts low high)
    where
      min_fits :
          pos 1 ≤ℤ c.min_workers
          → c.min_workers ≤ℤ c.expected_workers
          → IsInt64 c.expected_workers
          → IsInt64 c.min_workers
      min_fits low high fits = ground (arith, low, high, fits)

  -- A configuration that is written is read back.
  pub load_from-Writes : load_from fraction get ≡ ok c
  unfolding load_from
  load_from-Writes = ap (checked get) inputs-Writes ∙ (elim writable.counts [
    | inl (e, low, high, fits) ↦ read_coordinator e low high fits
    | inr (e, expected, min) ↦ read_worker e expected min
  ])
