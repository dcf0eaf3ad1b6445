-- ===== src/Config.antt =====
-- internal/config/config.go: the inputs of the action, read from environment variables. `get` is
-- os.Getenv, "" for a variable that is not set.
pub mod Validity
pub mod Defaults
pub mod Environment
pub mod Written
use sccache_dist_action.Common.{
  if◌then◌else◌, ℤ, ◌*ℤ◌, leb_ℤ, wrap64, Result, ◌>>=◌, ◌>>◌, Text, codes, text_eq, is_empty, pos,
  ok, err, ℕ, Bool, true, false, not, ◌&&◌, ◌||◌, Option, none, some,
}
use sccache_dist_action.Stdlib.Decimal.{atoi, parse_bool}
use sccache_dist_action.Stdlib.Duration.{parse_duration, second}

pub record Config : Type 0 where
  pub mode : Text
  pub oauth_secret : Text
  pub tags : Text
  pub run_prefix : Text
  pub expected_workers : ℤ
  pub min_workers : ℤ
  pub wait_timeout : ℤ
  pub slots : ℤ
  pub poll_interval : ℤ
  pub teardown_thresh : ℤ
  pub dist_fallback : Bool
  pub server_log : Text

pub data ConfigError : Type 0 where
  bad_mode : Text → ConfigError
  no_oauth_secret no_run_prefix bad_expected_workers bad_min_workers : ConfigError

unfoldable pub or_default : Text → Text → Text
or_default v d = if is_empty v then d else v

abbrev parsed_or {ℓ} : {A : Type ℓ} → Option A → A → A
parsed_or none d = d
parsed_or (some a) d = a

unfoldable pub atoi_or : Text → ℤ → ℤ
atoi_or v d = if is_empty v then d else parsed_or (atoi v) d

unfoldable pub bool_or : Text → Bool → Bool
bool_or v d = if is_empty v then d else parsed_or (parse_bool v) d

module _ (fraction : ℕ → ℕ → ℕ → ℕ) where
  -- A number of seconds wraps around as `time.Duration(n) * time.Second` does.
  abbrev or_seconds : Option ℤ → ℤ → ℤ
  or_seconds none d = d
  or_seconds (some n) d = wrap64 (n *ℤ pos second)

  unfoldable pub dur_or : Text → ℤ → ℤ
  unfolding ◌*ℤ◌
  dur_or v d =
      if is_empty v then d else parsed_or (parse_duration fraction v) (or_seconds (atoi v) d)

  -- The literal with which `loadFrom` begins.
  pub inputs : (Text → Text) → Config
  inputs get = record {
    mode = get (codes "INPUT_MODE");
    oauth_secret = get (codes "INPUT_OAUTH_SECRET");
    tags = or_default (get (codes "INPUT_TAGS")) (codes "tag:ci-sccache");
    run_prefix = or_default (get (codes "INPUT_RUN_PREFIX")) (get (codes "GITHUB_RUN_ID"));
    expected_workers = pos 0;
    min_workers = pos 0;
    wait_timeout = dur_or (get (codes "INPUT_WAIT_TIMEOUT")) (pos 300000000000);
    slots = atoi_or (get (codes "INPUT_SLOTS")) (pos 0);
    poll_interval = dur_or (get (codes "INPUT_POLL_INTERVAL")) (pos second);
    teardown_thresh = atoi_or (get (codes "INPUT_TEARDOWN_THRESHOLD")) (pos 5);
    dist_fallback = bool_or (get (codes "INPUT_DIST_FALLBACK")) true;
    server_log = or_default (get (codes "INPUT_SERVER_LOG")) (codes "info,sccache_compile=trace");
  }

abbrev guard : Bool → ConfigError → Result ConfigError (Unit {0})
guard true e = ok tt
guard false e = err e

abbrev pub is_coordinator : Text → Bool
is_coordinator mode = text_eq mode (codes "coordinator")

abbrev pub is_worker : Text → Bool
is_worker mode = text_eq mode (codes "worker")

pub check_counts : ℤ → ℤ → Config → Result ConfigError Config
check_counts expected min c = do
  guard (leb_ℤ (pos 1) expected) bad_expected_workers
  guard (leb_ℤ (pos 1) min && leb_ℤ min expected) bad_min_workers
  ok (record c { expected_workers = expected; min_workers = min })

-- The counts of workers, read only for a coordinator.
pub coordinator_inputs : (Text → Text) → Config → Result ConfigError Config
unfolding check_counts
coordinator_inputs get c =
    let expected = atoi_or (get (codes "INPUT_EXPECTED_WORKERS")) (pos 0) in
    check_counts expected (atoi_or (get (codes "INPUT_MIN_WORKERS")) expected) c

pub checked : (Text → Text) → Config → Result ConfigError Config
unfolding coordinator_inputs
checked get c = do
  guard (is_coordinator c.mode || is_worker c.mode) (bad_mode c.mode)
  guard (not (is_empty c.oauth_secret)) no_oauth_secret
  guard (not (is_empty c.run_prefix)) no_run_prefix
  if is_coordinator c.mode then coordinator_inputs get c else ok c

unfoldable pub load_from : (ℕ → ℕ → ℕ → ℕ) → (Text → Text) → Result ConfigError Config
unfolding inputs checked
load_from fraction get = checked get (inputs fraction get)
