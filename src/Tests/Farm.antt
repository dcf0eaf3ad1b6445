-- ===== src/Tests/Farm.antt =====
-- The configurations and the environment that the tests share.
use sccache_dist_action.Common.{
  Text, codes, text_eq, pos, ok, ℕ, ◌*◌, ◌/◌, ◌≡◌, refl, Bool, true, List, [], ◌∷◌,
}
use sccache_dist_action.Config.{Config, load_from, or_default, atoi_or, dur_or, bool_or}
use sccache_dist_action.Stdlib.Environ.{env_value, value_of}
use sccache_dist_action.Stdlib.Decimal.{atoi, parse_int}
use sccache_dist_action.Stdlib.Duration.{parse_duration}
use sccache_dist_action.Main.Dispatch.{getenv}

-- uint64(float64(f) * (float64(unit) / scale)) without rounding, for what the tests parse.
abbrev pub fraction : ℕ → ℕ → ℕ → ℕ
fraction f scale unit = f * unit / scale

-- Every code point from U+0080 on is printable.
abbrev pub table : ℕ → Bool
table c = true

abbrev pub coordinator_environ : List Text
coordinator_environ =
    codes "PATH=/usr/bin"
    ∷ codes "RUNNER_TRACKING_ID=github_1"
    ∷ codes "INPUT_MODE=coordinator"
    ∷ codes "INPUT_OAUTH_SECRET=s3"
    ∷ codes "INPUT_EXPECTED_WORKERS=2"
    ∷ codes "INPUT_MIN_WORKERS=1"
    ∷ codes "INPUT_WAIT_TIMEOUT=1m30s"
    ∷ codes "INPUT_SLOTS=4"
    ∷ codes "GITHUB_RUN_ID=77"
    ∷ []

abbrev pub coordinator_config : Config
coordinator_config = record {
  mode = codes "coordinator";
  oauth_secret = codes "s3";
  tags = codes "tag:ci-sccache";
  run_prefix = codes "77";
  expected_workers = pos 2;
  min_workers = pos 1;
  wait_timeout = pos 90000000000;
  slots = pos 4;
  poll_interval = pos 1000000000;
  teardown_thresh = pos 5;
  dist_fallback = true;
  server_log = codes "info,sccache_compile=trace";
}

abbrev pub worker_config : Config
worker_config = record coordinator_config {
  mode = codes "worker";
  expected_workers = pos 0;
  min_workers = pos 0;
}

pub coordinator_loads : load_from fraction (getenv coordinator_environ) ≡ ok coordinator_config
unfolding load_from env_value text_eq value_of or_default atoi_or atoi parse_int dur_or bool_or
    parse_duration
coordinator_loads = refl
