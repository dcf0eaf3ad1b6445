-- ===== src/Config/Environment.antt =====
-- Which environment variables the configuration is read from.
use sccache_dist_action.Common.{All, Text, codes, ℕ, ◌≡◌, refl, List, [], ◌∷◌}
use sccache_dist_action.Config.{inputs, checked, coordinator_inputs, load_from}

abbrev pub input_keys : List Text
input_keys =
    codes "INPUT_MODE"
    ∷ codes "INPUT_OAUTH_SECRET"
    ∷ codes "INPUT_TAGS"
    ∷ codes "INPUT_RUN_PREFIX"
    ∷ codes "GITHUB_RUN_ID"
    ∷ codes "INPUT_WAIT_TIMEOUT"
    ∷ codes "INPUT_SLOTS"
    ∷ codes "INPUT_POLL_INTERVAL"
    ∷ codes "INPUT_TEARDOWN_THRESHOLD"
    ∷ codes "INPUT_DIST_FALLBACK"
    ∷ codes "INPUT_SERVER_LOG"
    ∷ codes "INPUT_EXPECTED_WORKERS"
    ∷ codes "INPUT_MIN_WORKERS"
    ∷ []

-- Environments that agree on the inputs give the same configuration, or the same error.
pub load_from-agrees :
    (fraction : ℕ → ℕ → ℕ → ℕ) (get get' : Text → Text)
    → All (λ key. get key ≡ get' key) input_keys
    → load_from fraction get ≡ load_from fraction get'
unfolding load_from inputs checked coordinator_inputs
load_from-agrees fraction get get'
      (a, (b, (c, (d, (e, (f, (g, (h, (i, (j, (k, (l, (m, _))))))))))))) =
    rw (a, b, c, d, e, f, g, h, i, j, k, l, m) refl
