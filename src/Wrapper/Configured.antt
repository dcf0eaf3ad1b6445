-- ===== src/Wrapper/Configured.antt =====
-- From the inputs of the action, through src/index.js, to the configuration of the program.
use sccache_dist_action.Common.{Text, codes, pos, ok, ℕ, ◌≡◌, ap, List, [], ◌∷◌, text_eq}
use sccache_dist_action.Stdlib.Decimal.{itoa}
use sccache_dist_action.Config.{Config, load_from}
use sccache_dist_action.Config.Written.{bool_word, Writes, IsWritable, load_from-Writes}
use sccache_dist_action.Wrapper.{input_env_name, child_env}
use sccache_dist_action.Wrapper.Wiring.{or_unset, getenv, each_input}

-- The inputs for a configuration, as core.getInput returns them: "" for any that is not given.
abbrev pub with_inputs : Config → ℕ → ℕ → List (Text × Text)
with_inputs c wait poll =
    (codes "mode", c.mode)
    ∷ (codes "oauth-secret", c.oauth_secret)
    ∷ (codes "expected-workers", itoa c.expected_workers)
    ∷ (codes "min-workers", itoa c.min_workers)
    ∷ (codes "wait-timeout", itoa (pos wait))
    ∷ (codes "tags", c.tags)
    ∷ (codes "run-prefix", c.run_prefix)
    ∷ (codes "slots", itoa c.slots)
    ∷ (codes "poll-interval", itoa (pos poll))
    ∷ (codes "teardown-threshold", itoa c.teardown_thresh)
    ∷ (codes "dist-fallback", bool_word c.dist_fallback)
    ∷ (codes "server-log", c.server_log)
    ∷ []

abbrev pub input : Config → ℕ → ℕ → Text → Text
input c wait poll = getenv (with_inputs c wait poll)

module _ (c : Config) (wait poll : ℕ) (env : List (Text × Text)) where
  child_env-Writes : Writes (getenv (child_env (input c wait poll) env)) c wait poll
  unfolding input_env_name text_eq
  child_env-Writes =
      let (
        mode,
        (
          _,
          (
            secret,
            (
              expected,
              (
                min,
                (
                  timeout,
                  (
                    _,
                    (tags, (prefix, (slots, (poll_interval, (threshold, (fallback, (log, _))))))),
                  ),
                ),
              ),
            ),
          ),
        ),
      ) =
        each_input (input c wait poll) env in
      record {
        mode = ap or_unset mode;
        oauth_secret = ap or_unset secret;
        tags = ap or_unset tags;
        run_prefix = ap or_unset prefix;
        wait_timeout = ap or_unset timeout;
        slots = ap or_unset slots;
        poll_interval = ap or_unset poll_interval;
        teardown_thresh = ap or_unset threshold;
        dist_fallback = ap or_unset fallback;
        server_log = ap or_unset log;
        expected_workers = ap or_unset expected;
        min_workers = ap or_unset min;
      }

  -- A configuration that the action's inputs give is the one that the program loads, whatever the
  -- runner's environment holds: its texts are not empty, its numbers fit Go's int, its durations are
  -- whole seconds, written without a unit, that fit, its mode is known, a coordinator's has
  -- 1 <= min-workers <= expected-workers, and a worker's has no counts.
  pub configuration_arrives :
      (fraction : ℕ → ℕ → ℕ → ℕ)
      → IsWritable c wait poll
      → load_from fraction (getenv (child_env (input c wait poll) env)) ≡ ok c
  configuration_arrives fraction writable =
      load_from-Writes fraction (getenv (child_env (input c wait poll) env)) c wait poll
        child_env-Writes writable
