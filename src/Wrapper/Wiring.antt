-- ===== src/Wrapper/Wiring.antt =====
-- What the program finds in the environment that src/index.js gives it.
use sccache_dist_action.Common.{
  if◌then◌else◌, All, Text, codes, text_eq, text_eq_iff, text_eq-ne, ℕ, ◌≡◌, refl, sym, ap, ◌∙◌,
  ◌≢◌, Option, none, some, List, [], ◌∷◌, arith,
}
use sccache_dist_action.Config.{load_from}
use sccache_dist_action.Config.Environment.{input_keys, load_from-agrees}
use sccache_dist_action.Wrapper.{input_ids, input_env_name, get, set, wired, child_env}

get-set :
    (key other v : Text) (env : List (Text × Text))
    → get (set key v env) other ≡ (if text_eq key other then some v else get env other)
unfolding set
get-set key other v [] = refl
get-set key other v ((k, w) ∷ rest) =
    ground (
      arith,
      text_eq_iff k key,
      text_eq_iff k other,
      text_eq_iff key other,
      get-set key other v rest,
    )

-- The value of a key behind the loop, of which it was `o` before.
abbrev from_inputs : (Text → Text) → List Text → Text → Option Text → Option Text
from_inputs get_input [] key o = o
from_inputs get_input (id ∷ ids) key o =
    from_inputs get_input ids key
      (if text_eq (input_env_name id) key then some (get_input id) else o)

get-wired :
    (get_input : Text → Text) (ids : List Text) (env : List (Text × Text)) (key : Text)
    → get (wired get_input ids env) key ≡ from_inputs get_input ids key (get env key)
unfolding wired
get-wired get_input [] env key = refl
get-wired get_input (id ∷ ids) env key =
    get-wired get_input ids (set (input_env_name id) (get_input id) env) key
    ∙ ap (from_inputs get_input ids key) (get-set (input_env_name id) key (get_input id) env)

from_inputs-other :
    (get_input : Text → Text) (ids : List Text) (key : Text) (o : Option Text)
    → All (λ id. input_env_name id ≢ key) ids
    → from_inputs get_input ids key o ≡ o
from_inputs-other get_input [] key o h = refl
from_inputs-other get_input (id ∷ ids) key o (ne, h) =
    rw (text_eq-ne (input_env_name id) key ne) (from_inputs-other get_input ids key o h)

-- os.Getenv in the program.
abbrev pub or_unset : Option Text → Text
or_unset none = []
or_unset (some v) = v

abbrev pub getenv : List (Text × Text) → Text → Text
getenv env key = or_unset (get env key)

module _ (get_input : Text → Text) where
  pub each_input :
      (env : List (Text × Text))
      → All
          (λ id. get (child_env get_input env) (input_env_name id) ≡ some (get_input id))
          input_ids
  unfolding input_env_name text_eq
  each_input env =
      let at = λ (key : Text). get-wired get_input input_ids env key in
      (
        at _,
        (
          at _,
          (
            at _,
            (
              at _,
              (
                at _,
                (at _, (at _, (at _, (at _, (at _, (at _, (at _, (at _, (at _, (at _, tt)))))))))),
              ),
            ),
          ),
        ),
      )

  child_env-other :
      (env : List (Text × Text)) (key : Text)
      → All (λ id. input_env_name id ≢ key) input_ids
      → get (child_env get_input env) key ≡ get env key
  child_env-other env key h =
      get-wired get_input input_ids env key
      ∙ from_inputs-other get_input input_ids key (get env key) h

  same_input :
      (env env' : List (Text × Text)) (key : Text)
      → from_inputs get_input input_ids key (get env key)
        ≡ from_inputs get_input input_ids key (get env' key)
      → getenv (child_env get_input env) key ≡ getenv (child_env get_input env') key
  same_input env env' key h =
      ap or_unset
        (get-wired get_input input_ids env key ∙ h ∙ sym (get-wired get_input input_ids env' key))

  same_inputs :
      (env env' : List (Text × Text))
      → get env (codes "GITHUB_RUN_ID") ≡ get env' (codes "GITHUB_RUN_ID")
      → All
          (λ key. getenv (child_env get_input env) key ≡ getenv (child_env get_input env') key)
          input_keys
  unfolding input_env_name text_eq
  same_inputs env env' h =
      let at = λ (key : Text). same_input env env' key in
      (
        at _ refl,
        (
          at _ refl,
          (
            at _ refl,
            (
              at _ refl,
              (
                at _ h,
                (
                  at _ refl,
                  (
                    at _ refl,
                    (
                      at _ refl,
                      (at _ refl, (at _ refl, (at _ refl, (at _ refl, (at _ refl, tt))))),
                    ),
                  ),
                ),
              ),
            ),
          ),
        ),
      )

  -- The program gets the action's inputs and no others, whatever the runner's environment holds: each
  -- input stands in its variable, every other variable is the runner's, and the configuration that the
  -- program reads, or the error, depends on that environment only by GITHUB_RUN_ID.
  pub program_reads_inputs :
      (fraction : ℕ → ℕ → ℕ → ℕ) (env : List (Text × Text))
      → All
          (λ id. get (child_env get_input env) (input_env_name id) ≡ some (get_input id))
          input_ids
        × ((key : Text)
            → All (λ id. input_env_name id ≢ key) input_ids
            → get (child_env get_input env) key ≡ get env key)
        × ((env' : List (Text × Text))
            → get env (codes "GITHUB_RUN_ID") ≡ get env' (codes "GITHUB_RUN_ID")
            → load_from fraction (getenv (child_env get_input env))
              ≡ load_from fraction (getenv (child_env get_input env')))
  program_reads_inputs fraction env = (
    each_input env,
    child_env-other env,
    λ env' h.
        load_from-agrees fraction (getenv (child_env get_input env))
          (getenv (child_env get_input env')) (same_inputs env env' h),
  )
