-- ===== src/Wrapper.antt =====
-- src/index.js: the JavaScript that the action runs on the runner's Node, which fetches the program,
-- gives it the action's inputs in its environment, and runs it.
pub mod Wiring
pub mod Configured
pub mod Release
pub mod World
pub mod Run
use sccache_dist_action.Common.{
  leb, ◌==◌, if◌then◌else◌, Text, codes, text_eq, ℕ, ◌≡◌, refl, ◌-◌, Bool, true, false, ◌&&◌,
  Option, none, some, List, [], ◌∷◌, ◌++◌, map,
}

abbrev pub tool : Text
tool = codes "sccache-dist-action"

abbrev pub input_ids : List Text
input_ids =
    codes "mode"
    ∷ codes "oauth-client-id"
    ∷ codes "oauth-secret"
    ∷ codes "expected-workers"
    ∷ codes "min-workers"
    ∷ codes "wait-timeout"
    ∷ codes "worker-index"
    ∷ codes "tags"
    ∷ codes "run-prefix"
    ∷ codes "slots"
    ∷ codes "poll-interval"
    ∷ codes "teardown-threshold"
    ∷ codes "dist-fallback"
    ∷ codes "server-log"
    ∷ codes "sccache-ref"
    ∷ []

-- `replace(/-/g, '_')` and `toUpperCase()`, of which an input's name needs the ASCII letters.
abbrev upper_snake : ℕ → ℕ
upper_snake c = if c == b'-' then b'_' else if leb b'a' c && leb c b'z' then c - 32 else c

unfoldable pub input_env_name : Text → Text
input_env_name id = codes "INPUT_" ++ map upper_snake id

-- What Node says of the runner: RUNNER_OS and RUNNER_ARCH, process.platform and process.arch.
pub record Runner : Type 0 where
  pub runner_os : Text
  pub platform : Text
  pub runner_arch : Text
  pub arch : Text

-- A table with the names of the runner's side; a name that it does not hold is undefined.
abbrev look_up : List (Text × Text) → Text → Option Text
look_up [] v = none
look_up ((k, name) ∷ rest) v = if text_eq k v then some name else look_up rest v

abbrev or_else : Option Text → Text → Text
or_else (some name) other = name
or_else none other = other

unfoldable pub goos : Runner → Text
goos r =
    or_else
      (look_up
        ((codes "Linux", codes "linux")
          ∷ (codes "macOS", codes "darwin")
          ∷ (codes "Windows", codes "windows")
          ∷ [])
        r.runner_os)
      (if text_eq r.platform (codes "win32")
        then codes "windows"
        else if text_eq r.platform (codes "darwin")
        then codes "darwin"
        else codes "linux")

unfoldable pub goarch : Runner → Text
goarch r =
    or_else
      (look_up
        ((codes "X64", codes "amd64")
          ∷ (codes "ARM64", codes "arm64")
          ∷ (codes "ARM", codes "arm")
          ∷ (codes "X86", codes "386")
          ∷ [])
        r.runner_arch)
      (or_else
        (look_up
          ((codes "x64", codes "amd64")
            ∷ (codes "arm64", codes "arm64")
            ∷ (codes "arm", codes "arm")
            ∷ (codes "ia32", codes "386")
            ∷ [])
          r.arch)
        (codes "amd64"))

unfoldable pub asset_name : Text → Text → Text
asset_name g a =
    tool
    ++ codes "-"
    ++ g
    ++ codes "-"
    ++ a
    ++ (if text_eq g (codes "windows") then codes ".exe" else [])

-- An object as the list of its properties: the environment that `run` makes from process.env.
abbrev pub get : List (Text × Text) → Text → Option Text
get [] key = none
get ((k, v) ∷ rest) key = if text_eq k key then some v else get rest key

unfoldable pub set : Text → Text → List (Text × Text) → List (Text × Text)
set key v [] = (key, v) ∷ []
set key v ((k, w) ∷ rest) = if text_eq k key then (k, v) ∷ rest else (k, w) ∷ set key v rest

-- `for (const id of INPUT_IDS)`; `get_input` is core.getInput.
unfoldable pub wired : (Text → Text) → List Text → List (Text × Text) → List (Text × Text)
wired get_input [] env = env
wired get_input (id ∷ ids) env = wired get_input ids (set (input_env_name id) (get_input id) env)

abbrev pub child_env : (Text → Text) → List (Text × Text) → List (Text × Text)
child_env get_input process_env = wired get_input input_ids process_env

tests :
    (input_env_name (codes "wait-timeout") ≡ codes "INPUT_WAIT_TIMEOUT")
    × (asset_name (codes "linux") (codes "arm64") ≡ codes "sccache-dist-action-linux-arm64")
unfolding input_env_name asset_name text_eq
tests = (refl, refl)
