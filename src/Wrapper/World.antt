-- ===== src/Wrapper/World.antt =====
-- What src/index.js calls, and what Node, the action's packages, the API and the program that it
-- starts answer: parameters of `run` in Wrapper/Run.antt.
use sccache_dist_action.Common.{Result, ok, err, Text, ℕ, Option, List, [], ◌++◌}
use sccache_dist_action.Effects.{Outcome, and_then, perform}
use sccache_dist_action.Wrapper.{Runner}
use sccache_dist_action.Wrapper.Release.{Release, Semver}

pub data Call : Type 0 where
  get_octokit : Text → Call
  list_releases : Call
  get_latest_release : Call
  find_tool : Text → Text → Text → Call  -- tc.find: a name, a version and an architecture
  download : Text → Option Text → Call  -- tc.downloadTool: the address and the authorization
  rename : Text → Text → Call
  chmod : Text → Call
  cache_dir : Text → Text → Text → Text → Call  -- tc.cacheDir
  copy_file : Text → Text → Call
  make_dir : Text → Call
  add_path : Text → Call
  which_go : Call
  go_build : Text → Text → Call  -- in a directory, and the file to write
  spawn : Text → List (Text × Text) → Call

-- How the program that was started ended: with a code, by a signal, or with neither.
pub data Exit : Type 0 where
  exited : ℕ → Exit
  signalled : Exit
  unknown : Exit

pub data WrapperError (E : Type 0) : Type 0 where
  thrown : E → WrapperError E
  no_asset : Text → Text → WrapperError E  -- the release and the name
  no_binary : WrapperError E → WrapperError E

pub record World (E : Type 0) : Type 0 where
  pub runner : Runner
  pub semver : Semver
  pub action_ref : Text  -- GITHUB_ACTION_REF || ''
  pub action_path : Text
  pub runner_temp : Text  -- RUNNER_TEMP || '/tmp'
  pub process_env : List (Text × Text)
  pub get_input : Text → Text
  pub join_path : Text → Text → Text
  pub dir_name : Text → Text
  pub refuses : Call → Option (WrapperError E)  -- what a call throws
  pub releases : List Release
  pub latest : Release
  pub found : Text → Text → Text → Text  -- what tc.find returns, empty for nothing
  pub downloaded : Text → Text
  pub cached : Text → Text → Text → Text
  pub go_path : Text
  pub exit : Exit

abbrev pub Step : Type 0 → Type 0 → Type 0
Step E A = Outcome Call (WrapperError E) A

abbrev pub return : {E A : Type 0} → A → Step E A
return a = record { result = ok a; trace = [] }

-- A call with its answer.
unfoldable pub ask : {E A : Type 0} → World E → Call → A → Step E A
ask w call answer = and_then (perform w.refuses call) (λ _. return answer)

infixr 5 ◌&>◌
abbrev pub ◌&>◌ : {E A : Type 0} → Step E (Unit {0}) → Step E A → Step E A
m &> k = and_then m (λ _. k)

-- `try { m } catch (err) { handler(err) }`
abbrev pub rescued :
    {E A : Type 0} → Result (WrapperError E) A → List Call → (WrapperError E → Step E A) → Step E A
rescued (ok a) before handler = record { result = ok a; trace = before }
rescued (err e) before handler = record {
  result = (handler e).result;
  trace = before ++ (handler e).trace;
}

unfoldable pub rescue : {E A : Type 0} → Step E A → (WrapperError E → Step E A) → Step E A
rescue m handler = rescued m.result m.trace handler
