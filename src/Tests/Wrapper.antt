-- ===== src/Tests/Wrapper.antt =====
-- The action's wrapper.
use sccache_dist_action.Common.{
  pos, negsuc, ok, inl, ltb, ◌==◌, if◌then◌else◌, length, All, Text, codes, text_eq, ℕ, ◌≡◌, refl,
  ◌≢◌, ◌↔◌, Bool, true, false, none, some, List, [], ◌∷◌, ◌++◌, arith,
}
use sccache_dist_action.Effects.{and_then, perform}
use sccache_dist_action.Config.{Config, load_from}
use sccache_dist_action.Config.Written.{IsWritable}
use sccache_dist_action.Wrapper.Configured.{input, configuration_arrives}
use sccache_dist_action.Wrapper.{
  input_ids, input_env_name, get, child_env, goos, goarch, asset_name,
}
use sccache_dist_action.Wrapper.Wiring.{getenv, program_reads_inputs}
use sccache_dist_action.Wrapper.Release.{Release, Semver, without_v, pick_release}
use sccache_dist_action.Wrapper.Release.Sorted.{IsOrder}
use sccache_dist_action.Wrapper.Release.Picked.{IsPick, picked_release}
use sccache_dist_action.Wrapper.World.{Call, World, exited, ask}
use sccache_dist_action.Wrapper.Run.{resolve_binary, run}
use sccache_dist_action.Wrapper.Run.Status.{step_succeeds_iff}
use sccache_dist_action.Tests.Farm.{fraction}
use sccache_dist_action.Wrapper
use sccache_dist_action.Common.{Result}

abbrev inputs : Text → Text
inputs id =
    if text_eq id (codes "mode")
    then codes "worker"
    else if text_eq id (codes "oauth-secret")
    then codes "s3"
    else []

-- A runner whose environment holds an input of its own.
abbrev runner_env : List (Text × Text)
runner_env =
    (codes "PATH", codes "/usr/bin")
    ∷ (codes "INPUT_MODE", codes "coordinator")
    ∷ (codes "GITHUB_RUN_ID", codes "77")
    ∷ []

mode_is_input : getenv (child_env inputs runner_env) (codes "INPUT_MODE") ≡ codes "worker"
unfolding Wrapper.wired Wrapper.set input_env_name text_eq
mode_is_input = refl

program_reads_inputs_example :
    All (λ id. get (child_env inputs runner_env) (input_env_name id) ≡ some (inputs id)) input_ids
    × ((key : Text)
        → All (λ id. input_env_name id ≢ key) input_ids
        → get (child_env inputs runner_env) key ≡ get runner_env key)
    × ((env' : List (Text × Text))
        → get runner_env (codes "GITHUB_RUN_ID") ≡ get env' (codes "GITHUB_RUN_ID")
        → load_from fraction (getenv (child_env inputs runner_env))
          ≡ load_from fraction (getenv (child_env inputs env')))
program_reads_inputs_example = program_reads_inputs inputs fraction runner_env

abbrev configuration : Config
configuration = record {
  mode = codes "coordinator";
  oauth_secret = codes "s3";
  tags = codes "tag:ci";
  run_prefix = codes "77-1";
  expected_workers = pos 3;
  min_workers = pos 2;
  wait_timeout = pos 90000000000;
  slots = negsuc 0;
  poll_interval = pos 0;
  teardown_thresh = pos 4;
  dist_fallback = false;
  server_log = codes "debug";
}

configuration-IsWritable : IsWritable configuration 90 0
configuration-IsWritable = record {
  counts = inl (refl, omega arith, omega arith, omega arith);
  has_secret = λ e. cc;
  has_tags = λ e. cc;
  has_prefix = λ e. cc;
  has_log = λ e. cc;
  slots_fit = omega arith;
  threshold_fits = omega arith;
  wait_seconds = (omega arith, refl);
  poll_seconds = (omega arith, refl);
}

configuration_arrives_example :
    load_from fraction (getenv (child_env (input configuration 90 0) runner_env)) ≡ ok configuration
configuration_arrives_example =
    configuration_arrives configuration 90 0 runner_env fraction configuration-IsWritable

-- Versions of which the longer one is the newer; a range has the same major number of one digit.
abbrev same_major : Text → Text → Bool
same_major (c ∷ _) (d ∷ _) = c == d
same_major _ _ = false

abbrev versions : Semver
versions = record {
  coerce = λ tag. some (without_v tag);
  satisfies = same_major;
  before = λ u v. ltb (length v) (length u);
}

versions-IsOrder : IsOrder versions
versions-IsOrder = (λ v. ground arith, λ u v w h k. ground arith)

abbrev release : Text → Bool → Release
release tag draft = record {
  tag_name = tag;
  draft = draft;
  assets = (codes "sccache-dist-action-linux-amd64", codes "https://r/a") ∷ [];
}

abbrev published : List Release
published =
    release (codes "v2.0") false
    ∷ release (codes "v1.2") false
    ∷ release (codes "v1.10") false
    ∷ release (codes "v1.1000") true
    ∷ []

v1_is_newest : pick_release versions published (codes "v1") ≡ some (release (codes "v1.10") false)
unfolding pick_release text_eq
v1_is_newest = refl

picked_release_example :
    IsPick versions versions-IsOrder published
      (codes "v1")
      (pick_release versions published (codes "v1"))
picked_release_example = picked_release versions versions-IsOrder published (codes "v1")

-- A runner that has nothing in its cache; the program ends with 0.
abbrev world : World ℕ
world = record {
  runner = record {
    runner_os = codes "Linux";
    platform = codes "linux";
    runner_arch = codes "X64";
    arch = codes "x64";
  };
  semver = versions;
  action_ref = codes "v1";
  action_path = codes "/action";
  runner_temp = codes "/tmp";
  process_env = runner_env;
  get_input = inputs;
  join_path = λ a b. a ++ codes "/" ++ b;
  dir_name = λ a. codes "/tmp/dl";
  refuses = λ c. none;
  releases = published;
  latest = release (codes "v2.0") false;
  found = λ name version arch. [];
  downloaded = λ url. codes "/tmp/dl/1";
  cached = λ name version arch. codes "/cache/" ++ version;
  go_path = [];
  exit = exited 0;
}

downloads_program :
    (resolve_binary world).result ≡ Result.ok (codes "/cache/1.10/sccache-dist-action-linux-amd64")
unfolding resolve_binary and_then perform pick_release text_eq goos goarch asset_name ask
downloads_program = refl

step_succeeds_iff_example : ((run world).1 ≡ false) ↔ (
    (¬ (goos world.runner ≡ codes "windows"))
    × ((bin : Text) × ((resolve_binary world).result ≡ Result.ok bin)
        × (world.refuses (Call.spawn bin (child_env world.get_input world.process_env)) ≡ none)
        × (world.exit ≡ exited 0)
        × ((before : List Call) × ((run world).0
              ≡ before ++ Call.spawn bin (child_env world.get_input world.process_env) ∷ []))))
step_succeeds_iff_example = step_succeeds_iff world
