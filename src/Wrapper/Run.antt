-- ===== src/Wrapper/Run.antt =====
-- src/index.js: `run`, as the sequence of the calls that it makes, over the answers of
-- Wrapper/World.antt.
pub mod Status
use sccache_dist_action.Common.{
  if◌then◌else◌, ◌==◌, Result, ok, err, Text, codes, text_eq, is_empty, ℕ, Bool, true, false, not,
  Option, none, some, List, [], ◌∷◌, ◌++◌,
}
use sccache_dist_action.Effects.{Outcome, follow, and_then, perform, emit, fail}
use sccache_dist_action.Wrapper.World.{
  Call, get_octokit, list_releases, get_latest_release, find_tool, download, rename, chmod,
  cache_dir, copy_file, make_dir, add_path, which_go, go_build, spawn, Exit, exited, signalled,
  unknown, WrapperError, no_asset, no_binary, World, Step, return, ask, ◌&>◌, rescue,
}
use sccache_dist_action.Wrapper.{Runner, tool, goos, goarch, asset_name, child_env}
use sccache_dist_action.Wrapper.Release.{Release, Semver, pick_release}

abbrev picked : {E : Type 0} → World E → Option Release → Step E Release
picked w (some hit) = return hit
picked w none = ask w get_latest_release w.latest

unfoldable pub resolve_release : {E : Type 0} → World E → Text → Step E Release
unfolding ask
resolve_release w ref =
    if is_empty ref
    then ask w get_latest_release w.latest
    else and_then (ask w list_releases w.releases)
        λ releases. picked w (pick_release w.semver releases ref)

-- `tagToSemver(tag) || tag`
abbrev version_or : Option Text → Text → Text
version_or none tag = tag
version_or (some v) tag = if is_empty v then tag else v

abbrev pub cache_version : {E : Type 0} → World E → Release → Text
cache_version w r = version_or (w.semver.coerce r.tag_name) r.tag_name

abbrev pub find_asset : Text → List (Text × Text) → Option Text
find_asset wanted [] = none
find_asset wanted ((name, url) ∷ rest) =
    if text_eq name wanted then some url else find_asset wanted rest

abbrev authorization : Text → Option Text
authorization token = if is_empty token then none else some (codes "token " ++ token)

-- `if (staged !== dl) fs.renameSync(dl, staged)`
abbrev moved : {E : Type 0} → World E → Text → Text → Step E (Unit {0})
moved w from to = if text_eq to from then emit [] else perform w.refuses (rename from to)

-- The download of an asset, under the name `file`, into the cache under the name `key`.
unfoldable pub fetched :
    {E : Type 0} → World E → Bool → Text → Text → Text → Text → Text → Step E Text
unfolding ask
fetched w executable url token file key version =
    let a = goarch w.runner in
    let make_executable =
      λ (path : Text). if executable then perform w.refuses (chmod path) else emit [] in
    and_then (ask w (download url (authorization token)) (w.downloaded url)) λ dl.
      let staged = w.join_path (w.dir_name dl) file in
      moved w dl staged
      &> make_executable staged
      &> and_then (ask w (cache_dir (w.dir_name staged) key version a) (w.cached key version a))
          λ dir. make_executable (w.join_path dir file) &> return (w.join_path dir file)

abbrev from_asset :
    {E : Type 0}
    → World E
    → Bool
    → Option Text
    → Text
    → Text
    → Text
    → Text
    → Text
    → Text
    → Step E Text
from_asset w executable none tag wanted token file key version = fail (no_asset tag wanted)
from_asset w executable (some url) tag wanted token file key version =
    fetched w executable url token file key version

-- `tc.find`, and the asset where it finds nothing.
abbrev from_cache :
    {E : Type 0} → World E → Release → Bool → Text → Text → Text → Text → Step E Text
from_cache w release executable wanted token file key =
    let version = cache_version w release in
    and_then
      (ask w (find_tool key version (goarch w.runner)) (w.found key version (goarch w.runner)))
      λ cached.
        if is_empty cached
        then from_asset w executable (find_asset wanted release.assets) release.tag_name wanted
            token file key version
        else return (w.join_path cached file)

unfoldable pub download_binary : {E : Type 0} → World E → Text → Text → Step E Text
unfolding resolve_release fetched ask
download_binary w ref token = and_then (resolve_release w ref) λ release.
    let wanted = asset_name (goos w.runner) (goarch w.runner) in
    from_cache w release (not (text_eq (goos w.runner) (codes "windows"))) wanted token wanted tool

unfoldable pub build_from_source : {E : Type 0} → World E → Step E Text
build_from_source w =
    let windows = text_eq (goos w.runner) (codes "windows") in
    let out = w.join_path w.action_path (tool ++ (if windows then codes ".exe" else [])) in
    perform w.refuses (go_build w.action_path out)
    &> (if windows then emit [] else perform w.refuses (chmod out))
    &> return out

unfoldable pub go_available : {E : Type 0} → World E → Step E Bool
unfolding ask
go_available w = ask w which_go (not (is_empty w.go_path))

-- The version of the engine: `core.getInput('sccache-ref')`, or the fork's.
abbrev engine_ref : {E : Type 0} → World E → Text
engine_ref w =
    let ref = w.get_input (codes "sccache-ref") in
    if is_empty ref then codes "sccache-dist-poc-tweaks" else ref

-- A round of the loop over the two names.
abbrev engine_file : {E : Type 0} → World E → Text → Text → Release → Text → Step E (Unit {0})
engine_file w bin_dir token release name =
    let key = name ++ codes "-" ++ engine_ref w in
    and_then (from_cache w release true (key ++ codes "-linux-" ++ goarch w.runner) token name key)
      λ exe.
        perform w.refuses (copy_file exe (w.join_path bin_dir name))
        &> perform w.refuses (chmod (w.join_path bin_dir name))

unfoldable pub ensure_engine : {E : Type 0} → World E → Text → Text → Step E (Unit {0})
unfolding resolve_release fetched ask
ensure_engine w ref token =
    let bin_dir = w.join_path w.runner_temp (codes "sccache-engine") in
    perform w.refuses (make_dir bin_dir)
    &> and_then (resolve_release w ref) λ release.
      engine_file w bin_dir token release (codes "sccache")
      &> engine_file w bin_dir token release (codes "sccache-dist")
      &> perform w.refuses (add_path bin_dir)

-- The release, and `go build` where it cannot be had.
abbrev released : {E : Type 0} → World E → Text → Text → Step E Text
released w ref token =
    perform w.refuses (get_octokit token)
    &> rescue (download_binary w ref token) λ e.
      and_then (go_available w)
        λ available. if available then build_from_source w else fail (no_binary e)

unfoldable pub resolve_binary : {E : Type 0} → World E → Step E Text
unfolding rescue download_binary go_available build_from_source
resolve_binary w =
    let token = w.get_input (codes "github-token") in
    if is_empty w.action_ref
    then and_then (go_available w)
        (λ available. if available then build_from_source w else released w w.action_ref token)
    else released w w.action_ref token

-- `resolve(signal ? 128 : code === null ? 1 : code)`
abbrev pub exit_code : Exit → ℕ
exit_code (exited code) = code
exit_code signalled = 128
exit_code unknown = 1

-- The engine's failure is a warning.
abbrev pub engine : {E : Type 0} → World E → Step E (Unit {0})
engine w =
    if is_empty w.action_ref
    then emit []
    else rescue
        (perform w.refuses (get_octokit (w.get_input (codes "github-token")))
          &> ensure_engine w w.action_ref (w.get_input (codes "github-token")))
        (λ _. emit [])

-- The exit code of the program.
abbrev pub executed : {E : Type 0} → World E → Text → Step E ℕ
executed w bin = ask w (spawn bin (child_env w.get_input w.process_env)) (exit_code w.exit)

abbrev pub on_posix : {E : Type 0} → World E → Step E ℕ
on_posix w = engine w &> and_then (resolve_binary w) (executed w)

-- The calls of the action's step, and whether it fails: by core.setFailed.
abbrev pub ends_failed : {E : Type 0} → Result (WrapperError E) ℕ → Bool
ends_failed (err e) = true
ends_failed (ok code) = not (code == 0)

unfoldable pub run : {E : Type 0} → World E → List Call × Bool
run w =
    if text_eq (goos w.runner) (codes "windows")
    then ([], true)
    else ((on_posix w).trace, ends_failed (on_posix w).result)
