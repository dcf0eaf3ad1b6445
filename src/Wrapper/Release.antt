-- ===== src/Wrapper/Release.antt =====
-- src/index.js: which release the ref of `uses:` stands for. The versions are those of the package
-- semver, whose functions are parameters.
pub mod Matched
pub mod Sorted
pub mod Picked
use sccache_dist_action.Common.{
  if◌then◌else◌, ◌==◌, leb, Text, codes, text_eq, is_empty, ℕ, ◌≡◌, refl, Bool, true, false, not,
  ◌&&◌, ◌||◌, Option, none, some, List, [], ◌∷◌, ◌++◌,
}
use sccache_dist_action.Stdlib.Strings.{split}

-- A release as the API lists it; an asset is its name and its browser_download_url.
pub record Release : Type 0 where
  pub tag_name : Text
  pub draft : Bool
  pub assets : List (Text × Text)

-- `replace(/^v/i, '')`
abbrev pub without_v : Text → Text
without_v [] = []
without_v (c ∷ s) = if c == b'v' || c == b'V' then s else c ∷ s

abbrev is_digit : ℕ → Bool
is_digit c = leb b'0' c && leb c b'9'

-- `\d+`
abbrev is_number : Text → Bool
is_number [] = false
is_number (c ∷ []) = is_digit c
is_number (c ∷ d ∷ s) = is_digit c && is_number (d ∷ s)

-- `[0-9A-Za-z.-]+`
abbrev in_suffix : ℕ → Bool
in_suffix c =
    is_digit c || (leb b'A' c && leb c b'Z') || (leb b'a' c && leb c b'z') || c == b'.' || c == b'-'

abbrev is_suffix : Text → Bool
is_suffix [] = false
is_suffix (c ∷ []) = in_suffix c
is_suffix (c ∷ d ∷ s) = in_suffix c && is_suffix (d ∷ s)

-- The text up to the first dash, and what follows it.
abbrev cut_dash : Text → Text × Option Text
cut_dash [] = ([], none)
cut_dash (c ∷ s) = if c == b'-' then ([], some s) else (c ∷ (cut_dash s).0, (cut_dash s).1)

abbrev suffix_matches : Option Text → Bool
suffix_matches none = true
suffix_matches (some s) = is_suffix s

-- The numbers of a version that `/^\d+(\.\d+){0,2}(-[0-9A-Za-z.-]+)?$/` matches, which can have no
-- dash before its suffix: the range, where `v` is the version itself.
abbrev range_of : Text → List Text → Option Text
range_of v [] = none
range_of v (major ∷ []) = if is_number major then some (major ++ codes ".x") else none
range_of v (major ∷ minor ∷ []) =
    if is_number major && is_number minor
    then some (major ++ codes "." ++ minor ++ codes ".x")
    else none
range_of v (major ∷ minor ∷ patch ∷ []) =
    if is_number major && is_number minor && is_number patch then some v else none
range_of v (_ ∷ _ ∷ _ ∷ _ ∷ _) = none

unfoldable pub ref_to_range : Text → Option Text
unfolding split
ref_to_range ref =
    let v = without_v ref in
    if suffix_matches (cut_dash v).1 then range_of v (split (cut_dash v).0 b'.') else none

-- `semver.coerce(tag)?.version`, `semver.satisfies` without pre-releases, and whether
-- `semver.rcompare` puts the first version before the second.
pub record Semver : Type 0 where
  pub coerce : Text → Option Text
  pub satisfies : Text → Text → Bool
  pub before : Text → Text → Bool

abbrev pub unless_draft : Bool → Release → List Release → List Release
unless_draft true r rest = rest
unless_draft false r rest = r ∷ rest

-- `releases.filter((r) => !r.draft)`
abbrev pub usable : List Release → List Release
usable [] = []
usable (r ∷ rs) = unless_draft r.draft r (usable rs)

-- `usable.find((r) => r.tag_name === ref)`
abbrev pub find_tag : Text → List Release → Option Release
find_tag ref [] = none
find_tag ref (r ∷ rs) = if text_eq r.tag_name ref then some r else find_tag ref rs

abbrev pub keep : Option (Release × Text) → List (Release × Text) → List (Release × Text)
keep none rest = rest
keep (some x) rest = x ∷ rest

abbrev pub first : List (Release × Text) → Option Release
first [] = none
first (x ∷ xs) = some x.0

abbrev or_by_range : Option Release → Option Release → Option Release
or_by_range (some exact) other = some exact
or_by_range none other = other

module _ (sv : Semver) where
  -- `x.v && semver.satisfies(x.v, range, ...)`: an empty version is no version.
  abbrev pub candidate : Text → Release → Option Text → Option (Release × Text)
  candidate range r none = none
  candidate range r (some v) =
      if not (is_empty v) && sv.satisfies v range then some (r, v) else none

  abbrev pub matched : Text → List Release → List (Release × Text)
  matched range [] = []
  matched range (r ∷ rs) = keep (candidate range r (sv.coerce r.tag_name)) (matched range rs)

  -- `matched.sort((x, y) => semver.rcompare(x.v, y.v))`, which is stable.
  abbrev pub insert : Release × Text → List (Release × Text) → List (Release × Text)
  insert x [] = x ∷ []
  insert x (y ∷ ys) = if sv.before x.1 y.1 then x ∷ y ∷ ys else y ∷ insert x ys

  abbrev pub sort_onto : List (Release × Text) → List (Release × Text) → List (Release × Text)
  sort_onto sorted [] = sorted
  sort_onto sorted (x ∷ xs) = sort_onto (insert x sorted) xs

  abbrev pub by_range : Option Text → List Release → Option Release
  by_range none releases = none
  by_range (some range) releases = first (sort_onto [] (matched range releases))

  unfoldable pub pick_release : List Release → Text → Option Release
  unfolding ref_to_range
  pick_release releases ref =
      or_by_range (find_tag ref (usable releases)) (by_range (ref_to_range ref) (usable releases))

tests :
    (ref_to_range (codes "v1") ≡ some (codes "1.x"))
    × (ref_to_range (codes "v1.0") ≡ some (codes "1.0.x"))
    × (ref_to_range (codes "V1.2.3-rc.1") ≡ some (codes "1.2.3-rc.1"))
    × (ref_to_range (codes "main") ≡ none)
    × (ref_to_range (codes "1.2.3.4") ≡ none)
    × (ref_to_range (codes "v1-") ≡ none)
unfolding ref_to_range split
tests = (refl, refl, refl, refl, refl, refl)
