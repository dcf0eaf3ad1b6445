-- ===== src/Stdlib/Paths.antt =====
-- path/filepath.Join of a directory and a name, and filepath.Clean, by components.
use sccache_dist_action.Common.{
  ◌==◌, if◌then◌else◌, Text, codes, text_eq, is_empty, ◌≡◌, refl, Bool, true, false, ◌||◌, List, [],
  ◌∷◌, ◌++◌,
}
use mathlib.Core.List.{reverse}
use sccache_dist_action.Stdlib.Strings.{split}

-- A rooted path cannot go above the root; another keeps the leading `..`.
abbrev up_one : Bool → List Text → List Text
up_one true [] = []
up_one false [] = codes ".." ∷ []
up_one rooted (p ∷ stack) = if text_eq p (codes "..") then codes ".." ∷ p ∷ stack else stack

-- The components kept so far, the last at the head.
clean_parts : Bool → List Text → List Text → List Text
clean_parts rooted stack [] = reverse stack
clean_parts rooted stack (p ∷ ps) =
    clean_parts rooted
      (if is_empty p || text_eq p (codes ".")
        then stack
        else if text_eq p (codes "..")
        then up_one rooted stack
        else p ∷ stack)
      ps

join_parts : List Text → Text
join_parts [] = []
join_parts (p ∷ []) = p
join_parts (p ∷ q ∷ ps) = p ++ b'/' ∷ join_parts (q ∷ ps)

abbrev or_dot : Text → Text
or_dot [] = codes "."
or_dot (c ∷ s) = c ∷ s

unfoldable pub clean : Text → Text
unfolding clean_parts join_parts text_eq split
clean [] = codes "."
clean (c ∷ s) =
    if c == b'/'
    then b'/' ∷ join_parts (clean_parts true [] (split s b'/'))
    else or_dot (join_parts (clean_parts false [] (split (c ∷ s) b'/')))

unfoldable pub join : Text → Text → Text
unfolding clean
join [] [] = []
join [] (c ∷ name) = clean (c ∷ name)
join (c ∷ dir) name = clean ((c ∷ dir) ++ b'/' ∷ name)

tests :
    (join (codes "/tmp/a") (codes "x.conf") ≡ codes "/tmp/a/x.conf")
    × (join (codes "/") (codes "x") ≡ codes "/x")
    × (clean (codes "a/../../b//./c") ≡ codes "../b/c")
    × (clean (codes "/../x/..") ≡ codes "/")
unfolding join clean
tests = (refl, refl, refl, refl)
