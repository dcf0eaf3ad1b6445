-- ===== src/Tsmesh/Tags.antt =====
-- internal/tsmesh/tsmesh.go: `splitTags`.
use sccache_dist_action.Common.{
  if◌then◌else◌, Bool-cases, All, Text, codes, is_empty, is_empty_ne, ◌≡◌, refl, ◌≢◌, inl, inr,
  List, [], ◌∷◌,
}
use sccache_dist_action.Stdlib.Strings.{split, trim_space}

-- The loop over the parts: one is kept trimmed, unless it is then empty.
unfoldable pub keep_tags : List Text → List Text
keep_tags [] = []
keep_tags (t ∷ ts) = if is_empty (trim_space t) then keep_tags ts else trim_space t ∷ keep_tags ts

unfoldable pub split_tags : Text → List Text
unfolding keep_tags
split_tags tags = keep_tags (split tags b',')

keep_tags-not_empty : (ts : List Text) → All (λ t. t ≢ []) (keep_tags ts)
unfolding keep_tags
keep_tags-not_empty [] = tt
keep_tags-not_empty (t ∷ ts) = elim (Bool-cases (is_empty (trim_space t))) [
  | inl empty ↦ rw empty (keep_tags-not_empty ts)
  | inr full ↦ rw full (is_empty_ne (trim_space t) full, keep_tags-not_empty ts)
]

-- No tag that is advertised is empty.
pub split_tags-not_empty : (tags : Text) → All (λ t. t ≢ []) (split_tags tags)
unfolding split_tags
split_tags-not_empty tags = keep_tags-not_empty (split tags b',')

split_tags_tests :
    (split_tags (codes "tag:a, tag:b,,") ≡ codes "tag:a" ∷ codes "tag:b" ∷ [])
    × (split_tags [] ≡ [])
unfolding split_tags split trim_space
split_tags_tests = (refl, refl)
