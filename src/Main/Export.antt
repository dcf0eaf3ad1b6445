-- ===== src/Main/Export.antt =====
-- cmd/sccache-dist-action/procctl.go: `waitForEnvExport`.
use sccache_dist_action.Common.{
  if◌then◌else◌, Bool-cases, false_ne_true, if_true, Occurs, Text, codes, is_empty, ◌≡◌, refl,
  subst, ◌↔◌, ◌⊎◌, inl, inr, Bool, true, false, Option, none, some, List, [], ◌∷◌,
}
use sccache_dist_action.Stdlib.Strings.{contains}

-- What the parent looks for in the file.
abbrev pub shows_export : Text → Bool
shows_export content = contains content (codes "SCCACHE_J=")

-- The loop: what os.ReadFile gives in each round that begins before the deadline.
polls : List (Option Text) → Bool
polls [] = false
polls (none ∷ rs) = polls rs
polls (some content ∷ rs) = if shows_export content then true else polls rs

-- `github_env` is GITHUB_ENV.
unfoldable pub wait_for_env_export : Text → List (Option Text) → Bool
unfolding polls
wait_for_env_export github_env rs = if is_empty github_env then true else polls rs

polls-to :
    (rs : List (Option Text))
    → polls rs ≡ true
    → (content : Text) × Occurs (some content) rs × (shows_export content ≡ true)
unfolding polls
polls-to [] h = absurd (false_ne_true h)
polls-to (none ∷ rs) h = let (content, there, shown) = polls-to rs h in (content, inr there, shown)
polls-to (some content ∷ rs) h = elim (Bool-cases (shows_export content)) [
  | inl shown ↦ (content, inl refl, shown)
  | inr hidden ↦
      let (content', there, shown) = polls-to rs (rw hidden at h) in (content', inr there, shown)
]

some_injective : {a b : Text} → ◌≡◌ {A = Option Text} (some a) (some b) → a ≡ b
some_injective e = cc

polls-of :
    (rs : List (Option Text)) (content : Text)
    → Occurs (some content) rs
    → shows_export content ≡ true
    → polls rs ≡ true
unfolding polls
polls-of [] content there shown = absurd there
polls-of (none ∷ rs) content (inl e) shown = cc
polls-of (none ∷ rs) content (inr there) shown = polls-of rs content there shown
polls-of (some c ∷ rs) content (inl e) shown =
    let shown' : shows_export c ≡ true =
      subst (λ t. shows_export t ≡ true) (some_injective e) shown in
    rw shown' refl
polls-of (some c ∷ rs) content (inr there) shown =
    if_true (shows_export c) (polls rs) (polls-of rs content there shown)

-- The parent goes on exactly if no file is named, or one of the reads that it begins before the
-- deadline succeeds and shows the export; the reads that fail are passed over.
pub wait_for_env_export_iff :
    (github_env : Text) (rs : List (Option Text))
    → (wait_for_env_export github_env rs ≡ true) ↔ (
        (github_env ≡ [])
        ⊎ ((content : Text) × Occurs (some content) rs × (shows_export content ≡ true)))
unfolding wait_for_env_export
wait_for_env_export_iff [] rs = (λ _. inl refl, λ _. refl)
wait_for_env_export_iff (c ∷ s) rs = (
  λ h. inr (polls-to rs h),
  λ h. elim h [ inl e ↦ cc | inr (content, there, shown) ↦ polls-of rs content there shown ],
)
