-- ===== src/Wrapper/Release/Matched.antt =====
-- src/index.js: which releases can be picked.
use sccache_dist_action.Common.{
  Bool-cases, false_ne_true, All, Occurs, Text, text_eq, text_eq_iff, is_empty, is_empty_ne,
  ne_is_empty, ◌≡◌, refl, sym, ap, ◌∙◌, subst, ◌≢◌, ◌⊎◌, inl, inr, Bool, true, false, not, ◌&&◌,
  Option, none, some, List, [], ◌∷◌, arith,
}
use sccache_dist_action.Wrapper.Release.{
  Release, Semver, usable, unless_draft, find_tag, candidate, keep, matched,
}

unless_draft-Occurs :
    (draft : Bool) (r q : Release) (rest : List Release)
    → q.draft ≡ draft
    → Occurs r (unless_draft draft q rest)
    → ((r ≡ q) × (r.draft ≡ false)) ⊎ Occurs r rest
unless_draft-Occurs true r q rest e there = inr there
unless_draft-Occurs false r q rest e (inl same) =
    inl (same, subst (λ x. x.draft ≡ false) (sym same) e)
unless_draft-Occurs false r q rest e (inr there) = inr there

pub usable-Occurs :
    (r : Release) (rs : List Release) → Occurs r (usable rs) → Occurs r rs × (r.draft ≡ false)
usable-Occurs r [] there = absurd there
usable-Occurs r (q ∷ rs) there = elim (unless_draft-Occurs q.draft r q (usable rs) refl there) [
  | inl (same, ready) ↦ (inl same, ready)
  | inr later ↦ let (on, ready) = usable-Occurs r rs later in (inr on, ready)
]

unless_draft-of :
    (draft : Bool) (r q : Release) (rest : List Release)
    → q.draft ≡ draft
    → r.draft ≡ false
    → (r ≡ q) ⊎ Occurs r rest
    → Occurs r (unless_draft draft q rest)
unless_draft-of true r q rest e ready (inl same) =
    absurd (false_ne_true (sym ready ∙ ap (λ x. x.draft) same ∙ e))
unless_draft-of true r q rest e ready (inr there) = there
unless_draft-of false r q rest e ready h = h

pub usable-of :
    (r : Release) (rs : List Release) → r.draft ≡ false → Occurs r rs → Occurs r (usable rs)
usable-of r [] ready there = absurd there
usable-of r (q ∷ rs) ready (inl same) =
    unless_draft-of q.draft r q (usable rs) refl ready (inl same)
usable-of r (q ∷ rs) ready (inr there) =
    unless_draft-of q.draft r q (usable rs) refl ready (inr (usable-of r rs ready there))

-- The first release with the tag, or none has it.
pub find_tag-cases :
    (ref : Text) (rs : List Release)
    → ((r : Release) × (find_tag ref rs ≡ some r) × Occurs r rs × (r.tag_name ≡ ref))
      ⊎ ((find_tag ref rs ≡ none) × All (λ r. r.tag_name ≢ ref) rs)
find_tag-cases ref [] = inr (refl, tt)
find_tag-cases ref (r ∷ rs) = elim (Bool-cases (text_eq r.tag_name ref)) [
  | inl same ↦ inl (r, rw same refl, inl refl, (text_eq_iff r.tag_name ref).0 same)
  | inr other ↦
      let ne : r.tag_name ≢ ref =
        λ e. false_ne_true (sym other ∙ (text_eq_iff r.tag_name ref).1 e) in
      elim (find_tag-cases ref rs) [
        | inl (q, found, there, e) ↦ inl (q, rw other found, inr there, e)
        | inr (nowhere, h) ↦ inr (rw other nowhere, (ne, h))
      ]
]

pub some_injective : {A : Type 0} {a b : A} → ◌≡◌ {A = Option A} (some a) (some b) → a ≡ b
some_injective h = cc

pub none_ne_some : {A : Type 0} {a : A} → ◌≡◌ {A = Option A} none (some a) → ⊥
none_ne_some h = cc

keep-Occurs :
    (o : Option (Release × Text)) (x : Release × Text) (rest : List (Release × Text))
    → Occurs x (keep o rest)
    → (o ≡ some x) ⊎ Occurs x rest
keep-Occurs none x rest there = inr there
keep-Occurs (some y) x rest (inl e) = inl (ap some (sym e))
keep-Occurs (some y) x rest (inr there) = inr there

keep-of :
    (o : Option (Release × Text)) (x : Release × Text) (rest : List (Release × Text))
    → (o ≡ some x) ⊎ Occurs x rest
    → Occurs x (keep o rest)
keep-of none x rest (inl e) = absurd (none_ne_some e)
keep-of none x rest (inr there) = there
keep-of (some y) x rest (inl e) = inl (some_injective (sym e))
keep-of (some y) x rest (inr there) = inr there

module _ (sv : Semver) (range : Text) where
  -- A release with a version in the range.
  abbrev pub IsMatch : Release × Text → Type 0
  IsMatch (r, v) = (sv.coerce r.tag_name ≡ some v) × (v ≢ []) × (sv.satisfies v range ≡ true)

  candidate_sound :
      (r : Release) (o : Option Text) (x : Release × Text)
      → sv.coerce r.tag_name ≡ o
      → candidate sv range r o ≡ some x
      → (x.0 ≡ r) × IsMatch x
  candidate_sound r none x e h = cc
  candidate_sound r (some v) x e h = elim (Bool-cases (not (is_empty v) && sv.satisfies v range)) [
    | inl in_range ↦
        let same : (r, v) ≡ x = some_injective (rw in_range at h) in
        (
          ap (λ (t : Release × Text). t.0) (sym same),
          subst IsMatch same (e, is_empty_ne v (ground arith), ground arith),
        )
    | inr out ↦ absurd (none_ne_some (rw out at h))
  ]

  candidate-of :
      (r : Release) (v : Text)
      → IsMatch (r, v)
      → candidate sv range r (sv.coerce r.tag_name) ≡ some (r, v)
  candidate-of r v (e, ne, h) = rw (e, ne_is_empty v ne, h) refl

  pub matched-Occurs :
      (x : Release × Text) (rs : List Release)
      → Occurs x (matched sv range rs)
      → Occurs x.0 rs × IsMatch x
  matched-Occurs x [] there = absurd there
  matched-Occurs x (r ∷ rs) there =
      elim (keep-Occurs (candidate sv range r (sv.coerce r.tag_name)) x (matched sv range rs)
        there) [
          | inl here ↦
              let (same, h) = candidate_sound r (sv.coerce r.tag_name) x refl here in (inl same, h)
          | inr later ↦ let (on, h) = matched-Occurs x rs later in (inr on, h)
        ]

  pub matched-of :
      (r : Release) (v : Text) (rs : List Release)
      → Occurs r rs
      → IsMatch (r, v)
      → Occurs (r, v) (matched sv range rs)
  matched-of r v [] there h = absurd there
  matched-of r v (q ∷ rs) (inl same) h =
      keep-of (candidate sv range q (sv.coerce q.tag_name)) (r, v) (matched sv range rs)
        (inl (
          subst (λ t. candidate sv range t (sv.coerce t.tag_name) ≡ some (r, v)) same
            (candidate-of r v h)))
  matched-of r v (q ∷ rs) (inr there) h =
      keep-of (candidate sv range q (sv.coerce q.tag_name)) (r, v) (matched sv range rs)
        (inr (matched-of r v rs there h))
