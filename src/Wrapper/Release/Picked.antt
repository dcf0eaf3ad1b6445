-- ===== src/Wrapper/Release/Picked.antt =====
-- src/index.js: which release is picked.
use sccache_dist_action.Common.{
  All, Occurs, Text, ◌≡◌, refl, ◌∙◌, sym, subst, ◌≢◌, ◌⊎◌, inl, inr, false, Option, none, some,
  List, [], ◌∷◌,
}
use sccache_dist_action.Wrapper.Release.Matched.{
  usable-Occurs, usable-of, find_tag-cases, IsMatch, matched-Occurs, matched-of, some_injective,
  none_ne_some,
}
use sccache_dist_action.Wrapper.Release.Sorted.{
  IsOrder, IsLed, sort_onto-IsLed, sort_onto-Occurs, sort_onto-All,
}
use sccache_dist_action.Wrapper.Release.{
  Release, Semver, ref_to_range, usable, matched, sort_onto, first, by_range, pick_release,
}

All-Occurs : {A : Type 0} (P : A → Type 0) (a : A) (xs : List A) → All P xs → Occurs a xs → P a
All-Occurs P a [] h there = absurd there
All-Occurs P a (x ∷ xs) (p, h) (inl e) = subst P (sym e) p
All-Occurs P a (x ∷ xs) (p, h) (inr there) = All-Occurs P a xs h there

All-of : {A : Type 0} (P : A → Type 0) (xs : List A) → ((x : A) → Occurs x xs → P x) → All P xs
All-of P [] h = tt
All-of P (x ∷ xs) h = (h x (inl refl), All-of P xs (λ y there. h y (inr there)))

module _ (sv : Semver) (order : IsOrder sv) (releases : List Release) (ref : Text) where
  -- The newest of the releases that are no drafts and whose version is in the ref's range.
  abbrev pub IsNewest : Release → Type 0
  IsNewest r =
      (range v : Text) × (ref_to_range ref ≡ some range)
      × IsMatch sv range (r, v)
      × ((q : Release) (w : Text)
          → Occurs q releases
          → q.draft ≡ false
          → IsMatch sv range (q, w)
          → sv.before w v ≡ false)

  -- What is picked, and that nothing else would do where nothing is.
  abbrev pub IsPick : Option Release → Type 0
  IsPick none =
      (q : Release)
      → Occurs q releases
      → q.draft ≡ false
      → (q.tag_name ≢ ref)
        × ((range w : Text) → ref_to_range ref ≡ some range → ¬ IsMatch sv range (q, w))
  IsPick (some r) =
      Occurs r releases
      × (r.draft ≡ false)
      × ((r.tag_name ≡ ref)
          ⊎ (((q : Release) → Occurs q releases → q.draft ≡ false → q.tag_name ≢ ref) × IsNewest r))

  first_picked :
      (range : Text) (sorted : List (Release × Text))
      → ref_to_range ref ≡ some range
      → ((q : Release) → Occurs q releases → q.draft ≡ false → q.tag_name ≢ ref)
      → IsLed sv order sorted
      → All (λ x. Occurs x.0 (usable releases) × IsMatch sv range x) sorted
      → ((z : Release × Text) → Occurs z (matched sv range (usable releases)) → Occurs z sorted)
      → IsPick (first sorted)
  first_picked range [] e other led all complete = λ q on ready. (
    other q on ready,
    λ range' w e' match.
        let same : range' ≡ range = some_injective (sym e' ∙ e) in
        complete (q, w)
          (matched-of sv range q w (usable releases) (usable-of q releases ready on)
            (subst (λ t. IsMatch sv t (q, w)) same match)),
  )
  first_picked range ((r, v) ∷ xs) e other led ((there, match), all) complete =
      let (on, ready) = usable-Occurs r releases there in
      (
        on,
        ready,
        inr (
          other,
          (
            range,
            v,
            e,
            match,
            λ q w on' ready' match'.
                behind (q, w)
                  (complete (q, w)
                    (matched-of sv range q w (usable releases) (usable-of q releases ready' on')
                      match')),
          ),
        ),
      )
    where
      behind : (z : Release × Text) → Occurs z ((r, v) ∷ xs) → sv.before z.1 v ≡ false
      behind z (inl e) = subst (λ t. sv.before t.1 v ≡ false) (sym e) (order.0 v)
      behind z (inr later) = All-Occurs (λ y. sv.before y.1 v ≡ false) z xs led later

  by_range-IsPick :
      (o : Option Text)
      → ref_to_range ref ≡ o
      → ((q : Release) → Occurs q releases → q.draft ≡ false → q.tag_name ≢ ref)
      → IsPick (by_range sv o (usable releases))
  by_range-IsPick none e other =
      λ q on ready. (other q on ready, λ range w e' match. none_ne_some (sym e ∙ e'))
  by_range-IsPick (some range) e other =
      let ms = matched sv range (usable releases) in
      first_picked range (sort_onto sv [] ms) e other (sort_onto-IsLed sv order [] ms tt)
        (sort_onto-All sv order (λ x. Occurs x.0 (usable releases) × IsMatch sv range x) [] ms tt
          (All-of (λ x. Occurs x.0 (usable releases) × IsMatch sv range x) ms
            (λ x on. matched-Occurs sv range x (usable releases) on)))
        (λ z on. sort_onto-Occurs sv order z [] ms (inr on))

  -- The release that is picked is one of the list and no draft; it has the ref for its tag, or, if no
  -- release but drafts has, it is the newest of those whose version is in the range that the ref
  -- stands for, if `semver.rcompare` orders the versions. None is picked only if no release but drafts
  -- has the ref for its tag or a version in that range.
  pub picked_release : IsPick (pick_release sv releases ref)
  unfolding pick_release
  picked_release = elim (find_tag-cases ref (usable releases)) [
    | inl (q, found, there, e) ↦
        let (on, ready) = usable-Occurs q releases there in rw found (on, ready, inl e)
    | inr (nowhere, none_has) ↦ rw nowhere (
        by_range-IsPick (ref_to_range ref) refl (λ q on ready.
          All-Occurs (λ x. x.tag_name ≢ ref) q (usable releases) none_has
            (usable-of q releases ready on)))
  ]
