-- ===== src/Wrapper/Release/Sorted.antt =====
-- src/index.js: the candidates, sorted by version.
use sccache_dist_action.Common.{
  Bool-cases, false_ne_true, All, Occurs, Text, ◌≡◌, sym, ◌∙◌, ◌⊎◌, inl, inr, true, false, List, [],
  ◌∷◌,
}
use sccache_dist_action.Wrapper.Release.{Release, Semver, insert, sort_onto}

-- `semver.rcompare` puts the newer of two versions first, and orders them.
abbrev pub IsOrder : Semver → Type 0
IsOrder sv =
    ((v : Text) → sv.before v v ≡ false)
    × ((u v w : Text) → sv.before u v ≡ true → sv.before v w ≡ true → sv.before u w ≡ true)

module _ (sv : Semver) (order : IsOrder sv) where
  -- None of the entries has to stand before the given one.
  abbrev pub NoneBefore : Release × Text → List (Release × Text) → Type 0
  NoneBefore x ys = All (λ y. sv.before y.1 x.1 ≡ false) ys

  -- The first entry is the newest.
  abbrev pub IsLed : List (Release × Text) → Type 0
  IsLed [] = Unit
  IsLed (x ∷ xs) = NoneBefore x xs

  not_back : (x y : Release × Text) → sv.before x.1 y.1 ≡ true → sv.before y.1 x.1 ≡ false
  not_back x y h = elim (Bool-cases (sv.before y.1 x.1)) [
    | inl back ↦ absurd (false_ne_true (sym (order.0 x.1) ∙ order.1 x.1 y.1 x.1 h back))
    | inr fine ↦ fine
  ]

  NoneBefore-newer :
      (x y : Release × Text) (zs : List (Release × Text))
      → sv.before x.1 y.1 ≡ true
      → NoneBefore y zs
      → NoneBefore x zs
  NoneBefore-newer x y [] h k = tt
  NoneBefore-newer x y (z ∷ zs) h (k, ks) = (one, NoneBefore-newer x y zs h ks)
    where
      one : sv.before z.1 x.1 ≡ false
      one = elim (Bool-cases (sv.before z.1 x.1)) [
        | inl newer ↦ absurd (false_ne_true (sym k ∙ order.1 z.1 x.1 y.1 newer h))
        | inr fine ↦ fine
      ]

  insert-All :
      (P : Release × Text → Type 0) (x : Release × Text) (ys : List (Release × Text))
      → P x
      → All P ys
      → All P (insert sv x ys)
  insert-All P x [] p h = (p, tt)
  insert-All P x (y ∷ ys) p (q, h) = elim (Bool-cases (sv.before x.1 y.1)) [
    | inl newer ↦ rw newer (p, (q, h))
    | inr older ↦ rw older (q, insert-All P x ys p h)
  ]

  insert-IsLed :
      (x : Release × Text) (ys : List (Release × Text)) → IsLed ys → IsLed (insert sv x ys)
  insert-IsLed x [] h = tt
  insert-IsLed x (y ∷ ys) h = elim (Bool-cases (sv.before x.1 y.1)) [
    | inl newer ↦ rw newer (not_back x y newer, NoneBefore-newer x y ys newer h)
    | inr older ↦ rw older (insert-All (λ z. sv.before z.1 y.1 ≡ false) x ys older h)
  ]

  insert-Occurs :
      (x z : Release × Text) (ys : List (Release × Text))
      → (z ≡ x) ⊎ Occurs z ys
      → Occurs z (insert sv x ys)
  insert-Occurs x z [] (inl e) = inl e
  insert-Occurs x z [] (inr there) = absurd there
  insert-Occurs x z (y ∷ ys) h = elim (Bool-cases (sv.before x.1 y.1)) [
    | inl newer ↦ rw newer h
    | inr older ↦ rw older (elim h [
      | inl e ↦ inr (insert-Occurs x z ys (inl e))
      | inr there ↦ elim there [
        | inl here ↦ inl here
        | inr later ↦ inr (insert-Occurs x z ys (inr later))
      ]
    ])
  ]

  pub sort_onto-IsLed :
      (sorted xs : List (Release × Text)) → IsLed sorted → IsLed (sort_onto sv sorted xs)
  sort_onto-IsLed sorted [] h = h
  sort_onto-IsLed sorted (x ∷ xs) h =
      sort_onto-IsLed (insert sv x sorted) xs (insert-IsLed x sorted h)

  pub sort_onto-Occurs :
      (z : Release × Text) (sorted xs : List (Release × Text))
      → Occurs z sorted ⊎ Occurs z xs
      → Occurs z (sort_onto sv sorted xs)
  sort_onto-Occurs z sorted [] (inl there) = there
  sort_onto-Occurs z sorted [] (inr there) = absurd there
  sort_onto-Occurs z sorted (x ∷ xs) (inl there) =
      sort_onto-Occurs z (insert sv x sorted) xs (inl (insert-Occurs x z sorted (inr there)))
  sort_onto-Occurs z sorted (x ∷ xs) (inr (inl e)) =
      sort_onto-Occurs z (insert sv x sorted) xs (inl (insert-Occurs x z sorted (inl e)))
  sort_onto-Occurs z sorted (x ∷ xs) (inr (inr there)) =
      sort_onto-Occurs z (insert sv x sorted) xs (inr there)

  -- What is in the sorted list was in one of the two.
  pub sort_onto-All :
      (P : Release × Text → Type 0) (sorted xs : List (Release × Text))
      → All P sorted
      → All P xs
      → All P (sort_onto sv sorted xs)
  sort_onto-All P sorted [] h k = h
  sort_onto-All P sorted (x ∷ xs) h (p, k) =
      sort_onto-All P (insert sv x sorted) xs (insert-All P x sorted p h) k
