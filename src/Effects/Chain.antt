-- ===== src/Effects/Chain.antt =====
-- A chain of calls, each made only behind the success of the one before.
use sccache_dist_action.Common.{
  Option-cases, Occurs, Result, err, none, ok, ◌≡◌, refl, sym, ap, ◌∙◌, subst, ◌≢◌, inl, inr,
  Option, List, [], ◌∷◌, ◌++◌,
}
use sccache_dist_action.Effects.{Outcome, and_then, perform, emit}
use sccache_dist_action.Effects.Order.{
  and_then-past, and_then-ok, and_then-emit, perform-ok, and_then-result, and_then-cases,
}
use sccache_dist_action.Effects.Every.{perform-Makes}

Occurs-behind : {X : Type 0} (x y : X) (ys : List X) → y ≢ x → Occurs x (y ∷ ys) → Occurs x ys
Occurs-behind x y ys ne (inl e) = absurd (ne (sym e))
Occurs-behind x y ys ne (inr h) = h

perform-trace : {X E : Type 0} (refuses : X → Option E) (x : X) → (perform refuses x).trace ≡ x ∷ []
unfolding perform
perform-trace refuses x = elim (Option-cases (refuses x)) [
  | inl e ↦ rw e refl
  | inr (e, same) ↦ rw same refl
]

-- A first call is made in any case.
pub perform_then-head :
    {X E B : Type 0} (y : X) (refuses : X → Option E) (k : Unit {0} → Outcome X E B)
    → (later : List X) × ((and_then (perform refuses y) k).trace ≡ y ∷ later)
perform_then-head y refuses k = elim (and_then-cases (perform refuses y) k) [
  | inl alone ↦ ([], alone ∙ perform-trace refuses y)
  | inr (_, _, both) ↦ ((k tt).trace, both ∙ ap (λ t. t ++ (k tt).trace) (perform-trace refuses y))
]

perform-accepts :
    {X E : Type 0} (refuses : X → Option E) (y : X)
    → (perform refuses y).result ≡ ok tt
    → refuses y ≡ none
unfolding perform
perform-accepts refuses y h = elim (Option-cases (refuses y)) [
  | inl accepted ↦ accepted
  | inr (e, refused) ↦ absurd (err_ne_ok (rw refused at h))
]
  where
    err_ne_ok :
        {E : Type 0} {e : E} {a : Unit {0}} → ◌≡◌ {A = Result E (Unit {0})} (err e) (ok a) → ⊥
    err_ne_ok e = cc

module _ {X E B : Type 0} (y : X) (k : Unit {0} → Outcome X E B) where
  -- If another call than `y` is made, it is made in the rest, behind `y`.
  pub perform_then-past :
      (x : X) (refuses : X → Option E)
      → y ≢ x
      → Occurs x (and_then (perform refuses y) k).trace
      → ((and_then (perform refuses y) k).trace ≡ y ∷ (k tt).trace) × Occurs x (k tt).trace
  perform_then-past x refuses ne there =
      let m = perform refuses y in
      let (_, done, trace) =
        and_then-past (λ z. z ≢ x) x m k (perform-Makes (λ z. z ≢ x) refuses y ne) (λ h. h refl)
          there in
      let trace' = trace ∙ ap (λ t. t ++ (k tt).trace) (perform-ok refuses y done) in
      (trace', Occurs-behind x y (k tt).trace ne (subst (Occurs x) trace' there))

  -- And then `y` has not failed.
  pub perform_then_past-accepts :
      (x : X) (refuses : X → Option E)
      → y ≢ x
      → Occurs x (and_then (perform refuses y) k).trace
      → refuses y ≡ none
  perform_then_past-accepts x refuses ne there =
      let (_, done, _) =
        and_then-past (λ z. z ≢ x) x (perform refuses y) k (perform-Makes (λ z. z ≢ x) refuses y ne)
          (λ h. h refl) there in
      perform-accepts refuses y done

  pub perform_then_ok-accepts :
      (refuses : X → Option E) (b : B)
      → (and_then (perform refuses y) k).result ≡ ok b
      → refuses y ≡ none
  perform_then_ok-accepts refuses b h =
      let (_, done, _, _) = and_then-ok (perform refuses y) k b h in perform-accepts refuses y done

  pub emit_then-past :
      (x : X)
      → y ≢ x
      → Occurs x (and_then (emit {E = E} (y ∷ [])) k).trace
      → ((and_then (emit {E = E} (y ∷ [])) k).trace ≡ y ∷ (k tt).trace) × Occurs x (k tt).trace
  emit_then-past x ne there =
      let trace = and_then-emit (y ∷ []) k in
      (trace, Occurs-behind x y (k tt).trace ne (subst (Occurs x) trace there))

  -- If the whole succeeds, `y` is made, and the rest succeeds behind it.
  pub perform_then-ok :
      (refuses : X → Option E) (b : B)
      → (and_then (perform refuses y) k).result ≡ ok b
      → ((and_then (perform refuses y) k).trace ≡ y ∷ (k tt).trace) × ((k tt).result ≡ ok b)
  perform_then-ok refuses b h =
      let (_, done, goes_on, trace) = and_then-ok (perform refuses y) k b h in
      (trace ∙ ap (λ t. t ++ (k tt).trace) (perform-ok refuses y done), goes_on)

  pub emit_then-ok :
      (b : B)
      → (and_then (emit {E = E} (y ∷ [])) k).result ≡ ok b
      → ((and_then (emit {E = E} (y ∷ [])) k).trace ≡ y ∷ (k tt).trace) × ((k tt).result ≡ ok b)
  emit_then-ok b h =
      (and_then-emit (y ∷ []) k, sym (and_then-result (emit {E = E} (y ∷ [])) k tt refl) ∙ h)
