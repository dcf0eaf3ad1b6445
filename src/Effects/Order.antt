-- ===== src/Effects/Order.antt =====
-- The order of the calls: those of the first part, and those of the rest behind its success.
use sccache_dist_action.Common.{
  Option-cases, All, Occurs, Result, ok, err, ◌≡◌, refl, sym, ap, ◌∙◌, subst, ◌⊎◌, inl, inr, Option,
  none, List, [], ◌∷◌, ◌++◌, append_assoc,
}
use sccache_dist_action.Effects.{Outcome, follow, and_then, perform, emit, Makes}

follow-ok :
    {X E A B : Type 0} (r : Result E A) (before : List X) (k : A → Outcome X E B) (b : B)
    → (follow r before k).result ≡ ok b
    → (a : A) × (r ≡ ok a)
      × ((k a).result ≡ ok b)
      × ((follow r before k).trace ≡ before ++ (k a).trace)
unfolding follow
follow-ok (err e) before k b h = cc
follow-ok (ok a) before k b h = (a, refl, h, refl)

-- A function that succeeds has made the calls of its first part, and then those of the rest.
pub and_then-ok :
    {X E A B : Type 0} (m : Outcome X E A) (k : A → Outcome X E B) (b : B)
    → (and_then m k).result ≡ ok b
    → (a : A) × (m.result ≡ ok a)
      × ((k a).result ≡ ok b)
      × ((and_then m k).trace ≡ m.trace ++ (k a).trace)
unfolding and_then
and_then-ok m k b h = follow-ok m.result m.trace k b h

pub perform-accepted :
    {X E : Type 0} (refuses : X → Option E) (x : X)
    → refuses x ≡ none
    → (perform refuses x).result ≡ ok tt
unfolding perform
perform-accepted refuses x h = rw h refl

pub perform-ok :
    {X E : Type 0} (refuses : X → Option E) (x : X)
    → (perform refuses x).result ≡ ok tt
    → (perform refuses x).trace ≡ x ∷ []
unfolding perform
perform-ok refuses x h = elim (Option-cases (refuses x)) [
  | inl e ↦ rw e refl
  | inr (e, same) ↦ rw same refl
]

follow-cases :
    {X E A B : Type 0} (r : Result E A) (before : List X) (k : A → Outcome X E B)
    → ((follow r before k).trace ≡ before)
      ⊎ ((a : A) × (r ≡ ok a) × ((follow r before k).trace ≡ before ++ (k a).trace))
unfolding follow
follow-cases (err e) before k = inl refl
follow-cases (ok a) before k = inr (a, refl, refl)

-- The calls are those of the first part, alone or with those of the rest behind them.
pub and_then-cases :
    {X E A B : Type 0} (m : Outcome X E A) (k : A → Outcome X E B)
    → ((and_then m k).trace ≡ m.trace)
      ⊎ ((a : A) × (m.result ≡ ok a) × ((and_then m k).trace ≡ m.trace ++ (k a).trace))
unfolding and_then
and_then-cases m k = follow-cases m.result m.trace k

pub All-Occurs : {X : Type 0} (P : X → Type 0) (x : X) (xs : List X) → All P xs → Occurs x xs → P x
All-Occurs P x [] h there = absurd there
All-Occurs P x (y ∷ xs) (p, ps) (inl e) = subst P (sym e) p
All-Occurs P x (y ∷ xs) (p, ps) (inr h) = All-Occurs P x xs ps h

-- A call that the first part does not make is made only behind its success.
pub and_then-past :
    {X E A B : Type 0} (P : X → Type 0) (x : X) (m : Outcome X E A) (k : A → Outcome X E B)
    → Makes P m
    → ¬ P x
    → Occurs x (and_then m k).trace
    → (a : A) × (m.result ≡ ok a) × ((and_then m k).trace ≡ m.trace ++ (k a).trace)
and_then-past P x m k h h' there = elim (and_then-cases m k) [
  | inl e ↦ absurd (h' (All-Occurs P x m.trace h (subst (Occurs x) e there)))
  | inr r ↦ r
]

pub and_then-emit :
    {X E B : Type 0} (xs : List X) (k : Unit {0} → Outcome X E B)
    → (and_then (emit xs) k).trace ≡ xs ++ (k tt).trace
unfolding and_then
and_then-emit xs k = refl

-- A call that is made, and not in the first part, is made in the rest.
pub Occurs-past :
    {X : Type 0} (P : X → Type 0) (x : X) (xs ys : List X)
    → All P xs
    → ¬ P x
    → Occurs x (xs ++ ys)
    → Occurs x ys
Occurs-past P x [] ys h h' there = there
Occurs-past P x (y ∷ xs) ys (p, ps) h' (inl e) = absurd (h' (subst P (sym e) p))
Occurs-past P x (y ∷ xs) ys (p, ps) h' (inr there) = Occurs-past P x xs ys ps h' there

ok-injective : {E A : Type 0} (a b : A) → ◌≡◌ {A = Result E A} (ok a) (ok b) → a ≡ b
ok-injective a b h = cc

follow-result :
    {X E A B : Type 0} (r : Result E A) (before : List X) (k : A → Outcome X E B) (a : A)
    → r ≡ ok a
    → (follow r before k).result ≡ (k a).result
unfolding follow
follow-result (err e) before k a h = cc
follow-result (ok b) before k a h = ap (λ x. (k x).result) (ok-injective b a h)

-- Behind a success, the result is that of the rest.
pub and_then-result :
    {X E A B : Type 0} (m : Outcome X E A) (k : A → Outcome X E B) (a : A)
    → m.result ≡ ok a
    → (and_then m k).result ≡ (k a).result
unfolding and_then
and_then-result m k a h = follow-result m.result m.trace k a h

follow-trace :
    {X E A B : Type 0} (r : Result E A) (before : List X) (k : A → Outcome X E B) (a : A)
    → r ≡ ok a
    → (follow r before k).trace ≡ before ++ (k a).trace
unfolding follow
follow-trace (err e) before k a h = cc
follow-trace (ok b) before k a h = ap (λ x. before ++ (k x).trace) (ok-injective b a h)

pub and_then-trace :
    {X E A B : Type 0} (m : Outcome X E A) (k : A → Outcome X E B) (a : A)
    → m.result ≡ ok a
    → (and_then m k).trace ≡ m.trace ++ (k a).trace
unfolding and_then
and_then-trace m k a h = follow-trace m.result m.trace k a h

pub regroup : {A : Type 0} (s f g r : List A) → s ++ (f ++ (g ++ r)) ≡ (s ++ (f ++ g)) ++ r
regroup s f g r = sym (append_assoc s (f ++ g) r ∙ ap (λ t. s ++ t) (append_assoc f g r))
