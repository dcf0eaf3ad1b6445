-- ===== src/Effects/Every.antt =====
-- Predicates on all the calls of a function.
use sccache_dist_action.Common.{
  Option-cases, All, All-append, All-weaken, Result, ok, err, ◌≡◌, refl, sym, ap, ◌∙◌, inl, inr,
  Option, List, ◌++◌, append_assoc,
}
use sccache_dist_action.Effects.{Outcome, follow, and_then, perform, Makes, FailsMaking, EndsWith}
use sccache_dist_action.Effects.Order.{and_then-ok}

follow-Makes :
    {X E A B : Type 0} (P : X → Type 0) (r : Result E A) (before : List X) (k : A → Outcome X E B)
    → All P before
    → ((a : A) → r ≡ ok a → Makes P (k a))
    → Makes P (follow r before k)
unfolding follow
follow-Makes P (err e) before k h h' = h
follow-Makes P (ok a) before k h h' = All-append P before (k a).trace h (h' a refl)

pub and_then-Makes :
    {X E A B : Type 0} (P : X → Type 0) (m : Outcome X E A) (k : A → Outcome X E B)
    → Makes P m
    → ((a : A) → m.result ≡ ok a → Makes P (k a))
    → Makes P (and_then m k)
unfolding and_then
and_then-Makes P m k h h' = follow-Makes P m.result m.trace k h h'

follow-FailsMaking :
    {X E A B : Type 0} (P : X → Type 0) (r : Result E A) (before : List X) (k : A → Outcome X E B)
    → All P before
    → ((a : A) → r ≡ ok a → FailsMaking P (k a))
    → FailsMaking P (follow r before k)
unfolding follow
follow-FailsMaking P (err e) before k h h' e' same = h
follow-FailsMaking P (ok a) before k h h' e' same =
    All-append P before (k a).trace h (h' a refl e' same)

pub and_then-FailsMaking :
    {X E A B : Type 0} (P : X → Type 0) (m : Outcome X E A) (k : A → Outcome X E B)
    → Makes P m
    → ((a : A) → m.result ≡ ok a → FailsMaking P (k a))
    → FailsMaking P (and_then m k)
unfolding and_then
and_then-FailsMaking P m k h h' = follow-FailsMaking P m.result m.trace k h h'

pub perform-Makes :
    {X E : Type 0} (P : X → Type 0) (refuses : X → Option E) (x : X)
    → P x
    → Makes P (perform refuses x)
unfolding perform
perform-Makes P refuses x h = elim (Option-cases (refuses x)) [
  | inl e ↦ rw e (h, tt)
  | inr (e, same) ↦ rw same (h, tt)
]

pub and_then-EndsWith :
    {X E A B : Type 0} (P : X → Type 0) (last : List X) (m : Outcome X E A) (k : A → Outcome X E B)
    → Makes P m
    → ((a : A) → m.result ≡ ok a → EndsWith P last (k a))
    → EndsWith P last (and_then m k)
and_then-EndsWith P last m k h h' b e =
    let (a, same, passed, trace) = and_then-ok m k b e in
    let (before, silent, ends) = h' a same b passed in
    (
      m.trace ++ before,
      All-append P m.trace before h silent,
      trace ∙ ap (λ t. m.trace ++ t) ends ∙ sym (append_assoc m.trace before last),
    )

pub Makes-weaken :
    {X E A : Type 0} (P Q : X → Type 0) (m : Outcome X E A)
    → ((x : X) → P x → Q x)
    → Makes P m
    → Makes Q m
Makes-weaken P Q m h k = All-weaken P Q h m.trace k
