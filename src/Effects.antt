-- ===== src/Effects.antt =====
-- A function of the source that acts on the world: what it returns, and the calls it made, in order.
-- `X` are the calls; the world's answers to them are parameters of the functions.
pub mod Order
pub mod Every
pub mod Chain
use sccache_dist_action.Common.{All, Result, ok, err, ◌≡◌, Option, none, some, List, [], ◌∷◌, ◌++◌}

pub record Outcome (X E A : Type 0) : Type 0 where
  pub result : Result E A
  pub trace : List X

-- What follows a result: nothing after an error.
unfoldable pub follow :
    {X E A B : Type 0} → Result E A → List X → (A → Outcome X E B) → Outcome X E B
follow (err e) before k = record { result = err e; trace = before }
follow (ok a) before k = record { result = (k a).result; trace = before ++ (k a).trace }

unfoldable pub and_then : {X E A B : Type 0} → Outcome X E A → (A → Outcome X E B) → Outcome X E B
unfolding follow
and_then m k = follow m.result m.trace k

-- A call that can fail.
answered : {X E : Type 0} → X → Option E → Outcome X E (Unit {0})
answered x none = record { result = ok tt; trace = x ∷ [] }
answered x (some e) = record { result = err e; trace = x ∷ [] }

unfoldable pub perform : {X E : Type 0} → (X → Option E) → X → Outcome X E (Unit {0})
unfolding answered
perform refuses x = answered x (refuses x)

-- Calls that cannot fail, or whose failure is not looked at.
abbrev pub emit : {X E : Type 0} → List X → Outcome X E (Unit {0})
emit xs = record { result = ok tt; trace = xs }

abbrev pub fail : {X E A : Type 0} → E → Outcome X E A
fail e = record { result = err e; trace = [] }

-- Every call satisfies `P`, however far the function came.
abbrev pub Makes : {X E A : Type 0} → (X → Type 0) → Outcome X E A → Type 0
Makes P m = All P m.trace

-- Every call does, if the function fails.
abbrev pub FailsMaking : {X E A : Type 0} → (X → Type 0) → Outcome X E A → Type 0
FailsMaking {X} {E} P m = (e : E) → m.result ≡ err e → All P m.trace

-- A success has made the calls `last` in the end, after others that satisfy `P`.
abbrev pub EndsWith : {X E A : Type 0} → (X → Type 0) → List X → Outcome X E A → Type 0
EndsWith {X} {E} {A} P last m =
    (a : A) → m.result ≡ ok a → (before : List X) × All P before × (m.trace ≡ before ++ last)
