-- ===== src/Coordinator/Registration.antt =====
-- internal/coordinator/coordinator.go: `waitForRegisteredServers`, over what `registeredServers`
-- answers. The answer is an error, or the count in the scheduler's status.
use sccache_dist_action.Common.{
  if◌then◌else◌, Bool-cases, All, Occurs, ℤ, ◌<ℤ◌, leb_ℤ, Result, pos, ok, err, ◌≡◌, refl, sym, ◌⊎◌,
  inl, inr, Bool, true, false, Option, none, some, List, [], ◌∷◌, ◌++◌, arith,
}

-- A round: what the poll answers, and whether the `select` behind it finds the context ended.
pub record Round (E : Type 0) : Type 0 where
  pub answer : Result E ℤ
  pub ended : Bool

-- `n, _ := registeredServers()`: with an error the count is 0.
abbrev pub count_of : {E : Type 0} → Result E ℤ → ℤ
count_of (ok n) = n
count_of (err e) = pos 0

abbrev pub is_full : {E : Type 0} → Result E ℤ → ℤ → Bool
is_full (ok n) expected = leb_ℤ expected n
is_full (err e) expected = false

-- `final` is the answer to the poll that is made once the context has ended. None while the rounds
-- given are not enough for a return.
unfoldable pub wait_for_registered_servers :
    {E : Type 0} → ℤ → Result E ℤ → List (Round E) → Option ℤ
wait_for_registered_servers expected final [] = none
wait_for_registered_servers expected final (r ∷ rs) =
    let rest = wait_for_registered_servers expected final rs in
    if is_full r.answer expected
    then some (count_of r.answer)
    else if r.ended
    then some (count_of final)
    else rest

-- A round whose poll shows the full count, or whose `select` finds the context ended.
abbrev pub IsLast : {E : Type 0} → ℤ → Round E → Type 0
IsLast expected r = (is_full r.answer expected ≡ true) ⊎ (r.ended ≡ true)

-- The wait returns as soon as a poll shows the expected count or more, or the context ends, and not
-- before: with `before` the rounds in which neither happened and `r` the first in which one did, it
-- returns the count of `r`, if that is full, and of the poll that follows the end otherwise.
pub wait-returns :
    {E : Type 0} (expected : ℤ) (final : Result E ℤ) (before later : List (Round E)) (r : Round E)
    → All (λ q. (is_full q.answer expected ≡ false) × (q.ended ≡ false)) before
    → IsLast expected r
    → wait_for_registered_servers expected final (before ++ r ∷ later)
      ≡ some (if is_full r.answer expected then count_of r.answer else count_of final)
unfolding wait_for_registered_servers
wait-returns expected final [] later r h k = ground arith
wait-returns expected final (q ∷ before) later r ((short, open_context), h) k =
    rw (short, open_context) (wait-returns expected final before later r h k)

none_ne_some : (n : ℤ) → ◌≡◌ {A = Option ℤ} none (some n) → ⊥
none_ne_some n h = cc

some_eq : (m n : ℤ) → ◌≡◌ {A = Option ℤ} (some m) (some n) → m ≡ n
some_eq m n h = cc

full_not_short :
    {E : Type 0} (answer : Result E ℤ) (expected n : ℤ)
    → is_full answer expected ≡ true
    → n <ℤ expected
    → some (count_of answer) ≡ some n
    → ⊥
full_not_short answer expected n h k e = ground arith

-- A count below the expected one is returned only after the context has ended.
pub wait_short_of_expected :
    {E : Type 0} (expected n : ℤ) (final : Result E ℤ) (rs : List (Round E))
    → wait_for_registered_servers expected final rs ≡ some n
    → n <ℤ expected
    → (r : Round E) × Occurs r rs × (r.ended ≡ true) × (n ≡ count_of final)
unfolding wait_for_registered_servers
wait_short_of_expected expected n final [] h k = absurd (none_ne_some n h)
wait_short_of_expected expected n final (r ∷ rs) h k =
    elim (Bool-cases (is_full r.answer expected)) [
      | inl full ↦ absurd (full_not_short r.answer expected n full k (rw full at h))
      | inr short ↦ elim (Bool-cases r.ended) [
        | inl ended ↦
            (r, inl refl, ended, sym (some_eq (count_of final) n (rw (short, ended) at h)))
        | inr goes_on ↦
            let (q, there, ended, same) =
              wait_short_of_expected expected n final rs (rw (short, goes_on) at h) k in
            (q, inr there, ended, same)
      ]
    ]
