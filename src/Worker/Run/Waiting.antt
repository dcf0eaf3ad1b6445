-- ===== src/Worker/Run/Waiting.antt =====
-- The loop that waits for the coordinator before the server is started.
use sccache_dist_action.Common.{
  Occurs, ok, ◌≡◌, refl, ◌⊎◌, inl, inr, Bool, true, false, List, [], ◌∷◌,
}
use sccache_dist_action.Worker.Guard.{Round, Wake, cancelled, elapsed}
use sccache_dist_action.Worker.Run.{Run, waited, wait_for_coordinator}

waited-trace :
    {E : Type 0} (present : Bool) (wake : Wake) (rest : Run E)
    → rest.trace ≡ []
    → (waited present wake rest).trace ≡ []
waited-trace true wake rest h = refl
waited-trace false cancelled rest h = refl
waited-trace false elapsed rest h = h

waited-ok :
    {E : Type 0} (present : Bool) (wake : Wake) (rest : Run E)
    → (waited present wake rest).result ≡ ok tt
    → (present ≡ true) ⊎ (rest.result ≡ ok tt)
waited-ok true wake rest h = inl refl
waited-ok false cancelled rest h = cc
waited-ok false elapsed rest h = inr h

module _ (E : Type 0) where
  pub wait_for_coordinator-trace : (rs : List Round) → (wait_for_coordinator {E = E} rs).trace ≡ []
  unfolding wait_for_coordinator
  wait_for_coordinator-trace [] = refl
  wait_for_coordinator-trace (r ∷ rs) =
      waited-trace r.present r.wake (wait_for_coordinator rs) (wait_for_coordinator-trace rs)

  pub wait_for_coordinator-ok :
      (rs : List Round)
      → (wait_for_coordinator {E = E} rs).result ≡ ok tt
      → (r : Round) × Occurs r rs × (r.present ≡ true)
  unfolding wait_for_coordinator
  wait_for_coordinator-ok [] h = cc
  wait_for_coordinator-ok (r ∷ rs) h =
      elim (waited-ok r.present r.wake (wait_for_coordinator rs) h) [
        | inl up ↦ (r, inl refl, up)
        | inr later ↦ let (q, there, up) = wait_for_coordinator-ok rs later in (q, inr there, up)
      ]
