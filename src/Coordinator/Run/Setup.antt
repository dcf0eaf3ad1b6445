-- ===== src/Coordinator/Run/Setup.antt =====
-- What `Run` calls before it waits.
use sccache_dist_action.Common.{ℤ, Text, pos, ℕ, zero, suc, Bool}
use sccache_dist_action.Effects.{Makes}
use sccache_dist_action.Effects.Every.{and_then-Makes, perform-Makes}
use sccache_dist_action.Config.{Config}
use sccache_dist_action.Coordinator.Run.{Action, World, start, forwards, forward_at}
use sccache_dist_action.Coordinator.Forward.{forward_spec}

-- Neither the wait nor a write to a file of the runner.
abbrev pub IsSetup : Action → Type 0
IsSetup (Action.append _ _) = ⊥
IsSetup (Action.wait _) = ⊥
IsSetup _ = Unit

module _ {E : Type 0} (table : ℕ → Bool) (c : Config) (hostname : Text) (w : World E) where
  pub start-IsSetup : Makes IsSetup (start table c hostname w)
  unfolding start
  start-IsSetup = and_then-Makes IsSetup _ _ (perform-Makes IsSetup w.refuses _ tt) λ _ _.
      and_then-Makes IsSetup _ _ (perform-Makes IsSetup w.refuses _ tt) λ _ _.
        and_then-Makes IsSetup _ _ (perform-Makes IsSetup w.refuses _ tt) λ _ _.
          and_then-Makes IsSetup _ _ (tt, tt)
            λ _ _. and_then-Makes IsSetup _ _ (perform-Makes IsSetup w.refuses _ tt) λ _ _.
              and_then-Makes IsSetup _ _ (perform-Makes IsSetup w.refuses _ tt) λ _ _. (tt, tt)

  forward_at-IsSetup : (at : ℤ × Text) → Makes IsSetup (forward_at w at)
  unfolding forward_at
  forward_at-IsSetup (port, target) =
      and_then-Makes IsSetup _ _ (perform-Makes IsSetup w.refuses _ tt) λ _ _. (tt, tt)

  pub forwards-IsSetup : (prefix : Text) (left idx : ℕ) → Makes IsSetup (forwards prefix w left idx)
  unfolding forwards
  forwards-IsSetup prefix zero idx = tt
  forwards-IsSetup prefix (suc left) idx =
      and_then-Makes IsSetup _ _ (forward_at-IsSetup (forward_spec prefix (pos idx)))
        λ _ _. forwards-IsSetup prefix left (suc idx)
