-- ===== src/Coordinator/Run/Exports.antt =====
-- The lines that the coordinator's `Run` appends to the runner's files.
use sccache_dist_action.Common.{
  All, ◌≤ℤ◌, ltb_ℤ, Text, ne_is_empty, ok, ℕ, ◌≡◌, refl, ◌≢◌, Bool, true, false, List, [], ◌∷◌,
  ◌++◌, map, arith,
}
use sccache_dist_action.Effects.{EndsWith, Makes, FailsMaking, and_then, emit}
use sccache_dist_action.Effects.Order.{and_then-ok}
use sccache_dist_action.Effects.Every.{
  Makes-weaken, and_then-EndsWith, and_then-Makes, and_then-FailsMaking, perform-Makes,
}
use sccache_dist_action.Coordinator.Run.Setup.{IsSetup, start-IsSetup, forwards-IsSetup}
use sccache_dist_action.Config.{Config}
use sccache_dist_action.Coordinator.Run.{
  Action, World, enough, start_status, wait, append_lines, outputs, variables, j_of, start,
  forwards, registration, export, run, prefix_of, rounds,
}

-- A call that does not write to a file of the runner.
abbrev pub IsSilent : Action → Type 0
IsSilent (Action.append _ _) = ⊥
IsSilent _ = Unit

module _ {E : Type 0} (table : ℕ → Bool) (c : Config) (hostname : Text) (w : World E) where
  IsSetup→IsSilent : (a : Action) → IsSetup a → IsSilent a
  IsSetup→IsSilent (Action.append _ _) h = h
  IsSetup→IsSilent (Action.join_mesh _) h = tt
  IsSetup→IsSilent (Action.write_file _ _) h = tt
  IsSetup→IsSilent (Action.mesh_listen _) h = tt
  IsSetup→IsSilent Action.serve_scheduler h = tt
  IsSetup→IsSilent (Action.start_scheduler _ _) h = tt
  IsSetup→IsSilent Action.serve_liveness h = tt
  IsSetup→IsSilent (Action.listen _) h = tt
  IsSetup→IsSilent (Action.serve_forward _ _) h = tt
  IsSetup→IsSilent Action.start_status h = tt
  IsSetup→IsSilent (Action.wait _) h = tt

  start-IsSilent : Makes IsSilent (start table c hostname w)
  start-IsSilent =
      Makes-weaken IsSetup IsSilent (start table c hostname w) IsSetup→IsSilent
        (start-IsSetup table c hostname w)

  forwards-IsSilent : (prefix : Text) (left idx : ℕ) → Makes IsSilent (forwards prefix w left idx)
  forwards-IsSilent prefix left idx =
      Makes-weaken IsSetup IsSilent (forwards prefix w left idx) IsSetup→IsSilent
        (forwards-IsSetup table c hostname w prefix left idx)

  enough-IsSilent : (b : Bool) → Makes IsSilent (enough b c w)
  enough-IsSilent true = tt
  enough-IsSilent false = tt

  registration-IsSilent : Makes IsSilent (registration c w)
  unfolding registration
  registration-IsSilent =
      and_then-Makes IsSilent _ _ (tt, tt) λ _ _. enough-IsSilent (ltb_ℤ w.registered c.min_workers)

  enough_fails : (b : Bool) → (enough b c w).result ≡ ok tt → b ≡ false
  enough_fails true h = cc
  enough_fails false h = refl

  -- The check of the minimum passes only with enough workers.
  registration-min : (registration c w).result ≡ ok tt → c.min_workers ≤ℤ w.registered
  unfolding registration
  registration-min h =
      let (_, _, passed, _) =
        and_then-ok (emit (wait c.expected_workers ∷ []))
          (λ _. enough (ltb_ℤ w.registered c.min_workers) c w) tt h in
      let not_less = enough_fails (ltb_ℤ w.registered c.min_workers) passed in ground arith

  append_lines-ok : (path : Text) (lines : List Text) → (append_lines w path lines).result ≡ ok tt
  append_lines-ok path lines = refl

  export-FailsMaking : FailsMaking IsSilent (export table c w)
  unfolding export and_then
  export-FailsMaking =
      and_then-FailsMaking IsSilent _ _ (perform-Makes IsSilent w.refuses _ tt) λ _ _ e h. cc

  -- With both files of the runner at hand, what a success has written to them.
  abbrev pub exported : List Action
  exported =
      map (Action.append w.github_output) (outputs w (j_of c w))
      ++ map (Action.append w.github_env) (variables c w (j_of c w))

  abbrev pub IsAtHand : Text → Type 0
  IsAtHand path = (path ≢ []) × (w.opens path ≡ true)

  export-EndsWith :
      IsAtHand w.github_output
      → IsAtHand w.github_env
      → EndsWith IsSilent exported (export table c w)
  unfolding export and_then
  export-EndsWith (output, opens) (env, opens') =
      and_then-EndsWith IsSilent exported _ _ (perform-Makes IsSilent w.refuses _ tt) λ _ _ _ _. (
        [],
        tt,
        rw (ne_is_empty w.github_output output, ne_is_empty w.github_env env, opens, opens') refl,
      )

  -- An error return has written nothing to the runner's files.
  pub run-FailsMaking : FailsMaking IsSilent (run table c hostname w)
  unfolding run
  run-FailsMaking = and_then-FailsMaking IsSilent _ _ start-IsSilent λ _ _.
      and_then-FailsMaking IsSilent _ _
        (forwards-IsSilent (prefix_of c) (rounds c.expected_workers) 1)
        λ _ _.
          and_then-FailsMaking IsSilent _ _ (tt, tt)
            λ _ _. and_then-FailsMaking IsSilent _ _ registration-IsSilent λ _ _. export-FailsMaking

  run-EndsWith :
      IsAtHand w.github_output
      → IsAtHand w.github_env
      → EndsWith IsSilent exported (run table c hostname w)
  unfolding run
  run-EndsWith output env = and_then-EndsWith IsSilent exported _ _ start-IsSilent λ _ _.
      and_then-EndsWith IsSilent exported _ _
        (forwards-IsSilent (prefix_of c) (rounds c.expected_workers) 1)
        λ _ _.
          and_then-EndsWith IsSilent exported _ _ (tt, tt)
            λ _ _.
              and_then-EndsWith IsSilent exported _ _ registration-IsSilent
                λ _ _. export-EndsWith output env

  run-min : (run table c hostname w).result ≡ ok tt → c.min_workers ≤ℤ w.registered
  unfolding run
  run-min h =
      let (_, _, after_start, _) = and_then-ok (start table c hostname w) _ tt h in
      let (_, _, after_forwards, _) =
        and_then-ok (forwards (prefix_of c) w (rounds c.expected_workers) 1) _ tt after_start in
      let (_, _, after_status, _) = and_then-ok (emit (start_status ∷ [])) _ tt after_forwards in
      let (_, passed, _, _) = and_then-ok (registration c w) _ tt after_status in
      registration-min passed

  -- With both files of the runner named and opened, a success has at least the minimum of workers,
  -- and the last that it has done is to write the four outputs and then the four variables; before
  -- that it wrote nothing to a file of the runner.
  pub run-exports :
      IsAtHand w.github_output
      → IsAtHand w.github_env
      → (run table c hostname w).result ≡ ok tt
      → (c.min_workers ≤ℤ w.registered)
        × ((before : List Action) × All IsSilent before
            × ((run table c hostname w).trace ≡ before ++ exported))
  run-exports output env h = (run-min h, run-EndsWith output env tt h)
