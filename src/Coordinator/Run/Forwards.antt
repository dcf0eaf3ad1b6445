-- ===== src/Coordinator/Run/Forwards.antt =====
-- The order of the calls in the coordinator's `Run`, up to the wait.
use sccache_dist_action.Common.{
  All, All-append, Occurs, ℤ, ltb_ℤ, Text, pos, ok, ℕ, zero, suc, ◌+◌, ◌≤◌, ◌<◌, ◌≡◌, refl, sym, ap,
  ◌∙◌, subst, inl, inr, Bool, List, [], ◌∷◌, ◌++◌, arith,
}
use sccache_dist_action.Effects.{emit, perform}
use sccache_dist_action.Effects.Order.{
  and_then-ok, and_then-past, and_then-emit, and_then-cases, Occurs-past, regroup,
}
use native.Mathlib.Decide.{ℕ_discrete}
use sccache_dist_action.Coordinator.Run.Setup.{IsSetup, start-IsSetup, forwards-IsSetup}
use sccache_dist_action.Config.{Config}
use sccache_dist_action.Coordinator.Run.{
  Action, World, Run, start, forwards, forward_at, registration, export, run, prefix_of, rounds,
  start_status, wait, enough, ◌&>◌,
}
use sccache_dist_action.Coordinator.Forward.{forward_spec}

Occurs-left : {A : Type 0} (a : A) (xs ys : List A) → Occurs a xs → Occurs a (xs ++ ys)
Occurs-left a [] ys h = absurd h
Occurs-left a (x ∷ xs) ys (inl e) = inl e
Occurs-left a (x ∷ xs) ys (inr h) = inr (Occurs-left a xs ys h)

Occurs-right : {A : Type 0} (a : A) (xs ys : List A) → Occurs a ys → Occurs a (xs ++ ys)
Occurs-right a [] ys h = h
Occurs-right a (x ∷ xs) ys h = inr (Occurs-right a xs ys h)

-- The relay of worker `idx` has been started.
abbrev pub IsForwarded : Text → ℕ → List Action → Type 0
IsForwarded prefix idx trace =
    Occurs
      (Action.serve_forward (forward_spec prefix (pos idx)).0 (forward_spec prefix (pos idx)).1)
      trace

module _ {E : Type 0} (w : World E) (prefix : Text) where
  forward_at-ok :
      (at : ℤ × Text)
      → (forward_at w at).result ≡ ok tt
      → Occurs (Action.serve_forward at.0 at.1) (forward_at w at).trace
  unfolding forward_at
  forward_at-ok (port, target) h =
      let m = perform w.refuses (Action.listen port) in
      let relay = Action.serve_forward port target in
      let (_, _, _, trace) = and_then-ok m (λ _. emit (relay ∷ [])) tt h in
      subst (Occurs relay) (sym trace) (Occurs-right relay m.trace (relay ∷ []) (inl refl))

  forwards-ok :
      (left first idx : ℕ)
      → (forwards prefix w left first).result ≡ ok tt
      → first ≤ idx
      → idx < first + left
      → IsForwarded prefix idx (forwards prefix w left first).trace
  unfolding forwards
  forwards-ok zero first idx h low high = omega arith
  forwards-ok (suc left) first idx h low high =
      let m = forward_at w (forward_spec prefix (pos first)) in
      let rest = forwards prefix w left (suc first) in
      let (_, done, goes_on, trace) = and_then-ok m (λ _. rest) tt h in
      let relay =
        Action.serve_forward (forward_spec prefix (pos idx)).0 (forward_spec prefix (pos idx)).1 in
      subst (Occurs relay) (sym trace) (elim (ℕ_discrete first idx) [
        | yes same ↦ Occurs-left relay m.trace rest.trace (
            subst (λ i. IsForwarded prefix i m.trace) same
              (forward_at-ok (forward_spec prefix (pos first)) done))
        | no differs ↦
            Occurs-right relay m.trace rest.trace
              (forwards-ok left (suc first) idx goes_on (omega arith) (omega arith))
      ])

module _ {E : Type 0} (table : ℕ → Bool) (c : Config) (hostname : Text) (w : World E) where
  abbrev wait_action : Action
  wait_action = wait c.expected_workers

  -- What `Run` does from the wait on.
  abbrev from_wait : Run E
  from_wait = registration c w &> export table c w

  from_wait_head : (later : List Action) × (from_wait.trace ≡ wait_action ∷ later)
  unfolding registration
  from_wait_head =
      let check = enough (ltb_ℤ w.registered c.min_workers) c w in
      let waited = and_then-emit (wait_action ∷ []) (λ _. check) in
      elim (and_then-cases (registration c w) (λ _. export table c w)) [
        | inl alone ↦ (check.trace, alone ∙ waited)
        | inr (_, _, both) ↦ (
          check.trace ++ (export table c w).trace,
          both ∙ ap (λ t. t ++ (export table c w).trace) waited,
        )
      ]

  -- However far `Run` came: if it has waited, the wait stands behind the relays of all the expected
  -- workers, 1 to ExpectedWorkers, each with the port and the target of its index, and nothing has
  -- been written to the runner's files by then.
  pub forwards_before_wait :
      (n : ℤ)
      → Occurs (wait n) (run table c hostname w).trace
      → (before later : List Action) × ((run table c hostname w).trace
          ≡ before ++ wait_action ∷ later)
        × All IsSetup before
        × ((idx : ℕ)
            → 1 ≤ idx
            → idx ≤ rounds c.expected_workers
            → IsForwarded (prefix_of c) idx before)
  unfolding run
  forwards_before_wait n h =
      let s = start table c hostname w in
      let f = forwards (prefix_of c) w (rounds c.expected_workers) 1 in
      let status : List Action = start_status ∷ [] in
      let (_, _, trace) =
        and_then-past IsSetup (wait n) s (λ _. f &> emit status &> from_wait)
          (start-IsSetup table c hostname w) (λ e. e) h in
      let there =
        Occurs-past IsSetup (wait n) s.trace (f &> emit status &> from_wait).trace
          (start-IsSetup table c hostname w) (λ e. e) (subst (Occurs (wait n)) trace h) in
      let forwards_setup =
        forwards-IsSetup table c hostname w (prefix_of c) (rounds c.expected_workers) 1 in
      let (_, done, trace') =
        and_then-past IsSetup (wait n) f (λ _. emit status &> from_wait) forwards_setup (λ e. e)
          there in
      let (later, head) = from_wait_head in
      (
        s.trace ++ (f.trace ++ status),
        later,
        trace
            ∙ ap (λ t. s.trace ++ t)
                (trace'
                  ∙ ap (λ t. f.trace ++ t)
                      (and_then-emit status (λ _. from_wait) ∙ ap (λ t. status ++ t) head))
            ∙ regroup s.trace f.trace status (wait_action ∷ later),
        All-append IsSetup s.trace (f.trace ++ status) (start-IsSetup table c hostname w)
            (All-append IsSetup f.trace status forwards_setup (tt, tt)),
        λ idx low high.
            let relay =
              Action.serve_forward (forward_spec (prefix_of c) (pos idx)).0
                (forward_spec (prefix_of c) (pos idx)).1 in
            Occurs-right relay s.trace (f.trace ++ status) (
              Occurs-left relay f.trace status (
                forwards-ok w (prefix_of c) (rounds c.expected_workers) 1 idx done low
                  (omega arith))),
      )
