-- ===== src/Wrapper/Run/Status.antt =====
-- src/index.js: when the action's step succeeds.
use sccache_dist_action.Common.{
  Bool-cases, false_ne_true, Option-cases, Result, ok, err, Text, codes, text_eq, text_eq_iff,
  is_empty, ℕ, ◌≡◌, refl, sym, ap, ◌∙◌, ◌↔◌, inl, inr, false, none, List, [], ◌∷◌, ◌++◌,
  append_assoc, arith,
}
use sccache_dist_action.Effects.{and_then, perform, emit}
use sccache_dist_action.Effects.Order.{and_then-ok, and_then-result}
use sccache_dist_action.Wrapper.{goos, child_env}
use sccache_dist_action.Wrapper.World.{
  Call, spawn, Exit, exited, signalled, unknown, rescued, World, WrapperError, Step, ask, rescue,
}
use sccache_dist_action.Wrapper.Run.{
  ends_failed, resolve_binary, exit_code, engine, executed, on_posix, run,
}

ok_injective : {E A : Type 0} {a b : A} → ◌≡◌ {A = Result E A} (ok a) (ok b) → a ≡ b
ok_injective h = cc

err_ne_ok : {E A : Type 0} {e : E} {a : A} → ◌≡◌ {A = Result E A} (err e) (ok a) → ⊥
err_ne_ok h = cc

rescued-emit :
    {E : Type 0} (r : Result (WrapperError E) (Unit {0})) (before : List Call)
    → (rescued r before (λ _. emit [])).result ≡ ok tt
rescued-emit (ok _) before = refl
rescued-emit (err e) before = refl

code_zero : (e : Exit) → exit_code e ≡ 0 → e ≡ exited 0
code_zero (exited code) h = ap exited h
code_zero signalled h = absurd (omega (arith, h))
code_zero unknown h = absurd (omega (arith, h))

succeeded : {E : Type 0} (r : Result (WrapperError E) ℕ) → ends_failed r ≡ false → r ≡ ok 0
succeeded (err e) h = cc
succeeded (ok code) h = ap ok (ground arith)

module _ {E : Type 0} (w : World E) where
  abbrev program : Text → Call
  program bin = spawn bin (child_env w.get_input w.process_env)

  engine-ok : (engine w).result ≡ ok tt
  unfolding rescue
  engine-ok = elim (Bool-cases (is_empty w.action_ref)) [
    | inl here ↦ rw here refl
    | inr there ↦ rw there (rescued-emit _ _)
  ]

  ask-ok :
      {A : Type 0} (call : Call) (a b : A)
      → (ask w call a).result ≡ ok b
      → (w.refuses call ≡ none) × (a ≡ b) × ((ask w call a).trace ≡ call ∷ [])
  unfolding ask and_then perform
  ask-ok call a b h = elim (Option-cases (w.refuses call)) [
    | inl fine ↦ (fine, ok_injective (rw fine at h), rw fine refl)
    | inr (e, thrown) ↦ absurd (err_ne_ok (rw thrown at h))
  ]

  ask_accepted :
      {A : Type 0} (call : Call) (a : A)
      → w.refuses call ≡ none
      → ask w call a ≡ record { result = ok a; trace = call ∷ [] }
  unfolding ask and_then perform
  ask_accepted call a h = rw h refl

  -- With the program at hand and nothing that stops it, its exit code is that of the step.
  on_posix-of :
      (bin : Text)
      → (resolve_binary w).result ≡ ok bin
      → w.refuses (program bin) ≡ none
      → (on_posix w).result ≡ ok (exit_code w.exit)
  on_posix-of bin h k =
      and_then-result (engine w) (λ _. and_then (resolve_binary w) (executed w)) tt engine-ok
      ∙ and_then-result (resolve_binary w) (executed w) bin h
      ∙ ap (λ (m : Step E ℕ). m.result) (ask_accepted (program bin) (exit_code w.exit) k)

  on_posix-ok :
      (code : ℕ)
      → (on_posix w).result ≡ ok code
      → (bin : Text) × ((resolve_binary w).result ≡ ok bin)
        × (w.refuses (program bin) ≡ none)
        × (exit_code w.exit ≡ code)
        × ((before : List Call) × ((on_posix w).trace ≡ before ++ program bin ∷ []))
  on_posix-ok code h =
      let rest = and_then (resolve_binary w) (executed w) in
      let (_, _, h', trace) = and_then-ok (engine w) (λ _. rest) code h in
      let (bin, found, h'', trace') = and_then-ok (resolve_binary w) (executed w) code h' in
      let (started, ended, last) = ask-ok (program bin) (exit_code w.exit) code h'' in
      (
        bin,
        found,
        started,
        ended,
        (
          (engine w).trace ++ (resolve_binary w).trace,
          trace
              ∙ ap (λ t. (engine w).trace ++ t)
                  (trace' ∙ ap (λ t. (resolve_binary w).trace ++ t) last)
              ∙ sym (append_assoc (engine w).trace (resolve_binary w).trace (program bin ∷ [])),
        ),
      )

  abbrev IsWindows : Type 0
  IsWindows = goos w.runner ≡ codes "windows"

  -- The step succeeds exactly if the runner is not Windows, the program was obtained, it could be
  -- started, with the inputs in its environment, and it ended with exit code 0 and by no signal; a
  -- failure to obtain the engine does not matter. A step that succeeds has started the program as the
  -- last thing that it did.
  pub step_succeeds_iff : ((run w).1 ≡ false) ↔ (
      (¬ (goos w.runner ≡ codes "windows"))
      × ((bin : Text) × ((resolve_binary w).result ≡ ok bin)
          × (w.refuses (spawn bin (child_env w.get_input w.process_env)) ≡ none)
          × (w.exit ≡ exited 0)
          × ((before : List Call) × ((run w).0
                ≡ before ++ spawn bin (child_env w.get_input w.process_env) ∷ []))))
  unfolding run
  step_succeeds_iff = elim (Bool-cases (text_eq (goos w.runner) (codes "windows"))) [
    | inl windows ↦
        rw windows
          (λ h. cc, λ h. absurd (h.0 ((text_eq_iff (goos w.runner) (codes "windows")).0 windows)))
    | inr posix ↦ rw posix (
      λ h.
          let (bin, found, started, ended, last) =
            on_posix-ok 0 (succeeded (on_posix w).result h) in
          (
            λ e. false_ne_true (sym posix ∙ (text_eq_iff (goos w.runner) (codes "windows")).1 e),
            (bin, found, started, code_zero w.exit ended, last),
          ),
      λ h.
          let (_, (bin, found, started, ended, _)) = h in
          ap ends_failed (on_posix-of bin found started ∙ ap (λ e. ok (exit_code e)) ended),
    )
  ]
