-- ===== src/Farm/Handover.antt =====
-- The step's process and the forwarder that it spawns: what the parent can rely on once it sees the
-- export. They share the runner's files; the parent reads between two calls of the forwarder.
use sccache_dist_action.Common.{
  if◌then◌else◌, false_ne_true, All, All-append, ◌≤ℤ◌, Result-cases, Text, codes, text_eq,
  text_eq_refl, text_eq-ne, ok, ℕ, ◌≡◌, refl, sym, ap, ◌∙◌, subst, ◌≢◌, ◌⊎◌, inl, inr, Bool, true,
  false, List, [], ◌∷◌, ◌++◌, map, append-nil, append_assoc,
}
use sccache_dist_action.Config.{Config}
use sccache_dist_action.Coordinator.Run.{
  Action, World, run, append, outputs, variables, j_of, setting,
}
use sccache_dist_action.Coordinator.Run.Exports.{
  IsSilent, IsAtHand, exported, run-FailsMaking, run-exports,
}
use sccache_dist_action.Main.Export.{shows_export}
use sccache_dist_action.Stdlib.Strings.{has_prefix, contains-later}

-- What a call adds to the file at `path`.
abbrev pub added : Text → Action → Text
added path (append p line) = if text_eq p path then line else []
added path _ = []

-- The file after the calls.
unfoldable pub content_after : Text → Text → List Action → Text
content_after path content [] = content
content_after path content (a ∷ rest) = content_after path (content ++ added path a) rest

abbrev pub Spares : Text → Action → Type 0
Spares path a = added path a ≡ []

pub content_after_spared :
    (path content : Text) (xs : List Action)
    → All (Spares path) xs
    → content_after path content xs ≡ content
unfolding content_after
content_after_spared path content [] h = refl
content_after_spared path content (a ∷ xs) (h, hs) =
    content_after_spared path (content ++ added path a) xs hs
    ∙ ap (λ t. content ++ t) h
    ∙ append-nil content

IsSilent→Spares : (path : Text) (a : Action) → IsSilent a → Spares path a
IsSilent→Spares path (append _ _) h = absurd h
IsSilent→Spares path (Action.join_mesh _) h = refl
IsSilent→Spares path (Action.write_file _ _) h = refl
IsSilent→Spares path (Action.mesh_listen _) h = refl
IsSilent→Spares path Action.serve_scheduler h = refl
IsSilent→Spares path (Action.start_scheduler _ _) h = refl
IsSilent→Spares path Action.serve_liveness h = refl
IsSilent→Spares path (Action.listen _) h = refl
IsSilent→Spares path (Action.serve_forward _ _) h = refl
IsSilent→Spares path Action.start_status h = refl
IsSilent→Spares path (Action.wait _) h = refl

pub All-spare : (path : Text) (xs : List Action) → All IsSilent xs → All (Spares path) xs
All-spare path [] h = tt
All-spare path (a ∷ xs) (h, hs) = (IsSilent→Spares path a h, All-spare path xs hs)

pub append-Spares :
    (path other : Text) (lines : List Text)
    → other ≢ path
    → All (Spares path) (map (append other) lines)
append-Spares path other [] ne = tt
append-Spares path other (line ∷ lines) ne =
    (rw (text_eq-ne other path ne) refl, append-Spares path other lines ne)

All-prefix : {X : Type 0} (P : X → Type 0) (xs ys : List X) → All P (xs ++ ys) → All P xs
All-prefix P [] ys h = tt
All-prefix P (x ∷ xs) ys (p, h) = (p, All-prefix P xs ys h)

cons-eq :
    {X : Type 0} {x y : X} {xs ys : List X}
    → ◌≡◌ {A = List X} (x ∷ xs) (y ∷ ys)
    → (x ≡ y) × (xs ≡ ys)
cons-eq e = (cc, cc)

-- Of two beginnings of a list, one continues the other.
prefixes :
    {X : Type 0} (xs ys ss ts : List X)
    → xs ++ ys ≡ ss ++ ts
    → ((r : List X) × (xs ≡ ss ++ r)) ⊎ ((r : List X) × (ss ≡ xs ++ r))
prefixes [] ys ss ts e = inr (ss, refl)
prefixes (x ∷ xs) ys [] ts e = inl (x ∷ xs, refl)
prefixes (x ∷ xs) ys (s ∷ ss) ts e =
    let (same, rest) = cons-eq e in
    elim (prefixes xs ys ss ts rest) [
      | inl (r, h) ↦ inl (r, rw (same, h) refl)
      | inr (r, h) ↦ inr (r, rw (same, h) refl)
    ]

module _ {E : Type 0} (table : ℕ → Bool) (c : Config) (hostname : Text) (w : World E) where
  abbrev pub written_outputs : List Action
  written_outputs = map (append w.github_output) (outputs w (j_of c w))

  -- A file that does not show the export, and gets no line, does not come to show it.
  hidden :
      (initial : Text) (seen : List Action)
      → shows_export initial ≡ false
      → All (Spares w.github_env) seen
      → shows_export (content_after w.github_env initial seen) ≡ true
      → ⊥
  hidden initial seen h spared shown = false_ne_true (
      sym h ∙ sym (ap shows_export (content_after_spared w.github_env initial seen spared)) ∙ shown)

  outputs_seen :
      (initial : Text) (seen unseen : List Action)
      → w.github_output ≢ w.github_env
      → shows_export initial ≡ false
      → (run table c hostname w).trace ≡ seen ++ unseen
      → shows_export (content_after w.github_env initial seen) ≡ true
      → ((before : List Action) × All IsSilent before
          × ((run table c hostname w).trace ≡ before ++ exported table c hostname w))
      → (before later : List Action) × (seen ≡ before ++ written_outputs ++ later)
  outputs_seen initial seen unseen ne h split shown (before, silent, ends) =
      let variable_writes = map (append w.github_env) (variables c w (j_of c w)) in
      let up_to_outputs =
        All-append (Spares w.github_env) before written_outputs
          (All-spare w.github_env before silent)
          (append-Spares w.github_env w.github_output (outputs w (j_of c w)) ne) in
      let parts = sym split ∙ ends ∙ sym (append_assoc before written_outputs variable_writes) in
      elim (prefixes seen unseen (before ++ written_outputs) variable_writes parts) [
        | inl (later, e) ↦ (before, later, e)
        | inr (r, e) ↦ absurd (
            hidden initial seen h
              (All-prefix (Spares w.github_env) seen r
                (subst (All (Spares w.github_env)) e up_to_outputs))
              shown)
      ]

  -- With GITHUB_OUTPUT and GITHUB_ENV named, different and opened, whatever becomes of the
  -- forwarder: if the parent, reading GITHUB_ENV behind the calls `seen`,
  -- finds the export in a file that did not show it before, then the forwarder succeeds, at least
  -- the minimum of workers has registered, and all four outputs have been written by then.
  pub handover :
      (initial : Text) (seen unseen : List Action)
      → IsAtHand table c hostname w w.github_output
      → IsAtHand table c hostname w w.github_env
      → w.github_output ≢ w.github_env
      → shows_export initial ≡ false
      → (run table c hostname w).trace ≡ seen ++ unseen
      → shows_export (content_after w.github_env initial seen) ≡ true
      → ((run table c hostname w).result ≡ ok tt)
        × (c.min_workers ≤ℤ w.registered)
        × ((before later : List Action) × (seen ≡ before ++ written_outputs ++ later))
  handover initial seen unseen output env ne h split shown =
      elim (Result-cases (run table c hostname w).result) [
        | inl (e, failed) ↦ absurd (
            hidden initial seen h
              (All-spare w.github_env seen (
                All-prefix IsSilent seen unseen
                  (subst (All IsSilent) split (run-FailsMaking table c hostname w e failed))))
              shown)
        | inr (a, done) ↦
            let (enough, ends) = run-exports table c hostname w output env done in
            (done, enough, outputs_seen initial seen unseen ne h split shown ends)
      ]

pub content_after-append :
    (path content : Text) (xs ys : List Action)
    → content_after path content (xs ++ ys) ≡ content_after path (content_after path content xs) ys
unfolding content_after
content_after-append path content [] ys = refl
content_after-append path content (a ∷ xs) ys =
    content_after-append path (content ++ added path a) xs ys

-- The call that writes SCCACHE_J.
abbrev pub first_variable : Text → Text → Action
first_variable path j = append path (setting (codes "SCCACHE_J") j)

-- The test of the parent succeeds as soon as the first of the four variables is written, before the
-- other three: whatever was written before.
pub seen_early :
    (path initial j : Text) (before : List Action)
    → shows_export (content_after path initial (before ++ first_variable path j ∷ [])) ≡ true
unfolding content_after
seen_early path initial j before =
    rw (content_after-append path initial before (first_variable path j ∷ []), text_eq_refl path)
      (contains-later (content_after path initial before) _ (codes "SCCACHE_J=")
        (unfold has_prefix in refl))
