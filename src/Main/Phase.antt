-- ===== src/Main/Phase.antt =====
-- cmd/sccache-dist-action/main.go: `phaseFromArgs` and the hostname of a node.
use sccache_dist_action.Common.{
  if◌then◌else◌, Bool-cases, false_ne_true, if_true, Occurs, Text, codes, text_eq, text_eq_sound,
  text_eq_iff, ◌≡◌, refl, sym, ◌↔◌, inl, inr, Bool, true, false, Option, none, some, List, [], ◌∷◌,
  ◌++◌,
}
use sccache_dist_action.Config.{Config, is_worker}

-- The loop over `args[1:]`.
has_teardown : List Text → Bool
has_teardown [] = false
has_teardown (a ∷ rest) = if text_eq a (codes "--teardown") then true else has_teardown rest

-- None where `args[1:]` panics: an empty argument list.
unfoldable pub phase_from_args : List Text → Option Text
unfolding has_teardown
phase_from_args [] = none
phase_from_args (program ∷ rest) =
    some (if has_teardown rest then codes "teardown" else codes "main")

-- `worker_index` is the raw INPUT_WORKER_INDEX.
unfoldable pub node_hostname : Config → Text → Text
node_hostname c worker_index =
    if is_worker c.mode
    then c.run_prefix ++ codes "-worker-" ++ worker_index
    else c.run_prefix ++ codes "-" ++ c.mode

has_teardown_to : (rest : List Text) → has_teardown rest ≡ true → Occurs (codes "--teardown") rest
unfolding has_teardown
has_teardown_to [] h = absurd (false_ne_true h)
has_teardown_to (a ∷ rest) h = elim (Bool-cases (text_eq a (codes "--teardown"))) [
  | inl same ↦ inl (sym (text_eq_sound a (codes "--teardown") same))
  | inr differs ↦ inr (has_teardown_to rest (rw differs at h))
]

has_teardown_of : (rest : List Text) → Occurs (codes "--teardown") rest → has_teardown rest ≡ true
unfolding has_teardown
has_teardown_of [] h = absurd h
has_teardown_of (a ∷ rest) (inl e) = rw ((text_eq_iff a (codes "--teardown")).1 (sym e)) refl
has_teardown_of (a ∷ rest) (inr h) =
    if_true (text_eq a (codes "--teardown")) (has_teardown rest) (has_teardown_of rest h)

has_teardown_iff :
    (rest : List Text) → (has_teardown rest ≡ true) ↔ Occurs (codes "--teardown") rest
has_teardown_iff rest = (has_teardown_to rest, has_teardown_of rest)

-- The phase is teardown exactly when an argument behind the program's name is --teardown, and it is
-- main otherwise.
pub teardown_iff :
    (program : Text) (rest : List Text)
    → ((phase_from_args (program ∷ rest) ≡ some (codes "teardown"))
        ↔ Occurs (codes "--teardown") rest)
      × ((phase_from_args (program ∷ rest) ≡ some (codes "main"))
          ↔ ¬ Occurs (codes "--teardown") rest)
unfolding phase_from_args
teardown_iff program rest = elim (Bool-cases (has_teardown rest)) [
  | inl has ↦
      let there = (has_teardown_iff rest).0 has in
      rw has ((λ e. there, λ h. refl), (λ e. cc, λ h. absurd (h there)))
  | inr lacks ↦
      let missing : ¬ Occurs (codes "--teardown") rest =
        λ h. cc ((has_teardown_iff rest).1 h, lacks) in
      rw lacks ((λ e. cc, λ h. absurd (missing h)), (λ e. missing, λ h. refl))
]
