-- ===== src/Main/Dispatch.antt =====
-- cmd/sccache-dist-action/main.go: what a process of the program is there for.
use sccache_dist_action.Common.{
  if◌then◌else◌, Bool-cases, false_ne_true, All, Result, Text, codes, text_eq, text_eq_iff, ok, err,
  ℕ, ◌≡◌, refl, sym, ap, ◌∙◌, subst, ◌≢◌, inl, inr, Bool, true, false, Option, none, some, List, [],
  ◌∷◌, ◌++◌, arith,
}
use sccache_dist_action.Stdlib.Environ.{IsKey, env_value}
use sccache_dist_action.Config.{Config, ConfigError, load_from, is_worker}
use sccache_dist_action.Config.Environment.{input_keys, load_from-agrees}
use sccache_dist_action.Main.Phase.{teardown_iff, phase_from_args, node_hostname}
use sccache_dist_action.Main.Spawn.{forwarder_env, forwarder_env_values, tracking, forwarder}

-- The branches of `main`: with what they call, and the hostname they call it with.
pub data Role : Type 0 where
  teardown : Role
  config_failed : ConfigError → Role
  worker : Config → Text → Role
  detached : Config → Text → Role  -- the forwarder, which runs the coordinator
  parent : Config → Role  -- spawns the forwarder and waits for the export

abbrev or_unset : Option Text → Text
or_unset none = []
or_unset (some v) = v

-- os.Getenv
abbrev pub getenv : List Text → Text → Text
getenv environ key = or_unset (env_value key environ)

abbrev loaded : Text → Text → Result ConfigError Config → Role
loaded index is_forwarder (err e) = config_failed e
loaded index is_forwarder (ok c) =
    if is_worker c.mode
    then worker c (node_hostname c index)
    else if text_eq is_forwarder (codes "1")
    then detached c (node_hostname c index)
    else parent c

abbrev in_phase : Text → Role → Role
in_phase phase role = if text_eq phase (codes "teardown") then teardown else role

abbrev role_in : (ℕ → ℕ → ℕ → ℕ) → List Text → Role
role_in fraction environ =
    loaded (getenv environ (codes "INPUT_WORKER_INDEX"))
      (getenv environ (codes "SCCACHE_ACTION_FORWARDER")) (load_from fraction (getenv environ))

abbrev for_phase : Option Text → Role → Option Role
for_phase none r = none
for_phase (some phase) r = some (in_phase phase r)

-- None where `main` panics: an empty argument list.
unfoldable pub role : (ℕ → ℕ → ℕ → ℕ) → List Text → List Text → Option Role
role fraction args environ = for_phase (phase_from_args args) (role_in fraction environ)

parent-injective : (c d : Config) → parent c ≡ parent d → c ≡ d
parent-injective c d h = cc

parent_of_branch :
    (c d : Config) (is_worker_mode is_forwarder : Bool) (hostname : Text)
    → (if is_worker_mode
        then worker d hostname
        else if is_forwarder
        then detached d hostname
        else parent d)
      ≡ parent c
    → (d ≡ c) × (is_worker_mode ≡ false)
parent_of_branch c d true f hostname h = cc
parent_of_branch c d false true hostname h = cc
parent_of_branch c d false false hostname h = (parent-injective d c h, refl)

parent_of_loaded :
    (index is_forwarder : Text) (r : Result ConfigError Config) (c : Config)
    → loaded index is_forwarder r ≡ parent c
    → (r ≡ ok c) × (is_worker c.mode ≡ false)
parent_of_loaded index is_forwarder (err e) c h = cc
parent_of_loaded index is_forwarder (ok d) c h =
    let (same, not_worker) =
      parent_of_branch c d (is_worker d.mode) (text_eq is_forwarder (codes "1"))
        (node_hostname d index) h in
    (ap ok same, subst (λ x. is_worker x.mode ≡ false) same not_worker)

teardown_not_parent : (c : Config) → some teardown ≡ some (parent c) → ⊥
teardown_not_parent c h = cc

role_injective : (r s : Role) → some r ≡ some s → r ≡ s
role_injective r s h = cc

parent_of_phase :
    (phase : Option Text) (r : Role) (c : Config)
    → for_phase phase r ≡ some (parent c)
    → r ≡ parent c
parent_of_phase none r c h = cc
parent_of_phase (some phase) r c h = elim (Bool-cases (text_eq phase (codes "teardown"))) [
  | inl over ↦ absurd (teardown_not_parent c (rw over at h))
  | inr goes_on ↦ role_injective r (parent c) (rw goes_on at h)
]

ne_of_test : (s t : Text) → text_eq s t ≡ false → s ≢ t
ne_of_test s t h e = false_ne_true (sym h ∙ (text_eq_iff s t).1 e)

module _ (fraction : ℕ → ℕ → ℕ → ℕ) (environ : List Text) where
  -- Keys of the parent's environment that the forwarder sees unchanged.
  abbrev IsPassedOn : Text → Type 0
  IsPassedOn key = IsKey key × (text_eq key tracking ≡ false) × (text_eq key forwarder ≡ false)

  same_key : (key : Text) → IsPassedOn key → getenv (forwarder_env environ) key ≡ getenv environ key
  same_key key (h, ne, ne') = ap or_unset (
      (forwarder_env_values environ).2 key h (ne_of_test key tracking ne)
        (ne_of_test key forwarder ne'))

  same_keys :
      (keys : List Text)
      → All IsPassedOn keys
      → All (λ key. getenv (forwarder_env environ) key ≡ getenv environ key) keys
  same_keys [] h = tt
  same_keys (key ∷ keys) (h, hs) = (same_key key h, same_keys keys hs)

  input_keys-IsPassedOn : All IsPassedOn input_keys
  unfolding text_eq
  input_keys-IsPassedOn = ground arith

  -- The forwarder reads the configuration that the parent read.
  same_config :
      load_from fraction (getenv (forwarder_env environ)) ≡ load_from fraction (getenv environ)
  same_config =
      load_from-agrees fraction (getenv (forwarder_env environ)) (getenv environ)
        (same_keys input_keys input_keys-IsPassedOn)

  -- If a process is the parent, with the configuration `c`, the process that it spawns, with the
  -- program's name as its only argument and the environment of the forwarder, is the forwarder, with
  -- the same configuration and the coordinator's hostname; it does not spawn another one.
  pub parent_spawns_forwarder :
      (args : List Text) (executable : Text) (c : Config)
      → role fraction args environ ≡ some (parent c)
      → role fraction (executable ∷ []) (forwarder_env environ)
        ≡ some (detached c (c.run_prefix ++ codes "-" ++ c.mode))
  unfolding role
  parent_spawns_forwarder args executable c h =
      let (read, not_worker) =
        parent_of_loaded _ _ (load_from fraction (getenv environ)) c
          (parent_of_phase (phase_from_args args) (role_in fraction environ) c h) in
      rw
        (
          (teardown_iff executable []).1.1 (λ e. e),
          ap or_unset (forwarder_env_values environ).1,
          same_config ∙ read,
        )
        (unfold text_eq node_hostname in rw not_worker refl)
