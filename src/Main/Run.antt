-- ===== src/Main/Run.antt =====
-- cmd/sccache-dist-action: a whole run of `main`, with `spawnForwarder`, over what the processes and
-- the machine answer.
use sccache_dist_action.Common.{
  Bool-cases, false_ne_true, ap, sym, ◌∙◌, ◌⊎◌, inl, inr, Occurs, ℤ, ◌+ℤ◌, wrap64, Result, ◌>>=◌,
  Text, codes, text_eq, pos, ok, err, ℕ, ◌≤◌, ◌≡◌, refl, Bool, true, false, Option, none, some,
  List, [], ◌∷◌,
}
use sccache_dist_action.Config.{Config, ConfigError}
use sccache_dist_action.Main.Phase.{teardown_iff}
use sccache_dist_action.Main.Pid.{write_pid, read_pid, teardown-write_pid}
use sccache_dist_action.Main.Pid as Pid
use sccache_dist_action.Main.Spawn.{forwarder_env}
use sccache_dist_action.Main.Export.{shows_export, wait_for_env_export, wait_for_env_export_iff}
use sccache_dist_action.Main.Dispatch.{
  Role, teardown, config_failed, worker, detached, parent, role,
}

pub data Fatal (E : Type 0) : Type 0 where
  bad_config : ConfigError → Fatal E
  worker_failed : E → Fatal E
  coordinator_failed : E → Fatal E
  spawn_failed : E → Fatal E
  not_exported : Fatal E

-- How a process ends: it returns, it ends with log.Fatalf, or it blocks until it is killed.
pub data Exit (E : Type 0) : Type 0 where
  returned : Exit E
  fatal : Fatal E → Exit E
  blocked : Exit E

-- The child that spawnForwarder starts, in a session of its own.
pub record Child : Type 0 where
  pub executable : Text
  pub args : List Text
  pub env : List Text
  pub new_session : Bool

-- `starts` gives the child's process id; `reads` is what the file at GITHUB_ENV gives in the rounds of
-- waitForEnvExport that begin before a deadline.
pub record World (E : Type 0) : Type 0 where
  pub executable : Result E Text
  pub starts : Child → Result E ℤ
  pub writes_pid : Bool
  pub github_env : Text
  pub reads : ℤ → List (Option Text)
  pub worker_fails : Config → Text → Option E
  pub coordinator_fails : Config → Text → Option E

-- What a run leaves: the file with the process id, the process that it signalled, the child.
pub record Ended (E : Type 0) : Type 0 where
  pub exit : Exit E
  pub file : Option Text
  pub signalled : Option ℤ
  pub child : Option Child

abbrev pub child_of : List Text → Text → Child
child_of environ executable = record {
  executable = executable;
  args = executable ∷ [];
  env = forwarder_env environ;
  new_session = true;
}

-- `spawnForwarder`: the child and its process id.
unfoldable pub spawn_forwarder : {E : Type 0} → World E → List Text → Result E (ℤ × Child)
spawn_forwarder w environ = w.executable >>= λ exe.
    w.starts (child_of environ exe) >>= λ pid. ok (pid, child_of environ exe)

-- `c.WaitTimeout + time.Minute`, in Go's int64.
abbrev pub deadline : Config → ℤ
deadline c = wrap64 (c.wait_timeout +ℤ pos 60000000000)

abbrev exported : {E : Type 0} → Bool → Exit E
exported true = returned
exported false = fatal not_exported

abbrev after_spawn : {E : Type 0} → World E → Config → Option Text → Result E (ℤ × Child) → Ended E
after_spawn w c file (err e) = record {
  exit = fatal (spawn_failed e);
  file = file;
  signalled = none;
  child = none;
}
after_spawn w c file (ok (pid, child)) = record {
  exit = exported (wait_for_env_export w.github_env (w.reads (deadline c)));
  file = write_pid w.writes_pid pid file;
  signalled = none;
  child = some child;
}

abbrev ended : {E : Type 0} → Exit E → Option Text → Ended E
ended exit file = record { exit = exit; file = file; signalled = none; child = none }

abbrev worker_exit : {E : Type 0} → Option E → Exit E
worker_exit none = returned
worker_exit (some e) = fatal (worker_failed e)

abbrev coordinator_exit : {E : Type 0} → Option E → Exit E
coordinator_exit none = blocked
coordinator_exit (some e) = fatal (coordinator_failed e)

-- The branch of `main` for a role; an error of kill is dropped.
unfoldable pub run_role : {E : Type 0} → World E → List Text → Option Text → Role → Ended E
unfolding spawn_forwarder
run_role w environ file teardown = record {
  exit = returned;
  file = file;
  signalled = Pid.teardown file;
  child = none;
}
run_role w environ file (config_failed e) = ended (fatal (bad_config e)) file
run_role w environ file (worker c hostname) = ended (worker_exit (w.worker_fails c hostname)) file
run_role w environ file (detached c hostname) =
    ended (coordinator_exit (w.coordinator_fails c hostname)) file
run_role w environ file (parent c) = after_spawn w c file (spawn_forwarder w environ)

abbrev ended_as : {E : Type 0} → World E → List Text → Option Text → Option Role → Option (Ended E)
ended_as w environ file none = none
ended_as w environ file (some r) = some (run_role w environ file r)

-- None where `main` panics: an empty argument list.
unfoldable pub main :
    {E : Type 0}
    → (ℕ → ℕ → ℕ → ℕ)
    → World E
    → List Text
    → List Text
    → Option Text
    → Option (Ended E)
unfolding run_role
main fraction w args environ file = ended_as w environ file (role fraction args environ)

role-teardown :
    (fraction : ℕ → ℕ → ℕ → ℕ) (program : Text) (rest environ : List Text)
    → Occurs (codes "--teardown") rest
    → role fraction (program ∷ rest) environ ≡ some teardown
unfolding role
role-teardown fraction program rest environ h =
    rw ((teardown_iff program rest).0.1 h) (unfold text_eq in refl)

-- The parent has nothing to wait for, or reads a file that shows the export before the deadline.
abbrev pub HasExport : {E : Type 0} → World E → Config → Type 0
HasExport w c =
    (w.github_env ≡ [])
    ⊎ ((content : Text) × Occurs (some content) (w.reads (deadline c))
        × (shows_export content ≡ true))

exported-cases :
    {E : Type 0} (w : World E) (c : Config)
    → let exit : Exit E = exported (wait_for_env_export w.github_env (w.reads (deadline c))) in
      ((exit ≡ returned) × HasExport w c) ⊎ ((exit ≡ fatal not_exported) × (¬ (HasExport w c)))
exported-cases w c =
    let seen = wait_for_env_export w.github_env (w.reads (deadline c)) in
    let (sound, complete) = wait_for_env_export_iff w.github_env (w.reads (deadline c)) in
    elim (Bool-cases seen) [
      | inl yes_seen ↦ inl (ap exported yes_seen, sound yes_seen)
      | inr unseen ↦ inr (ap exported unseen, λ h. false_ne_true (sym unseen ∙ complete h))
    ]

-- The parent and the teardown: if a process is the parent and could start its child, with the process
-- id n, and write the file, then either it returns, and no GITHUB_ENV is named or one of the reads of
-- that file that it begins before its deadline shows the export, or it ends with the failure that
-- SCCACHE_J was not exported, and neither is so; in both cases a later process with --teardown among
-- its arguments signals n, and does nothing else, whatever its environment is.
pub parent_then_teardown :
    {E : Type 0} (fraction : ℕ → ℕ → ℕ → ℕ) (w w' : World E)
    (args rest environ environ' : List Text) (file : Option Text) (c : Config)
    (executable program : Text) (n : ℕ)
    → role fraction args environ ≡ some (parent c)
    → w.executable ≡ ok executable
    → w.starts (child_of environ executable) ≡ ok (pos n)
    → w.writes_pid ≡ true
    → 1 ≤ n
    → n ≤ 9223372036854775807
    → Occurs (codes "--teardown") rest
    → (e : Ended E) × (main fraction w args environ file ≡ some e)
      × (((e.exit ≡ returned) × HasExport w c)
          ⊎ ((e.exit ≡ fatal not_exported) × (¬ (HasExport w c))))
      × (e.child ≡ some (child_of environ executable))
      × (main fraction w' (program ∷ rest) environ' e.file
          ≡ some
              (record { exit = returned; file = e.file; signalled = some (pos n); child = none }))
unfolding main spawn_forwarder
parent_then_teardown fraction w w' args rest environ environ' file c executable program n is_parent
      found started writes low high flag =
    let (signals, _) = teardown-write_pid n file low high in
    (
      after_spawn w c file (ok (pos n, child_of environ executable)),
      rw (is_parent, found, started) refl,
      exported-cases w c,
      refl,
      rw (role-teardown fraction program rest environ' flag, writes, signals) refl,
    )

-- A parent that cannot start its child ends with a failure and leaves the file as it was.
pub parent_spawn_failed :
    {E : Type 0} (fraction : ℕ → ℕ → ℕ → ℕ) (w : World E) (args environ : List Text)
    (file : Option Text) (c : Config) (e : E)
    → role fraction args environ ≡ some (parent c)
    → spawn_forwarder w environ ≡ err e
    → main fraction w args environ file
      ≡ some (record { exit = fatal (spawn_failed e); file = file; signalled = none; child = none })
unfolding main
parent_spawn_failed fraction w args environ file c e is_parent failed = rw (is_parent, failed) refl
