-- ===== src/SccacheDist/Process.antt =====
-- internal/sccachedist/sccachedist.go: `StartScheduler` and `StartServer`.
use sccache_dist_action.Common.{
  if◌then◌else◌, Result, Text, codes, is_empty, ok, err, ◌≡◌, refl, ◌∙◌, subst, ◌≢◌, Option, none,
  some, List, [], ◌∷◌, ◌++◌, arith,
}
use sccache_dist_action.Stdlib.Environ.{IsKey, env_value, env_value-other}
use sccache_dist_action.SccacheDist.Env.{log_env, log_env_values}

-- Where a process writes: to a writer of the program, or to the program's own stdout or stderr.
pub data Output : Type 0 where
  writer : Output
  own_stdout : Output
  own_stderr : Output

-- An exec.Cmd.
pub record Command : Type 0 where
  pub program : Text
  pub args : List Text
  pub env : List Text
  pub stdout : Output
  pub stderr : Output

pub data StartError (E : Type 0) : Type 0 where
  start_scheduler_failed : E → StartError E
  start_server_failed : E → StartError E

abbrev started :
    {E : Type 0} → Option E → (E → StartError E) → Command → Result (StartError E) Command
started none wrap cmd = ok cmd
started (some e) wrap cmd = err (wrap e)

abbrev pub scheduler_command : List Text → Text → Text → Command
scheduler_command environ conf_path log_level = record {
  program = codes "sccache-dist";
  args = codes "scheduler" ∷ codes "--config" ∷ conf_path ∷ [];
  env = log_env environ log_level;
  stdout = writer;
  stderr = writer;
}

abbrev pub server_command : List Text → Text → Text → Command
server_command environ conf_path log_level = record {
  program = codes "sccache-dist";
  args = codes "server" ∷ codes "--config" ∷ conf_path ∷ [];
  env = log_env environ log_level;
  stdout = own_stdout;
  stderr = own_stderr;
}

-- `start` is the error, if any, that cmd.Start returns; `environ` is os.Environ().
unfoldable pub start_scheduler :
    {E : Type 0} → (Command → Option E) → List Text → Text → Text → Result (StartError E) Command
start_scheduler start environ conf_path log_level =
    let cmd = scheduler_command environ conf_path log_level in
    started (start cmd) start_scheduler_failed cmd

unfoldable pub start_server :
    {E : Type 0} → (Command → Option E) → List Text → Text → Text → Result (StartError E) Command
start_server start environ conf_path log_level =
    let cmd = server_command environ conf_path log_level in
    started (start cmd) start_server_failed cmd

pub data Kind : Type 0 where
  scheduler : Kind
  server : Kind

abbrev pub mode_of : Kind → Text
mode_of scheduler = codes "scheduler"
mode_of server = codes "server"

abbrev pub start_as :
    {E : Type 0}
    → Kind
    → (Command → Option E)
    → List Text
    → Text
    → Text
    → Result (StartError E) Command
start_as scheduler start environ conf_path log_level =
    start_scheduler start environ conf_path log_level
start_as server start environ conf_path log_level = start_server start environ conf_path log_level

-- What a process of sccache-dist is started with: the configuration, and an environment in which it
-- does not become a daemon and logs as the directive says, or as the runner's environment does where
-- that is empty, and which is the runner's in all else.
abbrev pub IsStartedWith : List Text → Text → Text → Text → Command → Type 0
IsStartedWith environ mode conf_path log_level cmd =
    (cmd.args ≡ mode ∷ codes "--config" ∷ conf_path ∷ [])
    × (env_value (codes "SCCACHE_NO_DAEMON") cmd.env ≡ some (codes "1"))
    × (env_value (codes "SCCACHE_LOG") cmd.env
        ≡ (if is_empty log_level then env_value (codes "SCCACHE_LOG") environ else some log_level))
    × ((key : Text)
        → IsKey key
        → key ≢ codes "SCCACHE_NO_DAEMON"
        → key ≢ codes "SCCACHE_LOG"
        → env_value key cmd.env ≡ env_value key environ)

log_env-other :
    (environ : List Text) (log_level key : Text)
    → IsKey key
    → key ≢ codes "SCCACHE_NO_DAEMON"
    → key ≢ codes "SCCACHE_LOG"
    → env_value key (log_env environ log_level) ≡ env_value key environ
unfolding log_env
log_env-other environ [] key h ne ne' =
    env_value-other key (codes "SCCACHE_NO_DAEMON") (codes "1") environ h (ground arith) ne
log_env-other environ (c ∷ level) key h ne ne' =
    env_value-other key (codes "SCCACHE_LOG") (c ∷ level)
      (environ ++ codes "SCCACHE_NO_DAEMON=1" ∷ []) h (ground arith) ne'
    ∙ env_value-other key (codes "SCCACHE_NO_DAEMON") (codes "1") environ h (ground arith) ne

ok_injective : {E : Type 0} {a b : Command} → ◌≡◌ {A = Result E Command} (ok a) (ok b) → a ≡ b
ok_injective h = cc

started_with :
    {E : Type 0} (o : Option E) (wrap : E → StartError E) (cmd cmd' : Command)
    → started o wrap cmd ≡ ok cmd'
    → (o ≡ none) × (cmd ≡ cmd')
started_with none wrap cmd cmd' h = (refl, ok_injective h)
started_with (some e) wrap cmd cmd' h = cc

-- Both commands are of this form.
command-IsStartedWith :
    (environ args : List Text) (mode conf_path log_level : Text) (out out' : Output)
    → args ≡ mode ∷ codes "--config" ∷ conf_path ∷ []
    → IsStartedWith environ mode conf_path log_level (record {
      program = codes "sccache-dist";
      args = args;
      env = log_env environ log_level;
      stdout = out;
      stderr = out';
    })
command-IsStartedWith environ args mode conf_path log_level out out' e =
    let (no_daemon, log) = log_env_values environ log_level in
    (e, no_daemon, log, log_env-other environ log_level)

-- A scheduler or a server that is started, which it is only if the process could be, is told its
-- mode and its configuration file, and finds SCCACHE_NO_DAEMON=1 in its environment, as SCCACHE_LOG
-- the directive, or what the runner has there if the directive is empty, and every other variable as
-- the runner has it.
pub process_started :
    {E : Type 0} (kind : Kind) (start : Command → Option E) (environ : List Text)
    (conf_path log_level : Text) (cmd : Command)
    → start_as kind start environ conf_path log_level ≡ ok cmd
    → (start cmd ≡ none) × IsStartedWith environ (mode_of kind) conf_path log_level cmd
unfolding start_scheduler start_server
process_started scheduler start environ conf_path log_level cmd h =
    let made = scheduler_command environ conf_path log_level in
    let (could, same) = started_with (start made) start_scheduler_failed made cmd h in
    (
      subst (λ x. start x ≡ none) same could,
      subst (IsStartedWith environ (codes "scheduler") conf_path log_level) same (
          command-IsStartedWith environ made.args (codes "scheduler") conf_path log_level writer
            writer refl),
    )
process_started server start environ conf_path log_level cmd h =
    let made = server_command environ conf_path log_level in
    let (could, same) = started_with (start made) start_server_failed made cmd h in
    (
      subst (λ x. start x ≡ none) same could,
      subst (IsStartedWith environ (codes "server") conf_path log_level) same (
          command-IsStartedWith environ made.args (codes "server") conf_path log_level own_stdout
            own_stderr refl),
    )
