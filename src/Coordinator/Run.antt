-- ===== src/Coordinator/Run.antt =====
-- internal/coordinator/coordinator.go: `Run`, as the sequence of the calls it makes. What the world
-- answers to each call is a parameter; the relays, the scheduler and the status log that it leaves
-- running are calls that start them.
pub mod Setup
pub mod Forwards
pub mod Exports
use sccache_dist_action.Common.{
  if◌then◌else◌, ℤ, ltb_ℤ, is_zero, Text, codes, is_empty, pos, negsuc, ℕ, zero, suc, Bool, true,
  false, not, ◌&&◌, Option, List, [], ◌∷◌, ◌++◌, map,
}
use sccache_dist_action.Effects.{Outcome, and_then, perform, emit, fail}
use sccache_dist_action.Config.{Config}
use sccache_dist_action.Stdlib.Decimal.{itoa}
use sccache_dist_action.Stdlib.Paths.{join}
use sccache_dist_action.SccacheDist.Conf.{total_j, scheduler_conf, client_config}
use sccache_dist_action.Coordinator.Forward.{forward_spec, bool_str}

pub data Action : Type 0 where
  join_mesh : Text → Action
  write_file : Text → Text → Action  -- the path and the content
  mesh_listen : Text → Action
  serve_scheduler : Action  -- go schedFwd.Serve(schedExpose)
  start_scheduler : Text → Text → Action  -- the configuration and the log level
  serve_liveness : Action
  listen : ℤ → Action  -- net.Listen on 127.0.0.1
  serve_forward : ℤ → Text → Action  -- go f.Serve(ln), and what it dials
  start_status : Action
  wait : ℤ → Action  -- waitForRegisteredServers
  append : Text → Text → Action  -- a line at the end of a file of the runner

pub data RunError (E : Type 0) : Type 0 where
  refused : E → RunError E
  only_registered : ℤ → ℤ → RunError E

-- What `Run` gets from outside. `refuses` is the error, if any, with which a call ends; `opens` says
-- whether a file of the runner can be opened; `registered` is what the wait returns.
pub record World (E : Type 0) : Type 0 where
  pub refuses : Action → Option (RunError E)
  pub opens : Text → Bool
  pub registered : ℤ
  pub nproc : ℤ
  pub home : Text
  pub github_output : Text
  pub github_env : Text
  pub conf_path : Text → Text
  pub log_path : Text

abbrev pub Run : Type 0 → Type 0
Run E = Outcome Action (RunError E) (Unit {0})

infixr 5 ◌&>◌
abbrev pub ◌&>◌ : {E : Type 0} → Run E → Run E → Run E
m &> k = and_then m (λ _. k)

-- The scheduler, its exposure on the mesh and the liveness port.
unfoldable pub start : {E : Type 0} → (ℕ → Bool) → Config → Text → World E → Run E
start table c hostname w =
    let conf = w.conf_path (codes "sccache-scheduler.conf") in
    perform w.refuses (join_mesh hostname)
    &> perform w.refuses (write_file conf (scheduler_conf table c.oauth_secret))
    &> perform w.refuses (mesh_listen (codes ":10600"))
    &> emit (serve_scheduler ∷ [])
    &> perform w.refuses (start_scheduler conf c.server_log)
    &> perform w.refuses (mesh_listen (codes ":10599"))
    &> emit (serve_liveness ∷ [])

abbrev pub prefix_of : Config → Text
prefix_of c = c.run_prefix ++ codes "-worker-"

unfoldable pub forward_at : {E : Type 0} → World E → ℤ × Text → Run E
forward_at w (port, target) =
    perform w.refuses (listen port) &> emit (serve_forward port target ∷ [])

-- The loop over the workers, from `idx` on, with `left` of them to come.
unfoldable pub forwards : {E : Type 0} → Text → World E → ℕ → ℕ → Run E
forwards prefix w zero idx = emit []
forwards prefix w (suc left) idx =
    forward_at w (forward_spec prefix (pos idx)) &> forwards prefix w left (suc idx)

-- The number of rounds of `for idx := 1; idx <= n; idx++`.
abbrev pub rounds : ℤ → ℕ
rounds (pos n) = n
rounds (negsuc n) = 0

abbrev slots_of : {E : Type 0} → Config → World E → ℤ
slots_of c w = if is_zero c.slots then w.nproc else c.slots

-- A line of the form `key=value`.
abbrev pub setting : Text → Text → Text
setting key value = key ++ codes "=" ++ value ++ codes "\n"

-- The lines for GITHUB_OUTPUT and for GITHUB_ENV.
abbrev pub outputs : {E : Type 0} → World E → ℤ → List Text
outputs w j =
    setting (codes "workers-online") (itoa w.registered)
    ∷ setting (codes "sccache-j") (itoa j)
    ∷ setting (codes "scheduler-url") (codes "http://127.0.0.1:10600")
    ∷ setting (codes "log-file") w.log_path
    ∷ []

abbrev pub variables : {E : Type 0} → Config → World E → ℤ → List Text
variables c w j =
    setting (codes "SCCACHE_J") (itoa j)
    ∷ setting (codes "SCCACHE_WORKERS_ONLINE") (itoa w.registered)
    ∷ setting (codes "SCCACHE_DIR") (join w.home (codes ".cache/sccache"))
    ∷ setting (codes "SCCACHE_DIST_FALLBACK") (bool_str c.dist_fallback)
    ∷ []

-- Each line is a write of its own; a file that is not named or does not open is skipped.
abbrev pub append_lines : {E : Type 0} → World E → Text → List Text → Run E
append_lines w path lines =
    emit (if not (is_empty path) && w.opens path then map (append path) lines else [])

abbrev pub j_of : {E : Type 0} → Config → World E → ℤ
j_of c w = total_j w.registered (slots_of c w)

unfoldable pub export : {E : Type 0} → (ℕ → Bool) → Config → World E → Run E
export table c w =
    perform w.refuses (
      write_file (join w.home (codes ".config/sccache/config"))
        (client_config table c.oauth_secret (codes "http://127.0.0.1:10600")))
    &> append_lines w w.github_output (outputs w (j_of c w))
    &> append_lines w w.github_env (variables c w (j_of c w))

abbrev pub enough : {E : Type 0} → Bool → Config → World E → Run E
enough true c w = fail (only_registered w.registered c.min_workers)
enough false c w = emit []

-- The wait and its minimum.
unfoldable pub registration : {E : Type 0} → Config → World E → Run E
registration c w =
    emit (wait c.expected_workers ∷ []) &> enough (ltb_ℤ w.registered c.min_workers) c w

unfoldable pub run : {E : Type 0} → (ℕ → Bool) → Config → Text → World E → Run E
unfolding start forwards registration export
run table c hostname w =
    start table c hostname w
    &> forwards (prefix_of c) w (rounds c.expected_workers) 1
    &> emit (start_status ∷ [])
    &> registration c w
    &> export table c w
