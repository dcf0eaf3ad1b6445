-- ===== src/Tests/Coordinator.antt =====
-- The coordinator.
use sccache_dist_action.Main.Phase.{node_hostname}
use sccache_dist_action.Worker.Probe.{liveness_addr}
use sccache_dist_action.Farm.Liveness.{before_liveness, fallible_calls, liveness_behind_scheduler}
use sccache_dist_action.Common.{
  All, Occurs, inl, ◌≤ℤ◌, Text, codes, text_eq, pos, ok, ℕ, ◌≤◌, ◌≡◌, refl, sym, ◌≢◌, true, false,
  none, some, List, [], ◌∷◌, ◌++◌, append-nil, arith,
}
use sccache_dist_action.Effects.{and_then, perform}
use sccache_dist_action.Coordinator.Run.{forward_at, Action, World, run, prefix_of, wait}
use sccache_dist_action.Coordinator.Run.Setup.{IsSetup}
use sccache_dist_action.Coordinator.Run.Forwards.{forwards_before_wait, IsForwarded}
use sccache_dist_action.Coordinator.Run.Exports.{IsSilent, exported, run-exports}
use sccache_dist_action.Coordinator.Log.{
  Answer, taken, broken_pipe, Line, log_all, open_log, log_survives_stdout,
}
use sccache_dist_action.Farm.Handover.{written_outputs, handover, content_after}
use sccache_dist_action.Farm.Settings.{settings, OneLine}
use sccache_dist_action.Farm.RunnerFiles.{output_values, variable_values, step_reads_exports}
use sccache_dist_action.Main.Export.{shows_export}
use sccache_dist_action.Stdlib.Strings.{contains, has_prefix}
use sccache_dist_action.Stdlib.Decimal.{itoa}
use sccache_dist_action.Stdlib.Paths.{join}
use sccache_dist_action.SccacheDist.Conf.{total_j}
use sccache_dist_action.Coordinator.Forward.{bool_str}
use sccache_dist_action.Tests.Farm.{table, coordinator_config}

-- Nothing fails; one of the two workers registers.
abbrev pub world : World ℕ
world = record {
  refuses = λ a. none;
  opens = λ path. true;
  registered = pos 1;
  nproc = pos 8;
  home = codes "/root";
  github_output = codes "/out";
  github_env = codes "/env";
  conf_path = λ name. codes "/tmp/" ++ name;
  log_path = codes "/tmp/c.log";
}

abbrev pub hostname : Text
hostname = codes "77-coordinator"

abbrev pub calls : List Action
calls = (run table coordinator_config hostname world).trace

run_succeeds : (run table coordinator_config hostname world).result ≡ ok tt
unfolding run and_then perform forward_at
run_succeeds = refl

pub run_waits : Occurs (wait (pos 2)) calls
unfolding run and_then perform forward_at
run_waits = ground arith

forwards_before_wait_example :
    (before later : List Action) × (calls ≡ before ++ wait (pos 2) ∷ later)
    × All IsSetup before
    × ((idx : ℕ) → 1 ≤ idx → idx ≤ 2 → IsForwarded (prefix_of coordinator_config) idx before)
forwards_before_wait_example =
    forwards_before_wait table coordinator_config hostname world (pos 2) run_waits

at_hand : (path : Text) → path ≢ [] → (path ≢ []) × (world.opens path ≡ true)
at_hand path h = (h, refl)

env_named : codes "/env" ≢ []
env_named e = ground arith

output_named : codes "/out" ≢ []
output_named e = ground arith

run-exports_example :
    (coordinator_config.min_workers ≤ℤ pos 1)
    × ((before : List Action) × All IsSilent before
        × (calls ≡ before ++ exported table coordinator_config hostname world))
run-exports_example =
    run-exports table coordinator_config hostname world (at_hand (codes "/out") output_named)
      (at_hand (codes "/env") env_named) run_succeeds

-- The parent reads the file when all is done.
shown_at_end : shows_export (content_after (codes "/env") [] calls) ≡ true
unfolding run and_then perform forward_at content_after text_eq contains total_j itoa bool_str join
shown_at_end = refl

paths_differ : codes "/out" ≢ codes "/env"
paths_differ e = ground arith

hidden_at_first : shows_export [] ≡ false
unfolding contains has_prefix
hidden_at_first = refl

handover_example :
    ((run table coordinator_config hostname world).result ≡ ok tt)
    × (coordinator_config.min_workers ≤ℤ pos 1)
    × ((before later : List Action) × (calls
          ≡ before ++ written_outputs table coordinator_config hostname world ++ later))
handover_example =
    handover table coordinator_config hostname world [] calls []
      (at_hand (codes "/out") output_named) (at_hand (codes "/env") env_named) paths_differ
      hidden_at_first (sym (append-nil calls)) shown_at_end

abbrev line : Text → Answer → Line
line text answer = record { text = text; stdout_answer = answer; file_fails = false }

log_survives_stdout_example :
    log_all
      ((line (codes "a") taken ∷ []) ++ line (codes "b") broken_pipe ∷ line (codes "c") taken ∷ [])
      (open_log (codes "/tmp/c.log") true (record { ignores_sigpipe = false; killed = false })).0
    ≡ record {
      file = some (codes "a" ∷ codes "b" ∷ codes "c" ∷ []);
      out = record { broken = true; shown = codes "a" ∷ [] };
      process = record { ignores_sigpipe = true; killed = false };
    }
log_survives_stdout_example =
    log_survives_stdout (codes "/tmp/c.log") (line (codes "a") taken ∷ [])
      (line (codes "c") taken ∷ []) (line (codes "b") broken_pipe) false ((refl, refl), tt) refl
      (λ e. cc) (refl, tt)

it_serves_liveness : Occurs Action.serve_liveness calls
unfolding run and_then perform forward_at
it_serves_liveness = ground arith

liveness_behind_scheduler_example :
    (liveness_addr (codes "77-coordinator") ≡ node_hostname coordinator_config [] ++ codes ":10599")
    × ((later : List Action) × (calls
          ≡ before_liveness table coordinator_config hostname world
            ++ Action.serve_liveness ∷ later))
    × All (λ a. world.refuses a ≡ none) (fallible_calls table coordinator_config hostname world)
liveness_behind_scheduler_example =
    liveness_behind_scheduler table coordinator_config hostname world [] refl it_serves_liveness

log-OneLine : OneLine world.log_path
log-OneLine = ground arith

dir-OneLine : OneLine (join world.home (codes ".cache/sccache"))
unfolding join
dir-OneLine = ground arith

-- The files are empty when the forwarder begins.
step_reads_exports_example :
    (settings (content_after (codes "/out") [] calls)
      ≡ settings [] ++ output_values table coordinator_config hostname world)
    × (settings (content_after (codes "/env") [] calls)
        ≡ settings [] ++ variable_values table coordinator_config hostname world)
step_reads_exports_example =
    step_reads_exports table coordinator_config hostname world [] []
      (at_hand (codes "/out") output_named) (at_hand (codes "/env") env_named) paths_differ
      (inl refl) (inl refl) log-OneLine dir-OneLine run_succeeds
