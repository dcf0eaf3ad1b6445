-- ===== src/Tests/Process.antt =====
-- The step's processes.
use sccache_dist_action.Main.Run.{
  World, Ended, returned, fatal, not_exported, HasExport, child_of, main, parent_then_teardown,
}
use sccache_dist_action.Common.{
  Text, codes, text_eq, pos, ok, ℕ, ◌≤◌, ◌≡◌, refl, ◌⊎◌, inl, true, Option, none, some, List, [],
  ◌∷◌, arith,
}
use sccache_dist_action.Stdlib.Environ.{env_value, value_of}
use sccache_dist_action.Main.Phase.{phase_from_args}
use sccache_dist_action.Main.Spawn.{forwarder_env}
use sccache_dist_action.Main.Dispatch.{parent, detached, role, parent_spawns_forwarder}
use sccache_dist_action.Tests.Farm.{
  fraction, coordinator_environ, coordinator_config, coordinator_loads,
}

abbrev reads : List (Option Text)
reads = none ∷ some (codes "A=1\n") ∷ some (codes "A=1\nSCCACHE_J=4\n") ∷ []

it_is_parent :
    role fraction (codes "exe" ∷ []) coordinator_environ ≡ some (parent coordinator_config)
unfolding role phase_from_args text_eq env_value value_of
it_is_parent = rw coordinator_loads refl

parent_spawns_forwarder_example :
    role fraction (codes "/bin/exe" ∷ []) (forwarder_env coordinator_environ)
    ≡ some (detached coordinator_config (codes "77-coordinator"))
parent_spawns_forwarder_example =
    parent_spawns_forwarder fraction coordinator_environ (codes "exe" ∷ []) (codes "/bin/exe")
      coordinator_config it_is_parent

-- The machine starts the child as process 4711, and the export is seen in the second read.
abbrev world : World ℕ
world = record {
  executable = ok (codes "/bin/exe");
  starts = λ child. ok (pos 4711);
  writes_pid = true;
  github_env = codes "/env";
  reads = λ time. none ∷ some (codes "SCCACHE_J=4\n") ∷ [];
  worker_fails = λ c hostname. none;
  coordinator_fails = λ c hostname. none;
}

low : 1 ≤ 4711
low = omega arith

high : 4711 ≤ 9223372036854775807
high = omega arith

parent_then_teardown_example :
    (e : Ended ℕ) × (main fraction world (codes "exe" ∷ []) coordinator_environ none ≡ some e)
    × (((e.exit ≡ returned) × HasExport world coordinator_config)
        ⊎ ((e.exit ≡ fatal not_exported) × (¬ (HasExport world coordinator_config))))
    × (e.child ≡ some (child_of coordinator_environ (codes "/bin/exe")))
    × (main fraction world (codes "exe" ∷ codes "--teardown" ∷ []) [] e.file
        ≡ some
            (record { exit = returned; file = e.file; signalled = some (pos 4711); child = none }))
parent_then_teardown_example =
    parent_then_teardown fraction world world (codes "exe" ∷ []) (codes "--teardown" ∷ [])
      coordinator_environ [] none coordinator_config (codes "/bin/exe") (codes "exe") 4711
      it_is_parent refl refl refl low high (inl refl)
