-- ===== src/Tests/Config.antt =====
-- The configuration.
use sccache_dist_action.Common.{ok, ◌≡◌, ◌↔◌}
use sccache_dist_action.Config.{Config, load_from}
use sccache_dist_action.Config.Validity.{Acceptable, load_from-ok_iff}
use sccache_dist_action.Main.Dispatch.{getenv}
use sccache_dist_action.Tests.Farm.{fraction, coordinator_environ}

load_from-ok_iff_example :
    ((d : Config) × (load_from fraction (getenv coordinator_environ) ≡ ok d))
    ↔ Acceptable (getenv coordinator_environ)
load_from-ok_iff_example = load_from-ok_iff fraction (getenv coordinator_environ)
