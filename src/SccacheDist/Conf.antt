-- ===== src/SccacheDist/Conf.antt =====
-- internal/sccachedist/sccachedist.go: `SchedulerConf`, `ServerConf`, `ClientConfig` and `TotalJ`.
use sccache_dist_action.Common.{ℤ, ◌*ℤ◌, wrap64, Text, codes, ℕ, Bool, ◌++◌}
use sccache_dist_action.Stdlib.Quote.{quote}

-- `numWorkers * slots`, in Go's `int`.
unfoldable pub total_j : ℤ → ℤ → ℤ
total_j num_workers slots = wrap64 (num_workers *ℤ slots)

module _ (table : ℕ → Bool) where
  -- A text with `%q` in it: what stands before, the value, what stands after.
  abbrev pub with_quoted : Text → Text → Text → Text
  with_quoted before value after = before ++ (quote table value ++ after)

  unfoldable pub scheduler_conf : Text → Text
  scheduler_conf token =
      with_quoted
        (codes "public_addr = \"0.0.0.0:10600\"\n[client_auth]\ntype = \"token\"\ntoken = ") token
        (with_quoted (codes "\n[server_auth]\ntype = \"token\"\ntoken = ") token (codes "\n"))

  unfoldable pub server_conf : Text → Text → Text → Text → Text
  server_conf token public_addr scheduler_url cache_dir =
      with_quoted (codes "cache_dir = ") cache_dir (
        with_quoted (codes "\npublic_addr = ") public_addr (
          with_quoted (codes "\nbind_address = \"0.0.0.0:10501\"\nscheduler_url = ") scheduler_url (
            with_quoted
              (codes "\n[builder]\ntype = \"docker\"\n[scheduler_auth]\ntype = \"token\"\ntoken = ")
              token (codes "\n"))))

  unfoldable pub client_config : Text → Text → Text
  client_config token scheduler_url = with_quoted (codes "[dist]\nscheduler_url = ") scheduler_url (
      with_quoted
        (codes "\ntoolchain_cache_size = 5368709120\n[dist.auth]\ntype = \"token\"\ntoken = ") token
        (codes "\n"))
