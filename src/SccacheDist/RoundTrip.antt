-- ===== src/SccacheDist/RoundTrip.antt =====
-- The files of internal/sccachedist/sccachedist.go, read back.
use sccache_dist_action.Common.{All, Text, codes, ℕ, ◌≡◌, refl, Bool, some, [], ◌∷◌, ◌++◌}
use sccache_dist_action.SccacheDist.Conf.{scheduler_conf, server_conf, client_config}
use sccache_dist_action.SccacheDist.Toml.{text, number, Entry, read_value, read_file}
use sccache_dist_action.SccacheDist.Quoted.{IsCommon, read_value-quote}

abbrev pub entry : Text → Text → Text → Entry
entry section key value = record { section = section; key = key; value = text value }

pub read_value_type :
    (rest : Text) → read_value (codes "\"token\"\n" ++ rest) ≡ some (text (codes "token"), rest)
unfolding read_value
read_value_type rest = refl

pub read_value_addr :
    (rest : Text)
    → read_value (codes "\"0.0.0.0:10600\"\n" ++ rest) ≡ some (text (codes "0.0.0.0:10600"), rest)
unfolding read_value
read_value_addr rest = refl

module _ (table : ℕ → Bool) where
  -- The scheduler reads its public address and, for its clients and its servers alike, the token.
  pub read-scheduler_conf :
      (token : Text)
      → All (IsCommon table) token
      → read_file 7 [] (scheduler_conf table token)
        ≡ some (
            entry [] (codes "public_addr") (codes "0.0.0.0:10600")
            ∷ entry (codes "client_auth") (codes "type") (codes "token")
            ∷ entry (codes "client_auth") (codes "token") token
            ∷ entry (codes "server_auth") (codes "type") (codes "token")
            ∷ entry (codes "server_auth") (codes "token") token
            ∷ [])
  unfolding read_file scheduler_conf
  read-scheduler_conf token h =
      rw
        (
          read_value_addr,
          read_value_type,
          read_value-quote table token _ h,
          read_value_type,
          read_value-quote table token _ h,
        )
        refl

  read_value_bind :
      (rest : Text)
      → read_value (codes "\"0.0.0.0:10501\"\n" ++ rest) ≡ some (text (codes "0.0.0.0:10501"), rest)
  unfolding read_value
  read_value_bind rest = refl

  read_value_docker :
      (rest : Text) → read_value (codes "\"docker\"\n" ++ rest) ≡ some (text (codes "docker"), rest)
  unfolding read_value
  read_value_docker rest = refl

  read_value_size :
      (rest : Text)
      → read_value (codes "5368709120\n" ++ rest) ≡ some (number (codes "5368709120"), rest)
  unfolding read_value
  read_value_size rest = refl

  -- From the configuration written for it, the server reads the cache directory, the address to tell,
  -- the scheduler's URL and the token as they were given, with its fixed entries, if all four have only
  -- characters that Go and TOML write alike.
  pub read-server_conf :
      (token public_addr scheduler_url cache_dir : Text)
      → All (IsCommon table) token
      → All (IsCommon table) public_addr
      → All (IsCommon table) scheduler_url
      → All (IsCommon table) cache_dir
      → read_file 9 [] (server_conf table token public_addr scheduler_url cache_dir)
        ≡ some (
            entry [] (codes "cache_dir") cache_dir
            ∷ entry [] (codes "public_addr") public_addr
            ∷ entry [] (codes "bind_address") (codes "0.0.0.0:10501")
            ∷ entry [] (codes "scheduler_url") scheduler_url
            ∷ entry (codes "builder") (codes "type") (codes "docker")
            ∷ entry (codes "scheduler_auth") (codes "type") (codes "token")
            ∷ entry (codes "scheduler_auth") (codes "token") token
            ∷ [])
  unfolding read_file server_conf
  read-server_conf token public_addr scheduler_url cache_dir ht hp hs hc =
      rw
        (
          read_value-quote table cache_dir _ hc,
          read_value-quote table public_addr _ hp,
          read_value_bind,
          read_value-quote table scheduler_url _ hs,
          read_value_docker,
          read_value_type,
          read_value-quote table token _ ht,
        )
        refl

  -- The client reads the scheduler's URL, the size of its toolchain cache and the token.
  pub read-client_config :
      (token scheduler_url : Text)
      → All (IsCommon table) token
      → All (IsCommon table) scheduler_url
      → read_file 6 [] (client_config table token scheduler_url)
        ≡ some (
            entry (codes "dist") (codes "scheduler_url") scheduler_url
            ∷ record {
              section = codes "dist";
              key = codes "toolchain_cache_size";
              value = number (codes "5368709120");
            }
            ∷ entry (codes "dist.auth") (codes "type") (codes "token")
            ∷ entry (codes "dist.auth") (codes "token") token
            ∷ [])
  unfolding read_file client_config
  read-client_config token scheduler_url ht hs =
      rw
        (
          read_value-quote table scheduler_url _ hs,
          read_value_size,
          read_value_type,
          read_value-quote table token _ ht,
        )
        refl
