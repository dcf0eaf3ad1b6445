-- ===== src/SccacheDist/Env.antt =====
-- internal/sccachedist/sccachedist.go: `logEnv`, the environment of the sccache-dist processes.
use sccache_dist_action.Common.{
  if◌then◌else◌, Text, codes, is_empty, ◌≡◌, refl, some, List, [], ◌∷◌, ◌++◌,
}
use sccache_dist_action.Stdlib.Environ.{value_of, env_value, env_value-append}

-- `environ` is os.Environ().
unfoldable pub log_env : List Text → Text → List Text
log_env environ log_level =
    if is_empty log_level
    then environ ++ codes "SCCACHE_NO_DAEMON=1" ∷ []
    else (environ ++ codes "SCCACHE_NO_DAEMON=1" ∷ []) ++ (codes "SCCACHE_LOG=" ++ log_level) ∷ []

-- A process is told not to daemonize, whatever the runner's environment; its log directive is the
-- given one, unless that is empty: then a directive that the environment holds is passed on.
pub log_env_values :
    (environ : List Text) (log_level : Text)
    → (env_value (codes "SCCACHE_NO_DAEMON") (log_env environ log_level) ≡ some (codes "1"))
      × (env_value (codes "SCCACHE_LOG") (log_env environ log_level) ≡ (
          if is_empty log_level then env_value (codes "SCCACHE_LOG") environ else some log_level))
unfolding log_env value_of env_value
log_env_values environ [] = (rw env_value-append refl, rw env_value-append refl)
log_env_values environ (c ∷ level) =
    (rw (env_value-append, env_value-append) refl, rw env_value-append refl)
