-- ===== src/Tests/Sccachedist.antt =====
-- The files and processes of sccache-dist.
use sccache_dist_action.Common.{All, Text, codes, ◌≡◌, refl, inl, none, [], ◌∷◌, ◌++◌, arith}
use sccache_dist_action.SccacheDist.Conf.{scheduler_conf}
use sccache_dist_action.SccacheDist.Toml.{read_file}
use sccache_dist_action.SccacheDist.Quoted.{IsCommon}
use sccache_dist_action.SccacheDist.Foreign.{IsForeign, scheduler_conf_unreadable}
use sccache_dist_action.Tests.Farm.{table}

abbrev token : Text
token = codes "a\"b"

token_lem : All (IsCommon table) token
token_lem = (inl refl, (inl refl, (inl refl, tt)))

bell_lem : IsForeign 7
bell_lem = ground arith

scheduler_conf_unreadable_example :
    read_file 7 [] (scheduler_conf table (codes "a\"b" ++ 7 ∷ codes "c")) ≡ none
scheduler_conf_unreadable_example =
    scheduler_conf_unreadable table (codes "a\"b") (codes "c") 7 token_lem bell_lem
