-- ===== src/Worker/Address.antt =====
-- internal/worker/worker.go: `workerIndex` and `serverPublicAddr`.
use sccache_dist_action.Common.{
  if◌then◌else◌, ℤ, ◌+ℤ◌, leb_ℤ, wrap64, Text, codes, pos, negsuc, Option, none, some, ◌++◌,
}
use sccache_dist_action.Stdlib.Decimal.{itoa, atoi}

abbrev at_least_one : Option ℤ → ℤ
at_least_one none = pos 1
at_least_one (some n) = if leb_ℤ (pos 1) n then n else pos 1

-- Over the value of INPUT_WORKER_INDEX.
unfoldable pub worker_index : Text → ℤ
worker_index raw = at_least_one (atoi raw)

-- 10501 + (idx - 1), in Go's `int`.
abbrev pub server_port : ℤ → ℤ
server_port idx = wrap64 (pos 10501 +ℤ wrap64 (idx +ℤ negsuc 0))

unfoldable pub server_public_addr : ℤ → Text
server_public_addr idx = codes "127.0.0.1:" ++ itoa (server_port idx)
