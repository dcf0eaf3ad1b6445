-- ===== src/Coordinator/Forward.antt =====
-- internal/coordinator/coordinator.go: `forwardSpec` and `boolStr`.
use sccache_dist_action.Common.{
  if◌then◌else◌, ℤ, ◌+ℤ◌, wrap64, Text, codes, pos, negsuc, ◌≡◌, refl, Bool, true, false, ◌++◌,
}
use sccache_dist_action.Stdlib.Decimal.{itoa}

-- 10501 + (idx - 1), in Go's `int`.
abbrev pub forward_port : ℤ → ℤ
forward_port idx = wrap64 (pos 10501 +ℤ wrap64 (idx +ℤ negsuc 0))

-- `fmt.Sprintf("%s%d:10501", workerPrefix, idx)`
unfoldable pub forward_spec : Text → ℤ → ℤ × Text
forward_spec worker_prefix idx = (forward_port idx, worker_prefix ++ itoa idx ++ codes ":10501")

unfoldable pub bool_str : Bool → Text
bool_str b = if b then codes "1" else codes "0"

tests :
    (forward_spec (codes "123-1-worker-") (pos 3) ≡ (pos 10503, codes "123-1-worker-3:10501"))
    × (bool_str true ≡ codes "1")
    × (bool_str false ≡ codes "0")
unfolding forward_spec itoa bool_str ◌+ℤ◌
tests = (refl, refl, refl)
