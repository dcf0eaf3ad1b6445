-- ===== src/Common/Products.antt =====
-- Products of native numbers with one factor fixed.
use Prim.Native.Nat.{ℕ, zero, suc, ◌+◌, ◌*◌, ◌≤◌}
use mathlib.Core.Path.{◌≡◌}
use native.Mathlib.Omega.{arith}

pub product_suc : (n m : ℕ) → suc n * m ≡ m + n * m
product_suc n m = omega arith

pub product_mono : (a b m : ℕ) → a ≤ b → a * m ≤ b * m
product_mono zero b m h = omega arith
product_mono (suc a) zero m h = absurd (omega arith)
product_mono (suc a) (suc b) m h =
    omega (arith, product_suc a m, product_suc b m, product_mono a b m (omega arith))
