-- ===== src/Prelude/Fractions.antt =====
-- Comparing quotients by cross-multiplication.
use Prim.Native.Nat.{ℕ, ◌*◌, ◌≤◌, ◌<◌}
use native.Mathlib.Omega.{arith}
use native.Mathlib.Nat.{mul-le-mul_right, le_of_mul-le-mul_right}

-- If n2 / d2 ≤ n1 / d1 and n3 / d3 ≤ n2 / d2, then n3 / d3 ≤ n1 / d1.
pub cross_trans :
    (n1 d1 n2 d2 n3 d3 : ℕ) → 0 < d2 → n2 * d1 ≤ n1 * d2 → n3 * d2 ≤ n2 * d3 → n3 * d1 ≤ n1 * d3
cross_trans n1 d1 n2 d2 n3 d3 h a b =
    le_of_mul-le-mul_right (omega (arith, mul-le-mul_right d3 a, mul-le-mul_right d1 b)) h
