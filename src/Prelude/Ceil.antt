-- ===== src/Prelude/Ceil.antt =====
-- `math.ceil(a / b)` on integers, and the facts about rounding that the layouts share.
use Prim.Native.Nat.{ℕ, ◌+◌, ◌-◌, ◌*◌, ◌/◌, ◌≤◌, ◌<◌, ◌%◌}
use mathlib.Core.Path.{◌≡◌}
use native.Mathlib.Omega.{arith}
use native.Mathlib.Nat.{div-add-mod', mod-lt, div-eq_of_lt, add-mul-div_right}

-- The true quotient is rounded up; where the source divides floats, it is exact below 2 ^ 53.
unfoldable pub ceil_div : ℕ → ℕ → ℕ
ceil_div a b = (a + b - 1) / b

-- The quotient rounded up covers the dividend, and by less than one more divisor.
pub ceil_div_bounds : (a b : ℕ) → 0 < b → (a ≤ ceil_div a b * b) × (ceil_div a b * b < a + b)
unfolding ceil_div
ceil_div_bounds a b h =
    let q = div-add-mod' (a + b - 1) b in let r = mod-lt (a + b - 1) h in (omega arith, omega arith)

-- Where the divisor divides, the two divisions agree.
pub ceil_div-eq-div : (n d : ℕ) → 0 < d → n % d ≡ 0 → ceil_div n d ≡ n / d
unfolding ceil_div
ceil_div-eq-div n d p e =
    let q = n / d in
    let whole : n + d - 1 ≡ (d - 1) + q * d = omega (arith, div-add-mod' n d) in
    let small : (d - 1) / d ≡ 0 = div-eq_of_lt (omega arith) in
    rw (whole, add-mul-div_right (d - 1) q p, small) (omega arith)

pub ceil_div_exact : (n d : ℕ) → 0 < d → n % d ≡ 0 → ceil_div n d * d ≡ n
ceil_div_exact n d p e = rw (ceil_div-eq-div n d p e) (omega (arith, div-add-mod' n d))
