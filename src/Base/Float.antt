-- ===== src/Base/Float.antt =====
-- Comparisons of f32 numbers as bit patterns (IEEE 754 binary32).
use Prim.Native.Nat.{ℕ, ◌+◌, ◌-◌, ◌%◌, ◌^◌}
use mathlib.Core.Bool.{Bool, not, ◌&&◌}
use ree0x_q.Base.Tests.{ltb, leb, if◌then◌else◌}

-- The exponent is 255 and the fraction is not 0.
abbrev pub is_nan : ℕ → Bool
is_nan x = ltb 0x7f800000 (x % 2 ^ 31)

-- The order of the numbers as an order of ℕ; both zeros are 2 ^ 31.
abbrev pub float_rank : ℕ → ℕ
float_rank x = if leb (2 ^ 31) x then 2 ^ 31 - x % 2 ^ 31 else 2 ^ 31 + x % 2 ^ 31

-- `x < y` and `x <= y`, false where an operand is NaN.
abbrev pub float_lt : ℕ → ℕ → Bool
float_lt x y = not (is_nan x) && not (is_nan y) && ltb (float_rank x) (float_rank y)

abbrev pub float_le : ℕ → ℕ → Bool
float_le x y = not (is_nan x) && not (is_nan y) && leb (float_rank x) (float_rank y)

-- `f32::clamp`
abbrev pub float_clamp : ℕ → ℕ → ℕ → ℕ
float_clamp x low high =
    let raised = if float_lt x low then low else x in if float_lt high raised then high else raised
