-- ===== src/Base/Bits.antt =====
-- Exclusive or and or of the binary digits, as far as a comparison needs them.
use Prim.Native.Nat.{
  ℕ, zero, suc, ◌/◌, ◌%◌, ◌≤◌, digits, differ, bit_or, bit_or-bitwise, bit_xor, bit_xor-bitwise,
  max,
}
use mathlib.Core.Path.{◌≡◌, refl, sym}
use mathlib.Core.Logic.{◌↔◌}
use native.Mathlib.Omega.{arith}

differ_zero : (x y : ℕ) → differ x y ≡ 0 → x ≡ y
differ_zero zero y h = ground arith
differ_zero (suc x) zero h = absurd (ground arith)
differ_zero (suc x) (suc y) h = ground (arith, differ_zero x y h)

differ_self : (x : ℕ) → differ x x ≡ 0
differ_self zero = refl
differ_self (suc x) = differ_self x

xor_digits_zero : (n a b : ℕ) → a ≤ n → digits (λ b. b) differ n a b ≡ 0 → a ≡ b
xor_digits_zero zero a b le h = omega arith
xor_digits_zero (suc n) zero b le h = omega arith
xor_digits_zero (suc n) (suc a) b le h =
    let high = xor_digits_zero n (suc a / 2) (b / 2) (omega arith) (omega arith) in
    let low = differ_zero (suc a % 2) (b % 2) (omega arith) in omega arith

xor_digits_self : (n a : ℕ) → a ≤ n → digits (λ b. b) differ n a a ≡ 0
xor_digits_self zero a le = omega arith
xor_digits_self (suc n) zero le = refl
xor_digits_self (suc n) (suc a) le =
    omega (arith, xor_digits_self n (suc a / 2) (omega arith), differ_self (suc a % 2))

or_digits_zero : (n a b : ℕ) → a ≤ n → digits (λ b. b) max n a b ≡ 0 → (a ≡ 0) × (b ≡ 0)
or_digits_zero zero a b le h = (omega arith, h)
or_digits_zero (suc n) zero b le h = (refl, h)
or_digits_zero (suc n) (suc a) b le h =
    let high = or_digits_zero n (suc a / 2) (b / 2) (omega arith) (omega arith) in
    let low : max (suc a % 2) (b % 2) ≡ 0 = omega arith in
    (omega (arith, low, high.0), omega (arith, low, high.0, high.1))

pub bit_xor_iff : (a b : ℕ) → (bit_xor a b ≡ 0) ↔ (a ≡ b)
bit_xor_iff a b =
    let e : bit_xor a b ≡ digits (λ b. b) differ a a b = λ i. bit_xor-bitwise a b i in
    rw e (
      λ h. xor_digits_zero a a b (omega arith) h,
      λ h. rw (sym h) (xor_digits_self a a (omega arith)),
    )

pub bit_or_iff : (a b : ℕ) → (bit_or a b ≡ 0) ↔ ((a ≡ 0) × (b ≡ 0))
bit_or_iff a b =
    let e : bit_or a b ≡ digits (λ b. b) max a a b = λ i. bit_or-bitwise a b i in
    rw e (λ h. or_digits_zero a a b (omega arith) h, λ (p, q). rw (p, q) refl)
