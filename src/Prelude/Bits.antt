-- ===== src/Prelude/Bits.antt =====
-- When a bitwise `or` or exclusive `or` is zero.
use Prim.Native.Nat.{
  ℕ, zero, suc, ◌/◌, ◌%◌, ◌≤◌, max, digits, differ, bit_or, bit_xor, bit_or-bitwise,
  bit_xor-bitwise,
}
use mathlib.Core.Path.{◌≡◌, refl, sym, ◌∙◌}
use mathlib.Core.Logic.{◌↔◌}
use native.Mathlib.Nat.{le_refl}
use native.Mathlib.Omega.{arith}

abbrev same_bit : ℕ → ℕ
same_bit b = b

or_zero : (n a b : ℕ) → a ≤ n → digits same_bit max n a b ≡ 0 → (a ≡ 0) × (b ≡ 0)
or_zero zero zero b p h = (refl, h)
or_zero zero (suc a) b p h = absurd (omega arith)
or_zero (suc n) zero b p h = (refl, h)
or_zero (suc n) (suc a) b p h =
    let rest = or_zero n (suc a / 2) (b / 2) (omega arith) (omega arith) in absurd (omega arith)

pub bit_or-eq-zero : (a b : ℕ) → (bit_or a b ≡ 0) ↔ ((a ≡ 0) × (b ≡ 0))
bit_or-eq-zero a b =
    (λ h. or_zero a a b (le_refl a) (sym (bit_or-bitwise a b) ∙ h), λ h. rw (h.0, h.1))

differ_zero : (x y : ℕ) → differ x y ≡ 0 → x ≡ y
differ_zero zero y h = sym h
differ_zero (suc x) zero h = h
differ_zero (suc x) (suc y) h = omega (arith, differ_zero x y h)

differ_self : (x : ℕ) → differ x x ≡ 0
differ_self zero = refl
differ_self (suc x) = differ_self x

xor_zero : (n a b : ℕ) → a ≤ n → digits same_bit differ n a b ≡ 0 → a ≡ b
xor_zero zero zero b p h = sym h
xor_zero zero (suc a) b p h = absurd (omega arith)
xor_zero (suc n) zero b p h = sym h
xor_zero (suc n) (suc a) b p h =
    let rest = xor_zero n (suc a / 2) (b / 2) (omega arith) (omega arith) in
    let digit = differ_zero (suc a % 2) (b % 2) (omega arith) in omega arith

xor_self : (n a : ℕ) → a ≤ n → digits same_bit differ n a a ≡ 0
xor_self zero zero p = refl
xor_self zero (suc a) p = absurd (omega arith)
xor_self (suc n) zero p = refl
xor_self (suc n) (suc a) p =
    omega (arith, xor_self n (suc a / 2) (omega arith), differ_self (suc a % 2))

pub bit_xor-eq-zero : (a b : ℕ) → (bit_xor a b ≡ 0) ↔ (a ≡ b)
bit_xor-eq-zero a b = (
  λ h. xor_zero a a b (le_refl a) (sym (bit_xor-bitwise a b) ∙ h),
  λ h. rw (← h) (bit_xor-bitwise a a ∙ xor_self a a (le_refl a)),
)
