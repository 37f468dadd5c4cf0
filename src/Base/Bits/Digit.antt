-- ===== src/Base/Bits/Digit.antt =====
-- One equation for the lowest binary digit of each native operation.
use Prim.Native.Nat.{
  ℕ, zero, suc, ◌+◌, ◌*◌, ◌/◌, ◌%◌, ◌≤◌, ◌<◌, min, max, bit_and, bit_or, bit_xor, digits, differ,
  bit_and-bitwise, bit_or-bitwise, bit_xor-bitwise,
}
use mathlib.Core.Path.{◌≡◌, refl}
use native.Mathlib.Omega.{arith}

-- More digits to go than the first number needs change nothing; the recursion is on a bound.
spare :
    (z : ℕ → ℕ) (f : ℕ → ℕ → ℕ) (bound a b n : ℕ)
    → a ≤ bound
    → a ≤ n
    → digits z f n a b ≡ digits z f a a b
spare z f bound zero b zero p q = refl
spare z f bound zero b (suc n) p q = refl
spare z f zero (suc a) b n p q = absurd (omega arith)
spare z f (suc bound) (suc a) b zero p q = absurd (omega arith)
spare z f (suc bound) (suc a) b (suc n) p q = omega (
  arith,
  spare z f bound (suc a / 2) (b / 2) n (omega arith) (omega arith),
  spare z f bound (suc a / 2) (b / 2) a (omega arith) (omega arith),
)

-- The digits above the lowest, with exactly the count that the halved number asks for.
upper :
    (z : ℕ → ℕ) (f : ℕ → ℕ → ℕ) (a b : ℕ)
    → digits z f a (suc a / 2) (b / 2) ≡ digits z f (suc a / 2) (suc a / 2) (b / 2)
upper z f a b = spare z f (suc a / 2) (suc a / 2) (b / 2) a (omega arith) (omega arith)

pub zero-bit_or : (b : ℕ) → bit_or 0 b ≡ b
zero-bit_or b = bit_or-bitwise 0 b

pub zero-bit_and : (b : ℕ) → bit_and 0 b ≡ 0
zero-bit_and b = bit_and-bitwise 0 b

zero-bit_xor : (b : ℕ) → bit_xor 0 b ≡ b
zero-bit_xor b = bit_xor-bitwise 0 b

pub or-digit : (a b : ℕ) → bit_or a b ≡ bit_or (a / 2) (b / 2) * 2 + max (a % 2) (b % 2)
or-digit zero b = omega (arith, zero-bit_or b, zero-bit_or (b / 2))
or-digit (suc a) b =
    omega
      (arith, bit_or-bitwise (suc a) b, bit_or-bitwise (suc a / 2) (b / 2), upper (λ y. y) max a b)

pub and-digit : (a b : ℕ) → bit_and a b ≡ bit_and (a / 2) (b / 2) * 2 + min (a % 2) (b % 2)
and-digit zero b = omega (arith, zero-bit_and b, zero-bit_and (b / 2))
and-digit (suc a) b =
    omega (
      arith,
      bit_and-bitwise (suc a) b,
      bit_and-bitwise (suc a / 2) (b / 2),
      upper (λ y. 0) min a b,
    )

-- Two digits differ when their sum is odd.
differ-digits : (x y : ℕ) → x < 2 → y < 2 → differ x y ≡ (x + y) % 2
differ-digits zero y p q = omega arith
differ-digits (suc zero) zero p q = refl
differ-digits (suc zero) (suc zero) p q = refl
differ-digits (suc zero) (suc (suc y)) p q = absurd (omega arith)
differ-digits (suc (suc x)) y p q = absurd (omega arith)

pub xor-digit : (a b : ℕ) → bit_xor a b ≡ bit_xor (a / 2) (b / 2) * 2 + (a % 2 + b % 2) % 2
xor-digit zero b = omega (arith, zero-bit_xor b, zero-bit_xor (b / 2))
xor-digit (suc a) b = omega (
  arith,
  bit_xor-bitwise (suc a) b,
  bit_xor-bitwise (suc a / 2) (b / 2),
  upper (λ y. y) differ a b,
  differ-digits (suc a % 2) (b % 2) (omega arith) (omega arith),
)
