-- ===== src/Base/Bits.antt =====
-- `|` of disjoint fields and `&` with a mask as arithmetic, at every width: the source packs
-- and unpacks bytes and flag words by them.
mod Digit
pub mod Split
pub mod Parity
pub use Digit.{or-digit, and-digit, xor-digit}
use mathlib.Core.Path.{◌≡◌, refl, ap, sym}
use Prim.Native.Nat.{
  ℕ, zero, suc, ◌+◌, ◌-◌, ◌*◌, ◌/◌, ◌%◌, ◌^◌, ◌≤◌, ◌<◌, bit_and, bit_or, max, min,
}
use native.Mathlib.Nat.{pow-suc, one-le-pow, div-div-eq-div-mul, mul_comm, div-add-mod}
use native.Mathlib.Omega.{arith}
use esp32_daplink.Base.Words.{◌<<<◌}

or_comm_within : (n a b : ℕ) → a ≤ n → b ≤ n → bit_or a b ≡ bit_or b a
or_comm_within zero zero zero p q = refl
or_comm_within zero (suc a) b p q = absurd (omega arith)
or_comm_within zero zero (suc b) p q = absurd (omega arith)
or_comm_within (suc n) a b p q = omega (
  arith,
  or-digit a b,
  or-digit b a,
  or_comm_within n (a / 2) (b / 2) (omega arith) (omega arith),
)

pub bit_or_comm : (a b : ℕ) → bit_or a b ≡ bit_or b a
bit_or_comm a b = or_comm_within (a + b) a b (omega arith) (omega arith)

pub zero-bit_or : (a : ℕ) → bit_or 0 a ≡ a
zero-bit_or a = Digit.zero-bit_or a

shift_suc : (q k : ℕ) → q * 2 ^ suc k ≡ 2 * (q * 2 ^ k)
shift_suc q k = omega (arith, ap (λ (t : ℕ). q * t) (pow-suc 2 k))

-- `lo | (q << k)` is a sum when `lo` fits `k` bits
pub bit_or-low : (k lo q : ℕ) → lo < 2 ^ k → bit_or lo (q <<< k) ≡ lo + q * 2 ^ k
bit_or-low zero zero q fits = omega (arith, zero-bit_or (q * 2 ^ 0))
bit_or-low zero (suc lo) q fits = absurd (omega arith)
bit_or-low (suc k) lo q fits = ground (
  arith,
  or-digit lo (q * 2 ^ suc k),
  shift_suc q k,
  pow-suc 2 k,
  bit_or-low k (lo / 2) q (omega (arith, pow-suc 2 k)),
)

-- `(q << k) | lo`
pub bit_or-high : (k q lo : ℕ) → lo < 2 ^ k → bit_or (q <<< k) lo ≡ q * 2 ^ k + lo
bit_or-high k q lo fits = omega (arith, bit_or-low k lo q fits, bit_or_comm (q * 2 ^ k) lo)

and-zero_within : (n a : ℕ) → a ≤ n → bit_and a 0 ≡ 0
and-zero_within n zero h = Digit.zero-bit_and 0
and-zero_within zero (suc a) h = absurd (omega arith)
and-zero_within (suc n) (suc a) h =
    omega (arith, and-digit (suc a) 0, and-zero_within n (suc a / 2) (omega arith))

pub bit_and-zero : (a : ℕ) → bit_and a 0 ≡ 0
bit_and-zero a = and-zero_within a a (omega arith)

half_mask : (k : ℕ) → (2 ^ suc k - 1) / 2 ≡ 2 ^ k - 1
half_mask k = omega (arith, pow-suc 2 k, one-le-pow k 2)

half_pow : (k : ℕ) → 2 ^ suc k / 2 ≡ 2 ^ k
half_pow k = omega (arith, pow-suc 2 k)

div-pow_suc : (a k : ℕ) → a / 2 ^ suc k ≡ a / 2 / 2 ^ k
div-pow_suc a k = rw (pow-suc, mul_comm (2 ^ k) 2) (sym (div-div-eq-div-mul a 2 (2 ^ k)))

pub mod-pow_suc : (a k : ℕ) → a % 2 ^ suc k ≡ a / 2 % 2 ^ k * 2 + a % 2
mod-pow_suc a k = omega (
  arith,
  div-pow_suc a k,
  shift_suc (a / 2 ^ suc k) k,
  ap (λ (t : ℕ). t * 2 ^ k) (div-pow_suc a k),
  div-add-mod a (2 ^ suc k),
  div-add-mod (a / 2) (2 ^ k),
)

-- `a & ((1 << k) - 1)` is the remainder by `2 ^ k`
pub bit_and-low_mask : (k a : ℕ) → bit_and a (2 ^ k - 1) ≡ a % 2 ^ k
bit_and-low_mask zero a = omega (arith, bit_and-zero a)
bit_and-low_mask (suc k) a = omega (
  arith,
  and-digit a (2 ^ suc k - 1),
  pow-suc 2 k,
  one-le-pow k 2,
  ap (bit_and (a / 2)) (half_mask k),
  bit_and-low_mask k (a / 2),
  mod-pow_suc a k,
)

-- `a & (1 << k)` keeps the one bit
pub bit_and-flag : (k a : ℕ) → bit_and a (2 ^ k) ≡ a / 2 ^ k % 2 * 2 ^ k
bit_and-flag zero a = omega (arith, and-digit a 1, bit_and-zero (a / 2))
bit_and-flag (suc k) a = omega (
  arith,
  and-digit a (2 ^ suc k),
  ap (bit_and (a / 2)) (half_pow k),
  half_pow k,
  pow-suc 2 k,
  bit_and-flag k (a / 2),
  shift_suc (a / 2 ^ suc k % 2) k,
  ap (λ (t : ℕ). t % 2 * 2 ^ k) (div-pow_suc a k),
)
