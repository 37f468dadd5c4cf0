-- ===== src/Base/Bits/Split.antt =====
-- `&` and `|` of numbers that are cut at one place: each part by itself.
use mathlib.Core.Path.{◌≡◌, ap, ap₂, ◌∙◌}
use Prim.Native.Nat.{◌%◌, ℕ, zero, suc, ◌+◌, ◌-◌, ◌*◌, ◌/◌, ◌^◌, ◌<◌, bit_and, bit_or}
use native.Mathlib.Nat.{pow-suc, one-le-pow, mod-eq_of_lt}
use native.Mathlib.Omega.{arith}
use esp32_daplink.Base.Bits.{
  or-digit, and-digit, bit_and-zero, bit_or_comm, zero-bit_or, bit_or-high, bit_and-low_mask,
}
use esp32_daplink.Base.Words.{◌<<<◌}

shift_two : (q k : ℕ) → q * 2 ^ suc k ≡ 2 * (q * 2 ^ k)
shift_two q k = omega (arith, ap (λ (t : ℕ). q * t) (pow-suc 2 k))

half_sum : (lo q k : ℕ) → (lo + q * 2 ^ suc k) / 2 ≡ lo / 2 + q * 2 ^ k
half_sum lo q k = omega (arith, shift_two q k)

pub bit_and-split :
    (k lo q m n : ℕ)
    → lo < 2 ^ k
    → m < 2 ^ k
    → bit_and (lo + q * 2 ^ k) (m + n * 2 ^ k) ≡ bit_and lo m + bit_and q n * 2 ^ k
bit_and-split zero zero q zero n h g = ground (arith, bit_and-zero 0)
bit_and-split zero zero q (suc m) n h g = absurd (omega arith)
bit_and-split zero (suc lo) q m n h g = absurd (omega arith)
bit_and-split (suc k) lo q m n h g = ground (
  arith,
  and-digit (lo + q * 2 ^ suc k) (m + n * 2 ^ suc k),
  and-digit lo m,
  half_sum lo q k,
  half_sum m n k,
  shift_two q k,
  shift_two n k,
  shift_two (bit_and q n) k,
  pow-suc 2 k,
  bit_and-split k (lo / 2) q (m / 2) n (omega (arith, pow-suc 2 k)) (omega (arith, pow-suc 2 k)),
)

pub bit_or-split :
    (k lo q m n : ℕ)
    → lo < 2 ^ k
    → m < 2 ^ k
    → bit_or (lo + q * 2 ^ k) (m + n * 2 ^ k) ≡ bit_or lo m + bit_or q n * 2 ^ k
bit_or-split zero zero q zero n h g = ground (arith, or-digit 0 0)
bit_or-split zero zero q (suc m) n h g = absurd (omega arith)
bit_or-split zero (suc lo) q m n h g = absurd (omega arith)
bit_or-split (suc k) lo q m n h g = ground (
  arith,
  or-digit (lo + q * 2 ^ suc k) (m + n * 2 ^ suc k),
  or-digit lo m,
  half_sum lo q k,
  half_sum m n k,
  shift_two q k,
  shift_two n k,
  shift_two (bit_or q n) k,
  pow-suc 2 k,
  bit_or-split k (lo / 2) q (m / 2) n (omega (arith, pow-suc 2 k)) (omega (arith, pow-suc 2 k)),
)

or-zero : (a : ℕ) → bit_or a 0 ≡ a
or-zero a = bit_or_comm a 0 ∙ zero-bit_or a

shifted : (k byte : ℕ) → byte <<< k ≡ 0 + byte * 2 ^ k
shifted k byte = omega arith

-- A byte put in the place of a byte 0xFF, below ones: `(word & ~(0xFF << k)) | (byte << k)`.
pub put_over :
    (k lo h byte : ℕ)
    → lo < 2 ^ k
    → byte < 256
    → bit_and (h * 256 + 255) (h * 256) ≡ h * 256
    → bit_or (bit_and (lo + (h * 256 + 255) * 2 ^ k) (2 ^ k - 1 + h * 256 * 2 ^ k)) (byte <<< k)
      ≡ lo + (h * 256 + byte) * 2 ^ k
put_over k lo h byte small fits both =
    let cut : bit_and (lo + (h * 256 + 255) * 2 ^ k) (2 ^ k - 1 + h * 256 * 2 ^ k)
        ≡ lo + h * 256 * 2 ^ k =
      bit_and-split k lo (h * 256 + 255) (2 ^ k - 1) (h * 256) small (omega (arith, one-le-pow k 2))
      ∙ ap₂ (λ (a b : ℕ). a + b * 2 ^ k) (bit_and-low_mask k lo ∙ mod-eq_of_lt small) both in
    ap₂ bit_or cut (shifted k byte)
    ∙ bit_or-split k lo (h * 256) 0 byte small (omega (arith, one-le-pow k 2))
    ∙ ap₂ (λ (a b : ℕ). a + b * 2 ^ k) (or-zero lo) (bit_or-high 8 h byte fits)

-- `x & ~3U`
pub clear_two : (x : ℕ) → x < 2 ^ 32 → bit_and x (2 ^ 32 - 4) ≡ x - x % 4
clear_two x fits =
    let cut : x ≡ x % 4 + x / 4 * 2 ^ 2 = omega arith in
    ap (λ y. bit_and y (2 ^ 32 - 4)) cut
    ∙ bit_and-split 2 (x % 4) (x / 4) 0 (2 ^ 30 - 1) (omega arith) (omega arith)
    ∙ omega (arith, bit_and-zero (x % 4), bit_and-low_mask 30 (x / 4))
