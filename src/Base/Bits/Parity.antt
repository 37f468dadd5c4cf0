-- ===== src/Base/Bits/Parity.antt =====
-- The number of ones of a word, and what folding a word onto itself by `^` does to its parity.
use mathlib.Core.Path.{◌≡◌, refl, ap, sym, ◌∙◌}
use Prim.Native.Nat.{ℕ, zero, suc, ◌+◌, ◌*◌, ◌/◌, ◌%◌, ◌^◌, bit_xor}
use native.Mathlib.Nat.{pow-suc, div-div-eq-div-mul, mul_comm}
use native.Mathlib.Omega.{arith}
use esp32_daplink.Base.Bits.Digit.{xor-digit}

-- the bit at place `i`
abbrev pub bit : ℕ → ℕ → ℕ
bit v i = v / 2 ^ i % 2

-- how many of the `n` bits from place `i` are set
unfoldable pub ones_from : ℕ → ℕ → ℕ → ℕ
ones_from v i zero = 0
ones_from v i (suc n) = bit v i + ones_from v (i + 1) n

-- how many of the `n` lowest bits are set
abbrev pub ones : ℕ → ℕ → ℕ
ones v n = ones_from v 0 n

div-pow_suc : (a k : ℕ) → a / 2 ^ suc k ≡ a / 2 / 2 ^ k
div-pow_suc a k = rw (pow-suc, mul_comm (2 ^ k) 2) (sym (div-div-eq-div-mul a 2 (2 ^ k)))

halved : (a b : ℕ) → bit_xor a b / 2 ≡ bit_xor (a / 2) (b / 2)
halved a b = omega (arith, xor-digit a b)

pub bit-xor : (i a b : ℕ) → bit (bit_xor a b) i ≡ (bit a i + bit b i) % 2
bit-xor zero a b = omega (arith, xor-digit a b)
bit-xor (suc i) a b =
    rw (div-pow_suc (bit_xor a b) i, div-pow_suc a i, div-pow_suc b i)
      (rw (halved a b) (bit-xor i (a / 2) (b / 2)))

two_pow-add : (k i s : ℕ) → s ≡ k + i → 2 ^ s ≡ 2 ^ k * 2 ^ i
two_pow-add zero i s e = let same : s ≡ i = omega arith in omega (arith, ap (λ (t : ℕ). 2 ^ t) same)
two_pow-add (suc k) i zero e = absurd (omega arith)
two_pow-add (suc k) i (suc s) e =
    omega
      (arith, pow-suc 2 s, ap (λ (t : ℕ). t * 2 ^ i) (pow-suc 2 k), two_pow-add k i s (omega arith))

pub bit-shift : (v k i : ℕ) → bit (v / 2 ^ k) i ≡ bit v (k + i)
bit-shift v k i =
    ap (λ (t : ℕ). t % 2)
      (div-div-eq-div-mul v (2 ^ k) (2 ^ i)
        ∙ ap (λ (t : ℕ). v / t) (sym (two_pow-add k i (k + i) refl)))

ones_from-suc : (v i n : ℕ) → ones_from v i (suc n) ≡ bit v i + ones_from v (i + 1) n
unfolding ones_from
ones_from-suc v i n = refl

ones_from-add :
    (v i m n j t : ℕ) → j ≡ i + m → t ≡ m + n → ones_from v i t ≡ ones_from v i m + ones_from v j n
unfolding ones_from
ones_from-add v i zero n j t e h =
    let start : j ≡ i = omega arith in
    let count : t ≡ n = omega arith in
    omega (arith, ap (λ (k : ℕ). ones_from v k n) start, ap (ones_from v i) count)
ones_from-add v i (suc m) n j zero e h = absurd (omega arith)
ones_from-add v i (suc m) n j (suc t) e h =
    omega (arith, ones_from-add v (i + 1) m n j t (omega arith) (omega arith))

-- `v ^ (v >> k)` has at each place the sum of the two bits that meet there.
fold-step :
    (v k i n j : ℕ)
    → j ≡ k + i
    → ones_from (bit_xor v (v / 2 ^ k)) i n % 2 ≡ (ones_from v i n + ones_from v j n) % 2
unfolding ones_from
fold-step v k i zero j e = refl
fold-step v k i (suc n) j e = omega (
  arith,
  bit-xor i v (v / 2 ^ k),
  bit-shift v k i,
  ap (bit v) e,
  fold-step v k (i + 1) n (j + 1) (omega arith),
)

-- Folding the upper half of `2 * k` bits onto the lower keeps the parity.
pub ones-fold : (v k : ℕ) → ones (bit_xor v (v / 2 ^ k)) k % 2 ≡ ones v (k + k) % 2
ones-fold v k =
    omega
      (arith, fold-step v k 0 k k (omega arith), ones_from-add v 0 k k k (k + k) (omega arith) refl)
