-- ===== src/Swd/Words.antt =====
-- What goes over the line: the words that `write_bits` puts there and that `read_bits` takes.
use mathlib.Core.List.{append_assoc, append-nil}
use native.Mathlib.Nat.{pow-suc, one-le-pow}
use native.Mathlib.Numerals.{towards_suc}
use esp32_daplink.Base.{
  ℕ, zero, suc, ◌+◌, ◌*◌, ◌^◌, ◌<◌, ◌≡◌, refl, ap, sym, ◌∙◌, Bool, true, false, List, [], ◌∷◌, ◌++◌,
  ◌==◌, bit_or, length, arith, ◌<<<◌,
}
use esp32_daplink.Base.Bits.{bit_or-low}
use esp32_daplink.Base.Bits.Parity.{bit}
use esp32_daplink.Swd.Wire.{
  Pin, clk_low, clk_high, Trace, Target, Swd, emit, set_swd_out, digit, write_bits_from, write_bits,
  read_bits_from, read_bits,
}

-- An independent listener at the target's end. It follows the level of the host's output, and takes
-- a bit at each rising clock edge; it hears the oldest event first.
pub record Listener : Type 0 where
  pub level : Bool
  pub heard : List Bool

abbrev pub hear : Pin → Listener → Listener
hear Pin.out_low l = record l { level = false }
hear Pin.out_high l = record l { level = true }
hear Pin.clk_high l = record l { heard = l.heard ++ (l.level ∷ []) }
hear _ l = l

abbrev pub listen : Trace → Listener → Listener
listen [] l = l
listen (p ∷ trace) l = hear p (listen trace l)

-- the bits of `v` from place `i` on, lowest first
abbrev pub bits_from : ℕ → ℕ → ℕ → List Bool
bits_from v i zero = []
bits_from v i (suc n) = (bit v i == 1) ∷ bits_from v (i + 1) n

-- one round of the loop
abbrev one_bit : Bool → Swd → Swd
one_bit level s = emit clk_high (emit clk_low (set_swd_out level s))

one_bit-heard :
    (level : Bool) (s : Swd) (l : Listener)
    → (listen (one_bit level s).trace l).heard ≡ (listen s.trace l).heard ++ (level ∷ [])
one_bit-heard true s l = refl
one_bit-heard false s l = refl

write_bits_from-heard :
    (v i n : ℕ) (s : Swd) (l : Listener)
    → (listen (write_bits_from v i n s).trace l).heard ≡ (listen s.trace l).heard ++ bits_from v i n
unfolding write_bits_from
write_bits_from-heard v i zero s l = sym (append-nil _)
write_bits_from-heard v i (suc n) s l =
    write_bits_from-heard v (i + 1) n (one_bit (bit v i == 1) s) l
    ∙ ap (λ t. t ++ bits_from v (i + 1) n) (one_bit-heard (bit v i == 1) s l)
    ∙ append_assoc (listen s.trace l).heard ((bit v i == 1) ∷ []) (bits_from v (i + 1) n)

-- A listener on the line takes from `write_bits` exactly the `n` lowest bits of the value, lowest
-- first, after what it had heard before; for every value, count and earlier traffic.
pub write_bits-heard :
    (v n : ℕ) (s : Swd) (l : Listener)
    → (listen (write_bits v n s).trace l).heard ≡ (listen s.trace l).heard ++ bits_from v 0 n
unfolding write_bits
write_bits-heard v n s l = write_bits_from-heard v 0 n s l

-- the number that a list of bits spells, lowest first
abbrev pub value_of : List Bool → ℕ
value_of [] = 0
value_of (b ∷ bs) = digit b + 2 * value_of bs

value_of-lt : (bs : List Bool) (n : ℕ) → length bs ≡ n → value_of bs < 2 ^ n
value_of-lt [] n e = omega (arith, one-le-pow n 2)
value_of-lt (b ∷ bs) zero e = absurd (omega arith)
value_of-lt (true ∷ bs) (suc n) e = omega (arith, pow-suc 2 n, value_of-lt bs n (omega arith))
value_of-lt (false ∷ bs) (suc n) e = omega (arith, pow-suc 2 n, value_of-lt bs n (omega arith))

pub pow-add_one : (i : ℕ) → 2 ^ (i + 1) ≡ 2 * 2 ^ i
pow-add_one i = simp towards_suc (omega (arith, pow-suc 2 i))

digit_fits : (value i : ℕ) (b : Bool) → value < 2 ^ i → bit_or value (digit b <<< i) < 2 ^ (i + 1)
digit_fits value i true h = omega (arith, bit_or-low i value 1 h, pow-add_one i)
digit_fits value i false h = omega (arith, bit_or-low i value 0 h, pow-add_one i)

-- What the target puts on the line in `n` clock cycles, lowest first.
module _ (target : Target) where
  unfoldable pub sampled : ℕ → Trace → List Bool
  sampled zero trace = []
  sampled (suc n) trace = target (clk_low ∷ trace) ∷ sampled n (clk_high ∷ clk_low ∷ trace)

  pub length-sampled : (n : ℕ) (trace : Trace) → length (sampled n trace) ≡ n
  unfolding sampled
  length-sampled zero trace = refl
  length-sampled (suc n) trace = ap suc (length-sampled n (clk_high ∷ clk_low ∷ trace))

  read_bits_from-sampled :
      (value i n : ℕ) (s : Swd)
      → value < 2 ^ i
      → (read_bits_from target value i n s).0 ≡ value + value_of (sampled n s.trace) * 2 ^ i
  unfolding read_bits_from sampled
  read_bits_from-sampled value i zero s h = omega arith
  read_bits_from-sampled value i (suc n) s h =
      let low = target (clk_low ∷ s.trace) in
      let rest = value_of (sampled n (clk_high ∷ clk_low ∷ s.trace)) in
      let next = bit_or value (digit low <<< i) in
      let small : next < 2 ^ (i + 1) = digit_fits value i low h in
      omega (
        arith,
        read_bits_from-sampled next (i + 1) n (emit clk_high (emit clk_low s)) small,
        bit_or-low i value (digit low) h,
        ap (λ (t : ℕ). rest * t) (pow-add_one i),
      )

  -- For every target, `read_bits` gives the number that the sampled levels spell, lowest bit first.
  pub read_bits-sampled :
      (n : ℕ) (s : Swd) → (read_bits target n s).0 ≡ value_of (sampled n s.trace)
  unfolding read_bits
  read_bits-sampled n s = omega (arith, read_bits_from-sampled 0 0 n s (omega arith))

  -- so an n-bit read is below 2 ^ n
  pub read_bits-lt : (n : ℕ) (s : Swd) → (read_bits target n s).0 < 2 ^ n
  read_bits-lt n s =
      rw (read_bits-sampled n s) (value_of-lt (sampled n s.trace) n (length-sampled n s.trace))
