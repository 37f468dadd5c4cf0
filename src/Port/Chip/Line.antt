-- ===== src/Port/Chip/Line.antt =====
-- What the chip takes from the loops of swd.cpp over the bits and the idle cycles.
use native.Mathlib.Nat.{mul_comm, div-div-eq-div-mul}
use esp32_daplink.Base.{
  ℕ, zero, suc, ◌+◌, ◌%◌, ◌≡◌, refl, ap, ◌∙◌, sym, Bool, true, false, List, [], ◌∷◌, ltb, ◌==◌,
  if◌then◌else◌, ◌>>>◌, ap₂, u32, inl, inr, arith, ◌^◌, ◌*◌, ◌/◌,
}
use esp32_daplink.Swd.Wire.{
  clk_low, clk_high, Swd, emit, set_swd_out, digit, write_bits_from, clock_cycle, clock_cycles,
  idle,
}
use esp32_daplink.Base.Bits.{mod-pow_suc}
use esp32_daplink.Esp.{esp_ok}
use esp32_daplink.Swd.Wire.{TransferResult}
use esp32_daplink.Swd.Words.{value_of, pow-add_one}
use esp32_daplink.Port.Chip.{Chip, Machine, clock, run, Quiet, chip_of}

abbrev put : Bool → Machine → Machine
put b m = clock (record m { line = b; lows = suc m.lows })

abbrev pub puts : ℕ → ℕ → ℕ → Machine → Machine
puts v i zero m = m
puts v i (suc n) m = puts v (i + 1) n (put ((v >>> i) % 2 == 1) m)

put-run :
    (b : Bool) (s : Swd)
    → run (emit clk_high (emit clk_low (set_swd_out b s))).trace ≡ put b (run s.trace)
put-run true s = refl
put-run false s = refl

pub puts-run :
    (v i n : ℕ) (s : Swd) → run (write_bits_from v i n s).trace ≡ puts v i n (run s.trace)
unfolding write_bits_from
puts-run v i zero s = refl
puts-run v i (suc n) s =
    puts-run v (i + 1) n (emit clk_high (emit clk_low (set_swd_out ((v >>> i) % 2 == 1) s)))
    ∙ ap (puts v (i + 1) n) (put-run ((v >>> i) % 2 == 1) s)

abbrev pub bits_list : ℕ → ℕ → ℕ → List Bool
bits_list v i zero = []
bits_list v i (suc n) = ((v >>> i) % 2 == 1) ∷ bits_list v (i + 1) n

digit_bit : (q : ℕ) → digit (q % 2 == 1) ≡ q % 2
digit_bit q = ground arith

value_of-bits_list : (v i n : ℕ) → value_of (bits_list v i n) ≡ v / 2 ^ i % 2 ^ n
value_of-bits_list v i zero = omega arith
value_of-bits_list v i (suc n) =
    let half : v / 2 ^ (i + 1) ≡ v / 2 ^ i / 2 =
      ap (λ (t : ℕ). v / t) (pow-add_one i ∙ mul_comm 2 (2 ^ i))
      ∙ sym (div-div-eq-div-mul v (2 ^ i) 2) in
    let next : value_of (bits_list v (i + 1) n) ≡ v / 2 ^ i / 2 % 2 ^ n =
      value_of-bits_list v (i + 1) n ∙ ap (λ (t : ℕ). t % 2 ^ n) half in
    ap₂ (λ (x y : ℕ). x + 2 * y) (digit_bit (v / 2 ^ i)) next
    ∙ last (v / 2 ^ i % 2) (v / 2 ^ i / 2 % 2 ^ n)
    ∙ sym (mod-pow_suc (v / 2 ^ i) n)
  where
    last : (x y : ℕ) → x + 2 * y ≡ y * 2 + x
    last x y = omega arith

pub value_of-bits_32 : (v : ℕ) → value_of (bits_list v 0 32) ≡ u32 v
value_of-bits_32 v = omega (arith, value_of-bits_list v 0 32)

if_same : (b : Bool) (x y : Chip) → x ≡ y → (if b then x else y) ≡ y
if_same true x y e = e
if_same false x y e = refl

clock-chip : (m : Machine) → Quiet m → (clock m).chip ≡ m.chip
unfolding Quiet
clock-chip m (inl h) = if_same (m.count == 32) _ m.chip (h _ m.chip)
clock-chip m (inr h) = let no : (m.count == 32) ≡ false = ground (arith, h) in rw no refl

clock_cycles-chip : (n : ℕ) (s : Swd) → Quiet (run s.trace) → chip_of (clock_cycles n s) ≡ chip_of s
unfolding Quiet chip_of clock_cycles clock_cycle
clock_cycles-chip zero s q = refl
clock_cycles-chip (suc n) s (inl h) =
    clock_cycles-chip n (clock_cycle s) (inl h)
    ∙ clock-chip (record (run s.trace) { lows = suc (run s.trace).lows }) (inl h)
clock_cycles-chip (suc n) s (inr h) =
    clock_cycles-chip n (clock_cycle s) (inr (omega (arith, h)))
    ∙ clock-chip (record (run s.trace) { lows = suc (run s.trace).lows }) (inr h)

idle_if :
    (b : Bool) (s : Swd)
    → Quiet (run s.trace)
    → chip_of (set_swd_out true (if b then clock_cycles s.idle_cycles (set_swd_out false s) else s))
      ≡ chip_of s
unfolding Quiet chip_of
idle_if true s q = clock_cycles-chip s.idle_cycles (set_swd_out false s) q
idle_if false s q = refl

pub idle-chip : (s : Swd) → Quiet (run s.trace) → chip_of (idle s) ≡ chip_of s
unfolding idle
idle-chip s q = idle_if (ltb 0 s.idle_cycles) s q

abbrev pub good : ℕ → TransferResult
good v = record { error = esp_ok; ack = 1; value = v }
