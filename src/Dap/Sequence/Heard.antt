-- ===== src/Dap/Sequence/Heard.antt =====
-- The bits that a listener on the line takes from DAP_SWJ_Sequence.
use mathlib.Core.List.{append_assoc, append-nil}
use esp32_daplink.Base.{
  ℕ, zero, suc, ◌+◌, ◌-◌, ◌≤◌, ◌<◌, ◌≡◌, refl, ap, sym, ◌∙◌, Bool, true, false, List, [], ◌∷◌, ◌++◌,
  ltb, ◌==◌, length, get_or, drop, take, arith,
}
use esp32_daplink.Base.Bits.Parity.{bit}
use esp32_daplink.Swd.Wire.{Swd, emit, set_swd_out, clk_low, clk_high, drive}
use esp32_daplink.Swd.Words.{Listener, listen, bits_from}
use esp32_daplink.Dap.{Dap, clear_response}
use esp32_daplink.Dap.Sequence.{sequence_count, sequence_bits, sequence_bytes, handle_swj_sequence}

-- the bits of the bytes, each lowest first
abbrev pub bits_of : List ℕ → List Bool
bits_of [] = []
bits_of (b ∷ bytes) = bits_from b 0 8 ++ bits_of bytes

abbrev pub hear_all : Swd → Listener → List Bool
hear_all s l = (listen s.trace l).heard

abbrev clocked : Bool → Swd → Swd
clocked level s = emit clk_high (emit clk_low (set_swd_out level s))

clocked_lem :
    (level : Bool) (s : Swd) (l : Listener)
    → hear_all (clocked level s) l ≡ hear_all s l ++ (level ∷ [])
clocked_lem true s l = refl
clocked_lem false s l = refl

take-none : (n : ℕ) (bits : List Bool) → n ≡ 0 → take n bits ≡ []
take-none zero bits e = refl
take-none (suc n) bits e = absurd (omega arith)

take-empty : (n : ℕ) → take {A = Bool} n [] ≡ []
take-empty zero = refl
take-empty (suc n) = refl

length-bits_from : (v i n : ℕ) → length (bits_from v i n) ≡ n
length-bits_from v i zero = refl
length-bits_from v i (suc n) = ap suc (length-bits_from v (i + 1) n)

take-append : (n : ℕ) (xs ys : List Bool) → take n (xs ++ ys) ≡ take n xs ++ take (n - length xs) ys
take-append n [] ys =
    let same : n ≡ n - 0 = omega arith in rw (take-empty n) (ap (λ (m : ℕ). take m ys) same)
take-append zero (x ∷ xs) ys = sym (take-none _ ys (omega arith))
take-append (suc n) (x ∷ xs) ys =
    let same : suc n - suc (length xs) ≡ n - length xs = omega arith in
    rw same (ap (λ t. x ∷ t) (take-append n xs ys))

-- One byte: the bits that are still to go, and how many are then.
sequence_bits-heard :
    (count v i n k m : ℕ) (s : Swd) (l : Listener)
    → m ≡ count - k
    → (hear_all (sequence_bits count v i n k s).1 l ≡ hear_all s l ++ take m (bits_from v i n))
      × (count - (sequence_bits count v i n k s).0 ≡ m - n)
unfolding sequence_bits
sequence_bits-heard count v i zero k m s l e =
    (sym (append-nil _) ∙ ap (λ t. hear_all s l ++ t) (sym (take-empty m)), omega arith)
sequence_bits-heard count v i (suc n) k zero s l e =
    let past : ltb k count ≡ false = ground arith in rw past (sym (append-nil _), omega arith)
sequence_bits-heard count v i (suc n) k (suc m) s l e =
    let more : ltb k count ≡ true = ground arith in
    let level = bit v i == 1 in
    let rest = sequence_bits-heard count v (i + 1) n (k + 1) m (clocked level s) l (omega arith) in
    rw more (
      rest.0
          ∙ ap (λ t. t ++ take m (bits_from v (i + 1) n)) (clocked_lem level s l)
          ∙ append_assoc (hear_all s l) (level ∷ []) (take m (bits_from v (i + 1) n)),
      omega (arith, rest.1),
    )

-- All bytes.
sequence_bytes-heard :
    (count : ℕ) (bytes : List ℕ) (k m : ℕ) (s : Swd) (l : Listener)
    → m ≡ count - k
    → hear_all (sequence_bytes count bytes k s) l ≡ hear_all s l ++ take m (bits_of bytes)
unfolding sequence_bytes
sequence_bytes-heard count [] k m s l e =
    sym (append-nil _) ∙ ap (λ t. hear_all s l ++ t) (sym (take-empty m))
sequence_bytes-heard count (v ∷ bytes) k zero s l e =
    let past : ltb k count ≡ false = ground arith in rw past (sym (append-nil _))
sequence_bytes-heard count (v ∷ bytes) k (suc m) s l e =
    let more : ltb k count ≡ true = ground arith in
    let first = sequence_bits count v 0 8 k s in
    let byte = sequence_bits-heard count v 0 8 k (suc m) s l e in
    let left = suc m - 8 in
    rw more (
      sequence_bytes-heard count bytes first.0 left first.1 l (sym byte.1)
      ∙ ap (λ t. t ++ take left (bits_of bytes)) byte.0
      ∙ append_assoc (hear_all s l) (take (suc m) (bits_from v 0 8)) (take left (bits_of bytes))
      ∙ ap (λ t. hear_all s l ++ t) (sym (take-append (suc m) (bits_from v 0 8) (bits_of bytes))))

-- For a command with a count byte, a listener on the line takes from DAP_SWJ_Sequence exactly as many
-- bits of the data as that byte says, each byte lowest bit first, after what it had heard; a count
-- of 0, which stands for 256 in CMSIS-DAP, clocks none.
pub handle_swj_sequence-heard :
    (buffer : List ℕ) (d : Dap) (l : Listener)
    → 2 ≤ length buffer
    → get_or buffer 1 0 < 256
    → hear_all (handle_swj_sequence buffer d).1.bus l
      ≡ hear_all d.bus l ++ take (get_or buffer 1 0) (bits_of (drop 2 buffer))
unfolding handle_swj_sequence sequence_count clear_response
handle_swj_sequence-heard buffer d l long small =
    let short : ltb (length buffer) 2 ≡ false = ground arith in
    rw short (
      sequence_bytes-heard (sequence_count (get_or buffer 1 0)) (drop 2 buffer) 0
        (get_or buffer 1 0) (emit drive d.bus) l (ground arith))
