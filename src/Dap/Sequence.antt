-- ===== src/Dap/Sequence.antt =====
-- cmsis_dap.cpp: `handle_swj_sequence` (DAP_SWJ_Sequence), which clocks bits out by the GPIO driver.
pub mod Heard
use esp32_daplink.Base.{
  ℕ, zero, suc, ◌+◌, ◌%◌, Bool, true, false, not, List, [], ◌∷◌, ltb, ◌==◌, if◌then◌else◌, length,
  get_or, drop, u8, ◌>>>◌,
}
use esp32_daplink.Swd.Wire.{Swd, emit, set_swd_out, clk_low, clk_high, drive}
use esp32_daplink.Dap.{Dap, put, clear_response, send_response}

-- `const uint8_t count = buffer[1] == 0 ? 256 : buffer[1]`
unfoldable pub sequence_count : ℕ → ℕ
sequence_count b = u8 (if b == 0 then 256 else b)

-- The loop over the bits of a byte, from place `bit` on and with `left` places to go: the new
-- `bit_index`, and the port.
unfoldable pub sequence_bits : ℕ → ℕ → ℕ → ℕ → ℕ → Swd → ℕ × Swd
sequence_bits count value bit zero bit_index s = (bit_index, s)
sequence_bits count value bit (suc left) bit_index s =
    let clocked = emit clk_high (emit clk_low (set_swd_out ((value >>> bit) % 2 == 1) s)) in
    let rest = sequence_bits count value (bit + 1) left (bit_index + 1) clocked in
    if ltb bit_index count then rest else (bit_index, s)

-- The loop over the bytes.
unfoldable pub sequence_bytes : ℕ → List ℕ → ℕ → Swd → Swd
sequence_bytes count [] bit_index s = s
sequence_bytes count (value ∷ bytes) bit_index s =
    let (bit_index', s') = sequence_bits count value 0 8 bit_index s in
    let rest = sequence_bytes count bytes bit_index' s' in if ltb bit_index count then rest else s

unfoldable pub handle_swj_sequence : List ℕ → Dap → List ℕ × Dap
handle_swj_sequence buffer d0 =
    let d = put 1 0 (clear_response 0x12 d0) in
    let bus =
      sequence_bytes (sequence_count (get_or buffer 1 0)) (drop 2 buffer) 0 (emit drive d.bus) in
    if ltb (length buffer) 2
    then (send_response 2 d, d)
    else (send_response 2 d, record d { bus = bus })
