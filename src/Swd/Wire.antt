-- ===== src/Swd/Wire.antt =====
-- swd.cpp up to the data phases: the state, the pins, `write_bits`, `read_bits`, `parity32`,
-- `make_request` and the parts that `transfer` and `write_abort` share.
use esp32_daplink.Base.{
  ℕ, zero, suc, ◌+◌, ◌%◌, bit_and, bit_or, bit_xor, Bool, true, false, List, [], ◌∷◌, ltb, ◌==◌,
  if◌then◌else◌, u8, ◌<<<◌, ◌>>>◌,
}
use esp32_daplink.Esp.{EspErr, EspErr}

-- One write to a GPIO set or clear register: the clock, the data output, and its driver.
pub data Pin : Type 0 where
  clk_low clk_high out_low out_high drive release : Pin

-- newest first
abbrev pub Trace : Type 0
Trace = List Pin

-- `GPIO.in` at the SWDIO input
abbrev pub Target : Type 0
Target = Trace → Bool

-- the file's globals, and the pins
pub record Swd : Type 0 where
  pub clock_hz : ℕ
  pub half_period_us : ℕ
  pub delay_cycles : ℕ
  pub connected : Bool
  pub turnaround : ℕ
  pub data_phase : Bool
  pub idle_cycles : ℕ
  pub wait_retry : ℕ
  pub trace : Trace

pub record TransferResult : Type 0 where
  pub error : EspErr
  pub ack : ℕ
  pub value : ℕ

abbrev pub ack_ok : ℕ
ack_ok = 0x1

abbrev pub ack_wait : ℕ
ack_wait = 0x2

abbrev pub ack_fault : ℕ
ack_fault = 0x4

-- the initial values of the globals
unfoldable pub initial : Swd
initial = record {
  clock_hz = 1000000;
  half_period_us = 0;
  delay_cycles = 0;
  connected = false;
  turnaround = 1;
  data_phase = false;
  idle_cycles = 8;
  wait_retry = 100;
  trace = [];
}

abbrev pub emit : Pin → Swd → Swd
emit p s = record s { trace = p ∷ s.trace }

-- `set_swd_out`
abbrev pub set_swd_out : Bool → Swd → Swd
set_swd_out level = emit (if level then out_high else out_low)

unfoldable pub clock_cycle : Swd → Swd
clock_cycle s = emit clk_high (emit clk_low s)

-- `for (n = 0; n < count; n++) clock_cycle();`
unfoldable pub clock_cycles : ℕ → Swd → Swd
clock_cycles zero s = s
clock_cycles (suc n) s = clock_cycles n (clock_cycle s)

-- The loop of `write_bits` from place `bit` on, with `left` bits to go.
unfoldable pub write_bits_from : ℕ → ℕ → ℕ → Swd → Swd
write_bits_from value bit zero s = s
write_bits_from value bit (suc left) s =
    write_bits_from value (bit + 1) left
      (emit clk_high (emit clk_low (set_swd_out ((value >>> bit) % 2 == 1) s)))

unfoldable pub write_bits : ℕ → ℕ → Swd → Swd
write_bits value count = write_bits_from value 0 count

unfoldable pub parity32 : ℕ → ℕ
parity32 v =
    let v1 = bit_xor v (v >>> 16) in
    let v2 = bit_xor v1 (v1 >>> 8) in
    let v3 = bit_xor v2 (v2 >>> 4) in
    let v4 = bit_xor v3 (v3 >>> 2) in let v5 = bit_xor v4 (v4 >>> 1) in bit_and v5 1

abbrev pub digit : Bool → ℕ
digit b = if b then 1 else 0

-- The eight fields of the request, or-ed together.
unfoldable pub request_byte : Bool → Bool → ℕ → ℕ → ℕ
request_byte ap read a2 a3 =
    let parity = bit_and (bit_xor (bit_xor (bit_xor (digit ap) (digit read)) a2) a3) 1 in
    let r0 = bit_or (1 <<< 0) (digit ap <<< 1) in
    let r1 = bit_or r0 (digit read <<< 2) in
    let r2 = bit_or r1 (a2 <<< 3) in
    let r3 = bit_or r2 (a3 <<< 4) in
    let r4 = bit_or r3 (parity <<< 5) in let r5 = bit_or r4 (0 <<< 6) in u8 (bit_or r5 (1 <<< 7))

unfoldable pub make_request : Bool → Bool → ℕ → ℕ
make_request ap read addr = request_byte ap read (bit_and (addr >>> 2) 1) (bit_and (addr >>> 3) 1)

-- the idle cycles at the end of a data phase, and the line high
unfoldable pub idle : Swd → Swd
idle s =
    let rest =
      if ltb 0 s.idle_cycles then clock_cycles s.idle_cycles (set_swd_out false s) else s in
    set_swd_out true rest

-- what a write puts on the line after the acknowledge
unfoldable pub write_data : ℕ → Swd → Swd
write_data value s =
    let driven = emit drive (clock_cycle s) in
    idle (write_bits (parity32 value) 1 (write_bits value 32 driven))

-- The turnaround back to the host, and the line driven high.
unfoldable pub turn_back : Swd → Swd
turn_back s = set_swd_out true (emit drive (clock_cycles s.turnaround s))

-- After another acknowledge than OK: a dummy data phase if it is configured, then the turnaround.
unfoldable pub settle : Swd → Swd
settle s = turn_back (if s.data_phase then clock_cycles 33 s else s)

module _ (target : Target) where
  -- The loop of `read_bits`; the target is sampled while the clock is low.
  unfoldable pub read_bits_from : ℕ → ℕ → ℕ → Swd → ℕ × Swd
  read_bits_from value bit zero s = (value, s)
  read_bits_from value bit (suc left) s =
      let low = emit clk_low s in
      read_bits_from (bit_or value (digit (target low.trace) <<< bit)) (bit + 1) left
        (emit clk_high low)

  unfoldable pub read_bits : ℕ → Swd → ℕ × Swd
  read_bits count = read_bits_from 0 0 count

  -- The request, the turnaround and the three bits of the acknowledge.
  unfoldable pub request_phase : ℕ → Swd → ℕ × Swd
  request_phase request s =
      let (ack, s') =
        read_bits 3 (clock_cycle (emit release (write_bits request 8 (emit drive s)))) in
      (u8 ack, s')

  -- The inline write of 0x1E to ABORT, whatever the acknowledge.
  unfoldable pub clear_sticky : Swd → Swd
  clear_sticky s = write_data 0x1E (request_phase (make_request false false 0x00) s).1
