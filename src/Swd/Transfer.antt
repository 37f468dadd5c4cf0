-- ===== src/Swd/Transfer.antt =====
-- swd.cpp: `transfer` and `write_abort`, with their retry loops.
use esp32_daplink.Base.{ℕ, zero, suc, Bool, false, not, ◌||◌, ◌==◌, if◌then◌else◌}
use esp32_daplink.Esp.{EspErr, esp_ok, esp_fail, timeout, invalid_crc, is_ok}
use esp32_daplink.Swd.Wire.{
  Swd, Target, TransferResult, ack_ok, ack_wait, ack_fault, emit, clock_cycle, drive, read_bits,
  request_phase, settle, turn_back, clear_sticky, write_data, idle, make_request, parity32,
}

-- How a retry loop ends: the last acknowledge, the error that the function returns there (`esp_ok`
-- for a `break`), and the state.
pub record Ended : Type 0 where
  pub ack : ℕ
  pub error : EspErr
  pub after : Swd

module _ (target : Target) where
  abbrev acknowledged : ℕ × Swd → Ended
  acknowledged (ack, s) = record { ack = ack; error = esp_ok; after = s }

  -- the return with an error, when nothing is left to try
  abbrev gave_up : ℕ × Swd → Ended
  gave_up (ack, s) = record {
    ack = ack;
    error = if ack == ack_wait then timeout else esp_fail;
    after = settle s;
  }

  -- The `do` loop of `transfer`, with `retries_left` and `fault_retries`. A round that tries again
  -- uses up one of the two, so the recursion is lexicographic.
  unfoldable pub transfer_loop : ℕ → ℕ → ℕ → Swd → Ended
  transfer_loop request zero zero s =
      let r = request_phase target request s in if r.0 == ack_ok then acknowledged r else gave_up r
  transfer_loop request zero (suc faults) s =
      let r = request_phase target request s in
      let after_abort = transfer_loop request zero faults (clear_sticky target (settle r.1)) in
      if r.0 == ack_ok then acknowledged r else if r.0 == ack_fault then after_abort else gave_up r
  transfer_loop request (suc retries) zero s =
      let r = request_phase target request s in
      let again = transfer_loop request retries zero (settle r.1) in
      if r.0 == ack_ok then acknowledged r else if r.0 == ack_wait then again else gave_up r
  transfer_loop request (suc retries) (suc faults) s =
      let r = request_phase target request s in
      let after_abort =
        transfer_loop request (suc retries) faults (clear_sticky target (settle r.1)) in
      let again = transfer_loop request retries (suc faults) (settle r.1) in
      if r.0 == ack_ok
      then acknowledged r
      else if r.0 == ack_fault
      then after_abort
      else if r.0 == ack_wait
      then again
      else gave_up r

  -- The data phase of a read, after an OK.
  unfoldable pub read_phase : ℕ → Swd → TransferResult × Swd
  read_phase ack s =
      let (value, s1) = read_bits target 32 s in
      let (parity, s2) = read_bits target 1 s1 in
      let s3 = idle (emit drive (clock_cycle s2)) in
      if parity == parity32 value
      then (record { error = esp_ok; ack = ack; value = value }, s3)
      else (record { error = invalid_crc; ack = ack; value = value }, s3)

  unfoldable pub transfer_end : Bool → ℕ → Ended → TransferResult × Swd
  transfer_end read write_value e =
      if not (is_ok e.error)
      then (record { error = e.error; ack = e.ack; value = 0 }, e.after)
      else if read
      then read_phase e.ack e.after
      else (
        record { error = esp_ok; ack = e.ack; value = write_value },
        write_data write_value e.after,
      )

  unfoldable pub transfer : Bool → Bool → ℕ → ℕ → Swd → TransferResult × Swd
  transfer ap read addr write_value s =
      transfer_end read write_value (transfer_loop (make_request ap read addr) s.wait_retry 1 s)

  -- The `do` loop of `write_abort`: it ends with the acknowledge, and the data phase follows in any
  -- case.
  unfoldable pub abort_loop : ℕ → ℕ → Swd → ℕ × Swd
  abort_loop request zero s =
      let r = request_phase target request s in
      if r.0 == ack_ok || r.0 == ack_fault then r else (r.0, turn_back r.1)
  abort_loop request (suc retries) s =
      let r = request_phase target request s in
      let again = abort_loop request retries (turn_back r.1) in
      if r.0 == ack_ok || r.0 == ack_fault
      then r
      else if r.0 == ack_wait
      then again
      else (r.0, turn_back r.1)

  unfoldable pub write_abort : ℕ → Swd → TransferResult × Swd
  write_abort value s =
      let (ack, s') = abort_loop (make_request false false 0x00) s.wait_retry s in
      (
        record { error = if ack == ack_ok then esp_ok else esp_fail; ack = ack; value = value },
        write_data value s',
      )
