-- ===== src/Swd/Port.antt =====
-- swd.cpp: the functions of namespace `swd` that the other components call.
use esp32_daplink.Base.{ℕ, ◌*◌, ◌/◌, Bool, true, false, not, ltb, ◌==◌, if◌then◌else◌, bit_and, u32}
use esp32_daplink.Esp.{EspErr, esp_ok, invalid_arg, is_ok}
use esp32_daplink.Swd.Wire.{
  Swd, Target, TransferResult, emit, drive, set_swd_out, clock_cycles, write_bits,
}
use esp32_daplink.Swd.Transfer.{transfer}

-- `cpu_mhz` is CONFIG_ESP_DEFAULT_CPU_FREQ_MHZ, which the build sets.
unfoldable pub set_clock_hz : ℕ → ℕ → Swd → EspErr × Swd
set_clock_hz cpu_mhz hz s =
    if hz == 0
    then (invalid_arg, s)
    else let cycles = u32 (cpu_mhz * 500000 / hz) in
      (
        esp_ok,
        record s {
          clock_hz = hz;
          half_period_us = 0;
          delay_cycles = if ltb cycles 30 then 30 else cycles;
        },
      )

-- `init`, the creation of the mutex aside
unfoldable pub init : ℕ → Swd → EspErr × Swd
init cpu_mhz = set_clock_hz cpu_mhz 1000000

unfoldable pub line_reset : Swd → Swd
line_reset s = clock_cycles 60 (set_swd_out true (emit drive s))

unfoldable pub jtag_to_swd : Swd → Swd
jtag_to_swd s = write_bits 0 8 (line_reset (write_bits 0xE79E 16 (line_reset s)))

unfoldable pub connect : Swd → EspErr × Swd
connect s = (esp_ok, record s { connected = true })

unfoldable pub disconnect : Swd → EspErr × Swd
disconnect s = (esp_ok, line_reset (record s { connected = false }))

-- `if (!g_connected) connect();`
abbrev pub ensure_connected : Swd → Swd
ensure_connected s = if not s.connected then (connect s).1 else s

unfoldable pub set_transfer_config : ℕ → ℕ → Swd → Swd
set_transfer_config idle_cycles wait_retry s = record s {
  idle_cycles = idle_cycles;
  wait_retry = wait_retry;
}

unfoldable pub set_swd_config : ℕ → Bool → Swd → Swd
set_swd_config turnaround_cycles data_phase s = record s {
  turnaround = turnaround_cycles;
  data_phase = data_phase;
}

module _ (target : Target) where
  unfoldable pub read_dp : ℕ → Swd → TransferResult × Swd
  read_dp addr s = transfer target false true addr 0 (ensure_connected s)

  unfoldable pub write_dp : ℕ → ℕ → Swd → TransferResult × Swd
  write_dp addr value s = transfer target false false addr value (ensure_connected s)

  unfoldable pub raw_transfer : Bool → Bool → ℕ → ℕ → Swd → TransferResult × Swd
  raw_transfer ap read addr value s = transfer target ap read addr value (ensure_connected s)

  -- SELECT the register's bank, post the read, and fetch the result from RDBUFF.
  unfoldable pub read_ap : ℕ → Swd → TransferResult × Swd
  read_ap addr s =
      let (select, s1) = write_dp 0x08 (bit_and addr 0xF0) (ensure_connected s) in
      let (ap_read, s2) = transfer target true true addr 0 s1 in
      if not (is_ok select.error)
      then (select, s1)
      else if not (is_ok ap_read.error)
      then (ap_read, s2)
      else read_dp 0x0C s2

  unfoldable pub write_ap : ℕ → ℕ → Swd → TransferResult × Swd
  write_ap addr value s =
      let (select, s1) = write_dp 0x08 (bit_and addr 0xF0) (ensure_connected s) in
      if not (is_ok select.error) then (select, s1) else transfer target true false addr value s1
