-- ===== src/Dap/Misc.antt =====
-- cmsis_dap.cpp: the handlers of DAP_Delay, DAP_HostStatus, DAP_TransferAbort, DAP_ResetTarget,
-- DAP_SWJ_Pins, and of the commands that are answered with their own byte.
use esp32_daplink.Base.{
  ℕ, Bool, true, false, not, List, ltb, if◌then◌else◌, length, get_or, bit_or, test_bit,
}
use esp32_daplink.Swd.Wire.{Swd, Target, Trace, emit, set_swd_out, clk_low, clk_high}
use esp32_daplink.Swd.Port.{write_dp, raw_transfer}
use esp32_daplink.Dap.{Dap, put, clear_response, send_response}
use esp32_daplink.Dap.Config.{reply_two}

-- `handle_simple_ok`; DAP_Delay, but for the delay, and DAP_HostStatus, but for the log output, do
-- the same.
unfoldable pub handle_simple_ok : ℕ → Dap → List ℕ × Dap
handle_simple_ok command d = reply_two 0 (clear_response command d)

abbrev pub handle_delay : Dap → List ℕ × Dap
handle_delay = handle_simple_ok 0x09

abbrev pub handle_host_status : Dap → List ℕ × Dap
handle_host_status = handle_simple_ok 0x01

unfoldable pub handle_reset_target : Dap → List ℕ × Dap
handle_reset_target d0 =
    let d = put 2 0 (put 1 0 (clear_response 0x0A d0)) in (send_response 3 d, d)

-- The cases that send the command back.
unfoldable pub handle_unknown : ℕ → Dap → List ℕ × Dap
handle_unknown command d0 = let d = clear_response command d0 in (send_response 1 d, d)

-- The handlers' state and the level that nRESET is driven to.
pub record Probe : Type 0 where
  pub dap : Dap
  pub nrst : Bool

-- `gpio_get_level` of SWCLK, and of nRESET, which the target may hold low too.
pub record Levels : Type 0 where
  pub swclk : Trace → Bool
  pub nreset : Bool → Trace → Bool

-- The outputs that `pin_select` names, but for nRESET.
unfoldable pub drive_pins : ℕ → ℕ → Swd → Swd
drive_pins pin_output pin_select s =
    let clocked = emit (if test_bit pin_output 0 then clk_high else clk_low) s in
    let s1 = if test_bit pin_select 0 then clocked else s in
    if test_bit pin_select 1 then set_swd_out (test_bit pin_output 1) s1 else s1

-- SELECT, TAR and DRW: SYSRESETREQ in AIRCR, the results not looked at.
unfoldable pub request_reset : Target → Swd → Swd
request_reset target s =
    let s1 = (write_dp target 0x08 0x00000000 s).1 in
    let s2 = (raw_transfer target true false 0x04 0xE000ED0C s1).1 in
    (raw_transfer target true false 0x0C 0x05FA0004 s2).1

-- nRESET: the level it is driven to, and the port.
unfoldable pub drive_nrst : Target → ℕ → ℕ → Bool × Swd → Bool × Swd
drive_nrst target pin_output pin_select (nrst, s) =
    let asserted = request_reset target s in
    if test_bit pin_select 7
    then if not (test_bit pin_output 7) then (false, asserted) else (true, s)
    else (nrst, s)

-- `pin_input`
unfoldable pub pin_input : Levels → Target → Bool → Trace → ℕ
pin_input levels target nrst trace =
    let p0 = if levels.swclk trace then bit_or 0 1 else 0 in
    let p1 = if target trace then bit_or p0 2 else p0 in
    if levels.nreset nrst trace then bit_or p1 128 else p1

unfoldable pub handle_swj_pins : Levels → Target → List ℕ → Probe → List ℕ × Probe
handle_swj_pins levels target buffer p =
    let d = clear_response 0x10 p.dap in
    let pin_output = get_or buffer 1 0 in
    let pin_select = get_or buffer 2 0 in
    let (nrst, s) =
      drive_nrst target pin_output pin_select (p.nrst, drive_pins pin_output pin_select d.bus) in
    let (reply, d1) = reply_two (pin_input levels target nrst s.trace) (record d { bus = s }) in
    let (short, d2) = reply_two 0 d in
    if ltb (length buffer) 7
    then (short, record p { dap = d2 })
    else (reply, record { dap = d1; nrst = nrst })
