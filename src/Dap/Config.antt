-- ===== src/Dap/Config.antt =====
-- cmsis_dap.cpp: the handlers that set the port up, DAP_Connect, DAP_Disconnect, DAP_SWJ_Clock,
-- DAP_TransferConfigure, DAP_SWD_Configure, and DAP_WriteABORT of `on_vendor_data`.
pub mod Effects
use esp32_daplink.Base.{
  ℕ, ◌+◌, Bool, true, false, not, ◌&&◌, ◌||◌, List, ltb, ◌==◌, if◌then◌else◌, length, get_or,
  bit_and, bit_or, u8, u16, ◌<<<◌, test_bit,
}
use esp32_daplink.Esp.{is_ok}
use esp32_daplink.Swd.Wire.{Swd, Target, ack_ok, ack_fault}
use esp32_daplink.Swd.Transfer.{write_abort}
use esp32_daplink.Swd.Port.{connect, disconnect, set_clock_hz, set_transfer_config, set_swd_config}
use esp32_daplink.Dap.{Dap, put, clear_response, get_u32_le, send_response}

-- what a handler of a two-byte response ends with
abbrev pub reply_two : ℕ → Dap → List ℕ × Dap
reply_two status d = let d' = put 1 status d in (send_response 2 d', d')

unfoldable pub handle_connect : List ℕ → Dap → List ℕ × Dap
handle_connect buffer d0 =
    let d = clear_response 0x02 d0 in
    let port = if ltb (length buffer) 2 then 0x01 else get_or buffer 1 0 in
    let (error, bus) = connect d.bus in
    let d' = record d { bus = bus } in
    if not (port == 0x01) && not (port == 0x00)
    then reply_two 0x00 d
    else if is_ok error
    then reply_two 0x01 (record d' { connected = true })
    else (send_response 2 d', d')

unfoldable pub handle_disconnect : Dap → List ℕ × Dap
handle_disconnect d0 =
    let d = clear_response 0x03 (record d0 {
      stat_xfer = 0;
      stat_block = 0;
      stat_fault = 0;
      stat_mismatch = 0;
      stat_ap_read = 0;
      stat_ap_write = 0;
    }) in
    reply_two 0 (record d { connected = false; bus = (disconnect d.bus).1 })

-- `cpu_mhz` as in `set_clock_hz`
unfoldable pub handle_swj_clock : ℕ → List ℕ → Dap → List ℕ × Dap
handle_swj_clock cpu_mhz buffer d0 =
    let d = clear_response 0x11 d0 in
    let hz = get_u32_le buffer 1 in
    let (error, bus) = set_clock_hz cpu_mhz (if hz == 0 then 1000000 else hz) d.bus in
    reply_two (if is_ok error then 0 else 0xFF) (record d { bus = bus })

unfoldable pub handle_transfer_configure : List ℕ → Dap → List ℕ × Dap
handle_transfer_configure buffer d0 =
    let d = clear_response 0x04 d0 in
    let idle = get_or buffer 1 0 in
    let wait = u16 (bit_or (get_or buffer 2 0) (get_or buffer 3 0 <<< 8)) in
    let match_retry = u16 (bit_or (get_or buffer 4 0) (get_or buffer 5 0 <<< 8)) in
    let configured = record d {
      idle_cycles = idle;
      wait_retry = wait;
      match_retry = match_retry;
      bus = set_transfer_config idle wait d.bus;
    } in
    if ltb (length buffer) 6 then reply_two 0 d else reply_two 0 configured

unfoldable pub handle_swd_configure : List ℕ → Dap → List ℕ × Dap
handle_swd_configure buffer d0 =
    let d = clear_response 0x13 d0 in
    let config = get_or buffer 1 0 in
    let bus = set_swd_config (u8 (bit_and config 0x03 + 1)) (test_bit config 2) d.bus in
    if ltb (length buffer) 2 then reply_two 0 d else reply_two 0 (record d { bus = bus })

-- The case `kCmdWriteAbort`.
unfoldable pub handle_write_abort : Target → List ℕ → Dap → List ℕ × Dap
handle_write_abort target buffer d0 =
    let d = clear_response 0x08 d0 in
    let (r, bus) = write_abort target (get_u32_le buffer 2) d.bus in
    if ltb (length buffer) 6
    then reply_two 0xFF d
    else reply_two (if (r.ack == ack_ok) || (r.ack == ack_fault) then 0x00 else 0xFF)
        (record d { bus = bus })
