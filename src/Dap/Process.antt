-- ===== src/Dap/Process.antt =====
-- cmsis_dap.cpp: `on_vendor_data`, its two callers `process_command` (WiFi) and `tud_vendor_rx_cb`
-- (USB), and `is_dap_busy`.
pub mod Reply
pub mod Echo
use esp32_daplink.Base.{
  ℕ, Bool, true, false, List, [], ◌∷◌, Option, none, some, ltb, ◌==◌, ◌&&◌, ◌||◌, if◌then◌else◌,
  take, sub32,
}
use esp32_daplink.Swd.Wire.{Target}
use esp32_daplink.Dap.{Dap}
use esp32_daplink.Dap.Config.{
  handle_connect, handle_disconnect, handle_swj_clock, handle_transfer_configure,
  handle_swd_configure, handle_write_abort,
}
use esp32_daplink.Dap.Info.{handle_dap_info}
use esp32_daplink.Dap.Misc.{
  handle_simple_ok, handle_delay, handle_host_status, handle_reset_target, handle_unknown,
  handle_swj_pins, Levels, Probe,
}
use esp32_daplink.Dap.Sequence.{handle_swj_sequence}
use esp32_daplink.Dap.Transfer.{handle_transfer}
use esp32_daplink.Dap.Block.{handle_transfer_block}

-- The globals of `send_response` and of the activity timer; `usb` has what is given to
-- `tud_vendor_write`, newest first.
pub record Session : Type 0 where
  pub probe : Probe
  pub last_response : List ℕ
  pub suppress_usb_send : Bool
  pub usb : List (List ℕ)
  pub last_activity_tick : ℕ

-- `send_response`, from the bytes that it takes of the buffer on.
unfoldable pub deliver : List ℕ → Session → Session
deliver reply s =
    let cached = record s { last_response = reply } in
    if s.suppress_usb_send then cached else record cached { usb = reply ∷ s.usb }

abbrev pub on_dap : Probe → List ℕ × Dap → Option (List ℕ × Probe)
on_dap p (reply, d) = some (reply, record p { dap = d })

-- `tick_2000` is `pdMS_TO_TICKS(2000)`, `now` is `xTaskGetTickCount()`.
unfoldable pub is_dap_busy : ℕ → ℕ → Session → Bool
is_dap_busy tick_2000 now s =
    s.probe.dap.connected && ltb (sub32 now s.last_activity_tick) tick_2000

module _ (levels : Levels) (target : Target) (cpu_mhz fuel : ℕ) where
  -- The switch of `on_vendor_data`; `none` is a DAP_Transfer without an end within the fuel.
  unfoldable pub dispatch : ℕ → List ℕ → Probe → Option (List ℕ × Probe)
  dispatch command buffer p =
      if command == 0x00
      then on_dap p (handle_dap_info buffer p.dap)
      else if command == 0x01
      then on_dap p (handle_host_status p.dap)
      else if command == 0x04
      then on_dap p (handle_transfer_configure buffer p.dap)
      else if command == 0x13
      then on_dap p (handle_swd_configure buffer p.dap)
      else if command == 0x10
      then some (handle_swj_pins levels target buffer p)
      else if command == 0x0A
      then on_dap p (handle_reset_target p.dap)
      else if command == 0x07
      then on_dap p (handle_simple_ok command p.dap)
      else if command == 0x08
      then on_dap p (handle_write_abort target buffer p.dap)
      else if command == 0x02
      then on_dap p (handle_connect buffer p.dap)
      else if command == 0x03
      then on_dap p (handle_disconnect p.dap)
      else if command == 0x09
      then on_dap p (handle_delay p.dap)
      else if command == 0x11
      then on_dap p (handle_swj_clock cpu_mhz buffer p.dap)
      else if command == 0x12
      then on_dap p (handle_swj_sequence buffer p.dap)
      else if command == 0x05
      then elim (handle_transfer target fuel buffer p.dap) [ none ↦ none | some r ↦ on_dap p r ]
      else if command == 0x06
      then on_dap p (handle_transfer_block target buffer p.dap)
      else on_dap p (handle_unknown command p.dap)

  unfoldable pub on_vendor_data : ℕ → List ℕ → Session → Option Session
  on_vendor_data now [] s = some (record s { last_activity_tick = now })
  on_vendor_data now (command ∷ rest) s = elim (dispatch command (command ∷ rest) s.probe) [
    | none ↦ none
    | some r ↦ some (deliver r.0 (record s { last_activity_tick = now; probe = r.1 }))
  ]

  unfoldable pub process_command : ℕ → List ℕ → ℕ → Session → Option (List ℕ × Session)
  process_command now input output_max s =
      elim (on_vendor_data now input (record s { suppress_usb_send = true })) [
        | none ↦ none
        | some t ↦ some (take output_max t.last_response, record t { suppress_usb_send = false })
      ]

  -- Up to the drain of the FIFO, which is of the USB stack.
  unfoldable pub tud_vendor_rx_cb : ℕ → List ℕ → Session → Option Session
  tud_vendor_rx_cb now [] s = some s
  tud_vendor_rx_cb now (command ∷ rest) s = on_vendor_data now (command ∷ rest) s
