-- ===== src/Dap/Process/Echo.antt =====
-- The first byte of an answer is the command.
use esp32_daplink.Base.{
  ℕ, ◌≡◌, refl, ◌∙◌, true, false, not, ◌&&◌, List, Option, some, if_elim, ==_self, ltb, ◌==◌,
  if◌then◌else◌, length, get_or, arith,
}
use esp32_daplink.Esp.{is_ok}
use esp32_daplink.Swd.Wire.{Target}
use esp32_daplink.Swd.Port.{connect}
use esp32_daplink.Dap.{Dap, clear_response, send_response}
use esp32_daplink.Dap.Config.{
  handle_connect, handle_disconnect, handle_swj_clock, handle_transfer_configure,
  handle_swd_configure, handle_write_abort,
}
use esp32_daplink.Dap.Info.Sized.{handle_dap_info-IsInfo}
use esp32_daplink.Dap.Misc.{
  Levels, Probe, handle_simple_ok, handle_reset_target, handle_unknown, handle_swj_pins,
}
use esp32_daplink.Dap.Sequence.{handle_swj_sequence}
use esp32_daplink.Dap.Process.{on_dap, dispatch}

-- A reply whose first byte is the command.
pub record IsEcho {A : Type 0} (command : ℕ) (r : List ℕ × A) : Type 0 where
  pub first : get_or r.0 0 0xFF ≡ command

handle_connect-IsEcho : (buffer : List ℕ) (d : Dap) → IsEcho 0x02 (handle_connect buffer d)
unfolding handle_connect clear_response send_response
handle_connect-IsEcho buffer d =
    let port = if ltb (length buffer) 2 then 0x01 else get_or buffer 1 0 in
    if_elim (IsEcho {A = Dap} 0x02) (not (port == 0x01) && not (port == 0x00)) _ _
      (λ _. record { first = refl })
      (λ _.
        if_elim (IsEcho {A = Dap} 0x02) (is_ok (connect (clear_response 0x02 d).bus).0) _ _
          (λ _. record { first = refl }) (λ _. record { first = refl }))

handle_disconnect-IsEcho : (d : Dap) → IsEcho 0x03 (handle_disconnect d)
unfolding handle_disconnect clear_response send_response
handle_disconnect-IsEcho d = record { first = refl }

handle_swj_clock-IsEcho :
    (cpu_mhz : ℕ) (buffer : List ℕ) (d : Dap) → IsEcho 0x11 (handle_swj_clock cpu_mhz buffer d)
unfolding handle_swj_clock clear_response send_response
handle_swj_clock-IsEcho cpu_mhz buffer d = record { first = refl }

handle_transfer_configure-IsEcho :
    (buffer : List ℕ) (d : Dap) → IsEcho 0x04 (handle_transfer_configure buffer d)
unfolding handle_transfer_configure clear_response send_response
handle_transfer_configure-IsEcho buffer d =
    if_elim (IsEcho {A = Dap} 0x04) (ltb (length buffer) 6) _ _ (λ _. record { first = refl })
      (λ _. record { first = refl })

handle_swd_configure-IsEcho :
    (buffer : List ℕ) (d : Dap) → IsEcho 0x13 (handle_swd_configure buffer d)
unfolding handle_swd_configure clear_response send_response
handle_swd_configure-IsEcho buffer d =
    if_elim (IsEcho {A = Dap} 0x13) (ltb (length buffer) 2) _ _ (λ _. record { first = refl })
      (λ _. record { first = refl })

handle_write_abort-IsEcho :
    (target : Target) (buffer : List ℕ) (d : Dap) → IsEcho 0x08 (handle_write_abort target buffer d)
unfolding handle_write_abort clear_response send_response
handle_write_abort-IsEcho target buffer d =
    if_elim (IsEcho {A = Dap} 0x08) (ltb (length buffer) 6) _ _ (λ _. record { first = refl })
      (λ _. record { first = refl })

handle_swj_sequence-IsEcho :
    (buffer : List ℕ) (d : Dap) → IsEcho 0x12 (handle_swj_sequence buffer d)
unfolding handle_swj_sequence clear_response send_response
handle_swj_sequence-IsEcho buffer d =
    if_elim (IsEcho {A = Dap} 0x12) (ltb (length buffer) 2) _ _ (λ _. record { first = refl })
      (λ _. record { first = refl })

handle_swj_pins-IsEcho :
    (levels : Levels) (target : Target) (buffer : List ℕ) (p : Probe)
    → IsEcho 0x10 (handle_swj_pins levels target buffer p)
unfolding handle_swj_pins clear_response send_response
handle_swj_pins-IsEcho levels target buffer p =
    if_elim (IsEcho {A = Probe} 0x10) (ltb (length buffer) 7) _ _ (λ _. record { first = refl })
      (λ _. record { first = refl })

handle_simple_ok-IsEcho : (command : ℕ) (d : Dap) → IsEcho command (handle_simple_ok command d)
unfolding handle_simple_ok clear_response send_response
handle_simple_ok-IsEcho command d = record { first = refl }

handle_reset_target-IsEcho : (d : Dap) → IsEcho 0x0A (handle_reset_target d)
unfolding handle_reset_target clear_response send_response
handle_reset_target-IsEcho d = record { first = refl }

handle_unknown-IsEcho : (command : ℕ) (d : Dap) → IsEcho command (handle_unknown command d)
unfolding handle_unknown clear_response send_response
handle_unknown-IsEcho command d = record { first = refl }

module _ (levels : Levels) (target : Target) (cpu_mhz fuel : ℕ) where
  abbrev Answers : ℕ → Option (List ℕ × Probe) → Type 0
  Answers command o = (r : List ℕ × Probe) × (o ≡ some r) × IsEcho command r

  answered :
      (command c : ℕ) (p : Probe) (r : List ℕ × Dap)
      → (command == c) ≡ true
      → IsEcho c r
      → Answers command (on_dap p r)
  answered command c p r e h =
      ((r.0, record p { dap = r.1 }), refl, record { first = h.first ∙ ground (arith, e) })

  -- Every command but the two transfers, known or not, is answered, with its own byte first.
  pub dispatch-Answers :
      (command : ℕ) (buffer : List ℕ) (p : Probe)
      → (command == 0x05) ≡ false
      → (command == 0x06) ≡ false
      → (r : List ℕ × Probe) × (dispatch levels target cpu_mhz fuel command buffer p ≡ some r)
        × IsEcho command r
  unfolding dispatch
  dispatch-Answers command buffer p not_transfer not_block =
      let P = Answers command in
      if_elim P (command == 0x00) (on_dap p _) _
        (λ e.
          answered command 0x00 p _ e
            (record { first = (handle_dap_info-IsInfo buffer p.dap).command }))
        (λ _.
          if_elim P (command == 0x01) (on_dap p _) _
            (λ e. answered command 0x01 p _ e (handle_simple_ok-IsEcho 0x01 p.dap))
            (λ _.
              if_elim P (command == 0x04) (on_dap p _) _
                (λ e. answered command 0x04 p _ e (handle_transfer_configure-IsEcho buffer p.dap))
                (λ _.
                  if_elim P (command == 0x13) (on_dap p _) _
                    (λ e. answered command 0x13 p _ e (handle_swd_configure-IsEcho buffer p.dap))
                    (λ _.
                      if_elim P (command == 0x10) (some _) _
                        (λ e. (
                          _,
                          refl,
                          record {
                            first =
                                (handle_swj_pins-IsEcho levels target buffer p).first
                                ∙ ground (arith, e);
                          },
                        ))
                        (λ _.
                          if_elim P (command == 0x0A) (on_dap p _) _
                            (λ e. answered command 0x0A p _ e (handle_reset_target-IsEcho p.dap))
                            (λ _.
                              if_elim P (command == 0x07) (on_dap p _) _
                                (λ e.
                                  answered command command p _ (==_self command)
                                    (handle_simple_ok-IsEcho command p.dap))
                                (λ _.
                                  if_elim P (command == 0x08) (on_dap p _) _
                                    (λ e.
                                      answered command 0x08 p _ e
                                        (handle_write_abort-IsEcho target buffer p.dap))
                                    (λ _.
                                      if_elim P (command == 0x02) (on_dap p _) _
                                        (λ e.
                                          answered command 0x02 p _ e
                                            (handle_connect-IsEcho buffer p.dap))
                                        (λ _.
                                          if_elim P (command == 0x03) (on_dap p _) _
                                            (λ e.
                                              answered command 0x03 p _ e
                                                (handle_disconnect-IsEcho p.dap))
                                            (λ _.
                                              if_elim P (command == 0x09) (on_dap p _) _
                                                (λ e.
                                                  answered command 0x09 p _ e
                                                    (handle_simple_ok-IsEcho 0x09 p.dap))
                                                (λ _.
                                                  if_elim P (command == 0x11) (on_dap p _) _
                                                    (λ e. answered command 0x11 p _ e (
                                                      handle_swj_clock-IsEcho cpu_mhz buffer p.dap))
                                                    (λ _.
                                                      if_elim P (command == 0x12) (on_dap p _) _
                                                        (λ e.
                                                          answered command 0x12 p _ e (
                                                            handle_swj_sequence-IsEcho buffer
                                                            p.dap))
                                                        (λ _.
                                                          if_elim P (command == 0x05) _ _ (λ e. cc)
                                                            (λ _.
                                                            if_elim P (command == 0x06) (on_dap p _)
                                                            (on_dap p _) (λ e. cc)
                                                            (λ _.
                                                            answered command command p _
                                                            (==_self command)
                                                            (handle_unknown-IsEcho command
                                                            p.dap))))))))))))))))
