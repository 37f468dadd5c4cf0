-- ===== src/Dap/Process/Reply.antt =====
-- What a client of `process_command` gets: an answer, the same as over USB.
use esp32_daplink.Base.{
  ℕ, ◌+◌, ◌≤◌, ◌<◌, ◌≡◌, refl, sym, ap, ◌∙◌, true, false, List, ◌∷◌, Option, none, some, Returns,
  if_elim, le-or-lt, inl, inr, ltb, ◌==◌, if◌then◌else◌, length, get_or, take, arith,
}
use esp32_daplink.Swd.Wire.{Target}
use esp32_daplink.Dap.{Dap}
use esp32_daplink.Dap.Bounds.{handle_transfer-total}
use esp32_daplink.Dap.Misc.{Levels, Probe}
use esp32_daplink.Dap.Transfer.{handle_transfer}
use esp32_daplink.Dap.Process.{
  Session, deliver, on_dap, dispatch, on_vendor_data, process_command, tud_vendor_rx_cb,
}

handle_transfer-short :
    (target : Target) (fuel : ℕ) (buffer : List ℕ) (d : Dap)
    → length buffer < 3
    → Returns (handle_transfer target fuel buffer d)
unfolding handle_transfer
handle_transfer-short target fuel buffer d short =
    if_elim Returns (ltb (length buffer) 3) (some _) _ (λ _. (_, refl))
      (λ long. absurd (ground (arith, long)))

-- A DAP_Transfer that is too short is answered at once.
handle_transfer-Returns :
    (target : Target) (fuel : ℕ) (buffer : List ℕ) (d : Dap)
    → get_or buffer 2 0 < 256
    → d.match_retry < 0xFFFF
    → d.match_retry + 2 ≤ fuel
    → Returns (handle_transfer target fuel buffer d)
handle_transfer-Returns target fuel buffer d small no_wrap rounds =
    elim (le-or-lt 3 (length buffer)) [
      | inl long ↦
          let r = handle_transfer-total target fuel buffer d long small no_wrap rounds in (r.0, r.1)
      | inr short ↦ handle_transfer-short target fuel buffer d short
    ]

module _ (levels : Levels) (target : Target) (cpu_mhz fuel : ℕ) where
  dispatch-Returns :
      (command : ℕ) (buffer : List ℕ) (p : Probe)
      → get_or buffer 2 0 < 256
      → p.dap.match_retry < 0xFFFF
      → p.dap.match_retry + 2 ≤ fuel
      → Returns (dispatch levels target cpu_mhz fuel command buffer p)
  unfolding dispatch
  dispatch-Returns command buffer p small no_wrap rounds =
      let (r, ends) = handle_transfer-Returns target fuel buffer p.dap small no_wrap rounds in
      let after = λ (o : Option (List ℕ × Dap)). elim o as (λ _. Option (List ℕ × Probe)) [
        | none ↦ none
        | some r ↦ on_dap p r
      ] in
      if_elim Returns (command == 0x00) (some _) _ (λ _. (_, refl))
        (λ _.
          if_elim Returns (command == 0x01) (some _) _ (λ _. (_, refl))
            (λ _.
              if_elim Returns (command == 0x04) (some _) _ (λ _. (_, refl))
                (λ _.
                  if_elim Returns (command == 0x13) (some _) _ (λ _. (_, refl))
                    (λ _.
                      if_elim Returns (command == 0x10) (some _) _ (λ _. (_, refl))
                        (λ _.
                          if_elim Returns (command == 0x0A) (some _) _ (λ _. (_, refl))
                            (λ _.
                              if_elim Returns (command == 0x07) (some _) _ (λ _. (_, refl))
                                (λ _.
                                  if_elim Returns (command == 0x08) (some _) _ (λ _. (_, refl))
                                    (λ _.
                                      if_elim Returns (command == 0x02) (some _) _ (λ _. (_, refl))
                                        (λ _.
                                          if_elim Returns (command == 0x03) (some _) _
                                            (λ _. (_, refl))
                                            (λ _.
                                              if_elim Returns (command == 0x09) (some _) _
                                                (λ _. (_, refl))
                                                (λ _.
                                                  if_elim Returns (command == 0x11) (some _) _
                                                    (λ _. (_, refl))
                                                    (λ _.
                                                      if_elim Returns (command == 0x12) (some _) _
                                                        (λ _. (_, refl))
                                                        (λ _.
                                                          if_elim Returns (command == 0x05)
                                                            (after (
                                                            handle_transfer target fuel buffer
                                                            p.dap))
                                                            _ (λ _. (_, ap after ends))
                                                            (λ _.
                                                            if_elim Returns (command == 0x06)
                                                            (some _) (some _) (λ _. (_, refl))
                                                            (λ _. (_, refl))))))))))))))))

  -- A command whose bytes are bytes is answered over WiFi with what it is answered with over USB,
  -- as far as the caller has room; nothing is sent over USB, and the state after it is the same.
  pub process_command-Answers :
      (now output_max command : ℕ) (rest : List ℕ) (s : Session)
      → get_or (command ∷ rest) 2 0 < 256
      → s.probe.dap.match_retry < 0xFFFF
      → s.probe.dap.match_retry + 2 ≤ fuel
      → s.suppress_usb_send ≡ false
      → (reply : List ℕ) × (p : Probe) × (process_command levels target cpu_mhz fuel now
            (command ∷ rest)
            output_max
            s
          ≡ some (
            take output_max reply,
            record s { probe = p; last_response = reply; last_activity_tick = now },
          ))
        × (tud_vendor_rx_cb levels target cpu_mhz fuel now (command ∷ rest) s
            ≡ some (record s {
              probe = p;
              last_response = reply;
              last_activity_tick = now;
              usb = reply ∷ s.usb;
            }))
  unfolding process_command on_vendor_data tud_vendor_rx_cb deliver
  process_command-Answers now output_max command rest s small no_wrap rounds quiet =
      let (r, ends) = dispatch-Returns command (command ∷ rest) s.probe small no_wrap rounds in
      (
        r.0,
        r.1,
        ap
              (λ (o : Option (List ℕ × Probe)).
                elim (elim o as (λ _. Option Session) [
                  | none ↦ none
                  | some x ↦ some (
                      deliver x.0 (record s {
                        probe = x.1;
                        last_activity_tick = now;
                        suppress_usb_send = true;
                      }))
                ])
                  as (λ _. Option (List ℕ × Session)) [
                    | none ↦ none
                    | some t ↦
                        some
                          (take output_max t.last_response, record t { suppress_usb_send = false })
                  ])
              ends
            ∙ ap
                (λ b. some (
                  take output_max r.0,
                  record s {
                    probe = r.1;
                    last_response = r.0;
                    last_activity_tick = now;
                    suppress_usb_send = b;
                  },
                ))
                (sym quiet),
        ap
              (λ (o : Option (List ℕ × Probe)). elim o as (λ _. Option Session) [
                | none ↦ none
                | some x ↦ some (deliver x.0 (record s { probe = x.1; last_activity_tick = now }))
              ])
              ends
            ∙ ap
                (λ b. some (
                  if b
                  then record s { probe = r.1; last_response = r.0; last_activity_tick = now }
                  else record s {
                    probe = r.1;
                    last_response = r.0;
                    last_activity_tick = now;
                    usb = r.0 ∷ s.usb;
                  }))
                quiet,
      )
