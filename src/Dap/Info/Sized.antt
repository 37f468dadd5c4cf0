-- ===== src/Dap/Info/Sized.antt =====
-- Every reply of DAP_Info has the command, a length, and as many bytes.
use esp32_daplink.Base.{ℕ, ◌+◌, ◌≡◌, refl, List, ltb, ◌==◌, if_elim, length, get_or}
use esp32_daplink.Dap.{Dap, clear_response, put_u32_le, send_response}
use esp32_daplink.Dap.Info.{
  handle_dap_info, info_case, send_string, copy_to, send_empty, send_byte, send_timer,
  send_packet_size, vendor, product, serial, fw_version, target_vendor, target_name,
}

-- The reply as the host reads it.
pub record IsInfo (reply : List ℕ) : Type 0 where
  pub command : get_or reply 0 0xFF ≡ 0x00
  pub sized : length reply ≡ 2 + get_or reply 1 0

info_case-IsInfo : (id : ℕ) (d : Dap) → IsInfo (info_case id (clear_response 0x00 d)).0
unfolding info_case clear_response send_string copy_to send_response put_u32_le
info_case-IsInfo id d =
    let d' = clear_response 0x00 d in
    let P = λ (r : List ℕ × Dap). IsInfo r.0 in
    if_elim P (id == 0x01) (send_string vendor d') _ (λ _. record { command = refl; sized = refl })
      (λ _.
        if_elim P (id == 0x02) (send_string product d') _
          (λ _. record { command = refl; sized = refl })
          (λ _.
            if_elim P (id == 0x03) (send_string serial d') _
              (λ _. record { command = refl; sized = refl })
              (λ _.
                if_elim P (id == 0x04) (send_string fw_version d') _
                  (λ _. record { command = refl; sized = refl })
                  (λ _.
                    if_elim P (id == 0x05) (send_string target_vendor d') _
                      (λ _. record { command = refl; sized = refl })
                      (λ _.
                        if_elim P (id == 0x06) (send_string target_name d') _
                          (λ _. record { command = refl; sized = refl })
                          (λ _.
                            if_elim P (id == 0xF0) (send_byte 0x01 d') _
                              (λ _. record { command = refl; sized = refl })
                              (λ _.
                                if_elim P (id == 0xF1) (send_timer d') _
                                  (λ _. record { command = refl; sized = refl })
                                  (λ _.
                                    if_elim P (id == 0xFE) (send_byte 1 d') _
                                      (λ _. record { command = refl; sized = refl })
                                      (λ _.
                                        if_elim P (id == 0xFF) (send_packet_size d') _
                                          (λ _. record { command = refl; sized = refl })
                                          (λ _. record { command = refl; sized = refl }))))))))))

-- DAP_Info answers with its command, a length, and as many bytes, whatever is asked.
pub handle_dap_info-IsInfo : (buffer : List ℕ) (d : Dap) → IsInfo (handle_dap_info buffer d).0
unfolding handle_dap_info clear_response send_response
handle_dap_info-IsInfo buffer d =
    let d' = clear_response 0x00 d in
    if_elim (λ (r : List ℕ × Dap). IsInfo r.0) (ltb (length buffer) 2) (send_empty d')
      (info_case (get_or buffer 1 0) d') (λ _. record { command = refl; sized = refl })
      (λ _. info_case-IsInfo (get_or buffer 1 0) d)
