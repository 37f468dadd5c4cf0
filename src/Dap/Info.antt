-- ===== src/Dap/Info.antt =====
-- cmsis_dap.cpp: `handle_dap_info` (DAP_Info).
pub mod Sized
use esp32_daplink.Base.{
  ℕ, zero, suc, ◌+◌, ◌%◌, ◌/◌, ◌^◌, bit_and, Bool, true, false, List, [], ◌∷◌, ltb, ◌==◌,
  if◌then◌else◌, length, get_or, u8, ◌>>>◌,
}
use esp32_daplink.Dap.{Dap, put, clear_response, put_u32_le, send_response}

-- "ESP DAPLink"
abbrev pub vendor : List ℕ
vendor = 69 ∷ 83 ∷ 80 ∷ 32 ∷ 68 ∷ 65 ∷ 80 ∷ 76 ∷ 105 ∷ 110 ∷ 107 ∷ []

-- "ESP32S3 CMSIS-DAP"
abbrev pub product : List ℕ
product = 69 ∷ 83 ∷ 80 ∷ 51 ∷ 50 ∷ 83 ∷ 51 ∷ 32 ∷ 67 ∷ 77 ∷ 83 ∷ 73 ∷ 83 ∷ 45 ∷ 68 ∷ 65 ∷ 80 ∷ []

-- "ESP32S3-0001"
abbrev pub serial : List ℕ
serial = 69 ∷ 83 ∷ 80 ∷ 51 ∷ 50 ∷ 83 ∷ 51 ∷ 45 ∷ 48 ∷ 48 ∷ 48 ∷ 49 ∷ []

-- "2.1.1"
abbrev pub fw_version : List ℕ
fw_version = 50 ∷ 46 ∷ 49 ∷ 46 ∷ 49 ∷ []

-- "ARM"
abbrev pub target_vendor : List ℕ
target_vendor = 65 ∷ 82 ∷ 77 ∷ []

-- "Cortex-M"
abbrev pub target_name : List ℕ
target_name = 67 ∷ 111 ∷ 114 ∷ 116 ∷ 101 ∷ 120 ∷ 45 ∷ 77 ∷ []

-- `board_config::kCmsisDapReportSize`
abbrev pub report_size : ℕ
report_size = 64

-- `memcpy(&g_response[i], bytes, ...)`
unfoldable pub copy_to : ℕ → List ℕ → Dap → Dap
copy_to i [] d = d
copy_to i (b ∷ bytes) d = copy_to (suc i) bytes (put i b d)

-- The cases of a string.
unfoldable pub send_string : List ℕ → Dap → List ℕ × Dap
send_string text d =
    let d' = copy_to 2 text (put 1 (length text) d) in (send_response (2 + length text) d', d')

abbrev pub send_empty : Dap → List ℕ × Dap
send_empty d = let d' = put 1 0 d in (send_response 2 d', d')

abbrev pub send_byte : ℕ → Dap → List ℕ × Dap
send_byte b d = let d' = put 2 b (put 1 1 d) in (send_response 3 d', d')

abbrev pub send_timer : Dap → List ℕ × Dap
send_timer d =
    let d1 = put 1 4 d in
    let d' = record d1 { response = put_u32_le 2 1000000 d1.response } in (send_response 6 d', d')

abbrev pub send_packet_size : Dap → List ℕ × Dap
send_packet_size d =
    let low = u8 (bit_and report_size 0xFF) in
    let high = u8 (bit_and (report_size >>> 8) 0xFF) in
    let d' = put 3 high (put 2 low (put 1 2 d)) in (send_response 4 d', d')

-- The switch. The cases that answer with no information are the default.
unfoldable pub info_case : ℕ → Dap → List ℕ × Dap
info_case id d =
    if id == 0x01
    then send_string vendor d
    else if id == 0x02
    then send_string product d
    else if id == 0x03
    then send_string serial d
    else if id == 0x04
    then send_string fw_version d
    else if id == 0x05
    then send_string target_vendor d
    else if id == 0x06
    then send_string target_name d
    else if id == 0xF0
    then send_byte 0x01 d
    else if id == 0xF1
    then send_timer d
    else if id == 0xFE
    then send_byte 1 d
    else if id == 0xFF
    then send_packet_size d
    else send_empty d

unfoldable pub handle_dap_info : List ℕ → Dap → List ℕ × Dap
handle_dap_info buffer d0 =
    let d = clear_response 0x00 d0 in
    if ltb (length buffer) 2 then send_empty d else info_case (get_or buffer 1 0) d
