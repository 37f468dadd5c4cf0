-- ===== src/Esp.antt =====
-- `esp_err_t`: the codes that the firmware returns and compares.
pub mod Action
pub mod Run
pub mod Wait
use esp32_daplink.Base.{Bool, true, false}

pub data EspErr : Type 0 where
  esp_ok esp_fail no_mem invalid_arg invalid_state invalid_size not_found : EspErr
  not_supported timeout invalid_crc : EspErr

-- `err == ESP_OK`
abbrev pub is_ok : EspErr → Bool
is_ok EspErr.esp_ok = true
is_ok _ = false
