-- ===== src/Dap.antt =====
-- cmsis_dap.cpp (esp32s3-idf/lib/daplink): the CMSIS-DAP command handlers, over the SWD port of Swd.
-- A handler takes the state and the command's bytes and gives the bytes that `send_response` sends.
-- Delays, log output and the USB endpoint itself are left out.
pub mod Transfer
pub mod Bounds
pub mod Block
pub mod Sequence
pub mod Words
pub mod Config
pub mod Info
pub mod Misc
pub mod Process
mod Tests
use esp32_daplink.Base.{
  ℕ, ◌+◌, bit_and, bit_or, Bool, List, [], ◌∷◌, ltb, if◌then◌else◌, length, get_or, set, take,
  replicate, u8, u32, ◌<<<◌, ◌>>>◌,
}
use esp32_daplink.Swd.Wire.{Swd}

-- the file's globals, the counters that are only logged among them, and the SWD port's
pub record Dap : Type 0 where
  pub response : List ℕ
  pub connected : Bool
  pub idle_cycles : ℕ
  pub wait_retry : ℕ
  pub match_retry : ℕ
  pub match_mask : ℕ
  pub stat_xfer : ℕ
  pub stat_block : ℕ
  pub stat_fault : ℕ
  pub stat_mismatch : ℕ
  pub stat_ap_read : ℕ
  pub stat_ap_write : ℕ
  pub last_select : ℕ
  pub bus : Swd

abbrev pub response_size : ℕ
response_size = 1500

-- `++` on uint32_t
abbrev pub next32 : ℕ → ℕ
next32 n = u32 (n + 1)

-- `g_response[i] = b`
abbrev pub put : ℕ → ℕ → Dap → Dap
put i b d = record d { response = set d.response i b }

unfoldable pub clear_response : ℕ → Dap → Dap
clear_response command d = record d { response = set (replicate response_size 0) 0 command }

unfoldable pub put_u32_le : ℕ → ℕ → List ℕ → List ℕ
put_u32_le offset value response =
    if ltb (length response) (offset + 4)
    then response
    else let b0 = set response (offset + 0) (u8 (bit_and value 0xFF)) in
      let b1 = set b0 (offset + 1) (u8 (bit_and (value >>> 8) 0xFF)) in
      let b2 = set b1 (offset + 2) (u8 (bit_and (value >>> 16) 0xFF)) in
      set b2 (offset + 3) (u8 (bit_and (value >>> 24) 0xFF))

unfoldable pub get_u32_le : List ℕ → ℕ → ℕ
get_u32_le buffer offset =
    if ltb (length buffer) (offset + 4)
    then 0
    else bit_or
        (bit_or (bit_or (get_or buffer offset 0) (u32 (get_or buffer (offset + 1) 0 <<< 8)))
          (u32 (get_or buffer (offset + 2) 0 <<< 16)))
        (u32 (get_or buffer (offset + 3) 0 <<< 24))

-- What `send_response` caches and sends: as much of the buffer as there is.
unfoldable pub send_response : ℕ → Dap → List ℕ
send_response count d = take count d.response
