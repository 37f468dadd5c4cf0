-- ===== src/Wifi.antt =====
-- wifi_debug.cpp (esp32s3-idf/lib/daplink): the part that takes CMSIS-DAP commands, alone or in
-- batches, from an elaphureLink client, the relay or a direct UDP path to `process_command`.
pub mod Size
pub mod Batch
pub mod Handlers
pub mod Commands
pub mod Packed
pub mod Relay
mod Tests
use esp32_daplink.Base.{ℕ, Bool, List}
use esp32_daplink.Dap.Process.{Session}

-- What is given to `send`, `relay_send` or `punch_send_dap_response`.
pub data Sent : Type 0 where
  client relay punch : List ℕ → Sent

-- `g_el_handshake_done`, with what was sent, newest first, and the state of the CMSIS-DAP processor.
pub record Link : Type 0 where
  pub handshake_done : Bool
  pub sent : List Sent
  pub session : Session

-- `kBufSize`
abbrev pub buf_size : ℕ
buf_size = 1500
