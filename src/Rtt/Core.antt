-- ===== src/Rtt/Core.antt =====
-- rtt_reader.cpp: the globals, the operations on them, and the memory access.
use esp32_daplink.Base.{
  ℕ, zero, suc, ◌%◌, ◌/◌, ◌^◌, Bool, true, false, ◌==◌, ◌&&◌, if◌then◌else◌, List, [], ◌∷◌, ◌++◌,
  add32,
}
use esp32_daplink.Esp.{esp_fail, is_ok}
use esp32_daplink.Esp.Action.{ok, err, Act, pure, ◌>>=◌, ◌>>◌}
use esp32_daplink.Swd.Wire.{TransferResult}
use esp32_daplink.Port.{SwdPort}
use esp32_daplink.Exec.Core.{checked}

pub record Rtt : Type 0 where
  pub search_start : ℕ
  pub search_size : ℕ
  pub found : Bool
  pub enabled : Bool
  pub cb_addr : ℕ
  pub cached_cb_addr : ℕ
  pub max_up : ℕ
  pub max_down : ℕ
  pub up0_base : ℕ
  pub down0_base : ℕ
  pub up0_size : ℕ
  pub up0_buf_ptr : ℕ
  pub down0_size : ℕ
  pub down0_buf_ptr : ℕ

-- The globals as they are defined.
abbrev pub power_up : Rtt
power_up = record {
  search_start = 0x20000000;
  search_size = 0x20000;
  found = false;
  enabled = false;
  cb_addr = 0;
  cached_cb_addr = 0;
  max_up = 0;
  max_down = 0;
  up0_base = 0;
  down0_base = 0;
  up0_size = 0;
  up0_buf_ptr = 0;
  down0_size = 0;
  down0_buf_ptr = 0;
}

unfoldable pub init : Rtt → Rtt
init g = record g { found = false; enabled = false; cb_addr = 0; max_up = 0; max_down = 0 }

unfoldable pub set_enabled : Bool → Rtt → Rtt
set_enabled true g = record g { enabled = true }
set_enabled false g = record g { enabled = false; found = false; cb_addr = 0 }

unfoldable pub set_search_range : ℕ → ℕ → Rtt → Rtt
set_search_range start_addr size g = record g { search_start = start_addr; search_size = size }

unfoldable pub reset : Rtt → Rtt
reset g = record g { found = false; cb_addr = 0 }

-- `memcpy(buf + i, &val, 4)` on a little-endian machine.
unfoldable pub word_bytes : ℕ → List ℕ
word_bytes v = v % 256 ∷ v / 2 ^ 8 % 256 ∷ v / 2 ^ 16 % 256 ∷ v / 2 ^ 24 % 256 ∷ []

-- `if (r.error != ESP_OK || r.ack != 0x01) return ESP_FAIL;`
abbrev pub acknowledged : {S : Type 0} → (S → TransferResult × S) → Act S ℕ
acknowledged transfer s =
    let (r, s') = transfer s in
    (if is_ok r.error && (r.ack == 0x01) then ok r.value else err esp_fail, s')

module _ {S : Type 0} (port : SwdPort S) where
  unfoldable pub mem_read32 : ℕ → Act S ℕ
  mem_read32 addr = do
    checked (port.dp_write 0x08 0x00000000)
    acknowledged (port.raw true false 0x04 addr)
    acknowledged (port.raw true true 0x0C 0)
    checked (port.dp_read 0x0C)

  unfoldable pub mem_write32 : ℕ → ℕ → Act S (Unit {0})
  mem_write32 addr value = do
    checked (port.dp_write 0x08 0x00000000)
    acknowledged (port.raw true false 0x04 addr)
    acknowledged (port.raw true false 0x0C value)
    pure tt

  -- The bytes of `words` words; `len` is a multiple of 4 in every call.
  unfoldable pub mem_read_block : ℕ → ℕ → Act S (List ℕ)
  mem_read_block zero addr = pure []
  mem_read_block (suc words) addr =
      let rest = mem_read_block words (add32 addr 4) in
      mem_read32 addr >>= λ val. rest >>= λ bytes. pure (word_bytes val ++ bytes)
