-- ===== src/Port/Memory.antt =====
-- What a client relies on of the target behind the port: the registers of a MEM-AP (ARM ADI), TAR at
-- 0x04 and DRW at 0x0C, of 32 bits each, and RDBUFF of the debug port, give word access to the
-- target's memory.
use esp32_daplink.Base.{ℕ, ◌%◌, ◌≡◌, true, false, ◌==◌, if◌then◌else◌, u32}
use esp32_daplink.Esp.{esp_ok}
use esp32_daplink.Swd.Wire.{TransferResult}
use esp32_daplink.Port.{SwdPort}

-- A transfer that is acknowledged with OK.
pub record Acked (r : TransferResult) : Type 0 where
  pub no_error : r.error ≡ esp_ok
  pub ack_one : r.ack ≡ 0x01

module _ {S : Type 0} (port : SwdPort S) where
  -- The view of the port's state: the memory's words, TAR, and the result that RDBUFF holds.
  pub record Memory : Type 0 where
    pub word : S → ℕ → ℕ
    pub tar : S → ℕ
    pub posted : S → ℕ
    pub select_ok : (s : S) → Acked (port.dp_write 0x08 0 s).0
    pub select_word : (s : S) (b : ℕ) → word (port.dp_write 0x08 0 s).1 b ≡ word s b
    pub tar_ok : (a : ℕ) (s : S) → Acked (port.raw true false 0x04 a s).0
    pub tar_set : (a : ℕ) (s : S) → tar (port.raw true false 0x04 a s).1 ≡ u32 a
    pub tar_word : (a : ℕ) (s : S) (b : ℕ) → word (port.raw true false 0x04 a s).1 b ≡ word s b
    pub drw_ok : (v : ℕ) (s : S) → Acked (port.raw true false 0x0C v s).0
    pub drw_word :
        (v : ℕ) (s : S) (b : ℕ)
        → tar s % 4 ≡ 0
        → word (port.raw true false 0x0C v s).1 b ≡ (if b == tar s then u32 v else word s b)
    pub post_ok : (s : S) → Acked (port.raw true true 0x0C 0 s).0
    pub post_set : (s : S) → tar s % 4 ≡ 0 → posted (port.raw true true 0x0C 0 s).1 ≡ word s (tar s)
    pub post_word : (s : S) (b : ℕ) → word (port.raw true true 0x0C 0 s).1 b ≡ word s b
    pub rdbuff_ok : (s : S) → Acked (port.dp_read 0x0C s).0
    pub rdbuff_value : (s : S) → (port.dp_read 0x0C s).0.value ≡ posted s
    pub rdbuff_word : (s : S) (b : ℕ) → word (port.dp_read 0x0C s).1 b ≡ word s b
    pub ap_tar_ok : (a : ℕ) (s : S) → Acked (port.ap_write 0x04 a s).0
    pub ap_tar_set : (a : ℕ) (s : S) → tar (port.ap_write 0x04 a s).1 ≡ u32 a
    pub ap_tar_word : (a : ℕ) (s : S) (b : ℕ) → word (port.ap_write 0x04 a s).1 b ≡ word s b
    pub ap_drw_ok : (v : ℕ) (s : S) → Acked (port.ap_write 0x0C v s).0
    pub ap_drw_word :
        (v : ℕ) (s : S) (b : ℕ)
        → tar s % 4 ≡ 0
        → word (port.ap_write 0x0C v s).1 b ≡ (if b == tar s then u32 v else word s b)
    pub ap_read_ok : (s : S) → Acked (port.ap_read 0x0C s).0
    pub ap_read_value : (s : S) → tar s % 4 ≡ 0 → (port.ap_read 0x0C s).0.value ≡ word s (tar s)
    pub ap_read_word : (s : S) (b : ℕ) → word (port.ap_read 0x0C s).1 b ≡ word s b
