-- ===== src/Flash/G0.antt =====
-- The namespace `stm32g0` and `program_stm32_g0`. The memory access, `halt_core` and the packing of
-- four bytes are written in flash_algo.cpp as they are in target_exec.cpp, and taken from Exec.
pub mod Returning
use esp32_daplink.Base.{
  ℕ, zero, suc, bit_and, bit_or, test_bit, if◌then◌else◌, List, [], ◌∷◌, length, drop, add32, ◌<<<◌,
}
use esp32_daplink.Esp.{timeout, esp_fail}
use esp32_daplink.Esp.Action.{raise, ignore}
use esp32_daplink.Esp.Run.{Run, done, lift, ◌>>=◌, ◌>>◌}
use esp32_daplink.Esp.Wait.{poll_for}
use esp32_daplink.Hex.{Segment}
use esp32_daplink.Port.{SwdPort}
use esp32_daplink.Exec.Core.{
  dhcsr_addr, dhcsr_key, ap_word_access, mem_read32, mem_write32, halt_core,
}
use esp32_daplink.Exec.Load.{data_word}
use esp32_daplink.Flash.Pages.{pages_to_erase}
use esp32_daplink.Flash.Status.{look_bsy1}

abbrev pub keyr_addr : ℕ
keyr_addr = 0x40022008

abbrev pub sr_addr : ℕ
sr_addr = 0x40022010

abbrev pub cr_addr : ℕ
cr_addr = 0x40022014

module _ {S : Type 0} (port : SwdPort S) where
  unfoldable pub check_unlocked : ℕ → Run S (Unit {0})
  check_unlocked cr = if test_bit cr 31 then lift (raise esp_fail) else done tt

  unfoldable pub write_keys : Run S (Unit {0})
  write_keys = do
    lift (mem_write32 port keyr_addr 0x45670123)
    lift (mem_write32 port keyr_addr 0xCDEF89AB)
    lift (mem_read32 port cr_addr) >>= check_unlocked

  unfoldable pub unlock : Run S (Unit {0})
  unlock = lift (mem_read32 port cr_addr) >>= λ cr. if test_bit cr 31 then write_keys else done tt

  unfoldable pub lock : Run S (Unit {0})
  lock = lift (mem_read32 port cr_addr) >>= λ cr.
      lift (mem_write32 port cr_addr (bit_or cr (1 <<< 31)))

  -- The errors of the two writes are not looked at.
  unfoldable pub reset_and_run : Run S (Unit {0})
  reset_and_run = do
    lift (ignore (mem_write32 port dhcsr_addr (bit_or dhcsr_key (1 <<< 0))))
    lift (ignore (mem_write32 port 0xE000ED0C 0x05FA0004))

-- `clock n` is the n-th reading of `esp_log_timestamp`, and `fuel` the looks of a wait at SR.
module _ {S : Type 0} (port : SwdPort S) (clock : ℕ → ℕ) (fuel : ℕ) where
  unfoldable pub wait_not_busy : ℕ → Run S (Unit {0})
  wait_not_busy timeout_ms = poll_for clock (look_bsy1 port sr_addr) (raise timeout) timeout_ms fuel

  unfoldable pub erase_page : ℕ → Run S (Unit {0})
  erase_page page_number = do
    wait_not_busy 2000
    lift (
        mem_write32 port cr_addr
          (bit_or (bit_or (1 <<< 1) (bit_and page_number 0xFF <<< 3)) (1 <<< 16)))
    wait_not_busy 5000
    lift (mem_write32 port cr_addr 0)

  unfoldable pub program_dword : ℕ → ℕ → ℕ → Run S (Unit {0})
  program_dword address word_lo word_hi = do
    wait_not_busy 2000
    lift (mem_write32 port cr_addr (1 <<< 0))
    lift (mem_write32 port address word_lo)
    lift (mem_write32 port (add32 address 4) word_hi)
    wait_not_busy 2000
    lift (mem_write32 port cr_addr 0)

  unfoldable pub erase_pages : List ℕ → Run S (Unit {0})
  erase_pages [] = done tt
  erase_pages (p ∷ pages) = do erase_page p; erase_pages pages

  -- `for (i = 0; i < size; i += 8)`, with a round for each eight bytes; `rounds` is at least their
  -- number.
  unfoldable pub program_dwords : ℕ → ℕ → List ℕ → Run S (Unit {0})
  program_dwords zero address bytes = done tt
  program_dwords (suc rounds) address [] = done tt
  program_dwords (suc rounds) address (b ∷ bytes) = do
    program_dword address (data_word (b ∷ bytes)) (data_word (drop 4 (b ∷ bytes)))
    program_dwords rounds (add32 address 8) (drop 7 bytes)

  unfoldable pub program_segments : List Segment → Run S (Unit {0})
  program_segments [] = done tt
  program_segments (seg ∷ segments) = do
    program_dwords (length seg.bytes) seg.address seg.bytes
    program_segments segments

  unfoldable pub program_stm32_g0 : List Segment → Run S (Unit {0})
  program_stm32_g0 segments = do
    lift (ap_word_access port)
    lift (halt_core port)
    unlock port
    erase_pages (pages_to_erase segments [])
    program_segments segments
    lock port
    reset_and_run port
