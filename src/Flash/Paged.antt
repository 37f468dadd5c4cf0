-- ===== src/Flash/Paged.antt =====
-- The namespaces `stm32f1` and `cw32`, `program_stm32_f1` and `program_cw32`: the same code but for
-- the registers, the keys, the page size and what is written at a time, which are a `Controller`.
pub mod Returning
use esp32_daplink.Base.{
  ℕ, zero, suc, ◌-◌, ◌^◌, bit_and, bit_or, ltb, if◌then◌else◌, List, [], ◌∷◌, length, drop, add32,
  ◌<<<◌,
}
use esp32_daplink.Esp.{timeout}
use esp32_daplink.Esp.Action.{raise}
use esp32_daplink.Esp.Run.{Run, done, endless, lift, ◌>>=◌, ◌>>◌}
use esp32_daplink.Esp.Wait.{poll_for}
use esp32_daplink.Hex.{Segment}
use esp32_daplink.Port.{SwdPort}
use esp32_daplink.Exec.Core.{ap_word_access, mem_write32, halt_core}
use esp32_daplink.Exec.Load.{data_word}
use esp32_daplink.Flash.Status.{look_bsy, read_or_zero}
use esp32_daplink.Flash.G0.{reset_and_run}

pub record Controller : Type 0 where
  pub key_addr : ℕ
  pub key1 : ℕ
  pub key2 : ℕ
  pub cr_addr : ℕ
  pub sr_addr : ℕ
  pub ar_addr : ℕ
  pub page_size : ℕ
  pub unit_size : ℕ
  pub unit : List ℕ → ℕ

-- `hw = data[i]; if (i + 1 < size) hw |= data[i + 1] << 8`
unfoldable pub halfword : List ℕ → ℕ
halfword [] = 0
halfword (b ∷ []) = b
halfword (b ∷ c ∷ bytes) = bit_or b (c <<< 8)

abbrev pub stm32f1 : Controller
stm32f1 = record {
  key_addr = 0x40022004;
  key1 = 0x45670123;
  key2 = 0xCDEF89AB;
  cr_addr = 0x40022010;
  sr_addr = 0x4002200C;
  ar_addr = 0x40022014;
  page_size = 1024;
  unit_size = 2;
  unit = halfword;
}

-- CR2 is the register of the commands, and CR1 takes the keys.
abbrev pub cw32 : Controller
cw32 = record {
  key_addr = 0x40022000;
  key1 = 0xCA000000;
  key2 = 0x35000000;
  cr_addr = 0x40022004;
  sr_addr = 0x4002200C;
  ar_addr = 0x40022010;
  page_size = 512;
  unit_size = 4;
  unit = data_word;
}

-- `clock n` is the n-th reading of `esp_log_timestamp`, and `fuel` the looks of a wait at SR.
module _ {S : Type 0} (port : SwdPort S) (clock : ℕ → ℕ) (fuel : ℕ) (c : Controller) where
  unfoldable pub wait_not_busy : ℕ → Run S (Unit {0})
  wait_not_busy timeout_ms =
      poll_for clock (look_bsy port c.sr_addr) (raise timeout) timeout_ms fuel

  unfoldable pub unlock : Run S (Unit {0})
  unlock = do lift (mem_write32 port c.key_addr c.key1); lift (mem_write32 port c.key_addr c.key2)

  unfoldable pub lock : Run S (Unit {0})
  lock = lift (read_or_zero port c.cr_addr) >>= λ cr.
      lift (mem_write32 port c.cr_addr (bit_or cr (1 <<< 7)))

  unfoldable pub erase_page : ℕ → Run S (Unit {0})
  erase_page address = do
    wait_not_busy 2000
    lift (mem_write32 port c.cr_addr (1 <<< 1))
    lift (mem_write32 port c.ar_addr address)
    lift (mem_write32 port c.cr_addr (bit_or (1 <<< 1) (1 <<< 6)))
    wait_not_busy 5000
    lift (mem_write32 port c.cr_addr 0)

  -- `for (; page_addr < end_addr; page_addr += kPageSize)`, without an end in `zero` rounds.
  unfoldable pub erase_from : ℕ → ℕ → ℕ → Run S (Unit {0})
  erase_from zero page_addr end_addr = endless
  erase_from (suc rounds) page_addr end_addr =
      let next = erase_from rounds (add32 page_addr c.page_size) end_addr in
      if ltb page_addr end_addr then (erase_page page_addr >> next) else done tt

  unfoldable pub erase_segments : ℕ → List Segment → Run S (Unit {0})
  erase_segments rounds [] = done tt
  erase_segments rounds (seg ∷ segments) = do
    erase_from rounds (bit_and seg.address (2 ^ 32 - c.page_size))
        (add32 seg.address (length seg.bytes))
    erase_segments rounds segments

  -- `for (i = 0; i < size; i += unit_size)`; `rounds` is at least the number of units.
  unfoldable pub program_units : ℕ → ℕ → List ℕ → Run S (Unit {0})
  program_units zero address bytes = done tt
  program_units (suc rounds) address [] = done tt
  program_units (suc rounds) address (b ∷ bytes) = do
    lift (mem_write32 port address (c.unit (b ∷ bytes)))
    wait_not_busy 2000
    program_units rounds (add32 address c.unit_size) (drop (c.unit_size - 1) bytes)

  unfoldable pub program_segment : Segment → Run S (Unit {0})
  program_segment seg = do
    wait_not_busy 2000
    lift (mem_write32 port c.cr_addr (1 <<< 0))
    program_units (length seg.bytes) seg.address seg.bytes
    lift (mem_write32 port c.cr_addr 0)

  unfoldable pub program_segments : List Segment → Run S (Unit {0})
  program_segments [] = done tt
  program_segments (seg ∷ segments) = do program_segment seg; program_segments segments

  -- `program_stm32_f1` with the controller `stm32f1`, `program_cw32` with `cw32`.
  unfoldable pub program_paged : ℕ → List Segment → Run S (Unit {0})
  program_paged rounds segments = do
    lift (ap_word_access port)
    lift (halt_core port)
    unlock
    erase_segments rounds segments
    program_segments segments
    lock
    reset_and_run port
