-- ===== src/Exec/Core.antt =====
-- target_exec.cpp: memory access over the AP and the debug registers of a Cortex-M core.
use esp32_daplink.Base.{Bool, ℕ, zero, suc, bit_or, if◌then◌else◌, ◌<<<◌, test_bit}
use esp32_daplink.Esp.{is_ok, timeout}
use esp32_daplink.Esp.Action.{ok, err, Act, pure, raise, ◌>>=◌, ◌>>◌, ignore}
use esp32_daplink.Swd.Wire.{TransferResult}
use esp32_daplink.Port.{SwdPort}

abbrev pub dhcsr_addr : ℕ
dhcsr_addr = 0xE000EDF0

abbrev pub dcrsr_addr : ℕ
dcrsr_addr = 0xE000EDF4

abbrev pub dcrdr_addr : ℕ
dcrdr_addr = 0xE000EDF8

abbrev pub dhcsr_key : ℕ
dhcsr_key = 0xA05F0000

-- A transfer as an action: `if (r.error != ESP_OK) return r.error;`
abbrev pub checked : {S : Type 0} → (S → TransferResult × S) → Act S ℕ
checked transfer s =
    let (r, s') = transfer s in (if is_ok r.error then ok r.value else err r.error, s')

module _ {S : Type 0} (port : SwdPort S) where
  unfoldable pub ap_word_access : Act S (Unit {0})
  ap_word_access = do
    checked (port.dp_write 0x08 0x00000000)
    checked (port.ap_write 0x00 0x23000002)
    pure tt

  unfoldable pub mem_write32 : ℕ → ℕ → Act S (Unit {0})
  mem_write32 address value = do
    checked (port.ap_write 0x04 address)
    checked (port.ap_write 0x0C value)
    pure tt

  unfoldable pub mem_read32 : ℕ → Act S ℕ
  mem_read32 address = do checked (port.ap_write 0x04 address); checked (port.ap_read 0x0C)

  -- `for (int i = 0; i < 100; ++i)` over DHCSR until a bit of it is set, with `left` rounds to go.
  unfoldable pub poll_dhcsr : ℕ → ℕ → Act S (Unit {0})
  poll_dhcsr bit zero = raise timeout
  poll_dhcsr bit (suc left) =
      let again = poll_dhcsr bit left in
      mem_read32 dhcsr_addr >>= λ dhcsr. if test_bit dhcsr bit then pure tt else again

  -- `reg` is at most 16, so that `|` adds it.
  unfoldable pub write_core_reg : ℕ → ℕ → Act S (Unit {0})
  write_core_reg reg value = do
    mem_write32 dcrdr_addr value
    mem_write32 dcrsr_addr (bit_or (1 <<< 16) reg)
    poll_dhcsr 16 100

  -- The loop polls and reads in one; it reads DCRDR where it ends.
  unfoldable pub read_core_reg : ℕ → Act S ℕ
  read_core_reg reg = do mem_write32 dcrsr_addr reg; poll_dhcsr 16 100; mem_read32 dcrdr_addr

  unfoldable pub halt_core : Act S (Unit {0})
  halt_core = do
    mem_write32 dhcsr_addr (bit_or (bit_or dhcsr_key (1 <<< 0)) (1 <<< 1))
    poll_dhcsr 17 100

  unfoldable pub resume : Act S (Unit {0})
  resume = mem_write32 dhcsr_addr (bit_or dhcsr_key (1 <<< 0))

  -- `if (dhcsr & kDHCSR_S_HALT) return ESP_OK;`
  unfoldable pub look_halted : Act S Bool
  look_halted = mem_read32 dhcsr_addr >>= λ dhcsr. pure (test_bit dhcsr 17)

  unfoldable pub give_up_halt : Act S (Unit {0})
  give_up_halt = ignore halt_core >> raise timeout
