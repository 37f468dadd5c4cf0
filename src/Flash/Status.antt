-- ===== src/Flash/Status.antt =====
-- The looks of the `wait_not_busy` functions at the status register: whether to stop waiting.
use esp32_daplink.Base.{ℕ, Bool, true, false, not, test_bit, if◌then◌else◌, ◌<<<◌}
use esp32_daplink.Esp.Action.{ok, err, Act, pure, ◌>>=◌, ◌>>◌, ignore}
use esp32_daplink.Port.{SwdPort}
use esp32_daplink.Exec.Core.{mem_read32, mem_write32}

module _ {S : Type 0} (port : SwdPort S) where
  -- At kSR_BSY1; kSR_EOP is cleared, and an error of that not looked at.
  unfoldable pub look_bsy1 : ℕ → Act S Bool
  look_bsy1 sr_addr = mem_read32 port sr_addr >>= λ sr.
      if test_bit sr 16
      then pure false
      else if test_bit sr 0
      then (ignore (mem_write32 port sr_addr (1 <<< 0)) >> pure true)
      else pure true

  -- At kSR_BSY.
  unfoldable pub look_bsy : ℕ → Act S Bool
  look_bsy sr_addr = mem_read32 port sr_addr >>= λ sr. pure (not (test_bit sr 0))

  -- A read whose error is not looked at: the variable keeps its 0.
  unfoldable pub read_or_zero : ℕ → Act S ℕ
  read_or_zero address s =
      let (r, s') = mem_read32 port address s in
      elim r [ ok value ↦ (ok value, s') | err e ↦ (ok 0, s') ]
