-- ===== src/Flash/Target.antt =====
-- `program_target`.
pub mod Returning
use esp32_daplink.Base.{ℕ, List}
use esp32_daplink.Esp.{not_supported}
use esp32_daplink.Esp.Action.{raise}
use esp32_daplink.Esp.Run.{Run, lift}
use esp32_daplink.Hex.{Segment}
use esp32_daplink.Port.{SwdPort}
use esp32_daplink.Flash.Select as Select
use esp32_daplink.Flash.Select.{SelectionResult, not_implemented}
use esp32_daplink.Flash.G0.{program_stm32_g0}
use esp32_daplink.Flash.Paged.{stm32f1, cw32, program_paged}

module _ {S : Type 0} (port : SwdPort S) (clock : ℕ → ℕ) (fuel : ℕ) where
  -- `rounds` is the bound of each erase loop over pages.
  unfoldable pub program_target : ℕ → SelectionResult → List Segment → Run S (Unit {0})
  program_target rounds selection segments = elim (Select.program_target selection) [
    | Select.program_stm32_g0 ↦ program_stm32_g0 port clock fuel segments
    | Select.program_stm32_f1 ↦ program_paged port clock fuel stm32f1 rounds segments
    | Select.program_cw32 ↦ program_paged port clock fuel cw32 rounds segments
    | not_implemented ↦ lift (raise not_supported)
  ]
