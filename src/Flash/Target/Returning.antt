-- ===== src/Flash/Target/Returning.antt =====
-- Whether `program_target` ends.
use esp32_daplink.Base.{ℕ, List, [], ◌∷◌, arith}
use esp32_daplink.Esp.{not_supported}
use esp32_daplink.Esp.Action.{raise}
use esp32_daplink.Esp.Run.{Run, lift}
use esp32_daplink.Esp.Run.Returning.{Returns, Returns-lift}
use esp32_daplink.Esp.Wait.{MovesPast}
use esp32_daplink.Hex.{Segment}
use esp32_daplink.Port.{SwdPort}
use esp32_daplink.Flash.Select as Select
use esp32_daplink.Flash.Select.{SelectionResult, Routine, not_implemented}
use esp32_daplink.Flash.G0.{program_stm32_g0}
use esp32_daplink.Flash.G0.Returning.{program_stm32_g0-Returns}
use esp32_daplink.Flash.Paged.{stm32f1, cw32, program_paged}
use esp32_daplink.Flash.Paged.Returning.{
  AllErasable, stm32f1-HasPages, cw32-HasPages, program_paged-Returns,
}
use esp32_daplink.Flash.Target.{program_target}

cw32-AllErasable :
    (rounds : ℕ) (segments : List Segment)
    → AllErasable stm32f1 rounds segments
    → AllErasable cw32 rounds segments
cw32-AllErasable rounds [] all = all
cw32-AllErasable rounds (seg ∷ segments) all = (
  record { fits = omega (arith, all.0.fits); enough = omega (arith, all.0.enough) },
  cw32-AllErasable rounds segments all.1,
)

-- With any port, target and selection, `program_target` returns, with an error or not, for segments
-- that end 1024 bytes below 2^32 and for which the erase loops have a round for each 512 bytes and
-- four more, when from each reading of the clock on some reading within the fuel of a wait is more
-- than five seconds later.
pub program_target-Returns :
    {S : Type 0} (port : SwdPort S) (clock : ℕ → ℕ) (fuel rounds : ℕ) (selection : SelectionResult)
    (segments : List Segment)
    → MovesPast clock 5000 fuel
    → AllErasable stm32f1 rounds segments
    → Returns (program_target port clock fuel rounds selection segments)
unfolding program_target
program_target-Returns {S} port clock fuel rounds selection segments moves all =
    elim (Select.program_target selection)
      as (λ (r : Routine). Returns (elim r as (λ _. Run S (Unit {0})) [
        | Select.program_stm32_g0 ↦ program_stm32_g0 port clock fuel segments
        | Select.program_stm32_f1 ↦ program_paged port clock fuel stm32f1 rounds segments
        | Select.program_cw32 ↦ program_paged port clock fuel cw32 rounds segments
        | not_implemented ↦ lift (raise not_supported)
      ])) [
        | Select.program_stm32_g0 ↦ program_stm32_g0-Returns port clock fuel moves segments
        | Select.program_stm32_f1 ↦
            program_paged-Returns port clock fuel moves stm32f1 rounds segments stm32f1-HasPages all
        | Select.program_cw32 ↦
            program_paged-Returns port clock fuel moves cw32 rounds segments cw32-HasPages
              (cw32-AllErasable rounds segments all)
        | not_implemented ↦ Returns-lift (raise not_supported)
      ]
