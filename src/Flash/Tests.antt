-- ===== src/Flash/Tests.antt =====
-- The theorems on flash_algo.cpp on concrete segments and targets.
use esp32_daplink.Base.{
  ℕ, ◌*◌, ◌%◌, ◌^◌, ◌==◌, if◌then◌else◌, ◌≡◌, refl, ◌↔◌, true, Option, none, some, List, [], ◌∷◌,
  arith,
}
use esp32_daplink.Esp.Action.{Result, ok, err}
use esp32_daplink.Esp.Run.{Board, ◌>>=◌, done, lift, timestamp}
use esp32_daplink.Esp.Run.Returning.{Returns}
use esp32_daplink.Esp.Wait.{poll_loop, poll_for, MovesPast}
use esp32_daplink.Port.Ideal.{Chip, ideal}
use esp32_daplink.Exec.Core.{ap_word_access, mem_write32, mem_read32, poll_dhcsr, halt_core}
use esp32_daplink.Exec.Load.{pack_from, put_byte}
use esp32_daplink.Hex.{Segment, Image}
use esp32_daplink.Flm.{FlashDeviceInfo}
use esp32_daplink.Flash.Select as Select
use esp32_daplink.Flash.Select.{
  Family, stm32, unknown, TargetInfo, SelectionResult, cw32_direct, select_algorithm, stm32_name,
  guess, names_g,
}
use esp32_daplink.Flash.Pages.{pages_to_erase, insert_segment, insert_from, insert}
use esp32_daplink.Flash.Pages.Exact.{has, Holds, AllInFlash, pages_to_erase-Holds}
use esp32_daplink.Flash.Routing.{is_g0, goes_to_g0, program_target-goes_to_g0}
use esp32_daplink.Flash.Status.{look_bsy1, look_bsy, read_or_zero}
use esp32_daplink.Flash.G0 as G0
use esp32_daplink.Flash.G0.{
  wait_not_busy, unlock, lock, erase_page, program_dword, erase_pages, program_dwords,
  reset_and_run, program_stm32_g0,
}
use esp32_daplink.Flash.Paged as Paged
use esp32_daplink.Flash.Paged.{
  stm32f1, erase_from, erase_segments, program_units, program_segment, program_paged,
}
use esp32_daplink.Flash.Paged.Returning.{AllErasable}
use esp32_daplink.Flash.Target.{program_target}
use esp32_daplink.Flash.Target.Returning.{program_target-Returns}

-- Two bytes on each side of a page boundary, and two on the page before.
abbrev two_segments : List Segment
two_segments =
    record { address = 0x080007FE; bytes = 1 ∷ 2 ∷ 3 ∷ 4 ∷ [] }
    ∷ record { address = 0x08000010; bytes = 5 ∷ 6 ∷ [] }
    ∷ []

two_segments-AllInFlash : AllInFlash two_segments
two_segments-AllInFlash = (
  record { some = omega arith; from = omega arith; below = omega arith },
  (record { some = omega arith; from = omega arith; below = omega arith }, tt),
)

pages_of_two : pages_to_erase two_segments [] ≡ 0 ∷ 1 ∷ []
unfolding pages_to_erase insert_segment insert_from insert
pages_of_two = refl

pages_to_erase-Holds_example :
    (has 1 (pages_to_erase two_segments []) ≡ true) ↔ Holds 1 two_segments
pages_to_erase-Holds_example = pages_to_erase-Holds 1 two_segments two_segments-AllInFlash

-- An STM32G071.
abbrev g071 : TargetInfo
g071 = record { family = stm32; dpidr = 0x0BC11477; dev_id = 0x460 }

abbrev image : Image
image = record {
  segments = two_segments;
  lowest_address = 0x08000010;
  highest_address = 0x08000802;
}

g071_goes : Select.program_target (select_algorithm image g071) ≡ Select.program_stm32_g0
unfolding Select.program_target select_algorithm stm32_name names_g
g071_goes = refl

-- A target of no known family, for an image in the flash.
guessed :
    Select.program_target (select_algorithm image (record g071 { family = unknown }))
    ≡ Select.program_stm32_g0
unfolding Select.program_target select_algorithm guess names_g
guessed = refl

program_target-goes_to_g0_example :
    is_g0 (Select.program_target (select_algorithm image g071)) ≡ goes_to_g0 image g071
program_target-goes_to_g0_example = program_target-goes_to_g0 image g071

-- A clock with six seconds between two readings.
abbrev clock : ℕ → ℕ
clock n = (6000 * n) % 2 ^ 32

clock-MovesPast : MovesPast clock 5000 1
clock-MovesPast n = (0, omega arith, omega arith)

-- The core halts at once, and the flash controller is never busy.
abbrev board : Board Chip
board = record {
  swd = record { cells = λ a. if a == 0xE000EDF0 then 2 ^ 17 else 0; tar = 0; rdbuff = 0 };
  readings = 0;
}

-- The cells at the given addresses after a run that ends without an error.
abbrev cells_after : Option (Result (Unit {0}) × Board Chip) → List ℕ → List ℕ
cells_after none addresses = []
cells_after (some (err e, w)) addresses = []
cells_after (some (ok u, w)) [] = []
cells_after (some (ok u, w)) (a ∷ addresses) =
    w.swd.cells a ∷ cells_after (some (ok u, w)) addresses

-- The second segment with six bytes of 0xFF behind it, and the last write to CR.
g0_programmed :
    cells_after
      (program_stm32_g0 ideal clock 1 two_segments board)
      (0x08000010 ∷ 0x08000014 ∷ 0x40022014 ∷ [])
    ≡ 0xFFFF0605 ∷ 0xFFFFFFFF ∷ 2 ^ 31 ∷ []
unfolding program_stm32_g0 poll_for poll_loop ◌>>=◌ done lift timestamp look_bsy1 wait_not_busy
    unlock lock erase_page program_dword erase_pages program_dwords G0.program_segments
    reset_and_run ap_word_access mem_write32 mem_read32 poll_dhcsr halt_core pack_from put_byte
    pages_to_erase insert_segment insert_from insert
g0_programmed = refl

two_segments-AllErasable : AllErasable stm32f1 6 two_segments
two_segments-AllErasable = (
  record { fits = omega arith; enough = omega arith },
  (record { fits = omega arith; enough = omega arith }, tt),
)

-- The selection for a CW32.
abbrev for_cw32 : SelectionResult
for_cw32 = record { algorithm_name = cw32_direct; family = Family.cw32 }

-- The second segment with two bytes of 0xFF behind it.
cw32_programmed :
    cells_after
      (program_target ideal clock 1 6 for_cw32 two_segments board)
      (0x08000010 ∷ 0x40022004 ∷ [])
    ≡ 0xFFFF0605 ∷ 2 ^ 7 ∷ []
unfolding program_target Select.program_target program_paged poll_for poll_loop ◌>>=◌ done lift
    timestamp look_bsy read_or_zero Paged.wait_not_busy Paged.unlock Paged.lock Paged.erase_page
    erase_from erase_segments program_units program_segment Paged.program_segments reset_and_run
    ap_word_access mem_write32 mem_read32 poll_dhcsr halt_core pack_from put_byte
cw32_programmed = refl

program_target-Returns_example : Returns (program_target ideal clock 1 6 for_cw32 two_segments)
program_target-Returns_example =
    program_target-Returns ideal clock 1 6 for_cw32 two_segments clock-MovesPast
      two_segments-AllErasable

-- A device with a sector of 1024 bytes, then sectors of 2048 bytes.
abbrev device : FlashDeviceInfo
device = record {
  name = [];
  dev_addr = 0x08000000;
  dev_size = 0x10000;
  page_size = 256;
  val_empty = 0xFF;
  timeout_prog = 100;
  timeout_erase = 1000;
  sectors = record { size = 1024; address = 0 } ∷ record { size = 2048; address = 1024 } ∷ [];
}
