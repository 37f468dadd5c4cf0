-- ===== src/Exec/Tests.antt =====
-- The theorems on target execution with a concrete port, data and clock.
use esp32_daplink.Base.{ℕ, zero, suc, ◌*◌, ◌%◌, ◌^◌, ◌<◌, ◌≡◌, refl, [], ◌∷◌, List, get_or, arith}
use esp32_daplink.Esp.Action.{ok}
use esp32_daplink.Port.Ideal.{Chip, ideal, ideal_memory}
use esp32_daplink.Exec.Core.{ap_word_access, mem_write32, mem_read32, poll_dhcsr, halt_core}
use esp32_daplink.Exec.Load.{
  RamLayout, Algorithm, setup, place, layout_of, upload_code, write_words, upload_data, pack_from,
  or_byte,
}
use esp32_daplink.Exec.Words.{byte_of}
use esp32_daplink.Exec.Access.{Ends}
use esp32_daplink.Exec.Stored.{upload_data-overlaid, byte_at, overlaid, rounded}
use esp32_daplink.Exec.Layout.{setup-LaidOut, LaidOut}
use esp32_daplink.Esp.Run.Returning.{Returns}
use esp32_daplink.Esp.Wait.{MovesPast}
use esp32_daplink.Exec.Call.{call_function}
use esp32_daplink.Exec.Wait.{call_function-Returns}

abbrev chip : Chip
chip = record { cells = λ a. a * 3; tar = 0; rdbuff = 0 }

abbrev two_words : Algorithm
two_words = record { code = 1 ∷ 2 ∷ 3 ∷ 4 ∷ 5 ∷ []; code_size = 5; stack_size = 16 }

abbrev layout : RamLayout
layout = record {
  ram_base = 0x20000000;
  ram_size = 256;
  code_addr = 0x20000000;
  code_size = 5;
  bkpt_addr = 0x20000008;
  stack_ptr = 0x2000001C;
  buf_addr = 0x2000001C;
  buf_size = 228;
}

abbrev upload : List ℕ
upload = 10 ∷ 20 ∷ 30 ∷ 40 ∷ 50 ∷ []

upload_small : (i : ℕ) → get_or upload i 0xFF < 256
upload_small zero = omega arith
upload_small (suc zero) = omega arith
upload_small (suc (suc zero)) = omega arith
upload_small (suc (suc (suc zero))) = omega arith
upload_small (suc (suc (suc (suc zero)))) = omega arith
upload_small (suc (suc (suc (suc (suc i))))) = omega arith

-- The chip's DHCSR, once written, has the bits S_HALT and S_REGRDY set.
setup_runs : (setup ideal two_words 0x20000000 256 chip).0 ≡ ok layout
unfolding setup place layout_of upload_code ap_word_access mem_write32 mem_read32 poll_dhcsr
    halt_core write_words pack_from or_byte
setup_runs = refl

setup-LaidOut_example : LaidOut two_words 0x20000000 256 layout
setup-LaidOut_example =
    setup-LaidOut ideal two_words 0x20000000 256 chip layout (omega arith) (omega arith) setup_runs

upload_data-overlaid_example : Ends (upload_data ideal layout upload chip) tt (λ t.
    (a : ℕ) → byte_at ideal ideal_memory t a ≡ overlaid ideal ideal_memory chip 0x2000001C upload a)
upload_data-overlaid_example =
    upload_data-overlaid ideal ideal_memory layout upload chip (omega arith) refl (omega arith)
      upload_small

-- A byte that stays, two of the data, one that the last word fills up.
overlaid_bytes :
    (overlaid ideal ideal_memory chip 0x2000001C upload 0x20000018 ≡ 0x48)
    × (overlaid ideal ideal_memory chip 0x2000001C upload 0x2000001C ≡ 10)
    × (overlaid ideal ideal_memory chip 0x2000001C upload 0x20000020 ≡ 50)
    × (overlaid ideal ideal_memory chip 0x2000001C upload 0x20000023 ≡ 0xFF)
unfolding overlaid byte_at rounded byte_of
overlaid_bytes = (refl, refl, refl, refl)

-- A clock with thirty milliseconds between two readings.
abbrev ticks : ℕ → ℕ
ticks n = (30 * n) % 2 ^ 32

ticks-MovesPast : MovesPast ticks 25 1
ticks-MovesPast n = (0, omega arith, omega arith)

call_function-Returns_example : Returns (call_function ideal ticks 1 layout 0x41 1 2 3 4 25)
call_function-Returns_example =
    call_function-Returns ideal ticks 1 25 ticks-MovesPast layout 0x41 1 2 3 4 25 (omega arith)
