-- ===== src/Port/Chip/Writes.antt =====
-- The write transfers of swd.cpp on the line to the chip: of TAR (request 0x8B), of DRW (0xBB) and of
-- SELECT (0xB1).
use mathlib.Core.Path.{subst}
use esp32_daplink.Base.{
  ℕ, zero, suc, ◌≡◌, refl, ap, ◌∙◌, sym, true, false, ◌==◌, if◌then◌else◌, u32, inr, ◌≤◌, arith,
}
use esp32_daplink.Swd.Wire.{
  drive, Swd, emit, write_bits_from, write_bits, read_bits_from, read_bits, parity32, make_request,
  clock_cycle, request_phase,
}
use esp32_daplink.Esp.{esp_ok}
use esp32_daplink.Swd.Wire.{read_bits, write_data, request_byte}
use esp32_daplink.Swd.Transfer.{transfer_loop, transfer_end, transfer}
use esp32_daplink.Swd.Words.{value_of}
use esp32_daplink.Port.Chip.{Machine, run, chip_target, Quiet, chip_of}
use esp32_daplink.Port.Chip.Line.{puts, puts-run, bits_list, value_of-bits_32, idle-chip, good}

data_sent : ℕ → Swd → Swd
data_sent v s = write_bits (parity32 v) 1 (write_bits v 32 (emit drive (clock_cycle s)))

data_sent-run :
    (v : ℕ) (s : Swd)
    → run (data_sent v s).trace
      ≡ puts (parity32 v) 0 1 (puts v 0 32 (run (emit drive (clock_cycle s)).trace))
unfolding data_sent write_bits
data_sent-run v s =
    puts-run (parity32 v) 0 1 (write_bits v 32 (emit drive (clock_cycle s)))
    ∙ ap (puts (parity32 v) 0 1) (puts-run v 0 32 (emit drive (clock_cycle s)))

looped_8b :
    (n : ℕ) (s : Swd)
    → transfer_loop chip_target 0x8B n 1 s
      ≡ record { ack = 1; error = esp_ok; after = (request_phase chip_target 0x8B s).1 }
unfolding transfer_loop request_phase write_bits read_bits read_bits_from clock_cycle
    write_bits_from
looped_8b zero s = refl
looped_8b (suc n) s = refl

stored_8b :
    (v : ℕ) (s : Swd)
    → (puts (parity32 v) 0 1 (
        puts v 0 32
          (run (emit drive (clock_cycle (request_phase chip_target 0x8B s).1)).trace))).chip
      ≡ record (chip_of s) { tar = value_of (bits_list v 0 32) }
unfolding chip_of request_phase write_bits read_bits read_bits_from clock_cycle write_bits_from
stored_8b v s = refl

counted_8b :
    (v : ℕ) (s : Swd)
    → 33
      ≤ (puts (parity32 v) 0 1 (
          puts v 0 32
            (run (emit drive (clock_cycle (request_phase chip_target 0x8B s).1)).trace))).count
unfolding chip_of request_phase write_bits read_bits read_bits_from clock_cycle write_bits_from
counted_8b v s = omega arith

pub sent_8b :
    (v : ℕ) (s : Swd)
    → chip_of (write_data v (request_phase chip_target 0x8B s).1)
      ≡ record (chip_of s) { tar = u32 v }
unfolding chip_of Quiet write_data data_sent
sent_8b v s =
    idle-chip (data_sent v (request_phase chip_target 0x8B s).1) (
      subst Quiet (sym (data_sent-run v (request_phase chip_target 0x8B s).1))
        (inr (counted_8b v s)))
    ∙ ap (λ (m : Machine). m.chip) (data_sent-run v (request_phase chip_target 0x8B s).1)
    ∙ stored_8b v s
    ∙ ap (λ (t : ℕ). record (chip_of s) { tar = t }) (value_of-bits_32 v)

looped_bb :
    (n : ℕ) (s : Swd)
    → transfer_loop chip_target 0xBB n 1 s
      ≡ record { ack = 1; error = esp_ok; after = (request_phase chip_target 0xBB s).1 }
unfolding transfer_loop request_phase write_bits read_bits read_bits_from clock_cycle
    write_bits_from
looped_bb zero s = refl
looped_bb (suc n) s = refl

stored_bb :
    (v : ℕ) (s : Swd)
    → (puts (parity32 v) 0 1 (
        puts v 0 32
          (run (emit drive (clock_cycle (request_phase chip_target 0xBB s).1)).trace))).chip
      ≡ record (chip_of s) {
        cells =
            λ b. if b == (chip_of s).tar then value_of (bits_list v 0 32) else (chip_of s).cells b;
      }
unfolding chip_of request_phase write_bits read_bits read_bits_from clock_cycle write_bits_from
stored_bb v s = refl

counted_bb :
    (v : ℕ) (s : Swd)
    → 33
      ≤ (puts (parity32 v) 0 1 (
          puts v 0 32
            (run (emit drive (clock_cycle (request_phase chip_target 0xBB s).1)).trace))).count
unfolding chip_of request_phase write_bits read_bits read_bits_from clock_cycle write_bits_from
counted_bb v s = omega arith

pub sent_bb :
    (v : ℕ) (s : Swd)
    → chip_of (write_data v (request_phase chip_target 0xBB s).1) ≡ record (chip_of s) {
      cells = λ b. if b == (chip_of s).tar then u32 v else (chip_of s).cells b;
    }
unfolding chip_of Quiet write_data data_sent
sent_bb v s =
    idle-chip (data_sent v (request_phase chip_target 0xBB s).1) (
      subst Quiet (sym (data_sent-run v (request_phase chip_target 0xBB s).1))
        (inr (counted_bb v s)))
    ∙ ap (λ (m : Machine). m.chip) (data_sent-run v (request_phase chip_target 0xBB s).1)
    ∙ stored_bb v s
    ∙ ap
        (λ (t : ℕ). record (chip_of s) {
          cells = λ b. if b == (chip_of s).tar then t else (chip_of s).cells b;
        })
        (value_of-bits_32 v)

looped_b1 :
    (n : ℕ) (s : Swd)
    → transfer_loop chip_target 0xB1 n 1 s
      ≡ record { ack = 1; error = esp_ok; after = (request_phase chip_target 0xB1 s).1 }
unfolding transfer_loop request_phase write_bits read_bits read_bits_from clock_cycle
    write_bits_from
looped_b1 zero s = refl
looped_b1 (suc n) s = refl

stored_b1 :
    (v : ℕ) (s : Swd)
    → (puts (parity32 v) 0 1 (
        puts v 0 32
          (run (emit drive (clock_cycle (request_phase chip_target 0xB1 s).1)).trace))).chip
      ≡ chip_of s
unfolding chip_of request_phase write_bits read_bits read_bits_from clock_cycle write_bits_from
stored_b1 v s = refl

counted_b1 :
    (v : ℕ) (s : Swd)
    → 33
      ≤ (puts (parity32 v) 0 1 (
          puts v 0 32
            (run (emit drive (clock_cycle (request_phase chip_target 0xB1 s).1)).trace))).count
unfolding chip_of request_phase write_bits read_bits read_bits_from clock_cycle write_bits_from
counted_b1 v s = omega arith

pub sent_b1 :
    (v : ℕ) (s : Swd) → chip_of (write_data v (request_phase chip_target 0xB1 s).1) ≡ chip_of s
unfolding chip_of Quiet write_data data_sent
sent_b1 v s =
    idle-chip (data_sent v (request_phase chip_target 0xB1 s).1) (
      subst Quiet (sym (data_sent-run v (request_phase chip_target 0xB1 s).1))
        (inr (counted_b1 v s)))
    ∙ ap (λ (m : Machine). m.chip) (data_sent-run v (request_phase chip_target 0xB1 s).1)
    ∙ stored_b1 v s

pub set_tar :
    (v : ℕ) (s : Swd)
    → transfer chip_target true false 0x04 v s
      ≡ (good v, write_data v (request_phase chip_target 0x8B s).1)
unfolding transfer transfer_end make_request request_byte
set_tar v s = ap (transfer_end chip_target false v) (looped_8b s.wait_retry s)

pub set_drw :
    (v : ℕ) (s : Swd)
    → transfer chip_target true false 0x0C v s
      ≡ (good v, write_data v (request_phase chip_target 0xBB s).1)
unfolding transfer transfer_end make_request request_byte
set_drw v s = ap (transfer_end chip_target false v) (looped_bb s.wait_retry s)

pub select :
    (v : ℕ) (s : Swd)
    → transfer chip_target false false 0x08 v s
      ≡ (good v, write_data v (request_phase chip_target 0xB1 s).1)
unfolding transfer transfer_end make_request request_byte
select v s = ap (transfer_end chip_target false v) (looped_b1 s.wait_retry s)
