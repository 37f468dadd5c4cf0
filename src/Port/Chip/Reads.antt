-- ===== src/Port/Chip/Reads.antt =====
-- The read transfers of swd.cpp on the line to the chip: of DRW (request 0x9F) and of RDBUFF (0xBD).
use esp32_daplink.Base.{
  ℕ, zero, suc, ◌≡◌, refl, ap, ◌∙◌, true, false, ◌==◌, bit_and, u32, inl, ◌<◌, arith,
}
use esp32_daplink.Swd.Wire.{
  drive, Swd, emit, digit, write_bits_from, write_bits, read_bits_from, read_bits, parity32,
  make_request, clock_cycle, idle, request_phase,
}
use esp32_daplink.Base.Bits.{bit_and-low_mask}
use esp32_daplink.Esp.{esp_ok}
use esp32_daplink.Swd.Wire.{read_bits, request_byte}
use esp32_daplink.Swd.Transfer.{transfer_loop, transfer_end, transfer, read_phase}
use esp32_daplink.Swd.Words.{value_of, sampled, read_bits-sampled}
use esp32_daplink.Port.Chip.{chip_target, Quiet, chip_of}
use esp32_daplink.Port.Chip.Line.{bits_list, value_of-bits_32, idle-chip, good}

looped_9f :
    (n : ℕ) (s : Swd)
    → transfer_loop chip_target 0x9F n 1 s
      ≡ record { ack = 1; error = esp_ok; after = (request_phase chip_target 0x9F s).1 }
unfolding transfer_loop request_phase write_bits read_bits read_bits_from clock_cycle
    write_bits_from
looped_9f zero s = refl
looped_9f (suc n) s = refl

sampled_9f :
    (s : Swd)
    → sampled chip_target 32 (request_phase chip_target 0x9F s).1.trace
      ≡ bits_list (u32 (chip_of s).posted) 0 32
unfolding chip_of sampled request_phase write_bits read_bits read_bits_from clock_cycle
    write_bits_from
sampled_9f s = refl

parity32-lt : (x : ℕ) → parity32 x < 2
unfolding parity32
parity32-lt x = last _
  where
    last : (y : ℕ) → bit_and y 1 < 2
    last y = omega (arith, bit_and-low_mask 1 y)

parity32-digit : (x : ℕ) → digit (parity32 x == 1) ≡ parity32 x
parity32-digit x = ground (arith, parity32-lt x)

read_ok :
    (s : Swd) (x : ℕ)
    → (read_bits chip_target 32 s).0 ≡ x
    → (read_bits chip_target 1 (read_bits chip_target 32 s).1).0 ≡ parity32 x
    → read_phase chip_target 1 s ≡ (
      record { error = esp_ok; ack = 1; value = x },
      idle (emit drive (clock_cycle (read_bits chip_target 1 (read_bits chip_target 32 s).1).1)),
    )
unfolding read_phase
read_ok s x value parity =
    let same : ((read_bits chip_target 1 (read_bits chip_target 32 s).1).0
          == parity32 (read_bits chip_target 32 s).0)
        ≡ true =
      rw (value, parity) (ground arith) in
    rw same (rw value refl)

value_9f :
    (s : Swd)
    → (read_bits chip_target 32 (request_phase chip_target 0x9F s).1).0 ≡ u32 (chip_of s).posted
value_9f s =
    read_bits-sampled chip_target 32 _
    ∙ ap value_of (sampled_9f s)
    ∙ value_of-bits_32 _
    ∙ omega arith

one_9f :
    (s : Swd)
    → value_of (
        sampled chip_target 1
          (read_bits chip_target 32 (request_phase chip_target 0x9F s).1).1.trace)
      ≡ parity32 (u32 (chip_of s).posted)
unfolding chip_of sampled request_phase write_bits read_bits read_bits_from clock_cycle
    write_bits_from
one_9f s = omega (arith, parity32-digit (u32 (chip_of s).posted))

parity_9f :
    (s : Swd)
    → (read_bits chip_target 1 (read_bits chip_target 32 (request_phase chip_target 0x9F s).1).1).0
      ≡ parity32 (u32 (chip_of s).posted)
parity_9f s = read_bits-sampled chip_target 1 _ ∙ one_9f s

pub tail_9f :
    (s : Swd)
    → chip_of (
        idle (
          emit drive (
            clock_cycle
              (read_bits chip_target 1
                (read_bits chip_target 32 (request_phase chip_target 0x9F s).1).1).1)))
      ≡ record (chip_of s) { posted = (chip_of s).cells (chip_of s).tar }
unfolding Quiet chip_of request_phase write_bits read_bits read_bits_from clock_cycle
    write_bits_from
tail_9f s =
    idle-chip
      (emit drive (
        clock_cycle
          (read_bits chip_target 1
            (read_bits chip_target 32 (request_phase chip_target 0x9F s).1).1).1))
      (inl (λ w c. refl))

looped_bd :
    (n : ℕ) (s : Swd)
    → transfer_loop chip_target 0xBD n 1 s
      ≡ record { ack = 1; error = esp_ok; after = (request_phase chip_target 0xBD s).1 }
unfolding transfer_loop request_phase write_bits read_bits read_bits_from clock_cycle
    write_bits_from
looped_bd zero s = refl
looped_bd (suc n) s = refl

sampled_bd :
    (s : Swd)
    → sampled chip_target 32 (request_phase chip_target 0xBD s).1.trace
      ≡ bits_list (u32 (chip_of s).posted) 0 32
unfolding chip_of sampled request_phase write_bits read_bits read_bits_from clock_cycle
    write_bits_from
sampled_bd s = refl

value_bd :
    (s : Swd)
    → (read_bits chip_target 32 (request_phase chip_target 0xBD s).1).0 ≡ u32 (chip_of s).posted
value_bd s =
    read_bits-sampled chip_target 32 _
    ∙ ap value_of (sampled_bd s)
    ∙ value_of-bits_32 _
    ∙ omega arith

one_bd :
    (s : Swd)
    → value_of (
        sampled chip_target 1
          (read_bits chip_target 32 (request_phase chip_target 0xBD s).1).1.trace)
      ≡ parity32 (u32 (chip_of s).posted)
unfolding chip_of sampled request_phase write_bits read_bits read_bits_from clock_cycle
    write_bits_from
one_bd s = omega (arith, parity32-digit (u32 (chip_of s).posted))

parity_bd :
    (s : Swd)
    → (read_bits chip_target 1 (read_bits chip_target 32 (request_phase chip_target 0xBD s).1).1).0
      ≡ parity32 (u32 (chip_of s).posted)
parity_bd s = read_bits-sampled chip_target 1 _ ∙ one_bd s

pub tail_bd :
    (s : Swd)
    → chip_of (
        idle (
          emit drive (
            clock_cycle
              (read_bits chip_target 1
                (read_bits chip_target 32 (request_phase chip_target 0xBD s).1).1).1)))
      ≡ chip_of s
unfolding Quiet chip_of request_phase write_bits read_bits read_bits_from clock_cycle
    write_bits_from
tail_bd s =
    idle-chip
      (emit drive (
        clock_cycle
          (read_bits chip_target 1
            (read_bits chip_target 32 (request_phase chip_target 0xBD s).1).1).1))
      (inl (λ w c. refl))

pub post :
    (v : ℕ) (s : Swd)
    → transfer chip_target true true 0x0C v s ≡ (
      good (u32 (chip_of s).posted),
      idle (
          emit drive (
            clock_cycle
              (read_bits chip_target 1
                (read_bits chip_target 32 (request_phase chip_target 0x9F s).1).1).1)),
    )
unfolding transfer transfer_end make_request request_byte
post v s =
    ap (transfer_end chip_target true v) (looped_9f s.wait_retry s)
    ∙ read_ok (request_phase chip_target 0x9F s).1 (u32 (chip_of s).posted) (value_9f s)
        (parity_9f s)

pub fetch :
    (v : ℕ) (s : Swd)
    → transfer chip_target false true 0x0C v s ≡ (
      good (u32 (chip_of s).posted),
      idle (
          emit drive (
            clock_cycle
              (read_bits chip_target 1
                (read_bits chip_target 32 (request_phase chip_target 0xBD s).1).1).1)),
    )
unfolding transfer transfer_end make_request request_byte
fetch v s =
    ap (transfer_end chip_target true v) (looped_bd s.wait_retry s)
    ∙ read_ok (request_phase chip_target 0xBD s).1 (u32 (chip_of s).posted) (value_bd s)
        (parity_bd s)
