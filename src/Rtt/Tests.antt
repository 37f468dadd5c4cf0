-- ===== src/Rtt/Tests.antt =====
-- The theorems on the RTT reader with a concrete port and target memory.
use esp32_daplink.Base.{
  Bool, Option, false, none, ◌<◌, get_or, ◌-◌, suc, zero, ℕ, ◌≤◌, ◌≡◌, refl, true, inl, ◌==◌,
  if◌then◌else◌, some, List, [], ◌∷◌, length, arith,
}
use esp32_daplink.Port.Ideal.{Chip, ideal, ideal_memory}
use esp32_daplink.Exec.Words.{byte_of}
use esp32_daplink.Rtt.Core.{mem_read32, mem_write32, word_bytes, mem_read_block, Rtt, power_up}
use esp32_daplink.Rtt.Search.{
  find_in, search_chunk, search_chunks, verify_cb_at, World, search_control_block, starts,
}
use esp32_daplink.Rtt.Poll.{poll_up, advance}
use esp32_daplink.Rtt.Ring.{unread}
use esp32_daplink.Rtt.Reading.{ring_byte}
use esp32_daplink.Rtt.Queue.{queue, IsUpBuffer, Polled}
use esp32_daplink.Rtt.Polling.{poll_up-Polled}
use esp32_daplink.Rtt.Bounds.{poll_up-within}
use esp32_daplink.Rtt.Down.{
  write_down, write_offsets, write_ring, write_loop, old_word, fill, bytes_word, free_space,
}
use esp32_daplink.Rtt.Pushed.{down_queue, IsDownBuffer}
use esp32_daplink.Rtt.Push.{Pushed, write_down-Pushed}
use esp32_daplink.Rtt.Block.{is_block}
use esp32_daplink.Rtt.Found.{search_control_block-Finds}

-- A ring of eight bytes, with five to read: two before its end, three behind its start.
abbrev globals : Rtt
globals = record power_up {
  found = true;
  up0_base = 0x20000018;
  up0_size = 8;
  up0_buf_ptr = 0x20000100;
}

abbrev cells : ℕ → ℕ
cells a =
    if a == 0x20000024
    then 3
    else if a == 0x20000028
    then 6
    else if a == 0x20000100
    then 0x44332211
    else if a == 0x20000104
    then 0x88776655
    else 0

abbrev world : World Chip
world = record { rtt = globals; swd = record { cells = cells; tar = 0; rdbuff = 0 } }

up_buffer : IsUpBuffer globals cells
up_buffer = record {
  base_aligned = refl;
  base_fits = omega arith;
  some = omega arith;
  whole = refl;
  buf_aligned = refl;
  buf_fits = omega arith;
  apart = inl (omega arith);
  wr_inside = omega arith;
  rd_inside = omega arith;
}

queue_bytes : queue globals cells ≡ 0x77 ∷ 0x88 ∷ 0x11 ∷ 0x22 ∷ 0x33 ∷ []
unfolding queue unread ring_byte byte_of advance
queue_bytes = refl

abbrev alone : Chip → Chip
alone c = c

poll_up-Polled_example :
    (s : Chip) × (bytes : List ℕ) × (poll_up ideal alone 0 4 world
      ≡ some (bytes, record world { swd = s }))
    × Polled ideal ideal_memory 4 globals cells (bytes, s)
poll_up-Polled_example = poll_up-Polled ideal ideal_memory alone 0 4 world refl up_buffer

-- The search over the default range, in a memory of zeros.
abbrev fresh : World Chip
fresh = record { rtt = power_up; swd = record { cells = λ a. 0; tar = 0; rdbuff = 0 } }

poll_up-within_example :
    (r : List ℕ × World Chip) × (poll_up ideal alone 513 64 fresh ≡ some r) × (length r.0 ≤ 64)
poll_up-within_example = poll_up-within ideal alone 513 64 fresh (omega arith) (omega arith)

-- A down ring of eight bytes that holds one.
abbrev down_globals : Rtt
down_globals = record globals {
  max_down = 1;
  down0_base = 0x20000030;
  down0_size = 8;
  down0_buf_ptr = 0x20000200;
}

abbrev down_cells : ℕ → ℕ
down_cells a =
    if a == 0x2000003C
    then 6
    else if a == 0x20000040
    then 5
    else if a == 0x20000204
    then 0x4100
    else 0

abbrev down_world : World Chip
down_world = record { rtt = down_globals; swd = record { cells = down_cells; tar = 0; rdbuff = 0 } }

down_buffer : IsDownBuffer down_globals down_cells
down_buffer = record {
  base_aligned = refl;
  base_fits = omega arith;
  some = omega arith;
  whole = refl;
  buf_aligned = refl;
  buf_fits = omega arith;
  apart = inl (omega arith);
  wr_inside = omega arith;
  rd_inside = omega arith;
}

abbrev typed : List ℕ
typed = 0x42 ∷ 0x43 ∷ 0x44 ∷ []

typed_small : (j : ℕ) → get_or typed j 0 < 256
typed_small zero = omega arith
typed_small (suc zero) = omega arith
typed_small (suc (suc zero)) = omega arith
typed_small (suc (suc (suc j))) = omega arith

write_down-Pushed_example :
    (n : ℕ) × (s : Chip) × (write_down ideal typed down_world ≡ (n, record down_world { swd = s }))
    × Pushed ideal ideal_memory typed down_globals down_cells (n, s)
write_down-Pushed_example =
    write_down-Pushed ideal ideal_memory typed down_world refl refl down_buffer typed_small

-- What is in the ring before and after.
down_bytes :
    (down_queue down_globals down_cells ≡ 0x41 ∷ [])
    × (down_queue down_globals (write_down ideal typed down_world).1.swd.cells ≡ 0x41 ∷ typed)
unfolding down_queue unread ring_byte byte_of advance write_down write_offsets write_ring write_loop
    old_word fill bytes_word free_space mem_read32 mem_write32 word_bytes
down_bytes = (refl, refl)

-- A control block 240 bytes into the second chunk of the range.
abbrev block_cells : ℕ → ℕ
block_cells a =
    if a == 0x200001F0
    then 0x47474553
    else if a == 0x200001F4
    then 0x52205245
    else if a == 0x200001F8
    then 0x00005454
    else 0

abbrev block_world : World Chip
block_world = record { rtt = power_up; swd = record { cells = block_cells; tar = 0; rdbuff = 0 } }

block_there : is_block block_cells 0x200001F0 ≡ true
unfolding is_block starts word_bytes
block_there = refl

search_control_block-Finds_example :
    (v : World Chip) × (search_control_block ideal alone 2 block_world ≡ some (true, v))
    × (is_block block_cells v.rtt.cb_addr ≡ true)
search_control_block-Finds_example =
    search_control_block-Finds ideal ideal_memory alone 2 1 60 block_world (λ s b. refl) refl
      (omega arith) refl (omega arith) (omega arith) (omega arith) (omega arith) block_there

-- A block four bytes further on, which is past the last place that is tried, is passed over.
abbrev missed_world : World Chip
missed_world = record {
  rtt = record power_up { search_size = 0x300 };
  swd = record { cells = λ a. block_cells (a - 4); tar = 0; rdbuff = 0 };
}

missed_there : is_block (λ a. block_cells (a - 4)) 0x200001F4 ≡ true
unfolding is_block starts word_bytes
missed_there = refl

abbrev outcome : Option (Bool × World Chip) → Option Bool
outcome none = none
outcome (some (hit, w)) = some hit

missed : outcome (search_control_block ideal alone 4 missed_world) ≡ some false
unfolding search_control_block search_chunks search_chunk find_in starts mem_read_block mem_read32
    word_bytes verify_cb_at
missed = refl
