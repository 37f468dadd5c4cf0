-- ===== src/Rtt/Poll.antt =====
-- rtt_reader.cpp: `poll_up`.
use esp32_daplink.Base.{
  ℕ, zero, suc, ◌-◌, ◌^◌, bit_and, min, Bool, true, false, ltb, leb, ◌==◌, if◌then◌else◌, Option,
  none, some, List, [], ◌∷◌, length, get_or, drop, add32, sub32,
}
use esp32_daplink.Esp.Action.{ok, err}
use esp32_daplink.Port.{SwdPort}
use esp32_daplink.Rtt.Core.{Rtt, word_bytes, mem_read32, mem_write32}
use esp32_daplink.Rtt.Search.{World, search_control_block, read_buffer_descriptors}

-- `pos++; if (pos >= size) pos = 0;`
unfoldable pub advance : ℕ → ℕ → ℕ
advance size pos = if leb size (add32 pos 1) then 0 else add32 pos 1

-- The bytes in the up buffer.
unfoldable pub available : ℕ → ℕ → ℕ → ℕ
available size wr_off rd_off =
    if ltb rd_off wr_off then sub32 wr_off rd_off else add32 (sub32 size rd_off) wr_off

-- What the read loop leaves: the bytes for the buffer, `read_pos`, the port's state.
pub record Reading (S : Type 0) : Type 0 where
  pub bytes : List ℕ
  pub read_pos : ℕ
  pub swd : S

abbrev pub with_byte : {S : Type 0} → ℕ → Reading S → Reading S
with_byte b r = record r { bytes = b ∷ r.bytes }

module _ {S : Type 0} (port : SwdPort S) where
  -- The two loops as one, a byte in a round, with `need` bytes to go. `word` has the bytes of the
  -- inner loop's word that are left; without one the outer loop reads the next word.
  unfoldable pub read_loop : ℕ → ℕ → ℕ → List ℕ → ℕ → S → Reading S
  read_loop size buf_ptr zero word pos s = record { bytes = []; read_pos = pos; swd = s }
  read_loop size buf_ptr (suc need) (b ∷ word) pos s =
      with_byte b (read_loop size buf_ptr need word (advance size pos) s)
  read_loop size buf_ptr (suc need) [] pos s =
      let (r, s') = mem_read32 port (add32 buf_ptr (bit_and pos (2 ^ 32 - 4))) s in
      elim r [
        | err _ ↦ record { bytes = []; read_pos = pos; swd = s' }
        | ok v ↦
            let start = bit_and pos 3 in
            with_byte (get_or (word_bytes v) start 0)
              (read_loop size buf_ptr need (drop (suc start) (word_bytes v)) (advance size pos) s')
      ]

  -- `if (total_read > 0) mem_write32(...)`, whose error is not looked at.
  unfoldable pub store_rd_off : Rtt → Reading S → S
  store_rd_off g r =
      if ltb 0 (length r.bytes)
      then (mem_write32 port (add32 g.up0_base 0x10) r.read_pos r.swd).1
      else r.swd

  -- From the offsets on: the bytes that are put in the buffer, whose number is returned.
  unfoldable pub read_ring : ℕ → Rtt → ℕ → ℕ → S → List ℕ × S
  read_ring buffer_size g wr_off rd_off s =
      let n = min (available g.up0_size wr_off rd_off) buffer_size in
      let r = read_loop g.up0_size g.up0_buf_ptr n [] rd_off s in
      if wr_off == rd_off then ([], s) else (r.bytes, store_rd_off g r)

  unfoldable pub poll_offsets : ℕ → Rtt → S → List ℕ × S
  poll_offsets buffer_size g s =
      let (wr, s1) = mem_read32 port (add32 g.up0_base 0x0C) s in
      elim wr [
        | err _ ↦ ([], s1)
        | ok wr_off ↦
            let (rd, s2) = mem_read32 port (add32 g.up0_base 0x10) s1 in
            elim rd [ err _ ↦ ([], s2) | ok rd_off ↦ read_ring buffer_size g wr_off rd_off s2 ]
      ]

  abbrev pub poll_found : ℕ → World S → List ℕ × World S
  poll_found buffer_size w =
      let (bytes, s) = poll_offsets buffer_size w.rtt w.swd in (bytes, record w { swd = s })

  -- After the search: `!read_buffer_descriptors()`, `g_found = true`.
  unfoldable pub poll_searched : ℕ → Bool × World S → List ℕ × World S
  poll_searched buffer_size (false, w) = ([], w)
  poll_searched buffer_size (true, w) =
      let (r, w') = read_buffer_descriptors port w in
      elim r [
        | err _ ↦ ([], w')
        | ok _ ↦ poll_found buffer_size (record w' { rtt = record w'.rtt { found = true } })
      ]

  unfoldable pub poll_up : (S → S) → ℕ → ℕ → World S → Option (List ℕ × World S)
  poll_up others fuel buffer_size w =
      if w.rtt.found
      then some (poll_found buffer_size w)
      else elim (search_control_block port others fuel w) [
        | none ↦ none
        | some r ↦ some (poll_searched buffer_size r)
      ]
