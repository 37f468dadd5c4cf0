-- ===== src/Rtt/Down.antt =====
-- rtt_reader.cpp: `write_down`.
use esp32_daplink.Base.{
  ℕ, zero, suc, ◌+◌, ◌-◌, ◌*◌, ◌^◌, bit_and, min, not, ltb, leb, ◌==◌, ◌||◌, if◌then◌else◌, List,
  [], ◌∷◌, length, get_or, set, take, add32, sub32,
}
use esp32_daplink.Esp.Action.{Result, ok, err, pure}
use esp32_daplink.Port.{SwdPort}
use esp32_daplink.Rtt.Core.{Rtt, word_bytes, mem_read32, mem_write32}
use esp32_daplink.Rtt.Search.{World}
use esp32_daplink.Rtt.Poll.{advance}

unfoldable pub free_space : ℕ → ℕ → ℕ → ℕ
free_space size wr_off rd_off =
    if leb rd_off wr_off
    then sub32 (add32 (sub32 size wr_off) rd_off) 1
    else sub32 (sub32 rd_off wr_off) 1

-- `word` from its four `word_bytes`
unfoldable pub bytes_word : List ℕ → ℕ
bytes_word l = get_or l 0 0 + get_or l 1 0 * 2 ^ 8 + get_or l 2 0 * 2 ^ 16 + get_or l 3 0 * 2 ^ 24

-- The inner loop: the word's bytes, the data that are left, `write_pos`.
pub record Filling : Type 0 where
  pub word : List ℕ
  pub left : List ℕ
  pub pos : ℕ

-- `n` bytes to go, the next one to the place `k` of the word.
unfoldable pub fill : ℕ → ℕ → ℕ → List ℕ → List ℕ → ℕ → Filling
fill size zero k data_left word pos = record { word = word; left = data_left; pos = pos }
fill size (suc n) k [] word pos = record { word = word; left = []; pos = pos }
fill size (suc n) k (b ∷ data_left) word pos =
    fill size n (suc k) data_left (set word k b) (advance size pos)

-- What the write loop leaves: the data not taken, `write_pos`, the port's state.
pub record Writing (S : Type 0) : Type 0 where
  pub left : List ℕ
  pub write_pos : ℕ
  pub swd : S

-- `bytes_in_word`
abbrev pub in_word : ℕ → List ℕ → ℕ
in_word pos bytes = min (4 - bit_and pos 3) (length bytes)

module _ {S : Type 0} (port : SwdPort S) where
  -- `word` at the start of a round: what is in memory, unless all of it is written.
  unfoldable pub old_word : ℕ → ℕ → List ℕ → S → Result ℕ × S
  old_word addr pos bytes =
      if not (bit_and pos 3 == 0) || not (in_word pos bytes == 4)
      then mem_read32 port addr
      else pure 0

  -- A round of the loop writes at least one byte, so that a fuel of as many is enough.
  unfoldable pub write_loop : ℕ → ℕ → ℕ → List ℕ → ℕ → S → Writing S
  write_loop size buf_ptr zero bytes pos s = record { left = bytes; write_pos = pos; swd = s }
  write_loop size buf_ptr (suc fuel) [] pos s = record { left = []; write_pos = pos; swd = s }
  write_loop size buf_ptr (suc fuel) (b ∷ bytes) pos s =
      let addr = add32 buf_ptr (bit_and pos (2 ^ 32 - 4)) in
      let (old, s1) = old_word addr pos (b ∷ bytes) s in
      elim old [
        | err _ ↦ record { left = b ∷ bytes; write_pos = pos; swd = s1 }
        | ok word ↦
            let f =
              fill size (in_word pos (b ∷ bytes)) (bit_and pos 3) (b ∷ bytes) (word_bytes word)
                pos in
            let (stored, s2) = mem_write32 port addr (bytes_word f.word) s1 in
            let rest = write_loop size buf_ptr fuel f.left f.pos s2 in
            elim stored [
              | err _ ↦ record { left = f.left; write_pos = f.pos; swd = s2 }
              | ok _ ↦ rest
            ]
      ]

  -- `if (written > 0) mem_write32(...)`, whose error is not looked at.
  abbrev pub store_wr_off : Rtt → ℕ → Writing S → S
  store_wr_off g written r =
      if ltb 0 written
      then (mem_write32 port (add32 g.down0_base 0x0C) r.write_pos r.swd).1
      else r.swd

  -- From the offsets on: the number of bytes written.
  unfoldable pub write_ring : List ℕ → Rtt → ℕ → ℕ → S → ℕ × S
  write_ring bytes g wr_off rd_off s =
      let sent = take (min (length bytes) (free_space g.down0_size wr_off rd_off)) bytes in
      let r = write_loop g.down0_size g.down0_buf_ptr (length sent) sent wr_off s in
      let written = length sent - length r.left in
      if length sent == 0 then (0, s) else (written, store_wr_off g written r)

  unfoldable pub write_offsets : List ℕ → Rtt → S → ℕ × S
  write_offsets bytes g s =
      let (wr, s1) = mem_read32 port (add32 g.down0_base 0x0C) s in
      elim wr [
        | err _ ↦ (0, s1)
        | ok wr_off ↦
            let (rd, s2) = mem_read32 port (add32 g.down0_base 0x10) s1 in
            elim rd [ err _ ↦ (0, s2) | ok rd_off ↦ write_ring bytes g wr_off rd_off s2 ]
      ]

  unfoldable pub write_down : List ℕ → World S → ℕ × World S
  write_down bytes w =
      let (written, s) = write_offsets bytes w.rtt w.swd in
      if not w.rtt.found || w.rtt.max_down == 0 || w.rtt.down0_size == 0
      then (0, w)
      else (written, record w { swd = s })
