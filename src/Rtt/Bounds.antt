-- ===== src/Rtt/Bounds.antt =====
-- `poll_up` on any port: it returns, and does not fill more than the caller's buffer; `write_down`
-- does not take more than there is.
use esp32_daplink.Base.{
  ℕ, zero, suc, ◌+◌, ◌-◌, ◌*◌, ◌^◌, ◌≤◌, ◌<◌, ◌≡◌, refl, ap, Returns, option_elim, ltb→lt, bit_and,
  min, ltb, ◌==◌, Bool, true, false, if_elim, if◌then◌else◌, Option, none, some, List, [], ◌∷◌,
  length, get_or, drop, add32, arith,
}
use esp32_daplink.Esp.Action.{ok, err, result_elim}
use esp32_daplink.Port.{SwdPort}
use esp32_daplink.Rtt.Core.{Rtt, word_bytes, mem_read32}
use esp32_daplink.Rtt.Search.{
  World, search_chunk, search_chunks, search_control_block, verify_cb_at, read_buffer_descriptors,
}
use esp32_daplink.Rtt.Poll.{
  advance, available, Reading, with_byte, read_loop, read_ring, store_rd_off, poll_offsets,
  poll_found, poll_searched, poll_up,
}

module _ {S : Type 0} (port : SwdPort S) where
  read_loop-within :
      (size buf need : ℕ) (left : List ℕ) (pos : ℕ) (s : S)
      → length (read_loop port size buf need left pos s).bytes ≤ need
  unfolding read_loop
  read_loop-within size buf zero left pos s = omega arith
  read_loop-within size buf (suc need) (b ∷ left) pos s =
      omega (arith, read_loop-within size buf need left (advance size pos) s)
  read_loop-within size buf (suc need) [] pos s =
      let r = mem_read32 port (add32 buf (bit_and pos (2 ^ 32 - 4))) s in
      let start = bit_and pos 3 in
      let rest = λ (v : ℕ).
        read_loop port size buf need (drop (suc start) (word_bytes v)) (advance size pos) r.1 in
      result_elim (λ (x : Reading S). length x.bytes ≤ suc need) r.0
        (λ v. with_byte (get_or (word_bytes v) start 0) (rest v))
        (λ e. record { bytes = []; read_pos = pos; swd = r.1 })
        (λ v. omega (
          arith,
          read_loop-within size buf need (drop (suc start) (word_bytes v)) (advance size pos) r.1,
        ))
        (λ e. omega arith)

  read_ring-within :
      (k : ℕ) (g : Rtt) (wr rd : ℕ) (s : S) → length (read_ring port k g wr rd s).0 ≤ k
  unfolding read_ring
  read_ring-within k g wr rd s =
      let n = min (available g.up0_size wr rd) k in
      let r = read_loop port g.up0_size g.up0_buf_ptr n [] rd s in
      if_elim (λ (x : List ℕ × S). length x.0 ≤ k) (wr == rd) ([], s)
        (r.bytes, store_rd_off port g r) (λ e. omega arith)
        (λ e. omega (arith, read_loop-within g.up0_size g.up0_buf_ptr n [] rd s))

  poll_offsets-within : (k : ℕ) (g : Rtt) (s : S) → length (poll_offsets port k g s).0 ≤ k
  unfolding poll_offsets
  poll_offsets-within k g s =
      let a = mem_read32 port (add32 g.up0_base 0x0C) s in
      let b = mem_read32 port (add32 g.up0_base 0x10) a.1 in
      let P = λ (x : List ℕ × S). length x.0 ≤ k in
      result_elim P a.0
        (λ wr. elim b.0 as (λ _. List ℕ × S) [
          | err _ ↦ ([], b.1)
          | ok rd ↦ read_ring port k g wr rd b.1
        ])
        (λ e. ([], a.1))
        (λ wr.
          result_elim P b.0 (λ rd. read_ring port k g wr rd b.1) (λ e. ([], b.1))
            (λ rd. read_ring-within k g wr rd b.1) (λ e. omega arith))
        (λ e. omega arith)

  search_chunks-Returns :
      (others : S → S) (fuel offset : ℕ) (w : World S)
      → w.rtt.search_size + 256 ≤ 2 ^ 32
      → w.rtt.search_size + 256 ≤ offset + 256 * fuel
      → offset < w.rtt.search_size + 256
      → Returns (search_chunks port others fuel offset w)
  unfolding search_chunks
  search_chunks-Returns others zero offset w small enough inside = absurd (omega arith)
  search_chunks-Returns others (suc fuel) offset w small enough inside =
      let start = if ltb 0 offset then others w.swd else w.swd in
      let r = search_chunk port (add32 w.rtt.search_start offset) start in
      let next : World S = record w { swd = r.1 } in
      let hit : ℕ → Option (Bool × World S) = λ cb.
        some
          (true, record { rtt = record w.rtt { cb_addr = cb; cached_cb_addr = cb }; swd = r.1 }) in
      let again = search_chunks port others fuel (add32 offset 256) next in
      if_elim Returns (ltb offset w.rtt.search_size)
        (elim r.0 as (λ _. Option (Bool × World S)) [ none ↦ again | some cb ↦ hit cb ])
        (some (false, w))
        (λ e.
          let lt = ltb→lt offset w.rtt.search_size e in
          let on : add32 offset 256 ≡ offset + 256 = omega arith in
          option_elim Returns r.0 again hit
            (search_chunks-Returns others fuel (add32 offset 256) next small (omega (arith, on))
              (omega (arith, on)))
            (λ cb. (_, refl)))
        (λ e. (_, refl))

  search_control_block-Returns :
      (others : S → S) (fuel : ℕ) (w : World S)
      → w.rtt.search_size + 256 ≤ 2 ^ 32
      → w.rtt.search_size + 256 ≤ 256 * fuel
      → Returns (search_control_block port others fuel w)
  unfolding search_control_block
  search_control_block-Returns others fuel w small enough =
      let r = verify_cb_at port w.rtt.cached_cb_addr w.swd in
      let found : World S = record {
        rtt = record w.rtt { cb_addr = w.rtt.cached_cb_addr };
        swd = r.1;
      } in
      let fresh : World S = record { rtt = record w.rtt { cached_cb_addr = 0 }; swd = r.1 } in
      let full = λ (v : World S). search_chunks port others fuel 0 v in
      if_elim Returns (w.rtt.cached_cb_addr == 0) (full w)
        (if r.0 then some (true, found) else full fresh)
        (λ e. search_chunks-Returns others fuel 0 w small (omega arith) (omega arith))
        (λ e.
          if_elim Returns r.0 (some (true, found)) (full fresh) (λ _. (_, refl))
            (λ _. search_chunks-Returns others fuel 0 fresh small (omega arith) (omega arith)))

  poll_searched-within :
      (k : ℕ) (hit : Bool) (w : World S) → length (poll_searched port k (hit, w)).0 ≤ k
  unfolding poll_searched
  poll_searched-within k false w = omega arith
  poll_searched-within k true w =
      let r = read_buffer_descriptors port w in
      let found : World S = record r.1 { rtt = record r.1.rtt { found = true } } in
      result_elim (λ (x : List ℕ × World S). length x.0 ≤ k) r.0 (λ _. poll_found port k found)
        (λ e. ([], r.1)) (λ _. poll_offsets-within k found.rtt found.swd) (λ e. omega arith)

  -- The poll returns, with any target and any other tasks, and gives at most the bytes there is room
  -- for, when the search range leaves 256 bytes below 2^32.
  pub poll_up-within :
      (others : S → S) (fuel k : ℕ) (w : World S)
      → w.rtt.search_size + 256 ≤ 2 ^ 32
      → w.rtt.search_size + 256 ≤ 256 * fuel
      → (r : List ℕ × World S) × (poll_up port others fuel k w ≡ some r) × (length r.0 ≤ k)
  unfolding poll_up
  poll_up-within others fuel k w small enough =
      let P = λ (o : Option (List ℕ × World S)).
        (r : List ℕ × World S) × (o ≡ some r) × (length r.0 ≤ k) in
      let after = λ (o : Option (Bool × World S)). elim o as (λ _. Option (List ℕ × World S)) [
        | none ↦ none
        | some r ↦ some (poll_searched port k r)
      ] in
      if_elim P w.rtt.found (some (poll_found port k w))
        (after (search_control_block port others fuel w))
        (λ e. (poll_found port k w, refl, poll_offsets-within k w.rtt w.swd))
        (λ e.
          let (r, ends) = search_control_block-Returns others fuel w small enough in
          (poll_searched port k r, ap after ends, poll_searched-within k r.0 r.1))
