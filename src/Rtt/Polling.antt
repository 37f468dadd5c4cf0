-- ===== src/Rtt/Polling.antt =====
-- `poll_up`, on a port that gives word access, takes bytes from the front of the up buffer's queue.
use mathlib.Core.Path.{subst}
use esp32_daplink.Base.{
  ℕ, ◌≡◌, refl, sym, ap, ap₂, ◌∙◌, inl, min, ltb, ◌==◌, true, false, if_elim, if◌then◌else◌, some,
  List, [], length, u32, add32, arith,
}
use esp32_daplink.Esp.Action.{Result, ok, err}
use esp32_daplink.Port.{SwdPort}
use esp32_daplink.Port.Memory.{Memory}
use esp32_daplink.Rtt.Core.{Rtt, mem_read32, mem_write32}
use esp32_daplink.Rtt.Search.{World}
use esp32_daplink.Rtt.Access.{mem_read32-Memory, mem_write32-Memory}
use esp32_daplink.Rtt.Poll.{
  Reading, read_loop, store_rd_off, read_ring, available, poll_offsets, poll_up,
}
use esp32_daplink.Rtt.Ring.{walk, unread, length-ring, available-unread}
use esp32_daplink.Rtt.Reading.{ring_byte, read_loop-IsRead}
use esp32_daplink.Rtt.Queue.{wr_addr, rd_addr, IsUpBuffer, walk-lt, Polled, moved-Polled}

unread_self : (size wr rd : ℕ) → (wr == rd) ≡ true → unread size wr rd ≡ 0
unfolding unread
unread_self size wr rd e = ground (arith, e)

-- A memory with a word put where it stands already.
pub unmoved : (word : ℕ → ℕ) (a b v : ℕ) → v ≡ word a → word b ≡ (if b == a then v else word b)
unmoved word a b v e =
    if_elim (λ x. word b ≡ x) (b == a) v (word b) (λ t. ap word (ground (arith, t)) ∙ sym e)
      (λ t. refl)

module _ {S : Type 0} (port : SwdPort S) (m : Memory port) where
  store_rd_off-moved :
      (g : Rtt) (word : ℕ → ℕ) (n : ℕ) (r : Reading S)
      → IsUpBuffer g word
      → length r.bytes ≡ n
      → r.read_pos ≡ walk g.up0_size n (word (rd_addr g))
      → ((b : ℕ) → m.word r.swd b ≡ word b)
      → (b : ℕ)
      → m.word (store_rd_off port g r) b
        ≡ (if b == rd_addr g then walk g.up0_size n (word (rd_addr g)) else word b)
  unfolding store_rd_off
  store_rd_off-moved g word n r up count place same b =
      let at : add32 g.up0_base 0x10 ≡ rd_addr g = omega (arith, up.base_fits) in
      let w =
        mem_write32-Memory port m (add32 g.up0_base 0x10) r.read_pos r.swd
          (omega (arith, at, up.base_aligned)) (omega arith) in
      let small = walk-lt g.up0_size n (word (rd_addr g)) up.some up.rd_inside in
      let place_fits : u32 r.read_pos ≡ walk g.up0_size n (word (rd_addr g)) =
        omega (arith, place, small, up.buf_fits) in
      if_elim
        (λ t.
          m.word t b ≡ (if b == rd_addr g then walk g.up0_size n (word (rd_addr g)) else word b))
        (ltb 0 (length r.bytes)) (mem_write32 port (add32 g.up0_base 0x10) r.read_pos r.swd).1 r.swd
        (λ e.
          ap (λ (x : Result (Unit {0}) × S). m.word x.1 b) w.runs
          ∙ w.holds b
          ∙ ground (arith, at, place_fits, same b))
        (λ e.
          same b
          ∙ unmoved word (rd_addr g) b (walk g.up0_size n (word (rd_addr g)))
              (ap (λ i. walk g.up0_size i (word (rd_addr g))) (nothing e)))
    where
      nothing : ltb 0 (length r.bytes) ≡ false → n ≡ 0
      nothing e = ground (arith, e, count)

  read_ring-Polled :
      (k : ℕ) (g : Rtt) (word : ℕ → ℕ) (s : S)
      → IsUpBuffer g word
      → ((b : ℕ) → m.word s b ≡ word b)
      → Polled port m k g word (read_ring port k g (word (wr_addr g)) (word (rd_addr g)) s)
  unfolding read_ring
  read_ring-Polled k g word s up same =
      let wr = word (wr_addr g) in
      let rd = word (rd_addr g) in
      let n = min (available g.up0_size wr rd) k in
      let r = read_loop port g.up0_size g.up0_buf_ptr n [] rd s in
      let read =
        read_loop-IsRead port m word g.up0_size g.up0_buf_ptr up.some up.whole up.buf_aligned
          up.buf_fits n rd [] s up.rd_inside (inl refl) same in
      if_elim (Polled port m k g word) (wr == rd) ([], s) (r.bytes, store_rd_off port g r)
        (λ e.
          moved-Polled port m k 0 g word [] s up (omega (arith, unread_self g.up0_size wr rd e))
            refl (λ b. same b ∙ unmoved word (rd_addr g) b rd refl))
        (λ e.
          moved-Polled port m k n g word r.bytes (store_rd_off port g r) up
            (omega (
              arith,
              available-unread g.up0_size wr rd (omega (arith, up.buf_fits)) up.wr_inside
                  up.rd_inside e,
            ))
            read.is_ring
            (store_rd_off-moved g word n r up
              (ap length read.is_ring ∙ length-ring g.up0_size (ring_byte word g.up0_buf_ptr) n rd)
              read.is_walk read.same))

  poll_offsets-Polled :
      (k : ℕ) (g : Rtt) (s : S)
      → IsUpBuffer g (m.word s)
      → Polled port m k g (m.word s) (poll_offsets port k g s)
  unfolding poll_offsets
  poll_offsets-Polled k g s up =
      let wr_at : add32 g.up0_base 0x0C ≡ wr_addr g = omega (arith, up.base_fits) in
      let rd_at : add32 g.up0_base 0x10 ≡ rd_addr g = omega (arith, up.base_fits) in
      let a =
        mem_read32-Memory port m (add32 g.up0_base 0x0C) s (omega (arith, wr_at, up.base_aligned))
          (omega arith) in
      let b =
        mem_read32-Memory port m (add32 g.up0_base 0x10) a.after
          (omega (arith, rd_at, up.base_aligned)) (omega arith) in
      let wr : m.word s (add32 g.up0_base 0x0C) ≡ m.word s (wr_addr g) = ap (m.word s) wr_at in
      let rd : m.word a.after (add32 g.up0_base 0x10) ≡ m.word s (rd_addr g) =
        ap (m.word a.after) rd_at ∙ a.holds (rd_addr g) in
      subst (Polled port m k g (m.word s))
        (sym (
          ap
            (λ (x : Result ℕ × S). elim x.0 as (λ _. List ℕ × S) [
              | err _ ↦ ([], x.1)
              | ok wr_off ↦
                  let y = mem_read32 port (add32 g.up0_base 0x10) x.1 in
                  elim y.0 as (λ _. List ℕ × S) [
                    | err _ ↦ ([], y.1)
                    | ok rd_off ↦ read_ring port k g wr_off rd_off y.1
                  ]
            ])
            a.runs
          ∙ ap
              (λ (y : Result ℕ × S). elim y.0 as (λ _. List ℕ × S) [
                | err _ ↦ ([], y.1)
                | ok rd_off ↦ read_ring port k g (m.word s (add32 g.up0_base 0x0C)) rd_off y.1
              ])
              b.runs
          ∙ ap₂ (λ (x y : ℕ). read_ring port k g x y b.after) wr rd))
        (read_ring-Polled k g (m.word s) b.after up (λ i. b.holds i ∙ a.holds i))

  -- A poll that has found the buffer takes the oldest bytes that are not read, as many as there are
  -- room for, and leaves the others in the target's buffer, which stays in good order.
  pub poll_up-Polled :
      (others : S → S) (fuel k : ℕ) (w : World S)
      → w.rtt.found ≡ true
      → IsUpBuffer w.rtt (m.word w.swd)
      → (s : S) × (bytes : List ℕ) × (poll_up port others fuel k w
          ≡ some (bytes, record w { swd = s }))
        × Polled port m k w.rtt (m.word w.swd) (bytes, s)
  unfolding poll_up
  poll_up-Polled others fuel k w found up =
      let r = poll_offsets port k w.rtt w.swd in
      (r.1, r.0, ground (arith, found), poll_offsets-Polled k w.rtt w.swd up)
