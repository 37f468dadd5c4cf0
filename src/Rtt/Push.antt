-- ===== src/Rtt/Push.antt =====
-- `write_down`, on a port that gives word access, appends bytes to the down buffer's queue.
use mathlib.Core.Path.{subst, fun_ext}
use esp32_daplink.Base.{
  ℕ, ◌+◌, ◌-◌, ◌%◌, ◌^◌, ◌≤◌, ◌<◌, ◌≡◌, refl, sym, ap, ap₂, ◌∙◌, ◌⊎◌, inl, inr, min, ltb, leb, ◌==◌,
  ◌&&◌, ◌||◌, true, false, if◌then◌else◌, if_elim, le-or-lt, List, [], ◌++◌, length, get_or, take,
  length-take, u32, add32, arith,
}
use esp32_daplink.Esp.Action.{Result, ok, err}
use esp32_daplink.Port.{SwdPort}
use esp32_daplink.Port.Memory.{Memory}
use esp32_daplink.Exec.Words.{byte_of}
use esp32_daplink.Rtt.Core.{Rtt, mem_read32, mem_write32}
use esp32_daplink.Rtt.Search.{World}
use esp32_daplink.Rtt.Access.{mem_read32-Memory, mem_write32-Memory}
use esp32_daplink.Rtt.Down.{Writing, write_loop, write_ring, write_offsets, write_down, free_space}
use esp32_daplink.Rtt.Ring.{walk}
use esp32_daplink.Rtt.Reading.{ring_byte}
use esp32_daplink.Rtt.Polling.{unmoved}
use esp32_daplink.Rtt.Append.{put_bytes}
use esp32_daplink.Rtt.Round.{get_or-take_small}
use esp32_daplink.Rtt.Writing.{walk-lt, IsWritten, write_loop-IsWritten}
use esp32_daplink.Rtt.Pushed.{
  down_wr_addr, down_rd_addr, down_queue, length-down_queue, IsDownBuffer, unread-lt,
  free_space-unread, pushed-down_queue,
}

module _ {S : Type 0} (port : SwdPort S) (m : Memory port) where
  -- The bytes that there is room for are appended to the queue, and counted; the buffer stays in
  -- good order, and beside it and `WrOff` the memory is as it was.
  pub record Pushed (bytes : List ℕ) (g : Rtt) (word : ℕ → ℕ) (r : ℕ × S) : Type 0 where
    pub count : r.0 ≡ min (length bytes) (g.down0_size - 1 - length (down_queue g word))
    pub appended : down_queue g (m.word r.1) ≡ down_queue g word ++ take r.0 bytes
    pub kept : IsDownBuffer g (m.word r.1)
    pub beside :
        (b : ℕ)
        → m.word r.1 b ≡ (
            if (leb g.down0_buf_ptr b && ltb b (g.down0_buf_ptr + g.down0_size))
              || b == down_wr_addr g
            then m.word r.1 b
            else word b)

  -- The store of `WrOff` behind a loop that has written all of `sent`.
  module _ (g : Rtt) (sent : List ℕ) (s : S) (r : Writing S) (down : IsDownBuffer g (m.word s))
      (written : IsWritten port m g.down0_size g.down0_buf_ptr sent (m.word s (down_wr_addr g)) s r)
      (t : S)
      (stored : (b : ℕ)
        → m.word t b ≡ (if b == down_wr_addr g then r.write_pos else m.word r.swd b)) where
    stored_bytes :
        (p : ℕ)
        → p < g.down0_size
        → ring_byte (m.word t) g.down0_buf_ptr p
          ≡ put_bytes g.down0_size
              (ring_byte (m.word s) g.down0_buf_ptr)
              sent
              (m.word s (down_wr_addr g))
              p
    unfolding ring_byte
    stored_bytes p h =
        ap (λ w. byte_of w (p % 4))
          (stored (g.down0_buf_ptr + (p - p % 4)) ∙ ground (arith, down.apart))
        ∙ written.ring_is p h

    stored_wr :
        m.word t (down_wr_addr g) ≡ walk g.down0_size (length sent) (m.word s (down_wr_addr g))
    stored_wr = stored (down_wr_addr g) ∙ ground arith ∙ written.is_walk

    stored_rd : m.word t (down_rd_addr g) ≡ m.word s (down_rd_addr g)
    stored_rd = stored (down_rd_addr g) ∙ ground arith ∙ written.beside (down_rd_addr g) rd_apart
      where
        rd_apart :
            (down_rd_addr g < g.down0_buf_ptr) ⊎ (g.down0_buf_ptr + g.down0_size ≤ down_rd_addr g)
        rd_apart = elim down.apart [ inl below ↦ inl below | inr above ↦ inr (omega arith) ]

    stored-IsDownBuffer : IsDownBuffer g (m.word t)
    stored-IsDownBuffer = record {
      base_aligned = down.base_aligned;
      base_fits = down.base_fits;
      some = down.some;
      whole = down.whole;
      buf_aligned = down.buf_aligned;
      buf_fits = down.buf_fits;
      apart = down.apart;
      wr_inside =
          subst (λ x. x < g.down0_size) (sym stored_wr)
            (walk-lt g.down0_size (length sent) (m.word s (down_wr_addr g)) down.some
              down.wr_inside);
      rd_inside = subst (λ x. x < g.down0_size) (sym stored_rd) down.rd_inside;
    }

    stored_beside :
        (b : ℕ)
        → m.word t b ≡ (
            if (leb g.down0_buf_ptr b && ltb b (g.down0_buf_ptr + g.down0_size))
              || b == down_wr_addr g
            then m.word t b
            else m.word s b)
    stored_beside b =
        if_elim (λ x. m.word t b ≡ x)
          ((leb g.down0_buf_ptr b && ltb b (g.down0_buf_ptr + g.down0_size)) || b == down_wr_addr g)
          (m.word t b) (m.word s b) (λ _. refl)
          (λ e.
            stored b
            ∙ ground (arith, e)
            ∙ written.beside b (outside (le-or-lt g.down0_buf_ptr b) e))
      where
        outside :
            (g.down0_buf_ptr ≤ b) ⊎ (b < g.down0_buf_ptr)
            → ((leb g.down0_buf_ptr b && ltb b (g.down0_buf_ptr + g.down0_size))
                || b == down_wr_addr g)
              ≡ false
            → (b < g.down0_buf_ptr) ⊎ (g.down0_buf_ptr + g.down0_size ≤ b)
        outside (inl above) e = inr (ground (arith, e))
        outside (inr below) e = inl below

    stored-Pushed :
        (bytes : List ℕ)
        → sent
          ≡ take (min (length bytes) (g.down0_size - 1 - length (down_queue g (m.word s)))) bytes
        → length (down_queue g (m.word s)) < g.down0_size
        → Pushed bytes g (m.word s) (length sent, t)
    stored-Pushed bytes e room =
        let free = g.down0_size - 1 - length (down_queue g (m.word s)) in
        let count : length sent ≡ min (length bytes) free =
          ap length e ∙ length-take (min (length bytes) free) bytes ∙ omega arith in
        record {
          count = count;
          appended =
              pushed-down_queue g (m.word s) (m.word t) sent down (omega (arith, count)) stored_rd
                stored_wr stored_bytes
              ∙ ap (λ xs. down_queue g (m.word s) ++ xs) (e ∙ ap (λ i. take i bytes) (sym count));
          kept = stored-IsDownBuffer;
          beside = stored_beside;
        }

  idle-Pushed :
      (g : Rtt) (bytes : List ℕ) (s t : S)
      → IsDownBuffer g (m.word s)
      → length (down_queue g (m.word s)) < g.down0_size
      → min (length bytes) (g.down0_size - 1 - length (down_queue g (m.word s))) ≡ 0
      → ((b : ℕ) → m.word t b ≡ m.word s b)
      → Pushed bytes g (m.word s) (0, t)
  idle-Pushed g bytes s t down room full same =
      let wr = m.word s (down_wr_addr g) in
      let r : Writing S = record { left = []; write_pos = wr; swd = t } in
      stored-Pushed g [] s r down
        (record {
          none_left = refl;
          is_walk = refl;
          ring_is = λ p h. same_byte p;
          beside = λ b out. same b;
        })
        t (λ b. unmoved (m.word t) (down_wr_addr g) b wr (sym (same (down_wr_addr g)))) bytes
        (ap (λ i. take i bytes) (sym full)) room
    where
      same_byte :
          (p : ℕ) → ring_byte (m.word t) g.down0_buf_ptr p ≡ ring_byte (m.word s) g.down0_buf_ptr p
      same_byte p = ap (λ f. ring_byte f g.down0_buf_ptr p) (fun_ext same)

  write_ring-Pushed :
      (bytes : List ℕ) (g : Rtt) (s : S)
      → IsDownBuffer g (m.word s)
      → ((j : ℕ) → get_or bytes j 0 < 256)
      → Pushed bytes g
          (m.word s)
          (write_ring port bytes g (m.word s (down_wr_addr g)) (m.word s (down_rd_addr g)) s)
  unfolding write_ring
  write_ring-Pushed bytes g s down small =
      let size = g.down0_size in
      let wr = m.word s (down_wr_addr g) in
      let rd = m.word s (down_rd_addr g) in
      let free = size - 1 - length (down_queue g (m.word s)) in
      let queued = length-down_queue g (m.word s) in
      let below : size < 2 ^ 32 = omega (arith, down.buf_fits) in
      let free_is : free_space size wr rd ≡ free =
        free_space-unread size wr rd below down.wr_inside down.rd_inside
        ∙ ap (λ n. size - 1 - n) (sym queued) in
      let room : length (down_queue g (m.word s)) < size =
        omega (arith, queued, unread-lt size wr rd down.wr_inside down.rd_inside) in
      let sent = take (min (length bytes) (free_space size wr rd)) bytes in
      let sent_is : sent ≡ take (min (length bytes) free) bytes =
        ap (λ n. take (min (length bytes) n) bytes) free_is in
      let sent_size : length sent ≡ min (length bytes) free =
        ap length sent_is ∙ length-take (min (length bytes) free) bytes ∙ omega arith in
      let r = write_loop port size g.down0_buf_ptr (length sent) sent wr s in
      let written =
        write_loop-IsWritten port m size g.down0_buf_ptr down.some down.whole down.buf_aligned
          down.buf_fits (length sent) sent wr s (omega arith) down.wr_inside
          (get_or-take_small (min (length bytes) (free_space size wr rd)) bytes small) in
      let at : add32 g.down0_base 0x0C ≡ down_wr_addr g = omega (arith, down.base_fits) in
      let w =
        mem_write32-Memory port m (add32 g.down0_base 0x0C) r.write_pos r.swd
          (omega (arith, at, down.base_aligned)) (omega arith) in
      let place = walk-lt size (length sent) wr down.some down.wr_inside in
      let place_fits : u32 r.write_pos ≡ r.write_pos =
        omega (arith, written.is_walk, place, below) in
      let count : length sent - length r.left ≡ length sent =
        omega (arith, ap length written.none_left) in
      if_elim (Pushed bytes g (m.word s)) (length sent == 0) (0, s) _
        (λ e. idle-Pushed g bytes s s down room (ground (arith, e, sent_size)) (λ b. refl))
        (λ e.
          let moved : (if ltb 0 (length sent - length r.left)
                then (mem_write32 port (add32 g.down0_base 0x0C) r.write_pos r.swd).1
                else r.swd)
              ≡ w.after =
            if_elim (λ t. t ≡ w.after) (ltb 0 (length sent - length r.left))
              (mem_write32 port (add32 g.down0_base 0x0C) r.write_pos r.swd).1 r.swd
              (λ _. ap (λ (x : Result (Unit {0}) × S). x.1) w.runs)
              (λ none_sent. absurd (ground (arith, e, none_sent, count))) in
          subst (Pushed bytes g (m.word s)) (sym (ap₂ (λ (n : ℕ) (t : S). (n, t)) count moved)) (
            stored-Pushed g sent s r down written w.after
              (λ b. w.holds b ∙ ap₂ (λ v a. if b == a then v else m.word r.swd b) place_fits at)
              bytes sent_is room))

  write_offsets-Pushed :
      (bytes : List ℕ) (g : Rtt) (s : S)
      → IsDownBuffer g (m.word s)
      → ((j : ℕ) → get_or bytes j 0 < 256)
      → Pushed bytes g (m.word s) (write_offsets port bytes g s)
  unfolding write_offsets
  write_offsets-Pushed bytes g s down small =
      let wr_at : add32 g.down0_base 0x0C ≡ down_wr_addr g = omega (arith, down.base_fits) in
      let rd_at : add32 g.down0_base 0x10 ≡ down_rd_addr g = omega (arith, down.base_fits) in
      let a =
        mem_read32-Memory port m (add32 g.down0_base 0x0C) s
          (omega (arith, wr_at, down.base_aligned)) (omega arith) in
      let b =
        mem_read32-Memory port m (add32 g.down0_base 0x10) a.after
          (omega (arith, rd_at, down.base_aligned)) (omega arith) in
      let same : m.word b.after ≡ m.word s = fun_ext (λ i. b.holds i ∙ a.holds i) in
      let wr : m.word s (add32 g.down0_base 0x0C) ≡ m.word b.after (down_wr_addr g) =
        ap (m.word s) wr_at ∙ sym (ap (λ f. f (down_wr_addr g)) same) in
      let rd : m.word a.after (add32 g.down0_base 0x10) ≡ m.word b.after (down_rd_addr g) =
        ap (m.word a.after) rd_at ∙ sym (b.holds (down_rd_addr g)) in
      subst (Pushed bytes g (m.word s))
        (sym (
          ap
            (λ (x : Result ℕ × S). elim x.0 as (λ _. ℕ × S) [
              | err _ ↦ (0, x.1)
              | ok wr_off ↦
                  let y = mem_read32 port (add32 g.down0_base 0x10) x.1 in
                  elim y.0 as (λ _. ℕ × S) [
                    | err _ ↦ (0, y.1)
                    | ok rd_off ↦ write_ring port bytes g wr_off rd_off y.1
                  ]
            ])
            a.runs
          ∙ ap
              (λ (y : Result ℕ × S). elim y.0 as (λ _. ℕ × S) [
                | err _ ↦ (0, y.1)
                | ok rd_off ↦
                    write_ring port bytes g (m.word s (add32 g.down0_base 0x0C)) rd_off y.1
              ])
              b.runs
          ∙ ap₂ (λ (x y : ℕ). write_ring port bytes g x y b.after) wr rd))
        (subst
          (λ f. Pushed bytes g f (
            write_ring port bytes g (m.word b.after (down_wr_addr g))
              (m.word b.after (down_rd_addr g)) b.after))
          same (write_ring-Pushed bytes g b.after (subst (IsDownBuffer g) (sym same) down) small))

  -- Bytes for a down buffer that is found are appended to what the target has not read, as many as
  -- there is room for, and counted; beside the ring and `WrOff` the memory is as it was.
  pub write_down-Pushed :
      (bytes : List ℕ) (w : World S)
      → w.rtt.found ≡ true
      → (w.rtt.max_down == 0) ≡ false
      → IsDownBuffer w.rtt (m.word w.swd)
      → ((j : ℕ) → get_or bytes j 0 < 256)
      → (n : ℕ) × (s : S) × (write_down port bytes w ≡ (n, record w { swd = s }))
        × Pushed bytes w.rtt (m.word w.swd) (n, s)
  unfolding write_down
  write_down-Pushed bytes w found some_down down small =
      let r = write_offsets port bytes w.rtt w.swd in
      let sized : (w.rtt.down0_size == 0) ≡ false = ground (arith, down.some) in
      (
        r.0,
        r.1,
        ground (arith, found, some_down, sized),
        write_offsets-Pushed bytes w.rtt w.swd down small,
      )
