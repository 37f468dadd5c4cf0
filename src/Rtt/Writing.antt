-- ===== src/Rtt/Writing.antt =====
-- The write loop of `write_down` on a port that gives word access: it writes the bytes to the ring.
use mathlib.Core.Path.{subst}
use esp32_daplink.Base.{
  ℕ, zero, suc, ◌+◌, ◌-◌, ◌%◌, ◌^◌, ◌≤◌, ◌<◌, ◌≡◌, refl, sym, ap, ap₂, ◌∙◌, ◌⊎◌, inl, inr, bit_and,
  not, ltb, leb, ◌==◌, ◌&&◌, ◌||◌, false, if◌then◌else◌, if_elim, List, [], ◌∷◌, length, get_or,
  take, drop, length-take, length-drop, u32, add32, arith,
}
use esp32_daplink.Base.Bits.{bit_and-low_mask}
use esp32_daplink.Base.Bits.Split.{clear_two}
use esp32_daplink.Esp.Action.{Result, ok, err, Act, pure}
use esp32_daplink.Port.{SwdPort}
use esp32_daplink.Port.Memory.{Memory}
use esp32_daplink.Exec.Words.{byte_of}
use esp32_daplink.Exec.Stored.{get_or-drop_small}
use esp32_daplink.Rtt.Core.{word_bytes, mem_read32, mem_write32}
use esp32_daplink.Rtt.Access.{mem_read32-Memory, mem_write32-Memory}
use esp32_daplink.Rtt.Poll.{advance}
use esp32_daplink.Rtt.Down.{Filling, fill, bytes_word, in_word, old_word, Writing, write_loop}
use esp32_daplink.Rtt.Ring.{walk, advance-lt}
use esp32_daplink.Rtt.Reading.{ring_byte, word_get}
use esp32_daplink.Rtt.Append.{put_bytes, put_bytes-append, put_bytes_ext}
use esp32_daplink.Rtt.Filling.{IsFilled, fill-IsFilled}
use esp32_daplink.Rtt.Round.{take-drop, bytes_word-lt, stored-put_bytes}

pub walk-walk :
    (size n i total pos : ℕ) → total ≡ n + i → walk size i (walk size n pos) ≡ walk size total pos
walk-walk size zero i total pos e =
    let none_more : i ≡ total = omega (arith, e) in ap (λ j. walk size j pos) none_more
walk-walk size (suc n) i zero pos e = absurd (omega arith)
walk-walk size (suc n) i (suc total) pos e =
    walk-walk size n i total (advance size pos) (omega arith)

pub walk-lt : (size n pos : ℕ) → 0 < size → pos < size → walk size n pos < size
walk-lt size zero pos some h = h
walk-lt size (suc n) pos some h = walk-lt size n (advance size pos) some (advance-lt size pos some)

module _ {S : Type 0} (port : SwdPort S) (m : Memory port) where
  -- The word of a round: what memory has, unless all of it is replaced.
  record IsOld (addr pos : ℕ) (bytes : List ℕ) (s : S) (r : Result ℕ × S) : Type 0 where
    value : ℕ
    after : S
    runs : r ≡ (ok value, after)
    same : (b : ℕ) → m.word after b ≡ m.word s b
    known : (value ≡ m.word s addr) ⊎ ((bit_and pos 3 ≡ 0) × (in_word pos bytes ≡ 4))

  old_word-IsOld :
      (addr pos : ℕ) (bytes : List ℕ) (s : S)
      → addr % 4 ≡ 0
      → addr < 2 ^ 32
      → IsOld addr pos bytes s (old_word port addr pos bytes s)
  unfolding old_word
  old_word-IsOld addr pos bytes s aligned fits =
      let r = mem_read32-Memory port m addr s aligned fits in
      if_elim (λ (f : Act S ℕ). IsOld addr pos bytes s (f s))
        (not (bit_and pos 3 == 0) || not (in_word pos bytes == 4)) (mem_read32 port addr) (pure 0)
        (λ e. record {
          value = m.word s addr;
          after = r.after;
          runs = r.runs;
          same = r.holds;
          known = inl refl;
        })
        (λ e. record {
          value = 0;
          after = s;
          runs = refl;
          same = λ b. refl;
          known = inr (ground (arith, e), ground (arith, e));
        })

  known_bytes :
      (addr pos : ℕ) (bytes : List ℕ) (s : S) (r : Result ℕ × S) {a : ℕ}
      (old : IsOld addr pos bytes s r)
      → addr ≡ a
      → (i : ℕ) → (leb (pos % 4) i && ltb i (pos % 4 + in_word pos bytes)) ≡ false
      → i < 4
      → get_or (word_bytes old.value) i 0 ≡ byte_of (m.word s a) i
  known_bytes addr pos bytes s r old base i untouched few = elim old.known [
    | inl same ↦ word_get old.value i few ∙ ap (λ v. byte_of v i) (same ∙ ap (m.word s) base)
    | inr (start, whole_word) ↦
        absurd (ground (arith, untouched, start, whole_word, bit_and-low_mask 2 pos))
  ]

  -- The outcome of the loop: all is written, behind `pos`, and nothing beside the ring.
  pub record IsWritten (size buf : ℕ) (bytes : List ℕ) (pos : ℕ) (s : S) (r : Writing S)
      : Type 0 where
    pub none_left : r.left ≡ []
    pub is_walk : r.write_pos ≡ walk size (length bytes) pos
    pub ring_is :
        (p : ℕ)
        → p < size
        → ring_byte (m.word r.swd) buf p ≡ put_bytes size (ring_byte (m.word s) buf) bytes pos p
    pub beside : (b : ℕ) → (b < buf) ⊎ (buf + size ≤ b) → m.word r.swd b ≡ m.word s b

  module _ (size buf : ℕ) (some : 0 < size) (whole : size % 4 ≡ 0) (aligned : buf % 4 ≡ 0)
      (fits : buf + size < 2 ^ 32) where
    -- A round before the rest of the loop.
    round-IsWritten :
        (n v pos : ℕ) (bytes : List ℕ) (s t : S) (f : Filling) (r : Writing S)
        → pos < size
        → n ≤ length bytes
        → pos % 4 + n ≤ 4
        → ((j : ℕ) → get_or bytes j 0 < 256)
        → IsFilled size n (pos % 4) bytes (word_bytes v) pos f
        → ((i : ℕ)
            → (leb (pos % 4) i && ltb i (pos % 4 + n)) ≡ false
            → i < 4
            → get_or (word_bytes v) i 0 ≡ byte_of (m.word s (buf + (pos - pos % 4))) i)
        → ((b : ℕ)
            → m.word t b ≡ (if b == buf + (pos - pos % 4) then bytes_word f.word else m.word s b))
        → IsWritten size buf f.left f.pos t r
        → IsWritten size buf bytes pos s r
    round-IsWritten n v pos bytes s t f r h enough one_word small filled old stored rest =
        let at = ring_byte (m.word s) buf in
        let count : length (take n bytes) ≡ n = omega (arith, length-take n bytes) in
        record {
          none_left = rest.none_left;
          is_walk =
              rest.is_walk
              ∙ ap₂ (λ (l : List ℕ) (q : ℕ). walk size (length l) q) filled.left_is filled.pos_is
              ∙ walk-walk size n (length (drop n bytes)) (length bytes) pos
                  (omega (arith, length-drop n bytes));
          ring_is = λ p in_ring.
              rest.ring_is p in_ring
              ∙ ap₂ (λ (l : List ℕ) (q : ℕ). put_bytes size (ring_byte (m.word t) buf) l q p)
                  filled.left_is filled.pos_is
              ∙ put_bytes_ext size (ring_byte (m.word t) buf) (put_bytes size at (take n bytes) pos)
                  (drop n bytes) (walk size n pos) p
                  (λ q small_q.
                    stored-put_bytes size buf n pos v bytes f (m.word s) (m.word t) q (omega arith)
                      whole h enough one_word small filled old stored)
                  in_ring
              ∙ ap
                  (λ i.
                    put_bytes size (put_bytes size at (take n bytes) pos) (drop n bytes)
                      (walk size i pos) p)
                  (sym count)
              ∙ ap (λ g. g p) (sym (put_bytes-append size at (take n bytes) (drop n bytes) pos))
              ∙ ap (λ l. put_bytes size at l pos p) (take-drop n bytes);
          beside = λ b out. rest.beside b out ∙ stored b ∙ outside b out;
        }
      where
        outside :
            (b : ℕ)
            → (b < buf) ⊎ (buf + size ≤ b)
            → (if b == buf + (pos - pos % 4) then bytes_word f.word else m.word s b) ≡ m.word s b
        outside b (inl below) = ground arith
        outside b (inr above) = ground arith

    -- A round whose two accesses succeed.
    write_loop-round :
        (fuel b pos v : ℕ) (bytes : List ℕ) (s t u : S)
        → old_word port (add32 buf (bit_and pos (2 ^ 32 - 4))) pos (b ∷ bytes) s ≡ (ok v, t)
        → mem_write32 port
            (add32 buf (bit_and pos (2 ^ 32 - 4)))
            (bytes_word
              (fill size
                (in_word pos (b ∷ bytes))
                (bit_and pos 3)
                (b ∷ bytes)
                (word_bytes v)
                pos).word)
            t
          ≡ (ok tt, u)
        → write_loop port size buf (suc fuel) (b ∷ bytes) pos s
          ≡ write_loop port size buf fuel
              (fill size
                (in_word pos (b ∷ bytes))
                (bit_and pos 3)
                (b ∷ bytes)
                (word_bytes v)
                pos).left
              (fill size
                (in_word pos (b ∷ bytes))
                (bit_and pos 3)
                (b ∷ bytes)
                (word_bytes v)
                pos).pos
              u
    unfolding write_loop
    write_loop-round fuel b pos v bytes s t u read stored =
        ap
          (λ (x : Result ℕ × S). elim x.0 as (λ _. Writing S) [
            | err _ ↦ record { left = b ∷ bytes; write_pos = pos; swd = x.1 }
            | ok word ↦
                let f =
                  fill size (in_word pos (b ∷ bytes)) (bit_and pos 3) (b ∷ bytes) (word_bytes word)
                    pos in
                let y =
                  mem_write32 port (add32 buf (bit_and pos (2 ^ 32 - 4))) (bytes_word f.word) x.1 in
                elim y.0 as (λ _. Writing S) [
                  | err _ ↦ record { left = f.left; write_pos = f.pos; swd = y.1 }
                  | ok _ ↦ write_loop port size buf fuel f.left f.pos y.1
                ]
          ])
          read
        ∙ ap
            (λ (y : Result (Unit {0}) × S).
              let f =
                fill size (in_word pos (b ∷ bytes)) (bit_and pos 3) (b ∷ bytes) (word_bytes v)
                  pos in
              elim y.0 as (λ _. Writing S) [
                | err _ ↦ record { left = f.left; write_pos = f.pos; swd = y.1 }
                | ok _ ↦ write_loop port size buf fuel f.left f.pos y.1
              ])
            stored

    pub write_loop-IsWritten :
        (fuel : ℕ) (bytes : List ℕ) (pos : ℕ) (s : S)
        → length bytes ≤ fuel
        → pos < size
        → ((j : ℕ) → get_or bytes j 0 < 256)
        → IsWritten size buf bytes pos s (write_loop port size buf fuel bytes pos s)
    unfolding write_loop word_bytes
    write_loop-IsWritten zero (b ∷ bytes) pos s enough h small = absurd (omega arith)
    write_loop-IsWritten zero [] pos s enough h small = record {
      none_left = refl;
      is_walk = refl;
      ring_is = λ p in_ring. refl;
      beside = λ b out. refl;
    }
    write_loop-IsWritten (suc fuel) [] pos s enough h small = record {
      none_left = refl;
      is_walk = refl;
      ring_is = λ p in_ring. refl;
      beside = λ b out. refl;
    }
    write_loop-IsWritten (suc fuel) (b ∷ bytes) pos s enough h small =
        let all = b ∷ bytes in
        let n = in_word pos all in
        let addr = add32 buf (bit_and pos (2 ^ 32 - 4)) in
        let low : bit_and pos 3 ≡ pos % 4 = bit_and-low_mask 2 pos in
        let base : addr ≡ buf + (pos - pos % 4) = omega (arith, clear_two pos (omega arith)) in
        let old = old_word-IsOld addr pos all s (omega (arith, base)) (omega arith) in
        let f = fill size n (bit_and pos 3) all (word_bytes old.value) pos in
        let w =
          mem_write32-Memory port m addr (bytes_word f.word) old.after (omega (arith, base))
            (omega arith) in
        let filled =
          fill-IsFilled size n (bit_and pos 3) all (word_bytes old.value) pos (omega arith)
            (omega (arith, low)) in
        let word_fits : u32 (bytes_word f.word) ≡ bytes_word f.word =
          omega (arith, bytes_word-lt size n (bit_and pos 3) all old.value pos f small filled) in
        let left_size : length f.left ≡ length all - n =
          ap length filled.left_is ∙ length-drop n all in
        let rest =
          write_loop-IsWritten fuel f.left f.pos w.after (omega (arith, left_size, low))
            (subst (λ q. q < size) (sym filled.pos_is) (walk-lt size n pos some h))
            (λ j.
              subst (λ l. get_or l j 0 < 256) (sym filled.left_is)
                (get_or-drop_small all n 0 small j)) in
        subst (IsWritten size buf all pos s)
          (sym (write_loop-round fuel b pos old.value bytes s old.after w.after old.runs w.runs))
          (round-IsWritten n old.value pos all s w.after f
            (write_loop port size buf fuel f.left f.pos w.after) h (omega arith)
            (omega (arith, low)) small
            (subst (λ k. IsFilled size n k all (word_bytes old.value) pos f) low filled)
            (known_bytes addr pos all s (old_word port addr pos all s) old base)
            (λ b. w.holds b ∙ ground (arith, base, old.same b, word_fits)) rest)
