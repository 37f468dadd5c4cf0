-- ===== src/Rtt/Queue.antt =====
-- `poll_up` takes bytes from the front of a queue, which the up buffer holds.
use esp32_daplink.Base.{
  ℕ, zero, suc, ◌+◌, ◌-◌, ◌%◌, ◌^◌, ◌≤◌, ◌<◌, ◌≡◌, refl, sym, ap, ap₂, ◌∙◌, ◌⊎◌, inl, inr, min,
  ◌==◌, if◌then◌else◌, List, [], ◌∷◌, length, take, drop, arith,
}
use esp32_daplink.Port.{SwdPort}
use esp32_daplink.Port.Memory.{Memory}
use esp32_daplink.Exec.Words.{byte_of}
use esp32_daplink.Rtt.Core.{Rtt}
use esp32_daplink.Rtt.Poll.{advance}
use esp32_daplink.Rtt.Ring.{
  walk, ring, unread, advance-lt, length-ring, take-ring, drop-ring, ring_ext, unread-walk,
}
use esp32_daplink.Rtt.Reading.{ring_byte}

-- The words of the descriptor.
abbrev pub wr_addr : Rtt → ℕ
wr_addr g = g.up0_base + 0x0C

abbrev pub rd_addr : Rtt → ℕ
rd_addr g = g.up0_base + 0x10

-- The bytes that the target has put in the up buffer and that are not read, the oldest first.
unfoldable pub queue : Rtt → (ℕ → ℕ) → List ℕ
queue g word =
    ring g.up0_size (ring_byte word g.up0_buf_ptr)
      (unread g.up0_size (word (wr_addr g)) (word (rd_addr g))) (word (rd_addr g))

-- A buffer of whole words, apart from its descriptor, with offsets inside of it.
pub record IsUpBuffer (g : Rtt) (word : ℕ → ℕ) : Type 0 where
  pub base_aligned : g.up0_base % 4 ≡ 0
  pub base_fits : g.up0_base + 0x14 < 2 ^ 32
  pub some : 0 < g.up0_size
  pub whole : g.up0_size % 4 ≡ 0
  pub buf_aligned : g.up0_buf_ptr % 4 ≡ 0
  pub buf_fits : g.up0_buf_ptr + g.up0_size < 2 ^ 32
  pub apart : (rd_addr g < g.up0_buf_ptr) ⊎ (g.up0_buf_ptr + g.up0_size ≤ rd_addr g)
  pub wr_inside : word (wr_addr g) < g.up0_size
  pub rd_inside : word (rd_addr g) < g.up0_size

pub walk-lt : (size n pos : ℕ) → 0 < size → pos < size → walk size n pos < size
walk-lt size zero pos some h = h
walk-lt size (suc n) pos some h = walk-lt size n (advance size pos) some (advance-lt size pos some)

-- The queue after `RdOff` is moved `n` places on.
queue-walk :
    (g : Rtt) (word after : ℕ → ℕ) (n : ℕ)
    → IsUpBuffer g word
    → n ≤ unread g.up0_size (word (wr_addr g)) (word (rd_addr g))
    → ((b : ℕ)
        → after b ≡ (if b == rd_addr g then walk g.up0_size n (word (rd_addr g)) else word b))
    → queue g after ≡ drop n (queue g word)
unfolding queue ring_byte
queue-walk g word after n up h moved =
    let size = g.up0_size in
    let rd = word (rd_addr g) in
    let inside = walk-lt size n rd up.some up.rd_inside in
    let wr_same : after (wr_addr g) ≡ word (wr_addr g) = moved (wr_addr g) ∙ ground arith in
    let rd_moved : after (rd_addr g) ≡ walk size n rd = moved (rd_addr g) ∙ ground arith in
    let left = unread size (word (wr_addr g)) rd - n in
    let count : unread size (word (wr_addr g)) rd ≡ n + left = omega arith in
    ring_ext size (ring_byte after g.up0_buf_ptr) (ring_byte word g.up0_buf_ptr)
      (unread size (after (wr_addr g)) (after (rd_addr g))) (after (rd_addr g)) up.some
      (omega (arith, rd_moved, inside)) bytes
    ∙ ap₂ (λ (k p : ℕ). ring size (ring_byte word g.up0_buf_ptr) k p)
        (ap₂ (unread size) wr_same rd_moved
          ∙ unread-walk size (word (wr_addr g)) rd n left (omega (arith, up.buf_fits)) up.wr_inside
              up.rd_inside count)
        rd_moved
    ∙ sym (
        drop-ring size (ring_byte word g.up0_buf_ptr) n (unread size (word (wr_addr g)) rd) left rd
          count)
  where
    bytes :
        (p : ℕ) → p < g.up0_size → ring_byte after g.up0_buf_ptr p ≡ ring_byte word g.up0_buf_ptr p
    bytes p small = elim up.apart [
      | inl below ↦ ap (λ w. byte_of w (p % 4)) (moved (g.up0_buf_ptr + (p - p % 4)) ∙ ground arith)
      | inr above ↦ ap (λ w. byte_of w (p % 4)) (moved (g.up0_buf_ptr + (p - p % 4)) ∙ ground arith)
    ]

moved-IsUpBuffer :
    (g : Rtt) (word after : ℕ → ℕ) (n : ℕ)
    → IsUpBuffer g word
    → ((b : ℕ)
        → after b ≡ (if b == rd_addr g then walk g.up0_size n (word (rd_addr g)) else word b))
    → IsUpBuffer g after
moved-IsUpBuffer g word after n up moved =
    let inside = walk-lt g.up0_size n (word (rd_addr g)) up.some up.rd_inside in
    let wr_same : after (wr_addr g) ≡ word (wr_addr g) = moved (wr_addr g) ∙ ground arith in
    let rd_moved : after (rd_addr g) ≡ walk g.up0_size n (word (rd_addr g)) =
      moved (rd_addr g) ∙ ground arith in
    record {
      base_aligned = up.base_aligned;
      base_fits = up.base_fits;
      some = up.some;
      whole = up.whole;
      buf_aligned = up.buf_aligned;
      buf_fits = up.buf_fits;
      apart = up.apart;
      wr_inside = omega (arith, wr_same, up.wr_inside);
      rd_inside = omega (arith, rd_moved, inside);
    }

drop-min : (xs : List ℕ) (k n : ℕ) → n ≡ min (length xs) k → drop n xs ≡ drop k xs
drop-min [] zero zero h = refl
drop-min [] (suc k) zero h = refl
drop-min [] k (suc n) h = absurd (omega arith)
drop-min (x ∷ xs) zero zero h = refl
drop-min (x ∷ xs) zero (suc n) h = absurd (omega arith)
drop-min (x ∷ xs) (suc k) zero h = absurd (omega arith)
drop-min (x ∷ xs) (suc k) (suc n) h = drop-min xs k n (omega arith)

module _ {S : Type 0} (port : SwdPort S) (m : Memory port) where
  -- `k` bytes at most are taken from the front of the queue; only `RdOff` is written.
  pub record Polled (k : ℕ) (g : Rtt) (word : ℕ → ℕ) (r : List ℕ × S) : Type 0 where
    pub taken : r.0 ≡ take k (queue g word)
    pub left : queue g (m.word r.1) ≡ drop k (queue g word)
    pub moved :
        (b : ℕ)
        → m.word r.1 b
          ≡ (if b == rd_addr g then walk g.up0_size (length r.0) (word (rd_addr g)) else word b)
    pub kept : IsUpBuffer g (m.word r.1)

  pub moved-Polled :
      (k n : ℕ) (g : Rtt) (word : ℕ → ℕ) (bytes : List ℕ) (s : S)
      → IsUpBuffer g word
      → n ≡ min (unread g.up0_size (word (wr_addr g)) (word (rd_addr g))) k
      → bytes ≡ ring g.up0_size (ring_byte word g.up0_buf_ptr) n (word (rd_addr g))
      → ((b : ℕ)
          → m.word s b ≡ (if b == rd_addr g then walk g.up0_size n (word (rd_addr g)) else word b))
      → Polled k g word (bytes, s)
  unfolding queue
  moved-Polled k n g word bytes s up count e moved =
      let at = ring_byte word g.up0_buf_ptr in
      let all = unread g.up0_size (word (wr_addr g)) (word (rd_addr g)) in
      let size_is : length bytes ≡ n =
        ap length e ∙ length-ring g.up0_size at n (word (rd_addr g)) in
      record {
        taken = e ∙ sym (take-ring g.up0_size at k all n (word (rd_addr g)) count);
        left =
            queue-walk g word (m.word s) n up (omega arith) moved
            ∙ drop-min (ring g.up0_size at all (word (rd_addr g))) k n
                (omega (arith, count, length-ring g.up0_size at all (word (rd_addr g))));
        moved = λ b.
            moved b
            ∙ ap (λ i. if b == rd_addr g then walk g.up0_size i (word (rd_addr g)) else word b)
                (sym size_is);
        kept = moved-IsUpBuffer g word (m.word s) n up moved;
      }
