-- ===== src/Rtt/Reading.antt =====
-- The read loop of `poll_up` on a port that gives word access: it reads the ring.
use mathlib.Core.Path.{subst}
use esp32_daplink.Base.{
  ℕ, zero, suc, ◌+◌, ◌-◌, ◌%◌, ◌^◌, ◌<◌, ◌≡◌, refl, sym, ap, ap₂, ◌∙◌, ◌⊎◌, inl, inr, bit_and, List,
  [], ◌∷◌, get_or, drop, add32, le-or-lt, arith,
}
use esp32_daplink.Base.Bits.{bit_and-low_mask}
use esp32_daplink.Base.Bits.Split.{clear_two}
use esp32_daplink.Esp.Action.{Result, ok, err}
use esp32_daplink.Port.{SwdPort}
use esp32_daplink.Port.Memory.{Memory}
use esp32_daplink.Exec.Words.{byte_of}
use esp32_daplink.Rtt.Core.{word_bytes}
use esp32_daplink.Rtt.Access.{mem_read32-Memory}
use esp32_daplink.Rtt.Poll.{advance, Reading, with_byte, read_loop}
use esp32_daplink.Rtt.Ring.{walk, ring, advance-lt}

-- A byte of a ring at `buf` in the memory `word`.
unfoldable pub ring_byte : (ℕ → ℕ) → ℕ → ℕ → ℕ
ring_byte word buf p = byte_of (word (buf + (p - p % 4))) (p % 4)

word_byte : (v k : ℕ) → k < 4 → drop k (word_bytes v) ≡ byte_of v k ∷ drop (suc k) (word_bytes v)
unfolding word_bytes byte_of
word_byte v zero h = ap (λ x. x ∷ drop 1 (word_bytes v)) (omega arith)
word_byte v (suc zero) h = refl
word_byte v (suc (suc zero)) h = refl
word_byte v (suc (suc (suc zero))) h = refl
word_byte v (suc (suc (suc (suc k)))) h = absurd (omega arith)

pub word_get : (v k : ℕ) → k < 4 → get_or (word_bytes v) k 0 ≡ byte_of v k
unfolding word_bytes byte_of
word_get v zero h = omega arith
word_get v (suc zero) h = refl
word_get v (suc (suc zero)) h = refl
word_get v (suc (suc (suc zero))) h = refl
word_get v (suc (suc (suc (suc k)))) h = absurd (omega arith)

word_end : (v k : ℕ) → k ≡ 3 → drop (suc k) (word_bytes v) ≡ []
unfolding word_bytes
word_end v k e = ap (λ j. drop (suc j) (word_bytes v)) e

-- What is left of the inner loop's word.
abbrev rest_of : (ℕ → ℕ) → ℕ → ℕ → List ℕ
rest_of word buf pos = drop (pos % 4) (word_bytes (word (buf + (pos - pos % 4))))

-- The word list of the loop at `pos`: none, or the rest of the word.
abbrev IsRest : (ℕ → ℕ) → ℕ → ℕ → List ℕ → Type 0
IsRest word buf pos left = (left ≡ []) ⊎ (left ≡ rest_of word buf pos)

same-IsRest :
    (word : ℕ → ℕ) (buf pos : ℕ) (xs ys : List ℕ)
    → xs ≡ ys
    → IsRest word buf pos ys
    → IsRest word buf pos xs
same-IsRest word buf pos xs ys e (inl n) = inl (e ∙ n)
same-IsRest word buf pos xs ys e (inr r) = inr (e ∙ r)

next-IsRest :
    (word : ℕ → ℕ) (size buf pos : ℕ)
    → size < 2 ^ 32
    → size % 4 ≡ 0
    → pos < size
    → IsRest word buf
        (advance size pos)
        (drop (suc (pos % 4)) (word_bytes (word (buf + (pos - pos % 4)))))
unfolding advance
next-IsRest word size buf pos small whole h = elim (le-or-lt 3 (pos % 4)) [
  | inl last ↦ inl (word_end (word (buf + (pos - pos % 4))) (pos % 4) (omega arith))
  | inr more ↦
      let on : advance size pos ≡ pos + 1 = ground arith in
      let place : suc (pos % 4) ≡ advance size pos % 4 = omega (arith, on) in
      let base : pos - pos % 4 ≡ advance size pos - advance size pos % 4 = omega (arith, on) in
      inr (ap₂ (λ (k a : ℕ). drop k (word_bytes (word (buf + a)))) place base)
]

module _ {S : Type 0} (port : SwdPort S) (m : Memory port) where
  -- The outcome of the loop: the bytes of the ring, its place there, and the memory as it was.
  pub record IsRead (word : ℕ → ℕ) (size buf need pos : ℕ) (r : Reading S) : Type 0 where
    pub is_ring : r.bytes ≡ ring size (ring_byte word buf) need pos
    pub is_walk : r.read_pos ≡ walk size need pos
    pub same : (b : ℕ) → m.word r.swd b ≡ word b

  with_byte-IsRead :
      (word : ℕ → ℕ) (size buf need pos b : ℕ) (r : Reading S)
      → b ≡ ring_byte word buf pos
      → IsRead word size buf need (advance size pos) r
      → IsRead word size buf (suc need) pos (with_byte b r)
  with_byte-IsRead word size buf need pos b r e h = record {
    is_ring = ap₂ (λ (x : ℕ) (xs : List ℕ). x ∷ xs) e h.is_ring;
    is_walk = h.is_walk;
    same = h.same;
  }

  module _ (word : ℕ → ℕ) (size buf : ℕ) (some : 0 < size) (whole : size % 4 ≡ 0)
      (aligned : buf % 4 ≡ 0) (fits : buf + size < 2 ^ 32) where
    pub read_loop-IsRead :
        (need pos : ℕ) (left : List ℕ) (s : S)
        → pos < size
        → IsRest word buf pos left
        → ((b : ℕ) → m.word s b ≡ word b)
        → IsRead word size buf need pos (read_loop port size buf need left pos s)
    unfolding read_loop ring_byte
    read_loop-IsRead zero pos left s h rest same = record {
      is_ring = refl;
      is_walk = refl;
      same = same;
    }
    read_loop-IsRead (suc need) pos (b ∷ left) s h (inl none_left) same = cc
    read_loop-IsRead (suc need) pos (b ∷ left) s h (inr e) same =
        let whole_word = word_bytes (word (buf + (pos - pos % 4))) in
        let split = e ∙ word_byte (word (buf + (pos - pos % 4))) (pos % 4) (omega arith) in
        with_byte-IsRead word size buf need pos b
          (read_loop port size buf need left (advance size pos) s) (ap (λ l. get_or l 0 0) split)
          (read_loop-IsRead need (advance size pos) left s (advance-lt size pos some)
            (same-IsRest word buf (advance size pos) left (drop (suc (pos % 4)) whole_word)
              (ap (drop 1) split) (next-IsRest word size buf pos (omega arith) whole h))
            same)
    read_loop-IsRead (suc need) pos [] s h rest same =
        let addr = add32 buf (bit_and pos (2 ^ 32 - 4)) in
        let start = bit_and pos 3 in
        let low : start ≡ pos % 4 = bit_and-low_mask 2 pos in
        let base : addr ≡ buf + (pos - pos % 4) = omega (arith, clear_two pos (omega arith)) in
        let r = mem_read32-Memory port m addr s (omega (arith, base)) (omega arith) in
        let v : m.word s addr ≡ word (buf + (pos - pos % 4)) =
          ap (m.word s) base ∙ same (buf + (pos - pos % 4)) in
        let left = drop (suc start) (word_bytes (m.word s addr)) in
        subst
          (λ (r : Result ℕ × S). IsRead word size buf (suc need) pos (elim r.0 as (λ _. Reading S) [
            | err _ ↦ record { bytes = []; read_pos = pos; swd = r.1 }
            | ok v ↦ with_byte (get_or (word_bytes v) start 0) (
                read_loop port size buf need (drop (suc start) (word_bytes v)) (advance size pos)
                  r.1)
          ]))
          (sym r.runs)
          (with_byte-IsRead word size buf need pos (get_or (word_bytes (m.word s addr)) start 0)
            (read_loop port size buf need left (advance size pos) r.after)
            (ap₂ (λ (x k : ℕ). get_or (word_bytes x) k 0) v low
              ∙ word_get (word (buf + (pos - pos % 4))) (pos % 4) (omega arith))
            (read_loop-IsRead need (advance size pos) left r.after (advance-lt size pos some)
              (same-IsRest word buf (advance size pos) left
                (drop (suc (pos % 4)) (word_bytes (word (buf + (pos - pos % 4)))))
                (ap₂ (λ (x k : ℕ). drop (suc k) (word_bytes x)) v low)
                (next-IsRest word size buf pos (omega arith) whole h))
              (λ b. r.holds b ∙ same b)))
