-- ===== src/Rtt/Round.antt =====
-- A round of the write loop of `write_down`: what a stored word does to the ring.
use mathlib.Core.Path.{subst}
use esp32_daplink.Base.{
  ℕ, zero, suc, ◌+◌, ◌-◌, ◌/◌, ◌%◌, ◌^◌, ◌≤◌, ◌<◌, ◌≡◌, refl, sym, ap, ◌∙◌, ltb, leb, ◌==◌, ◌&&◌,
  false, if◌then◌else◌, if_elim, Bool-cases, inl, inr, List, [], ◌∷◌, ◌++◌, length, get_or, take,
  drop, length-take, arith,
}
use esp32_daplink.Exec.Words.{byte_of, word_sum, byte_of-word_sum}
use esp32_daplink.Rtt.Core.{word_bytes}
use esp32_daplink.Rtt.Down.{Filling, bytes_word}
use esp32_daplink.Rtt.Reading.{ring_byte}
use esp32_daplink.Rtt.Append.{put_bytes, put_bytes-straight}
use esp32_daplink.Rtt.Filling.{IsFilled}

pub take-drop : (n : ℕ) (xs : List ℕ) → take n xs ++ drop n xs ≡ xs
take-drop zero xs = refl
take-drop (suc n) [] = refl
take-drop (suc n) (x ∷ xs) = ap (λ ys. x ∷ ys) (take-drop n xs)

get_or-take : (n i : ℕ) (xs : List ℕ) → i < n → get_or (take n xs) i 0 ≡ get_or xs i 0
get_or-take zero i xs h = absurd (omega arith)
get_or-take (suc n) i [] h = refl
get_or-take (suc n) zero (x ∷ xs) h = refl
get_or-take (suc n) (suc i) (x ∷ xs) h = get_or-take n i xs (omega arith)

word_bytes-lt : (v i : ℕ) → get_or (word_bytes v) i 0 < 256
unfolding word_bytes
word_bytes-lt v zero = omega arith
word_bytes-lt v (suc zero) = omega arith
word_bytes-lt v (suc (suc zero)) = omega arith
word_bytes-lt v (suc (suc (suc zero))) = omega arith
word_bytes-lt v (suc (suc (suc (suc i)))) = omega arith

filled-lt :
    (size n k : ℕ) (bytes : List ℕ) (v pos : ℕ) (f : Filling)
    → ((j : ℕ) → get_or bytes j 0 < 256)
    → IsFilled size n k bytes (word_bytes v) pos f
    → (j : ℕ) → get_or f.word j 0 < 256
filled-lt size n k bytes v pos f small filled j =
    subst (λ x. x < 256) (sym (filled.byte_is j))
      (if_elim (λ x. x < 256) (leb k j && ltb j (k + n)) (get_or bytes (j - k) 0)
        (get_or (word_bytes v) j 0) (λ _. small (j - k)) (λ _. word_bytes-lt v j))

-- The stored word has 32 bits.
pub bytes_word-lt :
    (size n k : ℕ) (bytes : List ℕ) (v pos : ℕ) (f : Filling)
    → ((j : ℕ) → get_or bytes j 0 < 256)
    → IsFilled size n k bytes (word_bytes v) pos f
    → bytes_word f.word < 2 ^ 32
unfolding bytes_word
bytes_word-lt size n k bytes v pos f small filled =
    let lt = filled-lt size n k bytes v pos f small filled in omega (arith, lt 0, lt 1, lt 2, lt 3)

-- The stored word, byte by byte.
bytes_word-byte :
    (size n k : ℕ) (bytes : List ℕ) (v pos i : ℕ) (f : Filling)
    → ((j : ℕ) → get_or bytes j 0 < 256)
    → IsFilled size n k bytes (word_bytes v) pos f
    → i < 4
    → byte_of (bytes_word f.word) i
      ≡ (if leb k i && ltb i (k + n) then get_or bytes (i - k) 0 else get_or (word_bytes v) i 0)
unfolding bytes_word word_sum
bytes_word-byte size n k bytes v pos i f small filled h =
    byte_of-word_sum 0 f.word i (filled-lt size n k bytes v pos f small filled) h ∙ filled.byte_is i

-- The ring after the word of the place `pos` is stored, with `n` bytes of it replaced.
pub stored-put_bytes :
    (size buf n pos v : ℕ) (bytes : List ℕ) (f : Filling) (word after : ℕ → ℕ) (p : ℕ)
    → size < 2 ^ 32
    → size % 4 ≡ 0
    → pos < size
    → n ≤ length bytes
    → pos % 4 + n ≤ 4
    → ((j : ℕ) → get_or bytes j 0 < 256)
    → IsFilled size n (pos % 4) bytes (word_bytes v) pos f
    → ((i : ℕ)
        → (leb (pos % 4) i && ltb i (pos % 4 + n)) ≡ false
        → i < 4
        → get_or (word_bytes v) i 0 ≡ byte_of (word (buf + (pos - pos % 4))) i)
    → ((b : ℕ) → after b ≡ (if b == buf + (pos - pos % 4) then bytes_word f.word else word b))
    → ring_byte after buf p ≡ put_bytes size (ring_byte word buf) (take n bytes) pos p
unfolding ring_byte
stored-put_bytes size buf n pos v bytes f word after p small whole inside enough one_word
      bytes_small filled old stored =
    let count : length (take n bytes) ≡ n = omega (arith, length-take n bytes) in
    let straight =
      put_bytes-straight size (ring_byte word buf) (take n bytes) pos p small
        (omega (arith, count)) in
    let here = stored (buf + (p - p % 4)) in
    let put = put_bytes size (ring_byte word buf) (take n bytes) pos p in
    elim (Bool-cases (p / 4 == pos / 4)) [
      | inl same ↦
          let base : buf + (p - p % 4) ≡ buf + (pos - pos % 4) = ground (arith, same) in
          let stored_word : after (buf + (p - p % 4)) ≡ bytes_word f.word =
            here ∙ ground (arith, base) in
          ap (λ x. byte_of x (p % 4)) stored_word
          ∙ bytes_word-byte size n (pos % 4) bytes v pos (p % 4) f bytes_small filled (omega arith)
          ∙ if_elim (λ x. x ≡ put) (leb (pos % 4) (p % 4) && ltb (p % 4) (pos % 4 + n))
              (get_or bytes (p % 4 - pos % 4) 0) (get_or (word_bytes v) (p % 4) 0)
              (λ e.
                let place : p % 4 - pos % 4 ≡ p - pos = ground (arith, base, e) in
                ap (λ j. get_or bytes j 0) place
                ∙ sym (get_or-take n (p - pos) bytes (ground (arith, base, e)))
                ∙ sym (straight ∙ ground (arith, base, e, count)))
              (λ e.
                old (p % 4) e (omega arith)
                ∙ ap (λ a. byte_of (word a) (p % 4)) (sym base)
                ∙ sym (straight ∙ ground (arith, base, e, count)))
      | inr other ↦
          let kept : after (buf + (p - p % 4)) ≡ word (buf + (p - p % 4)) =
            here ∙ ground (arith, other) in
          ap (λ x. byte_of x (p % 4)) kept ∙ sym (straight ∙ ground (arith, other, count))
    ]

pub get_or-take_small :
    (n : ℕ) (xs : List ℕ) → ((i : ℕ) → get_or xs i 0 < 256) → (i : ℕ) → get_or (take n xs) i 0 < 256
get_or-take_small zero xs small i = omega arith
get_or-take_small (suc n) [] small i = omega arith
get_or-take_small (suc n) (x ∷ xs) small zero = small 0
get_or-take_small (suc n) (x ∷ xs) small (suc i) = get_or-take_small n xs (λ j. small (suc j)) i
