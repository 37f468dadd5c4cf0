-- ===== src/Exec/Words.antt =====
-- The words that `setup` and `upload_data` make of four bytes, as sums.
use esp32_daplink.Base.{
  ℕ, zero, suc, ◌+◌, ◌*◌, ◌-◌, ◌/◌, ◌%◌, ◌^◌, ◌<◌, ◌≡◌, refl, ap, ◌∙◌, List, [], ◌∷◌, get_or, arith,
}
use esp32_daplink.Base.Bits.Split.{put_over}
use esp32_daplink.Exec.Load.{put_byte, pack_from, data_word}

-- Little endian, where a missing byte is `d`.
unfoldable pub word_sum : ℕ → List ℕ → ℕ
word_sum d l = get_or l 0 d + get_or l 1 d * 2 ^ 8 + get_or l 2 d * 2 ^ 16 + get_or l 3 d * 2 ^ 24

put_first : (x : ℕ) → x < 256 → put_byte (2 ^ 32 - 1) 0 x ≡ x + 0xFFFFFF00
unfolding put_byte
put_first x fits = put_over 0 0 0xFFFFFF x (omega arith) fits refl ∙ omega arith

put_second :
    (lo x : ℕ) → lo < 2 ^ 8 → x < 256 → put_byte (lo + 0xFFFFFF00) 1 x ≡ lo + x * 2 ^ 8 + 0xFFFF0000
unfolding put_byte
put_second lo x small fits = put_over 8 lo 0xFFFF x small fits refl ∙ omega arith

put_third :
    (lo x : ℕ)
    → lo < 2 ^ 16
    → x < 256
    → put_byte (lo + 0xFFFF0000) 2 x ≡ lo + x * 2 ^ 16 + 0xFF000000
unfolding put_byte
put_third lo x small fits = put_over 16 lo 0xFF x small fits refl ∙ omega arith

put_fourth : (lo x : ℕ) → lo < 2 ^ 24 → x < 256 → put_byte (lo + 0xFF000000) 3 x ≡ lo + x * 2 ^ 24
unfolding put_byte
put_fourth lo x small fits = put_over 24 lo 0 x small fits refl ∙ omega arith

pub data_word-word_sum :
    (l : List ℕ) → ((i : ℕ) → get_or l i 0xFF < 256) → data_word l ≡ word_sum 0xFF l
unfolding pack_from word_sum
data_word-word_sum [] small = refl
data_word-word_sum (x ∷ []) small = put_first x (small 0) ∙ omega arith
data_word-word_sum (x ∷ y ∷ []) small =
    ap (λ w. put_byte w 1 y) (put_first x (small 0))
    ∙ put_second x y (small 0) (small 1)
    ∙ omega arith
data_word-word_sum (x ∷ y ∷ z ∷ []) small =
    ap (λ w. put_byte (put_byte w 1 y) 2 z) (put_first x (small 0))
    ∙ ap (λ w. put_byte w 2 z) (put_second x y (small 0) (small 1))
    ∙ put_third (x + y * 2 ^ 8) z (omega (arith, small 0, small 1)) (small 2)
    ∙ omega arith
data_word-word_sum (x ∷ y ∷ z ∷ v ∷ l) small =
    ap (λ w. put_byte (put_byte (put_byte w 1 y) 2 z) 3 v) (put_first x (small 0))
    ∙ ap (λ w. put_byte (put_byte w 2 z) 3 v) (put_second x y (small 0) (small 1))
    ∙ ap (λ w. put_byte w 3 v)
        (put_third (x + y * 2 ^ 8) z (omega (arith, small 0, small 1)) (small 2))
    ∙ put_fourth (x + y * 2 ^ 8 + z * 2 ^ 16) v (omega (arith, small 0, small 1, small 2)) (small 3)

-- The k-th byte of a word, from the low end.
unfoldable pub byte_of : ℕ → ℕ → ℕ
byte_of word k = word / 256 ^ k % 256

-- They are the bytes that `word_sum` puts in.
pub byte_of-word_sum :
    (d : ℕ) (l : List ℕ) (k : ℕ)
    → ((i : ℕ) → get_or l i d < 256)
    → k < 4
    → byte_of (word_sum d l) k ≡ get_or l k d
unfolding byte_of word_sum
byte_of-word_sum d l zero small h = omega (arith, small 0)
byte_of-word_sum d l (suc zero) small h = omega (arith, small 0, small 1)
byte_of-word_sum d l (suc (suc zero)) small h = omega (arith, small 0, small 1, small 2)
byte_of-word_sum d l (suc (suc (suc zero))) small h =
    omega (arith, small 0, small 1, small 2, small 3)
byte_of-word_sum d l (suc (suc (suc (suc k)))) small h = absurd (omega arith)
