-- ===== src/Rtt/Filling.antt =====
-- The inner loop of `write_down`: the bytes of a word that it replaces.
use esp32_daplink.Base.{
  ℕ, zero, suc, ◌+◌, ◌-◌, ◌≤◌, ◌<◌, ◌≡◌, refl, ap, ◌∙◌, ltb, leb, ◌==◌, ◌&&◌, if◌then◌else◌, List,
  [], ◌∷◌, length, get_or, set, length-set, drop, arith,
}
use esp32_daplink.Rtt.Poll.{advance}
use esp32_daplink.Rtt.Down.{fill, Filling}
use esp32_daplink.Rtt.Ring.{walk}
use esp32_daplink.Rtt.Append.{get_or-cons}

-- What the loop leaves: the data behind the `n` bytes, the place behind them, and the word.
pub record IsFilled (size n k : ℕ) (bytes word : List ℕ) (pos : ℕ) (f : Filling) : Type 0 where
  pub left_is : f.left ≡ drop n bytes
  pub pos_is : f.pos ≡ walk size n pos
  pub byte_is :
      (i : ℕ)
      → get_or f.word i 0
        ≡ (if leb k i && ltb i (k + n) then get_or bytes (i - k) 0 else get_or word i 0)

get_or-set :
    (xs : List ℕ) (i j v : ℕ)
    → i < length xs
    → get_or (set xs i v) j 0 ≡ (if j == i then v else get_or xs j 0)
get_or-set [] i j v h = absurd (omega arith)
get_or-set (x ∷ xs) zero zero v h = refl
get_or-set (x ∷ xs) zero (suc j) v h = ground arith
get_or-set (x ∷ xs) (suc i) zero v h = ground arith
get_or-set (x ∷ xs) (suc i) (suc j) v h = get_or-set xs i j v (omega arith) ∙ ground arith

pub fill-IsFilled :
    (size n k : ℕ) (bytes word : List ℕ) (pos : ℕ)
    → n ≤ length bytes
    → k + n ≤ length word
    → IsFilled size n k bytes word pos (fill size n k bytes word pos)
unfolding fill
fill-IsFilled size zero k bytes word pos h fits = record {
  left_is = refl;
  pos_is = refl;
  byte_is = λ i. ground arith;
}
fill-IsFilled size (suc n) k [] word pos h fits = absurd (omega arith)
fill-IsFilled size (suc n) k (b ∷ bytes) word pos h fits =
    let rest =
      fill-IsFilled size n (suc k) bytes (set word k b) (advance size pos) (omega arith)
        (omega (arith, length-set word k b)) in
    record {
      left_is = rest.left_is;
      pos_is = rest.pos_is;
      byte_is = λ i.
          let place : i - suc k ≡ i - k - 1 = omega arith in
          rest.byte_is i
          ∙ ground (
            arith,
            get_or-set word k i b (omega arith),
            get_or-cons b bytes (i - k),
            ap (λ j. get_or bytes j 0) place,
          );
    }
