-- ===== src/Esp/Run/Returning.antt =====
-- Actions that end in every state, one rule for each way to build an action.
use esp32_daplink.Base.{◌≡◌, refl, ℕ, Bool, true, false, if◌then◌else◌, Option, none, some}
use esp32_daplink.Esp.Action.{Result, ok, err, Act}
use esp32_daplink.Esp.Run.{Board, Run, done, lift, timestamp, ◌>>=◌, attempt}

-- It ends, with an error or not, in every state.
pub record Returns {S A : Type 0} (m : Run S A) : Type 0 where
  pub at : (w : Board S) → (r : Result A × Board S) × (m w ≡ some r)

module _ {S A : Type 0} where
  pub Returns-done : (a : A) → Returns (done {S = S} a)
  unfolding done
  Returns-done a = record { at = λ w. (_, refl) }

  pub Returns-lift : (m : Act S A) → Returns (lift m)
  unfolding lift
  Returns-lift m = record { at = λ w. (_, refl) }

  pub Returns-if :
      (b : Bool) (m n : Run S A)
      → (b ≡ true → Returns m)
      → (b ≡ false → Returns n)
      → Returns (if b then m else n)
  Returns-if true m n hm hn = hm refl
  Returns-if false m n hm hn = hn refl

  pub Returns-attempt : (m : Run S A) → Returns m → Returns (attempt m)
  unfolding attempt
  Returns-attempt m h = record { at = λ w. by_result (m w) (h.at w) }
    where
      by_result :
          (o : Option (Result A × Board S))
          → (r : Result A × Board S) × (o ≡ some r)
          → (r : Result (Result A) × Board S) × ((elim o
                as (λ _. Option (Result (Result A) × Board S)) [
                  | none ↦ none
                  | some x ↦ some (ok x.0, x.1)
                ])
              ≡ some r)
      by_result none (r, e) = cc
      by_result (some (r, v)) k = (_, refl)

pub Returns-timestamp : {S : Type 0} (clock : ℕ → ℕ) → Returns (timestamp {S = S} clock)
unfolding timestamp
Returns-timestamp clock = record { at = λ w. (_, refl) }

module _ {S A B : Type 0} where
  pub Returns-bind :
      (m : Run S A) (f : A → Run S B) → Returns m → ((a : A) → Returns (f a)) → Returns (m >>= f)
  unfolding ◌>>=◌
  Returns-bind m f hm hf = record { at = λ w. by_result (m w) (hm.at w) }
    where
      by_result :
          (o : Option (Result A × Board S))
          → (r : Result A × Board S) × (o ≡ some r)
          → (r : Result B × Board S) × ((elim o as (λ _. Option (Result B × Board S)) [
            | none ↦ none
            | some x ↦ elim x.0 [ ok a ↦ f a x.1 | err e ↦ some (err e, x.1) ]
          ])
              ≡ some r)
      by_result none (r, e) = cc
      by_result (some (ok a, v)) k = (hf a).at v
      by_result (some (err e, v)) k = (_, refl)

module _ {S A B : Type 0} where
  pub Returns-seq : (m : Run S A) (k : Run S B) → Returns m → Returns k → Returns (m >>= λ _. k)
  Returns-seq m k hm hk = Returns-bind m (λ _. k) hm (λ _. hk)

  -- A function that does not read the clock, before others.
  pub Returns-lift_seq : (m : Act S A) (k : Run S B) → Returns k → Returns (lift m >>= λ _. k)
  Returns-lift_seq m k h = Returns-seq (lift m) k (Returns-lift m) h
