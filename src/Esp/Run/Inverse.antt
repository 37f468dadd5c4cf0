-- ===== src/Esp/Run/Inverse.antt =====
-- What a run that ends without an error says of its parts.
use esp32_daplink.Base.{
  ◌≡◌, refl, ap, ◌⊎◌, inl, inr, Bool, true, false, if◌then◌else◌, Option, none, some,
}
use esp32_daplink.Esp.Action.{Result, ok, err}
use esp32_daplink.Esp.Run.{Board, Run, done, ◌>>=◌}

module _ {S A : Type 0} where
  -- The result and the state of such a run.
  pub same_result :
      (a b : A) (v w : Board S)
      → ◌≡◌ {A = Option (Result A × Board S)} (some (ok a, v)) (some (ok b, w))
      → (a ≡ b) × (v ≡ w)
  same_result a b v w e = (
    ap
        (λ (o : Option (Result A × Board S)). elim o [
          | none ↦ a
          | some x ↦ elim x.0 [ ok c ↦ c | err _ ↦ a ]
        ])
        e,
    ap (λ (o : Option (Result A × Board S)). elim o [ none ↦ v | some x ↦ x.1 ]) e,
  )

  pub done-inv : (a b : A) (v w : Board S) → done a v ≡ some (ok b, w) → (a ≡ b) × (v ≡ w)
  unfolding done
  done-inv a b v w e = same_result a b v w e

  pub if-inv :
      (c : Bool) (m n : Run S A) (w : Board S) (r : Option (Result A × Board S))
      → (if c then m else n) w ≡ r
      → ((c ≡ true) × (m w ≡ r)) ⊎ ((c ≡ false) × (n w ≡ r))
  if-inv true m n w r e = inl (refl, e)
  if-inv false m n w r e = inr (refl, e)

module _ {S A B : Type 0} where
  pub >>=-inv :
      (m : Run S A) (f : A → Run S B) (w : Board S) (b : B) (z : Board S)
      → (m >>= f) w ≡ some (ok b, z)
      → (a : A) × (v : Board S) × (m w ≡ some (ok a, v)) × (f a v ≡ some (ok b, z))
  unfolding ◌>>=◌
  >>=-inv m f w b z e = by_result (m w) e
    where
      by_result :
          (o : Option (Result A × Board S))
          → (elim o as (λ _. Option (Result B × Board S)) [
            | none ↦ none
            | some x ↦ elim x.0 [ ok a ↦ f a x.1 | err e' ↦ some (err e', x.1) ]
          ])
            ≡ some (ok b, z)
          → (a : A) × (v : Board S) × (o ≡ some (ok a, v)) × (f a v ≡ some (ok b, z))
      by_result none k = cc
      by_result (some (ok a, v)) k = (a, v, refl, k)
      by_result (some (err e', v)) k = cc
