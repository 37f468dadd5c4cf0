-- ===== src/Esp/Run.antt =====
-- Functions that return an `esp_err_t` and wait on the clock: an action on the state behind the
-- port and the number of clock readings so far; `none` is a loop without an end within its fuel.
pub mod Returning
pub mod Inverse
use esp32_daplink.Base.{ℕ, suc, Option, none, some}
use esp32_daplink.Esp.Action.{Result, ok, err, Act}

pub record Board (S : Type 0) : Type 0 where
  pub swd : S
  pub readings : ℕ

abbrev pub Run : Type 0 → Type 0 → Type 0
Run S A = Board S → Option (Result A × Board S)

module _ {S : Type 0} where
  unfoldable pub done : {A : Type 0} → A → Run S A
  done a w = some (ok a, w)

  unfoldable pub endless : {A : Type 0} → Run S A
  endless w = none

  -- A function that does not read the clock.
  unfoldable pub lift : {A : Type 0} → Act S A → Run S A
  lift m w = let (r, s) = m w.swd in some (r, record w { swd = s })

  -- `esp_log_timestamp()`; `clock n` is its n-th reading.
  unfoldable pub timestamp : (ℕ → ℕ) → Run S ℕ
  timestamp clock w = some (ok (clock w.readings), record w { readings = suc w.readings })

  infixl 5 ◌>>=◌ ◌>>◌
  unfoldable pub ◌>>=◌ : {A B : Type 0} → Run S A → (A → Run S B) → Run S B
  ◌>>=◌ m f w = elim (m w) [
    | none ↦ none
    | some x ↦ elim x.0 [ ok a ↦ f a x.1 | err e ↦ some (err e, x.1) ]
  ]

  abbrev pub ◌>>◌ : {A B : Type 0} → Run S A → Run S B → Run S B
  m >> k = m >>= λ _. k

  -- A call whose error is looked at by the caller.
  unfoldable pub attempt : {A : Type 0} → Run S A → Run S (Result A)
  attempt m w = elim (m w) [ none ↦ none | some x ↦ some (ok x.0, x.1) ]
