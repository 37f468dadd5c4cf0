-- ===== src/Esp/Action.antt =====
-- Functions that return an `esp_err_t`: an action on a state, whose effects stay after an error.
-- A bind is `ESP_RETURN_ON_ERROR`.
use esp32_daplink.Base.{◌≡◌, refl, ap, Bool, true, false, if◌then◌else◌}
use esp32_daplink.Esp.{EspErr}

pub data Result (A : Type 0) : Type 0 where
  ok : A → Result A
  err : EspErr → Result A

abbrev pub Act : Type 0 → Type 0 → Type 0
Act S A = S → Result A × S

module _ {S : Type 0} where
  abbrev pub pure : {A : Type 0} → A → Act S A
  pure a s = (ok a, s)

  abbrev pub raise : {A : Type 0} → EspErr → Act S A
  raise e s = (err e, s)

  infixl 5 ◌>>=◌ ◌>>◌
  abbrev pub ◌>>=◌ : {A B : Type 0} → Act S A → (A → Act S B) → Act S B
  ◌>>=◌ m f s = let (r, s') = m s in elim r [ ok a ↦ f a s' | err e ↦ raise e s' ]

  abbrev pub ◌>>◌ : {A B : Type 0} → Act S A → Act S B → Act S B
  m >> k = m >>= λ _. k

  -- A call whose error is not looked at.
  abbrev pub ignore : {A : Type 0} → Act S A → Act S (Unit {0})
  ignore m s = (ok tt, (m s).1)

  -- The equation of a bind whose first part succeeds.
  pub >>=-ok :
      {A B : Type 0} (m : Act S A) (f : A → Act S B) (s : S) (a : A) (t : S)
      → m s ≡ (ok a, t)
      → (m >>= f) s ≡ f a t
  >>=-ok {A} {B} m f s a t e =
      ap
        (λ (r : Result A × S). elim r.0 as (λ _. Result B × S) [
          | ok a' ↦ f a' r.1
          | err e' ↦ (err e', r.1)
        ])
        e

  -- A bind that succeeds comes from a first part that succeeds.
  pub >>=-inv :
      {A B : Type 0} (m : Act S A) (f : A → Act S B) (s : S) (b : B)
      → ((m >>= f) s).0 ≡ ok b
      → (a : A) × (t : S) × ((f a t).0 ≡ ok b)
  >>=-inv {A} {B} m f s b = inv (m s)
    where
      inv :
          (r : Result A × S)
          → (elim r.0 as (λ _. Result B × S) [ ok a ↦ f a r.1 | err e ↦ (err e, r.1) ]).0 ≡ ok b
          → (a : A) × (t : S) × ((f a t).0 ≡ ok b)
      inv (ok a, t) e = (a, t, e)
      inv (err e', t) e = cc

  -- A guard that does not raise.
  pub guard-inv :
      {A : Type 0} (b : Bool) (e : EspErr) (m : Act S A) (s : S) (a : A)
      → ((if b then raise e else m) s).0 ≡ ok a
      → (b ≡ false) × ((m s).0 ≡ ok a)
  guard-inv true e m s a h = cc
  guard-inv false e m s a h = (refl, h)

-- Of a case on a result holds what holds of each of its branches.
pub result_elim {κ} :
    {A B : Type 0} (P : B → Type κ) (r : Result A) (f : A → B) (g : EspErr → B)
    → ((a : A) → P (f a))
    → ((e : EspErr) → P (g e))
    → P (elim r as (λ _. B) [ ok a ↦ f a | err e ↦ g e ])
result_elim P (ok a) f g on_ok on_err = on_ok a
result_elim P (err e) f g on_ok on_err = on_err e
