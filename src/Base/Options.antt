-- ===== src/Base/Options.antt =====
-- Chains of partial results, for `do` blocks, and the inversion of one that succeeds.
use mathlib.Core.Path.{◌≡◌, refl}
use mathlib.Core.Option.{Option, none, some}

infixl 5 ◌>>=◌
abbrev pub ◌>>=◌ {ℓ κ} : {A : Type ℓ} {B : Type κ} → Option A → (A → Option B) → Option B
none >>= k = none
some x >>= k = k x

pub >>=-eq-some {ℓ κ} :
    {A : Type ℓ} {B : Type κ} (m : Option A) (k : A → Option B) {b : B}
    → (m >>= k) ≡ some b
    → (a : A) × (m ≡ some a) × (k a ≡ some b)
>>=-eq-some none k h = cc
>>=-eq-some (some a) k h = (a, refl, h)

-- A run, with `none` for one without an end, that ends.
abbrev pub Returns : {A : Type 0} → Option A → Type 0
Returns {A} o = (a : A) × (o ≡ some a)

pub option_elim {κ} :
    {A B : Type 0} (P : B → Type κ) (o : Option A) (x : B) (f : A → B)
    → P x
    → ((a : A) → P (f a))
    → P (elim o as (λ _. B) [ none ↦ x | some a ↦ f a ])
option_elim P none x f on_none on_some = on_none
option_elim P (some a) x f on_none on_some = on_some a
