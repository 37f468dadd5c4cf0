-- ===== src/Rtt/Ring.antt =====
-- The ring of the up buffer: its contents as a list.
use esp32_daplink.Base.{
  ℕ, zero, suc, ◌+◌, ◌-◌, ◌^◌, ◌<◌, ◌≡◌, refl, ap, ap₂, min, leb, ◌==◌, false, if◌then◌else◌, List,
  [], ◌∷◌, length, take, drop, arith,
}
use esp32_daplink.Rtt.Poll.{advance, available}

-- `n` places on.
abbrev pub walk : ℕ → ℕ → ℕ → ℕ
walk size zero pos = pos
walk size (suc n) pos = walk size n (advance size pos)

-- The `n` bytes from `pos` on, of the ring with the byte `at p` in place `p`.
abbrev pub ring : ℕ → (ℕ → ℕ) → ℕ → ℕ → List ℕ
ring size at zero pos = []
ring size at (suc n) pos = at pos ∷ ring size at n (advance size pos)

-- The number of bytes between the read and the write offset.
unfoldable pub unread : ℕ → ℕ → ℕ → ℕ
unread size wr rd = if leb rd wr then wr - rd else wr + size - rd

pub advance-lt : (size pos : ℕ) → 0 < size → advance size pos < size
unfolding advance
advance-lt size pos some = ground arith

pub length-ring : (size : ℕ) (at : ℕ → ℕ) (n pos : ℕ) → length (ring size at n pos) ≡ n
length-ring size at zero pos = refl
length-ring size at (suc n) pos = ap suc (length-ring size at n (advance size pos))

pub take-ring :
    (size : ℕ) (at : ℕ → ℕ) (k n i pos : ℕ)
    → i ≡ min n k
    → take k (ring size at n pos) ≡ ring size at i pos
take-ring size at zero n zero pos h = refl
take-ring size at zero n (suc i) pos h = absurd (omega arith)
take-ring size at (suc k) zero zero pos h = refl
take-ring size at (suc k) zero (suc i) pos h = absurd (omega arith)
take-ring size at (suc k) (suc n) zero pos h = absurd (omega arith)
take-ring size at (suc k) (suc n) (suc i) pos h =
    ap (λ xs. at pos ∷ xs) (take-ring size at k n i (advance size pos) (omega arith))

pub drop-ring :
    (size : ℕ) (at : ℕ → ℕ) (k n i pos : ℕ)
    → n ≡ k + i
    → drop k (ring size at n pos) ≡ ring size at i (walk size k pos)
drop-ring size at zero n i pos h = ap (λ j. ring size at j pos) (omega (arith, h))
drop-ring size at (suc k) zero i pos h = absurd (omega arith)
drop-ring size at (suc k) (suc n) i pos h = drop-ring size at k n i (advance size pos) (omega arith)

pub ring_ext :
    (size : ℕ) (at by : ℕ → ℕ) (n pos : ℕ)
    → 0 < size
    → pos < size
    → ((p : ℕ) → p < size → at p ≡ by p)
    → ring size at n pos ≡ ring size by n pos
ring_ext size at by zero pos some h same = refl
ring_ext size at by (suc n) pos some h same =
    ap₂ (λ (x : ℕ) (xs : List ℕ). x ∷ xs) (same pos h)
      (ring_ext size at by n (advance size pos) some (advance-lt size pos some) same)

unread-advance :
    (size wr rd n : ℕ)
    → size < 2 ^ 32
    → wr < size
    → rd < size
    → unread size wr rd ≡ suc n
    → unread size wr (advance size rd) ≡ n
unfolding unread advance
unread-advance size wr rd n small hw hr e = ground (arith, e)

pub unread-walk :
    (size wr rd k n : ℕ)
    → size < 2 ^ 32
    → wr < size
    → rd < size
    → unread size wr rd ≡ k + n
    → unread size wr (walk size k rd) ≡ n
unread-walk size wr rd zero n small hw hr e = omega (arith, e)
unread-walk size wr rd (suc k) n small hw hr e =
    unread-walk size wr (advance size rd) k n small hw (advance-lt size rd (omega arith))
      (unread-advance size wr rd (k + n) small hw hr (omega (arith, e)))

pub available-unread :
    (size wr rd : ℕ)
    → size < 2 ^ 32
    → wr < size
    → rd < size
    → (wr == rd) ≡ false
    → available size wr rd ≡ unread size wr rd
unfolding available unread
available-unread size wr rd small hw hr e = ground (arith, e)
