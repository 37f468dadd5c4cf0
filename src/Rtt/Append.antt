-- ===== src/Rtt/Append.antt =====
-- Writing into a ring: bytes put behind its contents are appended to them.
use mathlib.Core.List.{append_assoc, append-nil}
use esp32_daplink.Base.{
  ℕ, zero, suc, ◌+◌, ◌-◌, ◌^◌, ◌≤◌, ◌<◌, ◌≡◌, refl, sym, ap, ap₂, ◌∙◌, ltb, leb, ◌==◌, ◌&&◌, false,
  if◌then◌else◌, List, [], ◌∷◌, ◌++◌, length, get_or, arith,
}
use esp32_daplink.Rtt.Poll.{advance}
use esp32_daplink.Rtt.Ring.{walk, ring, advance-lt}

-- The ring's bytes with one of them replaced.
abbrev pub with_at : (ℕ → ℕ) → ℕ → ℕ → ℕ → ℕ
with_at at pos b p = if p == pos then b else at p

-- The ring's bytes after `bytes` are written from `pos` on.
abbrev pub put_bytes : ℕ → (ℕ → ℕ) → List ℕ → ℕ → ℕ → ℕ
put_bytes size at [] pos = at
put_bytes size at (b ∷ bytes) pos = put_bytes size (with_at at pos b) bytes (advance size pos)

pub advance_lem :
    (size pos : ℕ)
    → size < 2 ^ 32
    → pos < size
    → advance size pos ≡ (if ltb (pos + 1) size then pos + 1 else 0)
unfolding advance
advance_lem size pos small h = ground arith

pub walk_lem :
    (size n pos : ℕ)
    → size < 2 ^ 32
    → n ≤ size
    → pos < size
    → walk size n pos ≡ (if ltb (pos + n) size then pos + n else pos + n - size)
walk_lem size zero pos small h inside = ground arith
walk_lem size (suc n) pos small h inside =
    walk_lem size n (advance size pos) small (omega arith) (advance-lt size pos (omega arith))
    ∙ ground (arith, advance_lem size pos small inside)

walk-apart :
    (size n pos : ℕ)
    → size < 2 ^ 32
    → n < size
    → 0 < n
    → pos < size
    → (pos == walk size n pos) ≡ false
walk-apart size n pos small h some inside =
    ground (arith, walk_lem size n pos small (omega arith) inside)

pub walk-advance :
    (size n pos : ℕ) → walk size n (advance size pos) ≡ advance size (walk size n pos)
walk-advance size zero pos = refl
walk-advance size (suc n) pos = walk-advance size n (advance size pos)

-- A byte behind the contents.
ring-with_at :
    (size : ℕ) (at : ℕ → ℕ) (n pos b : ℕ)
    → size < 2 ^ 32
    → n < size
    → pos < size
    → ring size (with_at at (walk size n pos) b) (suc n) pos ≡ ring size at n pos ++ (b ∷ [])
ring-with_at size at zero pos b small h inside = ap (λ x. x ∷ []) (ground arith)
ring-with_at size at (suc n) pos b small h inside =
    ap₂ (λ (x : ℕ) (xs : List ℕ). x ∷ xs)
      (ground (arith, walk-apart size (suc n) pos small h (omega arith) inside))
      (ring-with_at size at n (advance size pos) b small (omega arith)
        (advance-lt size pos (omega arith)))

pub ring-put_bytes :
    (size : ℕ) (at : ℕ → ℕ) (bytes : List ℕ) (n total pos : ℕ)
    → size < 2 ^ 32
    → pos < size
    → total ≡ n + length bytes
    → total ≤ size
    → ring size (put_bytes size at bytes (walk size n pos)) total pos ≡ ring size at n pos ++ bytes
ring-put_bytes size at [] n total pos small inside e h =
    ap (λ k. ring size at k pos) (omega (arith, e)) ∙ sym (append-nil (ring size at n pos))
ring-put_bytes size at (b ∷ bytes) n total pos small inside e h =
    let more = with_at at (walk size n pos) b in
    ap (λ q. ring size (put_bytes size more bytes q) total pos) (sym (walk-advance size n pos))
    ∙ ring-put_bytes size more bytes (suc n) total pos small inside (omega (arith, e)) h
    ∙ ap (λ xs. xs ++ bytes) (ring-with_at size at n pos b small (omega (arith, e)) inside)
    ∙ append_assoc (ring size at n pos) (b ∷ []) bytes

pub get_or-cons :
    (b : ℕ) (bytes : List ℕ) (n : ℕ)
    → get_or (b ∷ bytes) n 0 ≡ (if n == 0 then b else get_or bytes (n - 1) 0)
get_or-cons b bytes zero = refl
get_or-cons b bytes (suc n) =
    let back : n ≡ suc n - 1 = omega arith in ground (arith, ap (λ i. get_or bytes i 0) back)

-- Bytes that all lie before the end of the ring.
pub put_bytes-straight :
    (size : ℕ) (at : ℕ → ℕ) (bytes : List ℕ) (pos p : ℕ)
    → size < 2 ^ 32
    → pos + length bytes ≤ size
    → put_bytes size at bytes pos p
      ≡ (if leb pos p && ltb p (pos + length bytes) then get_or bytes (p - pos) 0 else at p)
put_bytes-straight size at [] pos p small h = ground arith
put_bytes-straight size at (b ∷ []) pos p small h = ground (arith, get_or-cons b [] (p - pos))
put_bytes-straight size at (b ∷ c ∷ bytes) pos p small h =
    let next : advance size pos ≡ pos + 1 =
      advance_lem size pos small (omega arith) ∙ ground arith in
    let rest =
      put_bytes-straight size (with_at at pos b) (c ∷ bytes) (advance size pos) p small
        (omega (arith, next)) in
    let place : p - (pos + 1) ≡ p - pos - 1 = omega arith in
    rest
    ∙ ap
        (λ (q : ℕ).
          if leb q p && ltb p (q + suc (length bytes))
          then get_or (c ∷ bytes) (p - q) 0
          else with_at at pos b p)
        next
    ∙ ground (arith, get_or-cons b (c ∷ bytes) (p - pos), ap (λ i. get_or (c ∷ bytes) i 0) place)

pub put_bytes-append :
    (size : ℕ) (at : ℕ → ℕ) (xs ys : List ℕ) (pos : ℕ)
    → put_bytes size at (xs ++ ys) pos
      ≡ put_bytes size (put_bytes size at xs pos) ys (walk size (length xs) pos)
put_bytes-append size at [] ys pos = refl
put_bytes-append size at (x ∷ xs) ys pos =
    put_bytes-append size (with_at at pos x) xs ys (advance size pos)

-- Equal rings stay so.
pub put_bytes_ext :
    (size : ℕ) (at by : ℕ → ℕ) (bytes : List ℕ) (pos p : ℕ)
    → ((q : ℕ) → q < size → at q ≡ by q)
    → p < size
    → put_bytes size at bytes pos p ≡ put_bytes size by bytes pos p
put_bytes_ext size at by [] pos p same h = same p h
put_bytes_ext size at by (b ∷ bytes) pos p same h =
    put_bytes_ext size (with_at at pos b) (with_at by pos b) bytes (advance size pos) p
      (λ q small. ap (λ x. if q == pos then b else x) (same q small)) h
