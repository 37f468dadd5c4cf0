-- ===== src/Hex/Merge.antt =====
-- What sorting and merging do to an image: the bytes that it puts at each address are the same.
use mathlib.Core.List.{append_assoc}
use native.Mathlib.Decide.{ℕ_discrete}
use esp32_daplink.Base.{
  ◌≢◌, ℕ, ◌^◌, ◌≤◌, ◌<◌, ◌≡◌, refl, ap, ◌∙◌, List, [], ◌∷◌, ◌++◌, length, add32, arith,
}
use esp32_daplink.Hex.{Segment, merge_onto, merge_segments}

-- The writes that a segment stands for: each byte with the 32-bit address that it goes to.
abbrev pub writes_at : ℕ → List ℕ → List (ℕ × ℕ)
writes_at a [] = []
writes_at a (b ∷ bs) = (a, b) ∷ writes_at (add32 a 1) bs

abbrev pub writes : List Segment → List (ℕ × ℕ)
writes [] = []
writes (s ∷ segments) = writes_at s.address s.bytes ++ writes segments

-- Addresses are 32-bit words.
abbrev pub AllWords : List Segment → Type 0
AllWords [] = Unit
AllWords (s ∷ segments) = (s.address < 2 ^ 32) × AllWords segments

-- `t` begins where `s` ends: the test of the merging loop
abbrev pub Continues : Segment → Segment → Type 0
Continues s t = t.address ≡ add32 s.address (length s.bytes)

-- No segment continues the one before it.
abbrev pub IsSeparated : List Segment → Type 0
IsSeparated [] = Unit
IsSeparated (s ∷ []) = Unit
IsSeparated (s ∷ t ∷ segments) = (¬ Continues s t) × IsSeparated (t ∷ segments)

abbrev pub IsAscending : List Segment → Type 0
IsAscending [] = Unit
IsAscending (s ∷ []) = Unit
IsAscending (s ∷ t ∷ segments) = (s.address ≤ t.address) × IsAscending (t ∷ segments)

writes_at-append :
    (a b : ℕ) (xs ys : List ℕ)
    → a < 2 ^ 32
    → b ≡ add32 a (length xs)
    → writes_at a (xs ++ ys) ≡ writes_at a xs ++ writes_at b ys
writes_at-append a b [] ys h e = ap (λ t. writes_at t ys) (omega arith)
writes_at-append a b (x ∷ xs) ys h e =
    ap (λ t. (a, x) ∷ t) (writes_at-append (add32 a 1) b xs ys (omega arith) (omega arith))

-- the two ways of the loop, each as an equation
module _ (back s : Segment) (segments : List Segment) where
  abbrev joined : Segment
  joined = record back { bytes = back.bytes ++ s.bytes }

  merge_onto-joins : Continues back s → merge_onto back (s ∷ segments) ≡ merge_onto joined segments
  unfolding merge_onto
  merge_onto-joins e = ground arith

  merge_onto-apart :
      ¬ Continues back s → merge_onto back (s ∷ segments) ≡ back ∷ merge_onto s segments
  unfolding merge_onto
  merge_onto-apart n = ground arith

  writes-joined :
      back.address < 2 ^ 32
      → Continues back s
      → writes (joined ∷ segments) ≡ writes (back ∷ s ∷ segments)
  writes-joined h e =
      ap (λ t. t ++ writes segments)
        (writes_at-append back.address s.address back.bytes s.bytes h e)
      ∙ append_assoc (writes_at back.address back.bytes) (writes_at s.address s.bytes)
          (writes segments)

writes-merge_onto :
    (back : Segment) (segments : List Segment)
    → back.address < 2 ^ 32
    → AllWords segments
    → writes (merge_onto back segments) ≡ writes (back ∷ segments)
unfolding merge_onto
writes-merge_onto back [] h k = refl
writes-merge_onto back (s ∷ segments) h k =
    elim (ℕ_discrete s.address (add32 back.address (length back.bytes))) [
      | yes e ↦
          ap writes (merge_onto-joins back s segments e)
          ∙ writes-merge_onto (joined back s segments) segments h k.1
          ∙ writes-joined back s segments h e
      | no n ↦
          ap writes (merge_onto-apart back s segments n)
          ∙ ap (λ t. writes_at back.address back.bytes ++ t) (writes-merge_onto s segments k.0 k.1)
    ]

-- For segments with 32-bit addresses, merging changes no write and not even their order.
pub writes-merge_segments :
    (segments : List Segment)
    → AllWords segments
    → writes (merge_segments segments) ≡ writes segments
unfolding merge_segments
writes-merge_segments [] h = refl
writes-merge_segments (s ∷ segments) h = writes-merge_onto s segments h.0 h.1

-- A merged list begins with the segment `back`, longer perhaps; so the next two go by a bound and
-- by the segment in front.
Ahead : (Segment → Type 0) → List Segment → Type 0
Ahead P [] = Unit
Ahead P (s ∷ segments) = P s

merge_onto-head :
    (P : ℕ → Type 0) (back : Segment) (segments : List Segment)
    → P back.address
    → Ahead (λ s. P s.address) (merge_onto back segments)
unfolding merge_onto Ahead
merge_onto-head P back [] p = p
merge_onto-head P back (s ∷ segments) p =
    elim (ℕ_discrete s.address (add32 back.address (length back.bytes))) [
      | yes e ↦
          rw (merge_onto-joins back s segments e)
            (merge_onto-head P (joined back s segments) segments p)
      | no n ↦ rw (merge_onto-apart back s segments n) p
    ]

cons-IsSeparated :
    (s : Segment) (segments : List Segment)
    → Ahead (λ t. ¬ Continues s t) segments
    → IsSeparated segments
    → IsSeparated (s ∷ segments)
unfolding Ahead
cons-IsSeparated s [] p q = tt
cons-IsSeparated s (t ∷ segments) p q = (p, q)

cons-IsAscending :
    (s : Segment) (segments : List Segment)
    → Ahead (λ t. s.address ≤ t.address) segments
    → IsAscending segments
    → IsAscending (s ∷ segments)
unfolding Ahead
cons-IsAscending s [] p q = tt
cons-IsAscending s (t ∷ segments) p q = (p, q)

merge_onto-IsSeparated :
    (back : Segment) (segments : List Segment) → IsSeparated (merge_onto back segments)
merge_onto-IsSeparated back [] = unfold merge_onto in tt
merge_onto-IsSeparated back (s ∷ segments) =
    elim (ℕ_discrete s.address (add32 back.address (length back.bytes))) [
      | yes e ↦
          rw (merge_onto-joins back s segments e)
            (merge_onto-IsSeparated (joined back s segments) segments)
      | no n ↦ rw (merge_onto-apart back s segments n) (
          cons-IsSeparated back (merge_onto s segments)
            (merge_onto-head (λ a. a ≢ add32 back.address (length back.bytes)) s segments n)
            (merge_onto-IsSeparated s segments))
    ]

drop_second :
    (s t : Segment) (segments : List Segment)
    → IsAscending (s ∷ t ∷ segments)
    → IsAscending (s ∷ segments)
drop_second s t [] h = tt
drop_second s t (u ∷ segments) h = (omega arith, h.1.1)

same_address :
    (s t : Segment) (segments : List Segment)
    → s.address ≡ t.address
    → IsAscending (s ∷ segments)
    → IsAscending (t ∷ segments)
same_address s t [] e h = tt
same_address s t (u ∷ segments) e h = (omega arith, h.1)

merge_onto-IsAscending :
    (back : Segment) (segments : List Segment)
    → IsAscending (back ∷ segments)
    → IsAscending (merge_onto back segments)
merge_onto-IsAscending back [] h = unfold merge_onto in tt
merge_onto-IsAscending back (s ∷ segments) h =
    elim (ℕ_discrete s.address (add32 back.address (length back.bytes))) [
      | yes e ↦ rw (merge_onto-joins back s segments e) (
          merge_onto-IsAscending (joined back s segments) segments (
            same_address back (joined back s segments) segments refl
              (drop_second back s segments h)))
      | no n ↦ rw (merge_onto-apart back s segments n) (
          cons-IsAscending back (merge_onto s segments)
            (merge_onto-head (λ a. back.address ≤ a) s segments h.0)
            (merge_onto-IsAscending s segments h.1))
    ]

-- After merging no segment continues the one before it.
pub merge_segments-IsSeparated : (segments : List Segment) → IsSeparated (merge_segments segments)
unfolding merge_segments
merge_segments-IsSeparated [] = tt
merge_segments-IsSeparated (s ∷ segments) = merge_onto-IsSeparated s segments

-- Merging keeps ascending addresses ascending.
pub merge_segments-IsAscending :
    (segments : List Segment) → IsAscending segments → IsAscending (merge_segments segments)
unfolding merge_segments
merge_segments-IsAscending [] h = tt
merge_segments-IsAscending (s ∷ segments) h = merge_onto-IsAscending s segments h
