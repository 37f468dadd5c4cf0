-- ===== src/Flash/Pages/Exact.antt =====
-- Which pages a programming run erases, against the bytes of its segments.
use esp32_daplink.Base.{
  ℕ, zero, suc, ◌+◌, ◌-◌, ◌*◌, ◌/◌, ◌^◌, ◌≤◌, ◌<◌, ◌≡◌, refl, sym, ap, ◌∙◌, ◌↔◌, ◌⊎◌, inl, inr,
  Bool, true, false, ◌||◌, ◌&&◌, ◌==◌, ltb, leb, List, [], ◌∷◌, length, add32, sub32, arith,
}
use esp32_daplink.Hex.{Segment}
use esp32_daplink.Flash.Pages.{
  flash_start, page_size, insert, insert_from, insert_segment, pages_to_erase,
}

unfoldable pub has : ℕ → List ℕ → Bool
has p [] = false
has p (q ∷ pages) = (p == q) || has p pages

pub has-insert : (p q : ℕ) (pages : List ℕ) → has p (insert q pages) ≡ ((p == q) || has p pages)
unfolding has insert
has-insert p q [] = refl
has-insert p q (r ∷ pages) = ground (arith, has-insert p q pages)

has-insert_from :
    (p count q : ℕ) (pages : List ℕ)
    → has p (insert_from count q pages) ≡ ((leb q p && ltb p (q + count)) || has p pages)
unfolding insert_from
has-insert_from p zero q pages = ground arith
has-insert_from p (suc count) q pages =
    ground (arith, has-insert_from p count (q + 1) (insert q pages), has-insert p q pages)

-- A segment that has bytes, in the flash.
pub record IsInFlash (seg : Segment) : Type 0 where
  pub some : 0 < length seg.bytes
  pub from : flash_start ≤ seg.address
  pub below : seg.address + length seg.bytes < 2 ^ 32

-- The page of the i-th byte of a segment.
abbrev pub page_of : Segment → ℕ → ℕ
page_of seg i = (seg.address + i - flash_start) / page_size

has-insert_segment :
    (p : ℕ) (seg : Segment) (pages : List ℕ)
    → IsInFlash seg
    → has p (insert_segment seg pages)
      ≡ ((leb (page_of seg 0) p && leb p (page_of seg (length seg.bytes - 1))) || has p pages)
unfolding insert_segment
has-insert_segment p seg pages inside =
    let first = sub32 seg.address flash_start / page_size in
    let last = sub32 (sub32 (add32 seg.address (length seg.bytes)) 1) flash_start / page_size in
    let first_is : first ≡ page_of seg 0 = omega (arith, inside.from, inside.below) in
    let last_is : last ≡ page_of seg (length seg.bytes - 1) =
      omega (arith, inside.from, inside.below, inside.some) in
    has-insert_from p (last + 1 - first) first pages ∙ ground (arith, first_is, last_is)

-- A byte of the segment is on the page.
abbrev pub IsOn : ℕ → Segment → Type 0
IsOn p seg = (i : ℕ) × (i < length seg.bytes) × (page_of seg i ≡ p)

-- A byte of one of the segments is on the page.
abbrev pub Holds : ℕ → List Segment → Type 0
Holds p [] = ⊥
Holds p (seg ∷ segments) = IsOn p seg ⊎ Holds p segments

abbrev pub AllInFlash : List Segment → Type 0
AllInFlash [] = Unit {0}
AllInFlash (seg ∷ segments) = IsInFlash seg × AllInFlash segments

byte_of_page :
    (p : ℕ) (seg : Segment)
    → IsInFlash seg
    → (leb (page_of seg 0) p && leb p (page_of seg (length seg.bytes - 1))) ≡ true
    → IsOn p seg
byte_of_page p seg inside e = (
  page_size * p - (seg.address - flash_start),
  ground (arith, e, inside.from, inside.some),
  ground (arith, e, inside.from, inside.some),
)

page_in_range :
    (p : ℕ) (seg : Segment)
    → IsInFlash seg
    → IsOn p seg
    → (leb (page_of seg 0) p && leb p (page_of seg (length seg.bytes - 1))) ≡ true
page_in_range p seg inside (i, small, e) = ground (arith, inside.from, inside.some, small, e)

pub either_holds : (a b : Bool) → (a || b) ≡ true → (a ≡ true) ⊎ (b ≡ true)
either_holds true b e = inl refl
either_holds false b e = inr e

pub second_holds : (a b : Bool) → b ≡ true → (a || b) ≡ true
second_holds true b e = refl
second_holds false b e = e

sound :
    (p : ℕ) (segments : List Segment) (pages : List ℕ)
    → AllInFlash segments
    → has p (pages_to_erase segments pages) ≡ true
    → Holds p segments ⊎ (has p pages ≡ true)
unfolding pages_to_erase
sound p [] pages all h = inr h
sound p (seg ∷ segments) pages all h = elim (sound p segments (insert_segment seg pages) all.1 h) [
  | inl later ↦ inl (inr later)
  | inr here ↦
      elim (either_holds (leb (page_of seg 0) p && leb p (page_of seg (length seg.bytes - 1)))
        (has p pages) (sym (has-insert_segment p seg pages all.0) ∙ here)) [
          | inl range ↦ inl (inl (byte_of_page p seg all.0 range))
          | inr before ↦ inr before
        ]
]

complete :
    (p : ℕ) (segments : List Segment) (pages : List ℕ)
    → AllInFlash segments
    → Holds p segments ⊎ (has p pages ≡ true)
    → has p (pages_to_erase segments pages) ≡ true
unfolding pages_to_erase
complete p [] pages all (inl none_here) = absurd none_here
complete p [] pages all (inr h) = h
complete p (seg ∷ segments) pages all (inl (inr later)) =
    complete p segments (insert_segment seg pages) all.1 (inl later)
complete p (seg ∷ segments) pages all (inl (inl on)) =
    complete p segments (insert_segment seg pages) all.1 (
      inr (
        has-insert_segment p seg pages all.0
        ∙ ap (λ b. b || has p pages) (page_in_range p seg all.0 on)))
complete p (seg ∷ segments) pages all (inr h) =
    complete p segments (insert_segment seg pages) all.1 (
      inr (
        has-insert_segment p seg pages all.0
        ∙ second_holds (leb (page_of seg 0) p && leb p (page_of seg (length seg.bytes - 1)))
            (has p pages) h))

-- For segments that have bytes and lie in the flash, below 2^32, the page numbers that
-- `pages_to_erase` collects are exactly those of the pages that a byte of a segment is on.
pub pages_to_erase-Holds :
    (p : ℕ) (segments : List Segment)
    → AllInFlash segments
    → (has p (pages_to_erase segments []) ≡ true) ↔ Holds p segments
unfolding has
pages_to_erase-Holds p segments all = (
  λ h. elim (sound p segments [] all h) [ inl on ↦ on | inr before ↦ cc ],
  λ on. complete p segments [] all (inl on),
)
