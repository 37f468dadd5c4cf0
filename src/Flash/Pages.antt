-- ===== src/Flash/Pages.antt =====
-- The pages that `program_stm32_g0` erases.
pub mod Exact
use esp32_daplink.Base.{
  ℕ, zero, suc, ◌+◌, ◌-◌, ◌/◌, Bool, true, false, ◌||◌, ◌==◌, ltb, if◌then◌else◌, List, [], ◌∷◌,
  length, add32, sub32,
}
use esp32_daplink.Hex.{Segment}

abbrev pub flash_start : ℕ
flash_start = 0x08000000

abbrev pub page_size : ℕ
page_size = 2048

-- `std::set<uint32_t>::insert`: the set is the list of its elements, in ascending order.
unfoldable pub insert : ℕ → List ℕ → List ℕ
insert p [] = p ∷ []
insert p (q ∷ pages) =
    let rest = insert p pages in
    if ltb p q then p ∷ q ∷ pages else if p == q then q ∷ pages else q ∷ rest

-- `for (p = page_start; p <= page_end; ++p) insert(p)`, with `count` rounds.
unfoldable pub insert_from : ℕ → ℕ → List ℕ → List ℕ
insert_from zero p pages = pages
insert_from (suc count) p pages = insert_from count (p + 1) (insert p pages)

unfoldable pub insert_segment : Segment → List ℕ → List ℕ
insert_segment seg pages =
    let page_start = sub32 seg.address flash_start / page_size in
    let page_end = sub32 (sub32 (add32 seg.address (length seg.bytes)) 1) flash_start / page_size in
    insert_from (page_end + 1 - page_start) page_start pages

-- The loop over the segments, `pages` being what the set has before.
unfoldable pub pages_to_erase : List Segment → List ℕ → List ℕ
pages_to_erase [] pages = pages
pages_to_erase (seg ∷ segments) pages = pages_to_erase segments (insert_segment seg pages)
