-- ===== src/Flash/Paged/Returning.antt =====
-- Whether the routines for the F1 and the CW32 end, by the waits they make and the pages they erase.
use esp32_daplink.Base.{
  ℕ, zero, suc, ◌+◌, ◌-◌, ◌*◌, ◌/◌, ◌%◌, ◌^◌, ◌<◌, ◌≤◌, ◌≡◌, ◌∙◌, ap, bit_and, ltb, List, [], ◌∷◌,
  length, drop, add32, arith,
}
use esp32_daplink.Base.Bits.{bit_and-zero, bit_and-low_mask}
use esp32_daplink.Base.Bits.Split.{bit_and-split}
use esp32_daplink.Esp.{timeout}
use esp32_daplink.Esp.Action.{raise}
use esp32_daplink.Esp.Run.{done, ◌>>◌}
use esp32_daplink.Esp.Run.Returning.{
  Returns, Returns-done, Returns-lift, Returns-if, Returns-bind, Returns-seq, Returns-lift_seq,
}
use esp32_daplink.Esp.Wait.{MovesPast, poll_for-Returns}
use esp32_daplink.Hex.{Segment}
use esp32_daplink.Port.{SwdPort}
use esp32_daplink.Flash.Status.{look_bsy}
use esp32_daplink.Flash.G0.Returning.{reset_and_run-Returns}
use esp32_daplink.Flash.Paged.{
  Controller, stm32f1, cw32, wait_not_busy, unlock, lock, erase_page, erase_from, erase_segments,
  program_units, program_segment, program_segments, program_paged,
}

-- A segment that ends a page before the end of the addresses, within the rounds of the erase loop.
pub record IsErasable (c : Controller) (rounds : ℕ) (seg : Segment) : Type 0 where
  pub fits : seg.address + length seg.bytes + c.page_size ≤ 2 ^ 32
  pub enough : length seg.bytes + 2 * c.page_size ≤ 512 * rounds

abbrev pub AllErasable : Controller → ℕ → List Segment → Type 0
AllErasable c rounds [] = Unit {0}
AllErasable c rounds (seg ∷ segments) = IsErasable c rounds seg × AllErasable c rounds segments

-- What the loop over the pages needs of the page size.
pub record HasPages (c : Controller) : Type 0 where
  pub big : 512 ≤ c.page_size
  pub down : (x : ℕ) → x < 2 ^ 32 → bit_and x (2 ^ 32 - c.page_size) ≤ x
  pub near : (x : ℕ) → x < 2 ^ 32 → x < bit_and x (2 ^ 32 - c.page_size) + c.page_size

-- `x & ~(1024 - 1)`
clear_ten : (x : ℕ) → x < 2 ^ 32 → bit_and x (2 ^ 32 - 1024) ≡ x - x % 1024
clear_ten x fits =
    let cut : x ≡ x % 1024 + x / 1024 * 2 ^ 10 = omega arith in
    ap (λ y. bit_and y (2 ^ 32 - 1024)) cut
    ∙ bit_and-split 10 (x % 1024) (x / 1024) 0 (2 ^ 22 - 1) (omega arith) (omega arith)
    ∙ omega (arith, bit_and-zero (x % 1024), bit_and-low_mask 22 (x / 1024))

-- `x & ~(512 - 1)`
clear_nine : (x : ℕ) → x < 2 ^ 32 → bit_and x (2 ^ 32 - 512) ≡ x - x % 512
clear_nine x fits =
    let cut : x ≡ x % 512 + x / 512 * 2 ^ 9 = omega arith in
    ap (λ y. bit_and y (2 ^ 32 - 512)) cut
    ∙ bit_and-split 9 (x % 512) (x / 512) 0 (2 ^ 23 - 1) (omega arith) (omega arith)
    ∙ omega (arith, bit_and-zero (x % 512), bit_and-low_mask 23 (x / 512))

pub stm32f1-HasPages : HasPages stm32f1
stm32f1-HasPages = record {
  big = omega arith;
  down = λ x h. omega (arith, clear_ten x h);
  near = λ x h. omega (arith, clear_ten x h);
}

pub cw32-HasPages : HasPages cw32
cw32-HasPages = record {
  big = omega arith;
  down = λ x h. omega (arith, clear_nine x h);
  near = λ x h. omega (arith, clear_nine x h);
}

module _ {S : Type 0} (port : SwdPort S) (clock : ℕ → ℕ) (fuel : ℕ)
    (moves : MovesPast clock 5000 fuel) (c : Controller) where
  wait_not_busy-Returns :
      (timeout_ms : ℕ) → timeout_ms ≤ 5000 → Returns (wait_not_busy port clock fuel c timeout_ms)
  unfolding wait_not_busy
  wait_not_busy-Returns timeout_ms short =
      poll_for-Returns clock (look_bsy port c.sr_addr) (raise timeout) timeout_ms 5000 fuel moves
        short

  unlock-Returns : Returns (unlock port clock fuel c)
  unfolding unlock
  unlock-Returns = Returns-lift_seq _ _ (Returns-lift _)

  lock-Returns : Returns (lock port clock fuel c)
  unfolding lock
  lock-Returns = Returns-bind _ _ (Returns-lift _) (λ cr. Returns-lift _)

  erase_page-Returns : (address : ℕ) → Returns (erase_page port clock fuel c address)
  unfolding erase_page
  erase_page-Returns address = Returns-seq _ _ (wait_not_busy-Returns 2000 (omega arith)) (
      Returns-lift_seq _ _ (
        Returns-lift_seq _ _ (
          Returns-lift_seq _ _
            (Returns-seq _ _ (wait_not_busy-Returns 5000 (omega arith)) (Returns-lift _)))))

  erase_from-Returns :
      (rounds page_addr end_addr : ℕ)
      → 512 ≤ c.page_size
      → end_addr + c.page_size ≤ 2 ^ 32
      → page_addr < end_addr + c.page_size
      → end_addr + c.page_size ≤ page_addr + 512 * rounds
      → Returns (erase_from port clock fuel c rounds page_addr end_addr)
  unfolding erase_from
  erase_from-Returns zero page_addr end_addr big small near enough =
      absurd (omega (arith, near, enough))
  erase_from-Returns (suc rounds) page_addr end_addr big small near enough =
      let next = add32 page_addr c.page_size in
      let rest = erase_from port clock fuel c rounds next end_addr in
      Returns-if (ltb page_addr end_addr) (erase_page port clock fuel c page_addr >> rest) (done tt)
        (λ more.
          let below : page_addr < end_addr = ground (arith, more) in
          Returns-seq (erase_page port clock fuel c page_addr) rest (erase_page-Returns page_addr) (
            erase_from-Returns rounds next end_addr big small (omega (arith, below, small, big))
              (omega (arith, below, small, big, enough))))
        (λ _. Returns-done tt)

  erase_segments-Returns :
      (rounds : ℕ) (segments : List Segment)
      → HasPages c
      → AllErasable c rounds segments
      → Returns (erase_segments port clock fuel c rounds segments)
  unfolding erase_segments
  erase_segments-Returns rounds [] pages all = Returns-done tt
  erase_segments-Returns rounds (seg ∷ segments) pages all =
      let fits = all.0.fits in
      let big = pages.big in
      let below : seg.address < 2 ^ 32 = omega (arith, fits, big) in
      let down = pages.down seg.address below in
      let near = pages.near seg.address below in
      Returns-seq _ _
        (erase_from-Returns rounds (bit_and seg.address (2 ^ 32 - c.page_size))
          (add32 seg.address (length seg.bytes)) big (omega (arith, fits, big))
          (omega (arith, fits, big, down)) (omega (arith, fits, big, near, all.0.enough)))
        (erase_segments-Returns rounds segments pages all.1)

  program_units-Returns :
      (rounds address : ℕ) (bytes : List ℕ)
      → Returns (program_units port clock fuel c rounds address bytes)
  unfolding program_units
  program_units-Returns zero address bytes = Returns-done tt
  program_units-Returns (suc rounds) address [] = Returns-done tt
  program_units-Returns (suc rounds) address (b ∷ bytes) = Returns-lift_seq _ _ (
      Returns-seq _ _ (wait_not_busy-Returns 2000 (omega arith))
        (program_units-Returns rounds (add32 address c.unit_size) (drop (c.unit_size - 1) bytes)))

  program_segment-Returns : (seg : Segment) → Returns (program_segment port clock fuel c seg)
  unfolding program_segment
  program_segment-Returns seg = Returns-seq _ _ (wait_not_busy-Returns 2000 (omega arith)) (
      Returns-lift_seq _ _ (
        Returns-seq _ _ (program_units-Returns (length seg.bytes) seg.address seg.bytes)
          (Returns-lift _)))

  program_segments-Returns :
      (segments : List Segment) → Returns (program_segments port clock fuel c segments)
  unfolding program_segments
  program_segments-Returns [] = Returns-done tt
  program_segments-Returns (seg ∷ segments) =
      Returns-seq _ _ (program_segment-Returns seg) (program_segments-Returns segments)

  -- With any port and target, a routine over pages of at least 512 bytes returns, with an error or
  -- not, for segments that end a page below 2^32 and no larger than the rounds of the erase loop
  -- allow, when from each reading of the clock on some reading within the fuel of a wait is more
  -- than five seconds later.
  pub program_paged-Returns :
      (rounds : ℕ) (segments : List Segment)
      → HasPages c
      → AllErasable c rounds segments
      → Returns (program_paged port clock fuel c rounds segments)
  unfolding program_paged
  program_paged-Returns rounds segments pages all = Returns-lift_seq _ _ (
      Returns-lift_seq _ _ (
        Returns-seq _ _ unlock-Returns (
          Returns-seq _ _ (erase_segments-Returns rounds segments pages all) (
            Returns-seq _ _ (program_segments-Returns segments)
              (Returns-seq _ _ lock-Returns (reset_and_run-Returns port))))))
