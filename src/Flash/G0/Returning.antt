-- ===== src/Flash/G0/Returning.antt =====
-- Whether the G0 routine ends, by the waits it makes.
use esp32_daplink.Base.{ℕ, zero, suc, ◌≤◌, test_bit, List, [], ◌∷◌, length, drop, add32, arith}
use esp32_daplink.Esp.{timeout, esp_fail}
use esp32_daplink.Esp.Action.{raise}
use esp32_daplink.Esp.Run.{done, lift}
use esp32_daplink.Esp.Run.Returning.{
  Returns, Returns-done, Returns-lift, Returns-if, Returns-bind, Returns-seq, Returns-lift_seq,
}
use esp32_daplink.Esp.Wait.{MovesPast, poll_for-Returns}
use esp32_daplink.Hex.{Segment}
use esp32_daplink.Port.{SwdPort}
use esp32_daplink.Flash.Pages.{pages_to_erase}
use esp32_daplink.Flash.Status.{look_bsy1}
use esp32_daplink.Flash.G0.{
  sr_addr, wait_not_busy, check_unlocked, write_keys, unlock, lock, erase_page, program_dword,
  erase_pages, program_dwords, program_segments, reset_and_run, program_stm32_g0,
}

module _ {S : Type 0} (port : SwdPort S) where
  check_unlocked-Returns : (cr : ℕ) → Returns (check_unlocked port cr)
  unfolding check_unlocked
  check_unlocked-Returns cr =
      Returns-if (test_bit cr 31) (lift (raise esp_fail)) (done tt)
        (λ _. Returns-lift (raise esp_fail)) (λ _. Returns-done tt)

  write_keys-Returns : Returns (write_keys port)
  unfolding write_keys
  write_keys-Returns = Returns-lift_seq _ _ (
      Returns-lift_seq _ _
        (Returns-bind _ (check_unlocked port) (Returns-lift _) check_unlocked-Returns))

  unlock-Returns : Returns (unlock port)
  unfolding unlock
  unlock-Returns = Returns-bind _ _ (Returns-lift _) (λ cr.
      Returns-if (test_bit cr 31) (write_keys port) (done tt) (λ _. write_keys-Returns)
        (λ _. Returns-done tt))

  lock-Returns : Returns (lock port)
  unfolding lock
  lock-Returns = Returns-bind _ _ (Returns-lift _) (λ cr. Returns-lift _)

  pub reset_and_run-Returns : Returns (reset_and_run port)
  unfolding reset_and_run
  reset_and_run-Returns = Returns-lift_seq _ _ (Returns-lift _)

module _ {S : Type 0} (port : SwdPort S) (clock : ℕ → ℕ) (fuel : ℕ)
    (moves : MovesPast clock 5000 fuel) where
  wait_not_busy-Returns :
      (timeout_ms : ℕ) → timeout_ms ≤ 5000 → Returns (wait_not_busy port clock fuel timeout_ms)
  unfolding wait_not_busy
  wait_not_busy-Returns timeout_ms short =
      poll_for-Returns clock (look_bsy1 port sr_addr) (raise timeout) timeout_ms 5000 fuel moves
        short

  erase_page-Returns : (page_number : ℕ) → Returns (erase_page port clock fuel page_number)
  unfolding erase_page
  erase_page-Returns page_number = Returns-seq _ _ (wait_not_busy-Returns 2000 (omega arith)) (
      Returns-lift_seq _ _
        (Returns-seq _ _ (wait_not_busy-Returns 5000 (omega arith)) (Returns-lift _)))

  program_dword-Returns :
      (address word_lo word_hi : ℕ)
      → Returns (program_dword port clock fuel address word_lo word_hi)
  unfolding program_dword
  program_dword-Returns address word_lo word_hi =
      Returns-seq _ _ (wait_not_busy-Returns 2000 (omega arith)) (
        Returns-lift_seq _ _ (
          Returns-lift_seq _ _ (
            Returns-lift_seq _ _
              (Returns-seq _ _ (wait_not_busy-Returns 2000 (omega arith)) (Returns-lift _)))))

  erase_pages-Returns : (pages : List ℕ) → Returns (erase_pages port clock fuel pages)
  unfolding erase_pages
  erase_pages-Returns [] = Returns-done tt
  erase_pages-Returns (p ∷ pages) =
      Returns-seq _ _ (erase_page-Returns p) (erase_pages-Returns pages)

  program_dwords-Returns :
      (rounds address : ℕ) (bytes : List ℕ)
      → Returns (program_dwords port clock fuel rounds address bytes)
  unfolding program_dwords
  program_dwords-Returns zero address bytes = Returns-done tt
  program_dwords-Returns (suc rounds) address [] = Returns-done tt
  program_dwords-Returns (suc rounds) address (b ∷ bytes) =
      Returns-seq _ _ (program_dword-Returns address _ _)
        (program_dwords-Returns rounds (add32 address 8) (drop 7 bytes))

  program_segments-Returns :
      (segments : List Segment) → Returns (program_segments port clock fuel segments)
  unfolding program_segments
  program_segments-Returns [] = Returns-done tt
  program_segments-Returns (seg ∷ segments) =
      Returns-seq _ _ (program_dwords-Returns (length seg.bytes) seg.address seg.bytes)
        (program_segments-Returns segments)

  -- With any port and target, the G0 routine returns, with an error or not, for any segments, when
  -- from each reading of the clock on some reading within the fuel of a wait is more than five
  -- seconds later.
  pub program_stm32_g0-Returns :
      (segments : List Segment) → Returns (program_stm32_g0 port clock fuel segments)
  unfolding program_stm32_g0
  program_stm32_g0-Returns segments = Returns-lift_seq _ _ (
      Returns-lift_seq _ _ (
        Returns-seq _ _ (unlock-Returns port) (
          Returns-seq _ _ (erase_pages-Returns (pages_to_erase segments [])) (
            Returns-seq _ _ (program_segments-Returns segments)
              (Returns-seq _ _ (lock-Returns port) (reset_and_run-Returns port))))))
