-- ===== src/Swd/Outcome.antt =====
-- What the error code of a transfer says about the acknowledge that the target gave.
use Prim.{Unit, tt}
use esp32_daplink.Base.{
  ℕ, ◌≡◌, ◌≢◌, refl, Bool, true, false, inl, inr, ◌==◌, if◌then◌else◌, arith, Bool-cases,
}
use esp32_daplink.Esp.{EspErr, esp_ok, esp_fail, timeout, invalid_crc}
use esp32_daplink.Swd.Wire.{Swd, Target, ack_ok, ack_wait, read_bits, parity32, make_request}
use esp32_daplink.Swd.Transfer.{transfer_loop, transfer_end, read_phase, transfer}
use esp32_daplink.Swd.Retry.{transfer_loop_rule, ack_of}

-- The four results of a transfer.
pub data Explains (read : Bool) : EspErr → ℕ → Type 0 where
  done : Explains read esp_ok ack_ok
  corrupt : read ≡ true → Explains read invalid_crc ack_ok
  waited : Explains read timeout ack_wait
  refused : (ack : ℕ) → ack ≢ ack_ok → ack ≢ ack_wait → Explains read esp_fail ack

-- and of its loop, which does not read
data LoopEnds : EspErr → ℕ → Type 0 where
  won : LoopEnds esp_ok ack_ok
  gave_up : LoopEnds timeout ack_wait
  denied : (ack : ℕ) → ack ≢ ack_ok → ack ≢ ack_wait → LoopEnds esp_fail ack

lost_lem : (ack : ℕ) → ack ≢ ack_ok → LoopEnds (if ack == ack_wait then timeout else esp_fail) ack
lost_lem ack not_ok = elim (Bool-cases (ack == ack_wait)) [
  | inl wait ↦ rw (wait_lem ack wait) gave_up
  | inr other ↦ rw other (denied ack not_ok (ground arith))
]
  where
    wait_lem : (ack : ℕ) → ack == ack_wait ≡ true → ack ≡ ack_wait
    wait_lem ack e = ground arith

won_lem : (ack : ℕ) → ack ≡ ack_ok → LoopEnds esp_ok ack
won_lem ack e = rw e won

module _ (target : Target) where
  transfer_loop-LoopEnds :
      (rq r f : ℕ) (s : Swd)
      → LoopEnds (transfer_loop target rq r f s).error (transfer_loop target rq r f s).ack
  transfer_loop-LoopEnds rq r f s =
      transfer_loop_rule target rq (λ _ _ _. Unit {0}) (λ x. LoopEnds x.error x.ack)
        (λ _ _ _ _ _. tt) (λ _ _ _ _ _. tt) (λ _ _ x _ ok. won_lem (ack_of target rq x) ok)
        (λ _ _ x _ not_ok _ _. lost_lem (ack_of target rq x) not_ok) r f s tt

  read_phase-Explains :
      (s : Swd)
      → Explains true (read_phase target ack_ok s).0.error (read_phase target ack_ok s).0.ack
  unfolding read_phase
  read_phase-Explains s =
      let (value, s1) = read_bits target 32 s in
      elim (Bool-cases ((read_bits target 1 s1).0 == parity32 value)) [
        | inl good ↦ rw good done
        | inr wrong ↦ rw wrong (corrupt refl)
      ]

  transfer_end-Explains :
      (read : Bool) (value ack : ℕ) (error : EspErr) (s : Swd)
      → LoopEnds error ack
      → Explains read
          (transfer_end target read value (record { ack = ack; error = error; after = s })).0.error
          (transfer_end target read value (record { ack = ack; error = error; after = s })).0.ack
  unfolding transfer_end
  transfer_end-Explains true value _ _ s won = read_phase-Explains s
  transfer_end-Explains false value _ _ s won = done
  transfer_end-Explains read value _ _ s gave_up = waited
  transfer_end-Explains read value _ _ s (denied ack not_ok not_wait) = refused ack not_ok not_wait

  -- The error code and the acknowledge of a transfer agree, with any target: `ESP_OK` is an OK, an
  -- invalid CRC is a read with an OK, a time-out is a WAIT, and a failure is any other acknowledge.
  pub transfer-Explains :
      (ap read : Bool) (addr value : ℕ) (s : Swd)
      → Explains read
          (transfer target ap read addr value s).0.error
          (transfer target ap read addr value s).0.ack
  unfolding transfer
  transfer-Explains ap read addr value s =
      let x = transfer_loop target (make_request ap read addr) s.wait_retry 1 s in
      transfer_end-Explains read value x.ack x.error x.after
        (transfer_loop-LoopEnds (make_request ap read addr) s.wait_retry 1 s)
