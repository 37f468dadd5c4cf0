-- ===== src/Swd/Retry.antt =====
-- The retry loop of `transfer`: an induction rule, and what it decides.
use esp32_daplink.Base.{
  ℕ, zero, suc, ◌-◌, ◌≡◌, ◌≢◌, refl, not, ◌&&◌, ◌||◌, ltb, ◌==◌, if◌then◌else◌, arith,
}
use native.Mathlib.Decide.{ℕ_discrete}
use esp32_daplink.Esp.{esp_ok, esp_fail, timeout}
use esp32_daplink.Swd.Wire.{
  Swd, Target, ack_ok, ack_wait, ack_fault, request_phase, settle, clear_sticky,
}
use esp32_daplink.Swd.Transfer.{Ended, transfer_loop}

module _ (target : Target) (rq : ℕ) where
  -- the acknowledge of one attempt, and the state after it
  abbrev pub ack_of : Swd → ℕ
  ack_of s = (request_phase target rq s).0

  abbrev pub phase : Swd → Swd
  phase s = (request_phase target rq s).1

  abbrev pub won : Swd → Ended
  won s = record { ack = ack_of s; error = esp_ok; after = phase s }

  abbrev lost : Swd → Ended
  lost s = record {
    ack = ack_of s;
    error = if ack_of s == ack_wait then timeout else esp_fail;
    after = settle (phase s);
  }

  -- The single body of the `do` loop, with the tests in the order of the source.
  transfer_loop_lem :
      (retries faults : ℕ) (s : Swd)
      → transfer_loop target rq retries faults s ≡ (
          if ack_of s == ack_ok
          then won s
          else if (ack_of s == ack_fault) && ltb 0 faults
          then transfer_loop target rq retries (faults - 1) (clear_sticky target (settle (phase s)))
          else if not (ack_of s == ack_wait) || (retries == 0)
          then lost s
          else transfer_loop target rq (retries - 1) faults (settle (phase s)))
  unfolding transfer_loop
  transfer_loop_lem zero zero s = ground arith
  transfer_loop_lem zero (suc f) s = ground arith
  transfer_loop_lem (suc r) zero s = ground arith
  transfer_loop_lem (suc r) (suc f) s = ground arith

  step_won : (r f : ℕ) (s : Swd) → ack_of s ≡ ack_ok → transfer_loop target rq r f s ≡ won s
  unfolding transfer_loop
  step_won zero zero s ok = ground arith
  step_won zero (suc f) s ok = ground arith
  step_won (suc r) zero s ok = ground arith
  step_won (suc r) (suc f) s ok = ground arith

  step_abort :
      (r f : ℕ) (s : Swd)
      → ack_of s ≡ ack_fault
      → transfer_loop target rq r (suc f) s
        ≡ transfer_loop target rq r f (clear_sticky target (settle (phase s)))
  unfolding transfer_loop
  step_abort zero f s fault = ground arith
  step_abort (suc r) f s fault = ground arith

  step_again :
      (r f : ℕ) (s : Swd)
      → ack_of s ≡ ack_wait
      → transfer_loop target rq (suc r) f s ≡ transfer_loop target rq r f (settle (phase s))
  unfolding transfer_loop
  step_again r zero s wait = ground arith
  step_again r (suc f) s wait = ground arith

  step_lost :
      (r f : ℕ) (s : Swd)
      → ack_of s ≢ ack_ok
      → (ack_of s ≡ ack_fault → f ≡ 0)
      → (ack_of s ≡ ack_wait → r ≡ 0)
      → transfer_loop target rq r f s ≡ lost s
  unfolding transfer_loop
  step_lost zero zero s not_ok no_abort no_again = ground arith
  step_lost zero (suc f) s not_ok no_abort no_again = ground arith
  step_lost (suc r) zero s not_ok no_abort no_again = ground arith
  step_lost (suc r) (suc f) s not_ok no_abort no_again = ground arith

  -- `P` is kept by each way to try again, with one retry less; where the loop ends, `Q` holds.
  module _ (P : ℕ → ℕ → Swd → Type 0) (Q : Ended → Type 0)
      (again : (r f : ℕ) (s : Swd) → P (suc r) f s → ack_of s ≡ ack_wait → P r f (settle (phase s)))
      (abort : (r f : ℕ) (s : Swd)
        → P r (suc f) s
        → ack_of s ≡ ack_fault
        → P r f (clear_sticky target (settle (phase s))))
      (win : (r f : ℕ) (s : Swd) → P r f s → ack_of s ≡ ack_ok → Q (won s))
      (lose : (r f : ℕ) (s : Swd)
        → P r f s
        → ack_of s ≢ ack_ok
        → (ack_of s ≡ ack_fault → f ≡ 0)
        → (ack_of s ≡ ack_wait → r ≡ 0)
        → Q (lost s)) where
    pub transfer_loop_rule : (r f : ℕ) (s : Swd) → P r f s → Q (transfer_loop target rq r f s)
    transfer_loop_rule zero zero s h = elim (ℕ_discrete (ack_of s) ack_ok) [
      | yes ok ↦ rw (step_won zero zero s ok) (win zero zero s h ok)
      | no not_ok ↦
          rw (step_lost zero zero s not_ok (λ _. refl) (λ _. refl))
            (lose zero zero s h not_ok (λ _. refl) (λ _. refl))
    ]
    transfer_loop_rule zero (suc f) s h = elim (ℕ_discrete (ack_of s) ack_ok) [
      | yes ok ↦ rw (step_won zero (suc f) s ok) (win zero (suc f) s h ok)
      | no not_ok ↦ elim (ℕ_discrete (ack_of s) ack_fault) [
        | yes fault ↦
            rw (step_abort zero f s fault) (transfer_loop_rule zero f _ (abort zero f s h fault))
        | no other ↦
            rw (step_lost zero (suc f) s not_ok (λ e. absurd (other e)) (λ _. refl))
              (lose zero (suc f) s h not_ok (λ e. absurd (other e)) (λ _. refl))
      ]
    ]
    transfer_loop_rule (suc r) zero s h = elim (ℕ_discrete (ack_of s) ack_ok) [
      | yes ok ↦ rw (step_won (suc r) zero s ok) (win (suc r) zero s h ok)
      | no not_ok ↦ elim (ℕ_discrete (ack_of s) ack_wait) [
        | yes wait ↦
            rw (step_again r zero s wait) (transfer_loop_rule r zero _ (again r zero s h wait))
        | no other ↦
            rw (step_lost (suc r) zero s not_ok (λ _. refl) (λ e. absurd (other e)))
              (lose (suc r) zero s h not_ok (λ _. refl) (λ e. absurd (other e)))
      ]
    ]
    transfer_loop_rule (suc r) (suc f) s h = elim (ℕ_discrete (ack_of s) ack_ok) [
      | yes ok ↦ rw (step_won (suc r) (suc f) s ok) (win (suc r) (suc f) s h ok)
      | no not_ok ↦ elim (ℕ_discrete (ack_of s) ack_fault) [
        | yes fault ↦
            rw (step_abort (suc r) f s fault)
              (transfer_loop_rule (suc r) f _ (abort (suc r) f s h fault))
        | no no_fault ↦ elim (ℕ_discrete (ack_of s) ack_wait) [
          | yes wait ↦
              rw (step_again r (suc f) s wait)
                (transfer_loop_rule r (suc f) _ (again r (suc f) s h wait))
          | no other ↦
              rw
                (step_lost (suc r) (suc f) s not_ok (λ e. absurd (no_fault e))
                  (λ e. absurd (other e)))
                (lose (suc r) (suc f) s h not_ok (λ e. absurd (no_fault e)) (λ e. absurd (other e)))
        ]
      ]
    ]
