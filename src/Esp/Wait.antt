-- ===== src/Esp/Wait.antt =====
-- The loops that look at a register until it has changed or a timeout is over.
use mathlib.Core.Path.{subst}
use esp32_daplink.Base.{
  ℕ, zero, suc, ◌+◌, ◌<◌, ◌≤◌, ◌≡◌, refl, Bool, false, ltb, if◌then◌else◌, if_elim, Option, some,
  sub32, arith,
}
use esp32_daplink.Esp.Action.{Result, err, Act, result_elim}
use esp32_daplink.Esp.Run.{Board, Run, done, endless, lift, timestamp, ◌>>=◌}
use esp32_daplink.Esp.Run.Returning.{Returns}

-- `look` says whether to stop, and `give_up` is what happens after the timeout.
module _ {S : Type 0} (clock : ℕ → ℕ) (look : Act S Bool) (give_up : Act S (Unit {0})) where
  unfoldable pub poll_loop : ℕ → ℕ → ℕ → Run S (Unit {0})
  poll_loop timeout_ms start zero = endless
  poll_loop timeout_ms start (suc fuel) =
      let again = poll_loop timeout_ms start fuel in
      lift look >>= λ stop.
      if stop
      then done tt
      else timestamp clock >>= λ now.
          if ltb timeout_ms (sub32 now start) then lift give_up else again

  unfoldable pub poll_for : ℕ → ℕ → Run S (Unit {0})
  poll_for timeout_ms fuel = timestamp clock >>= λ start. poll_loop timeout_ms start fuel

-- From each reading of the clock on, it moves by more than `timeout_ms` within `fuel` readings that
-- come after the next one.
abbrev pub MovesPast : (ℕ → ℕ) → ℕ → ℕ → Type 0
MovesPast clock timeout_ms fuel =
    (n : ℕ) → (k : ℕ) × (k < fuel) × (timeout_ms < sub32 (clock (suc n + k)) (clock n))

module _ {S : Type 0} (clock : ℕ → ℕ) (look : Act S Bool) (give_up : Act S (Unit {0})) where
  -- The reading of the clock that is `k` after the next one is past the timeout.
  poll_loop-ends :
      (timeout_ms start fuel k : ℕ) (w : Board S)
      → k < fuel
      → timeout_ms < sub32 (clock (w.readings + k)) start
      → (r : Result (Unit {0}) × Board S) × (poll_loop clock look give_up timeout_ms start fuel w
          ≡ some r)
  unfolding poll_loop ◌>>=◌ lift timestamp done
  poll_loop-ends timeout_ms start zero k w few late = absurd (omega (arith, few))
  poll_loop-ends timeout_ms start (suc fuel) k w few late =
      let s = (look w.swd).1 in
      let read : Board S = record w { swd = s } in
      let timed : Board S = record { swd = s; readings = suc w.readings } in
      let Ends : Option (Result (Unit {0}) × Board S) → Type 0 =
        λ o. (r : Result (Unit {0}) × Board S) × (o ≡ some r) in
      let again = poll_loop clock look give_up timeout_ms start fuel in
      let check : ℕ → Run S (Unit {0}) =
        λ now. if ltb timeout_ms (sub32 now start) then lift give_up else again in
      result_elim Ends (look w.swd).0
        (λ stop. (if stop then done tt else (timestamp clock >>= check)) read)
        (λ e. some (err e, read))
        (λ stop.
          if_elim (λ (m : Run S (Unit {0})). Ends (m read)) stop (done tt)
            (timestamp clock >>= check) (λ _. (_, refl))
            (λ _.
              if_elim (λ (m : Run S (Unit {0})). Ends (m timed))
                (ltb timeout_ms (sub32 (clock w.readings) start)) (lift give_up) again
                (λ _. (_, refl))
                (λ early.
                  later (λ j. poll_loop-ends timeout_ms start fuel j timed) early k few late)))
        (λ e. (_, refl))
    where
      later :
          {Goal : Type 0}
          → ((j : ℕ) → j < fuel → timeout_ms < sub32 (clock (suc w.readings + j)) start → Goal)
          → ltb timeout_ms (sub32 (clock w.readings) start) ≡ false
          → (k : ℕ) → k < suc fuel
          → timeout_ms < sub32 (clock (w.readings + k)) start
          → Goal
      later next early zero few late = absurd (ground (arith, early, late))
      later next early (suc j) few late =
          let moved : w.readings + suc j ≡ suc w.readings + j = omega arith in
          next j (omega (arith, few)) (subst (λ n. timeout_ms < sub32 (clock n) start) moved late)

  pub poll_for-Returns :
      (timeout_ms longest fuel : ℕ)
      → MovesPast clock longest fuel
      → timeout_ms ≤ longest
      → Returns (poll_for clock look give_up timeout_ms fuel)
  unfolding poll_for ◌>>=◌ timestamp
  poll_for-Returns timeout_ms longest fuel moves short = record {
    at = λ w.
        let (k, few, late) = moves w.readings in
        poll_loop-ends timeout_ms (clock w.readings) fuel k (record w { readings = suc w.readings })
          few (omega (arith, short, late));
  }
