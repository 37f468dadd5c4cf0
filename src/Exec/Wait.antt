-- ===== src/Exec/Wait.antt =====
-- The wait for the end of a function on the target: it ends.
use esp32_daplink.Base.{ℕ, ◌≤◌}
use esp32_daplink.Esp.Run.Returning.{Returns, Returns-lift, Returns-seq, Returns-lift_seq}
use esp32_daplink.Esp.Wait.{MovesPast, poll_for-Returns}
use esp32_daplink.Port.{SwdPort}
use esp32_daplink.Exec.Core.{look_halted, give_up_halt}
use esp32_daplink.Exec.Load.{RamLayout}
use esp32_daplink.Exec.Call.{wait_halt, call_function}

module _ {S : Type 0} (port : SwdPort S) (clock : ℕ → ℕ) (fuel longest : ℕ)
    (moves : MovesPast clock longest fuel) where
  wait_halt-Returns :
      (timeout_ms : ℕ) → timeout_ms ≤ longest → Returns (wait_halt port clock fuel timeout_ms)
  unfolding wait_halt
  wait_halt-Returns timeout_ms short =
      poll_for-Returns clock (look_halted port) (give_up_halt port) timeout_ms longest fuel moves
        short

  -- With any port and target, a call of a function returns, with an error or not, when from each
  -- reading of the clock on some reading within the fuel of a wait is later by more than a time that
  -- is no shorter than the timeout.
  pub call_function-Returns :
      (layout : RamLayout) (func_addr r0 r1 r2 r3 timeout_ms : ℕ)
      → timeout_ms ≤ longest
      → Returns (call_function port clock fuel layout func_addr r0 r1 r2 r3 timeout_ms)
  unfolding call_function
  call_function-Returns layout func_addr r0 r1 r2 r3 timeout_ms short = Returns-lift_seq _ _ (
      Returns-lift_seq _ _ (
        Returns-lift_seq _ _
          (Returns-seq _ _ (wait_halt-Returns timeout_ms short) (Returns-lift _))))
