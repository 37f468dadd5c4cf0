-- ===== src/Exec/Call.antt =====
-- target_exec.cpp: `wait_halt` and `call_function`.
use esp32_daplink.Base.{ℕ}
use esp32_daplink.Esp.Run.{Run, lift, ◌>>◌}
use esp32_daplink.Esp.Wait.{poll_for}
use esp32_daplink.Port.{SwdPort}
use esp32_daplink.Exec.Core.{halt_core, resume, read_core_reg, look_halted, give_up_halt}
use esp32_daplink.Exec.Load.{RamLayout, set_registers}

-- `clock n` is the n-th reading of `esp_log_timestamp`, and `fuel` the looks of a wait at DHCSR.
module _ {S : Type 0} (port : SwdPort S) (clock : ℕ → ℕ) (fuel : ℕ) where
  unfoldable pub wait_halt : ℕ → Run S (Unit {0})
  wait_halt timeout_ms = poll_for clock (look_halted port) (give_up_halt port) timeout_ms fuel

  unfoldable pub call_function : RamLayout → ℕ → ℕ → ℕ → ℕ → ℕ → ℕ → Run S ℕ
  call_function layout func_addr r0 r1 r2 r3 timeout_ms = do
    lift (halt_core port)
    lift (set_registers port layout func_addr r0 r1 r2 r3)
    lift (resume port)
    wait_halt timeout_ms
    lift (read_core_reg port 0)
