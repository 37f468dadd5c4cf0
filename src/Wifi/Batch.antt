-- ===== src/Wifi/Batch.antt =====
-- The loop of `el_process_execute_commands` and `ws_poll_relay` over the commands of a batch.
use esp32_daplink.Base.{
  ℕ, zero, suc, ◌+◌, ◌==◌, ltb, ◌&&◌, ◌||◌, if◌then◌else◌, Option, none, some, List, ◌++◌, length,
  take, drop,
}
use esp32_daplink.Swd.Wire.{Target}
use esp32_daplink.Dap.Misc.{Levels}
use esp32_daplink.Dap.Process.{Session, process_command}
use esp32_daplink.Wifi.{buf_size}
use esp32_daplink.Wifi.Size.{dap_request_size}

-- A reply that would fill the buffer to its last byte, or does not fit, is left out.
unfoldable pub put_reply : List ℕ → List ℕ → List ℕ
put_reply reply out =
    if ltb 0 (length reply) && ltb (length out + length reply) buf_size then out ++ reply else out

-- `ticks n` is `xTaskGetTickCount()` when `n` commands come after the current one.
module _ (levels : Levels) (target : Target) (cpu_mhz fuel : ℕ) (ticks : ℕ → ℕ) where
  abbrev pub execute_one : ℕ → List ℕ → Session → Option (List ℕ × Session)
  execute_one n cmd s = process_command levels target cpu_mhz fuel (ticks n) cmd 256 s

  -- From the bytes from `in_pos` on and the response up to `out_pos`.
  unfoldable pub execute : ℕ → List ℕ → List ℕ → Session → Option (List ℕ × Session)
  execute zero bytes out s = some (out, s)
  execute (suc n) bytes out s =
      let size = dap_request_size bytes in
      let rest = λ (x : List ℕ × Session). execute n (drop size bytes) (put_reply x.0 out) x.1 in
      if (length bytes == 0) || (size == 0) || ltb (length bytes) size
      then some (out, s)
      else (elim (execute_one n (take size bytes) s) [ none ↦ none | some x ↦ rest x ])
