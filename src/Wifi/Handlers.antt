-- ===== src/Wifi/Handlers.antt =====
-- `el_handle_handshake`, `el_process_execute_commands`, `el_process_dap_command`, `ws_poll_relay` and
-- what `el_poll_tcp` does with the bytes that it receives.
use esp32_daplink.Base.{
  ℕ, ◌-◌, ◌==◌, ltb, not, ◌&&◌, ◌||◌, Bool, true, false, if◌then◌else◌, Option, none, some, List,
  [], ◌∷◌, ◌++◌, length, take, drop, get_or,
}
use esp32_daplink.Swd.Wire.{Target}
use esp32_daplink.Dap.Misc.{Levels}
use esp32_daplink.Dap.Process.{Session, process_command}
use esp32_daplink.Wifi.{Sent, client, relay, punch, Link, buf_size}
use esp32_daplink.Wifi.Batch.{execute}

-- `kElIdentifier` and `kElCmdHandshake`, as they come over the network.
abbrev handshake_head : List ℕ
handshake_head = 0x8a ∷ 0x65 ∷ 0x6c ∷ 0x70 ∷ 0 ∷ 0 ∷ 0 ∷ 0 ∷ []

abbrev same_bytes : List ℕ → List ℕ → Bool
same_bytes [] [] = true
same_bytes [] (d ∷ b) = false
same_bytes (c ∷ a) [] = false
same_bytes (c ∷ a) (d ∷ b) = (c == d) && same_bytes a b

unfoldable pub el_handle_handshake : List ℕ → Link → Link
el_handle_handshake bytes l =
    if not (length bytes == 12) || not (same_bytes (take 8 bytes) handshake_head)
    then l
    else record l {
      sent = client (handshake_head ++ (0 ∷ 0 ∷ 0 ∷ 1 ∷ [])) ∷ l.sent;
      handshake_done = true;
    }

-- A response of no bytes is not sent.
abbrev pub reply_with : (List ℕ → Sent) → Link → List ℕ × Session → Link
reply_with to l (reply, s) =
    if ltb 0 (length reply)
    then record l { session = s; sent = to reply ∷ l.sent }
    else record l { session = s }

-- A response that is sent whatever it holds.
abbrev pub send_all : (List ℕ → Sent) → Link → Option (List ℕ × Session) → Option Link
send_all to l none = none
send_all to l (some (reply, s)) = some (record l { session = s; sent = to reply ∷ l.sent })

abbrev is_batch : List ℕ → Bool
is_batch bytes = not (ltb (length bytes) 2) && (get_or bytes 0 0 == 0x7F)

module _ (levels : Levels) (target : Target) (cpu_mhz fuel : ℕ) (ticks : ℕ → ℕ) where
  unfoldable pub el_process_execute_commands : List ℕ → Link → Option Link
  el_process_execute_commands bytes l =
      let num_cmds = get_or bytes 1 0 in
      if ltb (length bytes) 2
      then some l
      else send_all client l (
          execute levels target cpu_mhz fuel ticks num_cmds (drop 2 bytes) (0x7F ∷ num_cmds ∷ [])
            l.session)

  abbrev single : (List ℕ → Sent) → List ℕ → ℕ → Link → Option Link
  single to bytes room l =
      elim (process_command levels target cpu_mhz fuel (ticks 0) bytes room l.session) [
        | none ↦ none
        | some r ↦ some (reply_with to l r)
      ]

  unfoldable pub el_process_dap_command : List ℕ → Link → Option Link
  el_process_dap_command bytes l =
      if is_batch bytes then el_process_execute_commands bytes l else single client bytes buf_size l

  -- From the bytes that `recv` has put in the buffer on; `[]` is a client that has gone, or an error.
  unfoldable pub on_received : List ℕ → Link → Option Link
  on_received [] l = some (record l { handshake_done = false })
  on_received (b ∷ bytes) l =
      if l.handshake_done
      then el_process_dap_command (b ∷ bytes) l
      else some (el_handle_handshake (b ∷ bytes) l)

  abbrev to_relay : List ℕ → Sent
  to_relay reply = relay (0 ∷ reply)

  -- A message of the queue, with `from_udp`. A response to the relay starts with the channel.
  unfoldable pub process_message : List ℕ → Bool → Link → Option Link
  process_message bytes from_udp l =
      let num_cmds = get_or bytes 1 0 in
      if is_batch bytes
      then (if from_udp
          then send_all punch l (
              execute levels target cpu_mhz fuel ticks num_cmds (drop 2 bytes)
                (0x7F ∷ num_cmds ∷ []) l.session)
          else send_all relay l (
              execute levels target cpu_mhz fuel ticks num_cmds (drop 2 bytes)
                (0 ∷ 0x7F ∷ num_cmds ∷ []) l.session))
      else if from_udp
      then single punch bytes buf_size l
      else single to_relay bytes (buf_size - 1) l

  -- `received` is what `xQueueReceive` gives, `paired` is `relay_is_paired()`, and `punched` is
  -- `g_punch_dap_active`.
  unfoldable pub ws_poll_relay : Option (List ℕ × Bool) → Bool → Bool → Link → Option Link
  ws_poll_relay none paired punched l = some l
  ws_poll_relay (some (bytes, from_udp)) paired punched l =
      if not paired && not punched then some l else process_message bytes from_udp l
