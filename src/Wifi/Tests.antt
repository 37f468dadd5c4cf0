-- ===== src/Wifi/Tests.antt =====
-- Batches of commands, and a stream of the relay.
use esp32_daplink.Base.{ℕ, ◌≡◌, refl, inl, true, false, some, Returns, List, [], ◌∷◌, arith}
use esp32_daplink.Swd.Wire.{Target, initial}
use esp32_daplink.Dap.{Dap}
use esp32_daplink.Dap.Misc.{Levels}
use esp32_daplink.Dap.Process.{Session}
use esp32_daplink.Wifi.{Link, client}
use esp32_daplink.Wifi.Handlers.{send_all, el_process_execute_commands}
use esp32_daplink.Wifi.Commands.{Command, transfer_abort, transfer, reads, with_data}
use esp32_daplink.Wifi.Packed.{run_all, el_process_execute_commands-packed}
use esp32_daplink.Wifi.Relay.{Relay, framed, would_block, tcp_relay_poll}
use esp32_daplink.Wifi.Relay.Ends.{tcp_relay_poll-Returns}
use esp32_daplink.Wifi.Relay.Frames.{AllMessages}
use esp32_daplink.Wifi.Relay.Stream.{dispatched, poll_all, tcp_relay_poll-stream}

abbrev levels : Levels
levels = record { swclk = λ trace. true; nreset = λ nrst trace. nrst }

abbrev silent : Target
silent trace = false

abbrev dap : Dap
dap = record {
  response = [];
  connected = true;
  idle_cycles = 0;
  wait_retry = 100;
  match_retry = 5;
  match_mask = 0xffff_ffff;
  stat_xfer = 0;
  stat_block = 0;
  stat_fault = 0;
  stat_mismatch = 0;
  stat_ap_read = 0;
  stat_ap_write = 0;
  last_select = 0xffff_ffff;
  bus = record initial { connected = true };
}

abbrev session : Session
session = record {
  probe = record { dap = dap; nrst = true };
  last_response = [];
  suppress_usb_send = false;
  usb = [];
  last_activity_tick = 0;
}

abbrev link : Link
link = record { handshake_done = true; sent = []; session = session }

-- DAP_TransferAbort, and a DAP_Transfer that writes DRW and reads DPIDR.
abbrev two_commands : List Command
two_commands =
    transfer_abort
    ∷ transfer 0 (with_data 0x0D (record { b0 = 1; b1 = 2; b2 = 3; b3 = 4 }) ∷ reads 0x02 ∷ [])
    ∷ []

el_process_execute_commands-packed_example :
    el_process_execute_commands levels silent 160 9
      (λ n. 9)
      (0x7F ∷ 2 ∷ 0x07 ∷ 0x05 ∷ 0 ∷ 2 ∷ 0x0D ∷ 1 ∷ 2 ∷ 3 ∷ 4 ∷ 0x02 ∷ [])
      link
    ≡ send_all client link (
        run_all levels silent 160 9
          (λ n. 9)
          ((0x07 ∷ []) ∷ (0x05 ∷ 0 ∷ 2 ∷ 0x0D ∷ 1 ∷ 2 ∷ 3 ∷ 4 ∷ 0x02 ∷ []) ∷ [])
          (0x7F ∷ 2 ∷ [])
          session)
el_process_execute_commands-packed_example =
    el_process_execute_commands-packed levels silent 160 9 (λ n. 9) two_commands link
      (tt, ((omega arith, (inl refl, ((refl, refl, refl), tt))), tt))

-- A CMSIS-DAP command, and a byte for the serial port, cut inside of both frames.
abbrev messages : List (List ℕ)
messages = (0 ∷ 0x07 ∷ []) ∷ (1 ∷ 65 ∷ []) ∷ []

abbrev chunks : List (List ℕ)
chunks = (0 ∷ []) ∷ (2 ∷ 0 ∷ 0x07 ∷ 0 ∷ 2 ∷ 1 ∷ []) ∷ (65 ∷ []) ∷ []

abbrev relay_client : Relay
relay_client = record {
  is_open = true;
  connected = true;
  paired = true;
  serial_client = false;
  rx = [];
  calls = [];
}

messages-AllMessages : AllMessages messages
messages-AllMessages = (
  record { filled = omega arith; small = omega arith; stays = refl },
  (record { filled = omega arith; small = omega arith; stays = refl }, tt),
)

tcp_relay_poll-stream_example :
    poll_all true true chunks relay_client
    ≡ some (record relay_client { calls = dispatched true true messages [] })
unfolding framed
tcp_relay_poll-stream_example =
    tcp_relay_poll-stream true true chunks messages relay_client messages-AllMessages refl refl
      (inl (omega arith)) refl

-- Registered, and paired with a peer at `1`.
abbrev waiting_client : Relay
waiting_client = record relay_client {
  paired = false;
  rx = 0 ∷ 1 ∷ 0x30 ∷ 0x39 ∷ 1 ∷ b'1' ∷ 0 ∷ [];
}

tcp_relay_poll-Returns_example : Returns (tcp_relay_poll true true would_block waiting_client)
tcp_relay_poll-Returns_example = tcp_relay_poll-Returns true true would_block waiting_client
