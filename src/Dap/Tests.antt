-- ===== src/Dap/Tests.antt =====
-- The command handlers with concrete commands and a concrete target.
use esp32_daplink.Base.{
  false, ◌++◌, take, drop, ℕ, suc, ◌+◌, ◌*◌, ◌≤◌, ◌≡◌, refl, some, true, List, [], ◌∷◌, length,
  get_or, ◌==◌, arith,
}
use esp32_daplink.Swd.Wire.{clk_high, release, Trace, Target, initial}
use esp32_daplink.Dap.{Dap}
use esp32_daplink.Swd.Transfer.{transfer}
use esp32_daplink.Swd.Keeps.{Extends}
use esp32_daplink.Dap.Config.{handle_transfer_configure}
use esp32_daplink.Dap.Transfer.{handle_transfer}
use esp32_daplink.Dap.Block.{handle_transfer_block}
use esp32_daplink.Dap.Block.Reply.{Replies, handle_transfer_block-Replies}
use esp32_daplink.Swd.Words.{Listener}
use esp32_daplink.Dap.Sequence.{handle_swj_sequence}
use esp32_daplink.Dap.Sequence.Heard.{hear_all, bits_of, handle_swj_sequence-heard}
use esp32_daplink.Dap.Bounds.{handle_transfer-total}
use esp32_daplink.Dap.Config.Effects.{handle_transfer_configure-transfer}
use esp32_daplink.Dap.Info.{handle_dap_info}
use esp32_daplink.Dap.Info.Sized.{IsInfo, handle_dap_info-IsInfo}
use esp32_daplink.Dap.Misc.{Levels, Probe}
use esp32_daplink.Dap.Process.{Session, dispatch, process_command, tud_vendor_rx_cb}
use esp32_daplink.Dap.Process.Reply.{process_command-Answers}
use esp32_daplink.Dap.Process.Echo.{IsEcho, dispatch-Answers}

-- clock cycles since the line was released
abbrev cycles : Trace → ℕ
cycles [] = 0
cycles (release ∷ trace) = 0
cycles (clk_high ∷ trace) = suc (cycles trace)
cycles (p ∷ trace) = cycles trace

-- a target that answers every request with OK, and every read with 0
abbrev ok_target : Target
ok_target trace = cycles trace == 1

abbrev dap : Dap
dap = record {
  response = [];
  connected = true;
  idle_cycles = 0;
  wait_retry = 100;
  match_retry = 5;
  match_mask = 0xffff_ffff;
  stat_xfer = 0;
  stat_block = 0;
  stat_fault = 0;
  stat_mismatch = 0;
  stat_ap_read = 0;
  stat_ap_write = 0;
  last_select = 0xffff_ffff;
  bus = record initial { wait_retry = 1; idle_cycles = 2; connected = true };
}

-- two AP reads of DRW, then a read of DPIDR
abbrev command : List ℕ
command = 0x05 ∷ 0x00 ∷ 0x03 ∷ 0x0F ∷ 0x0F ∷ 0x02 ∷ []

handle_transfer-total_example :
    (reply : List ℕ × Dap) × (handle_transfer ok_target 7 command dap ≡ some reply)
    × (length reply.0 ≤ 3 + 4 * get_or reply.1.response 1 0)
    × (get_or reply.1.response 1 0 ≤ get_or command 2 0)
handle_transfer-total_example =
    handle_transfer-total ok_target 7 command dap (omega arith) (omega arith) (omega arith)
      (omega arith)

-- three AP reads of DRW in a block
abbrev block_command : List ℕ
block_command = 0x06 ∷ 0x00 ∷ 0x03 ∷ 0x00 ∷ 0x0F ∷ []

handle_transfer_block-Replies_example :
    Replies
      (get_or block_command 2 0 + 256 * get_or block_command 3 0)
      (handle_transfer_block ok_target block_command dap)
handle_transfer_block-Replies_example =
    handle_transfer_block-Replies ok_target block_command dap (omega arith) (omega arith)

abbrev listener : Listener
listener = record { level = true; heard = [] }

-- nine bits of two bytes
abbrev sequence_command : List ℕ
sequence_command = 0x12 ∷ 0x09 ∷ 0x9E ∷ 0xE7 ∷ []

handle_swj_sequence-heard_example :
    hear_all (handle_swj_sequence sequence_command dap).1.bus listener
    ≡ hear_all dap.bus listener
      ++ take (get_or sequence_command 1 0) (bits_of (drop 2 sequence_command))
handle_swj_sequence-heard_example =
    handle_swj_sequence-heard sequence_command dap listener (omega arith) (omega arith)

-- A sequence of 256 bits, with the count byte 0, adds no bit.
sequence_of_256 :
    hear_all (handle_swj_sequence (0x12 ∷ 0x00 ∷ 0xff ∷ []) dap).1.bus listener
    ≡ hear_all dap.bus listener ++ []
sequence_of_256 =
    handle_swj_sequence-heard (0x12 ∷ 0x00 ∷ 0xff ∷ []) dap listener (omega arith) (omega arith)

-- two idle cycles, 256 wait retries, one match retry
abbrev configure_command : List ℕ
configure_command = 0x04 ∷ 0x02 ∷ 0x00 ∷ 0x01 ∷ 0x01 ∷ 0x00 ∷ []

handle_transfer_configure-transfer_example :
    ((handle_transfer_configure configure_command dap).1.bus.idle_cycles ≡ 2)
    × ((handle_transfer_configure configure_command dap).1.bus.wait_retry ≡ 256)
    × ((handle_transfer_configure configure_command dap).1.match_retry ≡ 1)
    × Extends 259 0
        (handle_transfer_configure configure_command dap).1.bus
        (transfer ok_target false true 0 0
          (handle_transfer_configure configure_command dap).1.bus).1
handle_transfer_configure-transfer_example =
    handle_transfer_configure-transfer ok_target configure_command dap false true 0 0 (omega arith)
      (omega arith) (omega arith) (omega arith) (omega arith)

-- The name of the product.
abbrev info_command : List ℕ
info_command = 0x00 ∷ 0x02 ∷ []

handle_dap_info-IsInfo_example : IsInfo (handle_dap_info info_command dap).0
handle_dap_info-IsInfo_example = handle_dap_info-IsInfo info_command dap

abbrev levels : Levels
levels = record { swclk = λ trace. true; nreset = λ nrst trace. nrst }

abbrev session : Session
session = record {
  probe = record { dap = dap; nrst = true };
  last_response = [];
  suppress_usb_send = false;
  usb = [];
  last_activity_tick = 0;
}

process_command-Answers_example :
    (reply : List ℕ) × (p : Probe) × (process_command levels ok_target 160 7 9 command 64 session
      ≡ some (
        take 64 reply,
        record session { probe = p; last_response = reply; last_activity_tick = 9 },
      ))
    × (tud_vendor_rx_cb levels ok_target 160 7 9 command session
        ≡ some (record session {
          probe = p;
          last_response = reply;
          last_activity_tick = 9;
          usb = reply ∷ [];
        }))
process_command-Answers_example =
    process_command-Answers levels ok_target 160 7 9 64 0x05 (drop 1 command) session (omega arith)
      (omega arith) (omega arith) refl

dispatch-Answers_example :
    (r : List ℕ × Probe) × (dispatch levels ok_target 160 7 0x10
        (0x10 ∷ 0x00 ∷ 0x80 ∷ 0 ∷ 0 ∷ 0 ∷ 0 ∷ [])
        session.probe
      ≡ some r)
    × IsEcho 0x10 r
dispatch-Answers_example =
    dispatch-Answers levels ok_target 160 7 0x10 (0x10 ∷ 0x00 ∷ 0x80 ∷ 0 ∷ 0 ∷ 0 ∷ 0 ∷ [])
      session.probe refl refl
