-- ===== src/Swd/Tests.antt =====
-- The theorems on the SWD port with concrete targets.
use esp32_daplink.Base.{ℕ, suc, ◌+◌, ◌%◌, ◌≡◌, refl, true, false, [], ◌∷◌, ◌++◌, ◌==◌}
use esp32_daplink.Base.Bits.Parity.{ones}
use esp32_daplink.Esp.{esp_ok, timeout}
use esp32_daplink.Swd.Wire.{
  request_phase, read_bits_from, write_bits_from, clock_cycle, clock_cycles, request_byte,
  turn_back, idle, clk_high, release, Trace, Target, Swd, initial, ack_ok, ack_wait, write_bits,
  read_bits, parity32, make_request, settle,
}
use esp32_daplink.Swd.Transfer.{transfer_end, read_phase, transfer_loop, transfer}
use esp32_daplink.Swd.Request.{parity32-ones}
use esp32_daplink.Swd.Words.{
  Listener, listen, bits_from, sampled, value_of, write_bits-heard, read_bits-sampled,
}
use esp32_daplink.Swd.Keeps.{Extends, transfer-Extends}
use esp32_daplink.Swd.Outcome.{Explains, transfer-Explains}

-- clock cycles since the line was released
abbrev cycles : Trace → ℕ
cycles [] = 0
cycles (release ∷ trace) = 0
cycles (clk_high ∷ trace) = suc (cycles trace)
cycles (p ∷ trace) = cycles trace

-- a target that answers every request with OK, and every read with 0
abbrev ok_target : Target
ok_target trace = cycles trace == 1

-- and one that always answers with WAIT
abbrev busy_target : Target
busy_target trace = cycles trace == 2

abbrev port : Swd
port = record initial { wait_retry = 1; idle_cycles = 2; connected = true }

ok_reads :
    (transfer ok_target false true 0 0 port).0 ≡ record { error = esp_ok; ack = ack_ok; value = 0 }
unfolding initial transfer transfer_end transfer_loop request_phase read_phase idle read_bits
    read_bits_from write_bits write_bits_from clock_cycle clock_cycles make_request request_byte
    parity32
ok_reads = refl

busy_waits :
    (transfer busy_target false true 0 0 port).0
    ≡ record { error = timeout; ack = ack_wait; value = 0 }
unfolding initial transfer transfer_end transfer_loop request_phase settle turn_back read_phase idle
    read_bits read_bits_from write_bits write_bits_from clock_cycle clock_cycles make_request
    request_byte parity32
busy_waits = refl

transfer-Explains_example :
    Explains true
      (transfer busy_target false true 0 0 port).0.error
      (transfer busy_target false true 0 0 port).0.ack
transfer-Explains_example = transfer-Explains busy_target false true 0 0 port

transfer-Extends_example :
    Extends (port.wait_retry + 3) 0 port (transfer busy_target true false 0x0C 0xE000ED0C port).1
transfer-Extends_example = transfer-Extends busy_target true false 0x0C 0xE000ED0C port

parity32-ones_example : parity32 0x05FA0004 ≡ ones 0x05FA0004 32 % 2
parity32-ones_example = parity32-ones 0x05FA0004

abbrev listener : Listener
listener = record { level = true; heard = true ∷ [] }

write_bits-heard_example :
    (listen (write_bits 0xE79E 16 port).trace listener).heard
    ≡ (listen port.trace listener).heard ++ bits_from 0xE79E 0 16
write_bits-heard_example = write_bits-heard 0xE79E 16 port listener

read_bits-sampled_example :
    (read_bits ok_target 32 port).0 ≡ value_of (sampled ok_target 32 port.trace)
read_bits-sampled_example = read_bits-sampled ok_target 32 port
