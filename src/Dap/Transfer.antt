-- ===== src/Dap/Transfer.antt =====
-- cmsis_dap.cpp: `handle_transfer` (DAP_Transfer), a request at a time. The result of an AP read
-- comes with the next one or from RDBUFF, which `post_read` tells.
use esp32_daplink.Base.{
  ℕ, zero, suc, ◌+◌, bit_and, bit_or, Bool, true, false, not, ◌&&◌, ◌||◌, List, ltb, leb, ◌==◌,
  if◌then◌else◌, length, get_or, Option, none, some, u8, u16, test_bit,
}
use esp32_daplink.Esp.{is_ok}
use esp32_daplink.Swd.Wire.{Swd, Target, TransferResult, ack_wait}
use esp32_daplink.Swd.Transfer.{write_abort}
use esp32_daplink.Swd.Port.{read_dp, raw_transfer}
use esp32_daplink.Dap.{Dap, next32, put, clear_response, put_u32_le, get_u32_le, send_response}

-- the locals of the loop, and the globals
pub record Progress : Type 0 where
  pub request_offset : ℕ
  pub response_offset : ℕ
  pub completed : ℕ
  pub transfer_status : ℕ
  pub post_read : Bool
  pub check_write : Bool
  pub dap : Dap

-- How a request ends: `continue` or the end of the body, `break`, or not within the
-- fuel (a `MatchValue` may go on for ever where the retry count is 0xFFFF).
pub data Turn : Type 0 where
  go : Progress → Turn
  stop : Progress → Turn
  out_of_fuel : Turn

-- `(ack == 0x2) ? 0x02 : 0x04`
abbrev pub failed_status : ℕ → ℕ
failed_status ack = if ack == ack_wait then 0x02 else 0x04

abbrev pub with_status : ℕ → Progress → Progress
with_status status p = record p { transfer_status = status }

abbrev pub on_bus : Swd → Progress → Progress
on_bus bus p = record p { dap = record p.dap { bus = bus } }

abbrev pub count_fault : Progress → Progress
count_fault p = record p { dap = record p.dap { stat_fault = next32 p.dap.stat_fault } }

-- `put_u32_le(response_offset, value); response_offset += 4; ++completed;`
unfoldable pub answer : ℕ → Progress → Progress
answer value p = record p {
  response_offset = p.response_offset + 4;
  completed = u8 (p.completed + 1);
  dap = record p.dap { response = put_u32_le p.response_offset value p.dap.response };
}

-- How the `retry` loop ends.
pub data MatchEnd : Type 0 where
  matched unmatched : Swd → MatchEnd
  refused : ℕ → Swd → MatchEnd
  no_fuel : MatchEnd

unfoldable pub after_match : Progress → MatchEnd → Turn
after_match p (matched bus) =
    go (record (on_bus bus p) { completed = u8 (p.completed + 1); check_write = false })
after_match p (unmatched bus) = stop (record p {
  completed = u8 (p.completed + 1);
  transfer_status = bit_or p.transfer_status 0x10;
  check_write = false;
  dap = record p.dap { bus = bus; stat_mismatch = next32 p.dap.stat_mismatch };
})
after_match p (refused status bus) =
    stop (record (with_status status (count_fault (on_bus bus p))) { check_write = false })
after_match p no_fuel = out_of_fuel

-- `flush`, and on where it did not fail
unfoldable pub and_then : Turn → (Progress → Turn) → Turn
and_then (go p) rest = rest p
and_then (stop p) rest = stop p
and_then out_of_fuel rest = out_of_fuel

-- The word after the request, which it needs.
unfoldable pub with_word : List ℕ → Progress → (ℕ → Progress → Turn) → Turn
with_word buffer p rest =
    if ltb (length buffer) (p.request_offset + 4)
    then stop (with_status 0x04 p)
    else rest (get_u32_le buffer p.request_offset)
        (record p { request_offset = p.request_offset + 4 })

-- How the loop goes on after a request.
abbrev pub after_turn : (Progress → Option Progress) → Turn → Option Progress
after_turn again (go p) = again p
after_turn again (stop p) = some p
after_turn again out_of_fuel = none

abbrev pub start : Dap → Progress
start d = record {
  request_offset = 3;
  response_offset = 3;
  completed = 0;
  transfer_status = 1;
  post_read = false;
  check_write = false;
  dap = d;
}

module _ (target : Target) where
  -- `if (post_read) …`: the pending result of an AP read, fetched from RDBUFF.
  unfoldable pub flush : Progress → Turn
  flush p =
      let (r, bus) = read_dp target 0x0C p.dap.bus in
      let p' = record (on_bus bus p) { post_read = false } in
      if not p.post_read
      then go p
      else if is_ok r.error
      then go (answer r.value p')
      else stop (with_status (failed_status r.ack) p')

  -- One round of the `retry` loop: the value read, or the status of the read that failed.
  unfoldable pub match_read : Bool → ℕ → Swd → TransferResult × Swd
  match_read ap addr bus =
      let (r, bus1) = raw_transfer target ap true addr 0 bus in
      if is_ok r.error && ap then read_dp target 0x0C bus1 else (r, bus1)

  -- The `retry` loop; `retry` is a uint16_t.
  unfoldable pub match_loop : ℕ → ℕ → Bool → ℕ → ℕ → ℕ → ℕ → Swd → MatchEnd
  match_loop zero retry ap addr value mask match_retry bus = no_fuel
  match_loop (suc fuel) retry ap addr value mask match_retry bus =
      let (r, bus') = match_read ap addr bus in
      let again = match_loop fuel (u16 (retry + 1)) ap addr value mask match_retry bus' in
      if not (leb retry match_retry)
      then unmatched bus
      else if not (is_ok r.error)
      then refused (failed_status r.ack) bus'
      else if bit_and r.value mask == bit_and value mask
      then matched bus'
      else again

  unfoldable pub match_value : ℕ → Bool → ℕ → ℕ → Progress → Turn
  match_value fuel ap addr value p =
      after_match p (match_loop fuel 0 ap addr value p.dap.match_mask p.dap.match_retry p.dap.bus)

  unfoldable pub read_ap_reg : ℕ → Progress → Turn
  read_ap_reg addr p =
      let (r, bus) = raw_transfer target true true addr 0 p.dap.bus in
      let p' = record (on_bus bus p) {
        dap = record p.dap { bus = bus; stat_ap_read = next32 p.dap.stat_ap_read };
      } in
      if not (is_ok r.error)
      then stop (with_status (failed_status r.ack) (count_fault (record p' { post_read = false })))
      else go (record (if p.post_read then answer r.value p' else p') {
        post_read = true;
        check_write = false;
      })

  unfoldable pub read_dp_reg : ℕ → Progress → Turn
  read_dp_reg addr p =
      let (r, bus) = raw_transfer target false true addr 0 p.dap.bus in
      let p' = on_bus bus p in
      if not (is_ok r.error)
      then stop (with_status (failed_status r.ack) (count_fault p'))
      else go (record (answer r.value p') { check_write = false })

  unfoldable pub write_reg : Bool → ℕ → ℕ → Progress → Turn
  write_reg ap addr value p =
      let (r, bus) = raw_transfer target ap false addr value p.dap.bus in
      let writes = if ap then next32 p.dap.stat_ap_write else p.dap.stat_ap_write in
      let select = if not ap && (addr == 0x08) then value else p.dap.last_select in
      let p' = record p {
        dap = record p.dap { bus = bus; stat_ap_write = writes; last_select = select };
      } in
      if not (is_ok r.error)
      then stop (with_status (failed_status r.ack) (count_fault p'))
      else go (record p' { check_write = ap; completed = u8 (p.completed + 1) })

  -- The body of the `for` loop, after `request_offset++`.
  unfoldable pub run_request : ℕ → List ℕ → ℕ → Progress → Turn
  run_request fuel buffer request p =
      let ap = test_bit request 0 in
      let addr = bit_and request (bit_or 0x04 0x08) in
      if test_bit request 5
      then with_word buffer p (λ mask p'. go (record p' {
        completed = u8 (p'.completed + 1);
        dap = record p'.dap { match_mask = mask };
      }))
      else if test_bit request 4
      then with_word buffer p (λ value p'. and_then (flush p') (match_value fuel ap addr value))
      else if test_bit request 1
      then if ap then read_ap_reg addr p else and_then (flush p) (read_dp_reg addr)
      else with_word buffer p (λ value p'. and_then (flush p') (write_reg ap addr value))

  -- The `for` loop with `left` requests to go; `none` is without an end within the fuel.
  unfoldable pub run_requests : ℕ → List ℕ → ℕ → Progress → Option Progress
  run_requests fuel buffer zero p = some p
  run_requests fuel buffer (suc left) p =
      if not (ltb p.request_offset (length buffer))
      then some p
      else after_turn (run_requests fuel buffer left) (
          run_request fuel buffer (get_or buffer p.request_offset 0)
            (record p { request_offset = p.request_offset + 1 }))

  -- What follows the loop: the last pending read, or the check of the last AP write.
  unfoldable pub finish_requests : Progress → Progress
  finish_requests p =
      let (r, bus) = read_dp target 0x0C p.dap.bus in
      if not (p.post_read || p.check_write)
      then p
      else if not (is_ok r.error)
      then with_status (failed_status r.ack) (on_bus bus p)
      else if p.post_read
      then answer r.value (on_bus bus p)
      else on_bus bus p

  -- Clears the sticky error after a fault or a time-out.
  unfoldable pub auto_clear : ℕ → Swd → Swd
  auto_clear status bus =
      if (status == 0x04) || (status == 0x02)
      then (raw_transfer target false true 0x04 0 (write_abort target 0x1E bus).1).1
      else bus

  unfoldable pub end_transfer : Progress → List ℕ × Dap
  end_transfer p =
      let q = finish_requests p in
      let d = put 2 q.transfer_status (put 1 q.completed q.dap) in
      (send_response q.response_offset d, record d { bus = auto_clear q.transfer_status d.bus })

  -- What is sent, and the state after it; `none` is without an end within the fuel.
  unfoldable pub handle_transfer : ℕ → List ℕ → Dap → Option (List ℕ × Dap)
  handle_transfer fuel buffer d0 =
      let d = clear_response 0x05 (record d0 { stat_xfer = next32 d0.stat_xfer }) in
      let short = put 2 0xFF (put 1 0 d) in
      if ltb (length buffer) 3
      then some (send_response 3 short, short)
      else elim (run_requests fuel buffer (get_or buffer 2 0) (start d)) [
        | none ↦ none
        | some p ↦ some (end_transfer p)
      ]
