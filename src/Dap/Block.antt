-- ===== src/Dap/Block.antt =====
-- cmsis_dap.cpp: `handle_transfer_block` (DAP_TransferBlock), one register read or written many
-- times. An AP read gives the result of the one before it; RDBUFF gives the last.
pub mod Bounds
pub mod Reply
use esp32_daplink.Base.{
  ℕ, zero, suc, ◌+◌, bit_and, bit_or, Bool, true, false, not, ◌&&◌, ◌||◌, List, ltb, ◌==◌,
  if◌then◌else◌, length, get_or, u8, u16, test_bit, ◌<<<◌, ◌>>>◌,
}
use esp32_daplink.Esp.{is_ok}
use esp32_daplink.Swd.Wire.{Target}
use esp32_daplink.Swd.Port.{read_dp, raw_transfer}
use esp32_daplink.Dap.{
  Dap, response_size, next32, put, clear_response, put_u32_le, get_u32_le, send_response,
}
use esp32_daplink.Dap.Transfer.{failed_status, auto_clear}

-- the locals of the loop, and the globals
pub record Block : Type 0 where
  pub request_offset : ℕ
  pub response_offset : ℕ
  pub completed : ℕ
  pub transfer_status : ℕ
  pub dap : Dap

-- the end of the loop's body, or `break`
pub data BlockTurn : Type 0 where
  on over : Block → BlockTurn

abbrev pub set_status : ℕ → Block → Block
set_status status b = record b { transfer_status = status }

-- The break at an error of a transfer.
abbrev pub fail_block : ℕ → Block → BlockTurn
fail_block ack b = over (record b {
  transfer_status = failed_status ack;
  dap = record b.dap { stat_fault = next32 b.dap.stat_fault };
})

-- `put_u32_le(response_offset, value); response_offset += 4;`
unfoldable pub put_word : ℕ → Block → Block
put_word value b = record b {
  response_offset = b.response_offset + 4;
  dap = record b.dap { response = put_u32_le b.response_offset value b.dap.response };
}

unfoldable pub is_full : Block → Bool
is_full b = ltb response_size (b.response_offset + 4)

abbrev pub complete : Block → Block
complete b = record b { completed = u16 (b.completed + 1) }

-- after a read without an error
unfoldable pub store_ap : ℕ → ℕ → Block → BlockTurn
store_ap index value b =
    if index == 0
    then on (complete b)
    else if is_full b
    then over (set_status 0x04 b)
    else on (complete (put_word value b))

unfoldable pub store_dp : ℕ → Block → BlockTurn
store_dp value b =
    if is_full b then over (set_status 0x04 (complete b)) else on (put_word value (complete b))

-- How the loop goes on after a word.
abbrev pub after_word : (Block → Block) → BlockTurn → Block
after_word again (on b) = again b
after_word again (over b) = b

-- the replies that end at once
abbrev pub refuse_block : ℕ → Dap → List ℕ × Dap
refuse_block status d = let d' = put 3 status (put 2 0 (put 1 0 d)) in (send_response 4 d', d')

module _ (target : Target) where
  unfoldable pub read_block : Bool → ℕ → ℕ → Block → BlockTurn
  read_block ap addr index b =
      let (r, bus) = raw_transfer target ap true addr 0 b.dap.bus in
      let reads = if ap then next32 b.dap.stat_ap_read else b.dap.stat_ap_read in
      let b' = record b { dap = record b.dap { bus = bus; stat_ap_read = reads } } in
      if not (is_ok r.error)
      then fail_block r.ack b'
      else if ap
      then store_ap index r.value b'
      else store_dp r.value b'

  unfoldable pub write_block : Bool → ℕ → List ℕ → Block → BlockTurn
  write_block ap addr buffer b =
      let (r, bus) =
        raw_transfer target ap false addr (get_u32_le buffer b.request_offset) b.dap.bus in
      let writes = if ap then next32 b.dap.stat_ap_write else b.dap.stat_ap_write in
      let b' = record b {
        request_offset = b.request_offset + 4;
        dap = record b.dap { bus = bus; stat_ap_write = writes };
      } in
      if ltb (length buffer) (b.request_offset + 4)
      then over (set_status 0x04 b)
      else if not (is_ok r.error)
      then fail_block r.ack b'
      else on (complete b')

  unfoldable pub run_word : Bool → Bool → ℕ → List ℕ → ℕ → Block → BlockTurn
  run_word ap read addr buffer index b =
      if read then read_block ap addr index b else write_block ap addr buffer b

  -- The `for` loop, with `left` words to go.
  unfoldable pub run_block : Bool → Bool → ℕ → List ℕ → ℕ → ℕ → Block → Block
  run_block ap read addr buffer index zero b = b
  run_block ap read addr buffer index (suc left) b =
      after_word (run_block ap read addr buffer (index + 1) left)
        (run_word ap read addr buffer index b)

  -- What follows the loop: the last AP read, or the check of the last AP write.
  unfoldable pub finish_block : Bool → Bool → Block → Block
  finish_block ap read b =
      let (r, bus) = read_dp target 0x0C b.dap.bus in
      let b' = record b { dap = record b.dap { bus = bus } } in
      if not (ap && ltb 0 b.completed && (b.transfer_status == 1))
      then b
      else if not (is_ok r.error)
      then set_status (failed_status r.ack) b'
      else if read && not (is_full b')
      then put_word r.value b'
      else b'

  unfoldable pub end_block : Block → List ℕ × Dap
  end_block b =
      let d1 = put 1 (u8 (bit_and b.completed 0xFF)) b.dap in
      let d2 = put 2 (u8 (bit_and (b.completed >>> 8) 0xFF)) d1 in
      let d = put 3 b.transfer_status d2 in
      (
        send_response b.response_offset d,
        record d { bus = auto_clear target b.transfer_status d.bus },
      )

  unfoldable pub handle_transfer_block : List ℕ → Dap → List ℕ × Dap
  handle_transfer_block buffer d0 =
      let d = clear_response 0x06 (record d0 { stat_block = next32 d0.stat_block }) in
      let count = u16 (bit_or (get_or buffer 2 0) (get_or buffer 3 0 <<< 8)) in
      let request = get_or buffer 4 0 in
      let ap = test_bit request 0 in
      let read = test_bit request 1 in
      let addr = bit_and request (bit_or 0x04 0x08) in
      let b : Block = record {
        request_offset = 5;
        response_offset = 4;
        completed = 0;
        transfer_status = 1;
        dap = d;
      } in
      if ltb (length buffer) 5
      then refuse_block 0xFF d
      else if test_bit request 4 || test_bit request 5 || test_bit request 7
      then refuse_block 0x04 d
      else end_block (finish_block ap read (run_block ap read addr buffer 0 count b))
