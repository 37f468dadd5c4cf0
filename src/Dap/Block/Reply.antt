-- ===== src/Dap/Block/Reply.antt =====
-- What DAP_TransferBlock replies: its count, and the words that the response holds.
use esp32_daplink.Base.{
  ℕ, zero, suc, ◌+◌, ◌*◌, ◌≤◌, ◌<◌, ◌≡◌, refl, sym, ◌∙◌, Bool, true, false, not, ◌&&◌, ◌||◌, List,
  ltb, ◌==◌, if◌then◌else◌, length, get_or, set, u8, u16, inl, inr, arith, Bool-cases, length-set,
  length-take, get_or-set_ne, get_or-set_self, bit_and, bit_or, test_bit, ◌<<<◌, ◌>>>◌,
}
use esp32_daplink.Base.Bits.{bit_and-low_mask, bit_or-low}
use esp32_daplink.Esp.{is_ok}
use esp32_daplink.Swd.Wire.{Target}
use esp32_daplink.Swd.Port.{read_dp}
use esp32_daplink.Dap.{Dap, response_size, clear_response, send_response, next32}
use esp32_daplink.Dap.Bounds.Invariant.{length-put_u32_le, clear_response-size, min_le}
use esp32_daplink.Dap.Block.{
  Block, BlockTurn, on, over, after_word, put_word, is_full, run_block, finish_block, end_block,
  refuse_block, handle_transfer_block,
}
use esp32_daplink.Dap.Block.Bounds.{Room, TurnRoom, slack_of, other-Room, run_word-Room}

-- the count that bytes 1 and 2 of the response report
abbrev pub reported : Dap → ℕ
reported d = get_or d.response 1 0 + 256 * get_or d.response 2 0

reported_lem :
    (r : List ℕ) (lo hi t : ℕ) (d : Dap)
    → length r ≡ response_size
    → d.response ≡ set (set (set r 1 lo) 2 hi) 3 t
    → reported d ≡ lo + 256 * hi
reported_lem r lo hi t d size e = rw e (
    omega (
      arith,
      get_or-set_ne (set (set r 1 lo) 2 hi) 3 1 t 0 (omega arith),
      get_or-set_ne (set r 1 lo) 2 1 hi 0 (omega arith),
      get_or-set_self r 1 lo 0 (omega (arith, size)),
      get_or-set_ne (set (set r 1 lo) 2 hi) 3 2 t 0 (omega arith),
      get_or-set_self (set r 1 lo) 2 hi 0 (omega (arith, size, length-set r 1 lo)),
    ))

-- A reply to a block of `n` words: no more are reported, and the response has no more words.
pub record Replies (n : ℕ) (reply : List ℕ × Dap) : Type 0 where
  pub words_le : length reply.0 ≤ 4 + 4 * reported reply.1
  pub reported_le : reported reply.1 ≤ n

after_word-Room :
    {slack n k : ℕ} (again : Block → Block) (t : BlockTurn)
    → k ≤ n
    → TurnRoom slack k t
    → ((b : Block) → Room slack k b → b.completed ≡ k → Room slack n (again b))
    → Room slack n (after_word again t)
after_word-Room again (on b) le r h = h b r.0 r.1
after_word-Room again (over b) le r h = other-Room le refl refl refl r

wide-Room : {slack n : ℕ} {b : Block} → slack ≤ 4 → Room slack n b → Room 4 n b
wide-Room {slack} {n} {b} le r = record {
  offset_le = omega (arith, r.offset_le);
  completed_le = r.completed_le;
  size = r.size;
}

refuse_block-Replies :
    {n : ℕ} (status : ℕ) (d : Dap)
    → length d.response ≡ response_size
    → Replies n (refuse_block status d)
unfolding send_response
refuse_block-Replies status d size =
    let none_done = reported_lem d.response 0 0 status (refuse_block status d).1 size refl in
    record {
      words_le = omega (arith, length-take 4 (refuse_block status d).1.response);
      reported_le = omega (arith, none_done);
    }

module _ (target : Target) where
  run_block-Room :
      (is_ap read : Bool) (addr : ℕ) (buffer : List ℕ) (left index n : ℕ) (b : Block)
      → n ≡ index + left
      → n < 65536
      → Room (slack_of is_ap read) index b
      → b.completed ≡ index
      → Room (slack_of is_ap read) n (run_block target is_ap read addr buffer index left b)
  unfolding run_block
  run_block-Room is_ap read addr buffer zero index n b e small r c =
      other-Room (omega arith) refl refl refl r
  run_block-Room is_ap read addr buffer (suc left) index n b e small r c =
      after_word-Room (run_block target is_ap read addr buffer (index + 1) left) _ (omega arith)
        (run_word-Room target is_ap read addr index buffer b (omega arith) r c)
        (λ x g h.
          run_block-Room is_ap read addr buffer left (index + 1) n x (omega arith) small
            (other-Room (omega arith) refl refl refl g) (omega (arith, h)))

  slack_le : (read : Bool) → slack_of true read ≤ 4
  slack_le true = omega arith
  slack_le false = omega arith

  last_word :
      {n : ℕ} (read : Bool) (b : Block)
      → 0 < b.completed
      → Room (slack_of true read) n b
      → Room 4 n (
          let (r, bus) = read_dp target 0x0C b.dap.bus in
          let b' = record b { dap = record b.dap { bus = bus } } in
          if read && not (is_full b') then put_word r.value b' else b')
  unfolding put_word is_full
  last_word false b pos r = other-Room (omega arith) refl refl refl r
  last_word true b pos r = elim (Bool-cases (is_full b)) [
    | inl full ↦ rw full (other-Room (omega arith) refl refl refl (wide-Room (omega arith) r))
    | inr free ↦ rw free (record {
      offset_le = omega (arith, r.offset_le, pos);
      completed_le = r.completed_le;
      size = length-put_u32_le _ _ _ ∙ r.size;
    })
  ]

  finish_block-Room :
      {n : ℕ} (is_ap read : Bool) (b : Block)
      → Room (slack_of is_ap read) n b
      → Room 4 n (finish_block target is_ap read b)
  unfolding finish_block put_word
  finish_block-Room false read b r = r
  finish_block-Room true read b r =
      elim (Bool-cases (ltb 0 b.completed && (b.transfer_status == 1))) [
        | inr none_done ↦ rw none_done (wide-Room (slack_le read) r)
        | inl some_done ↦
            let pos : 0 < b.completed = ground arith in
            rw some_done (elim (Bool-cases (is_ok (read_dp target 0x0C b.dap.bus).0.error)) [
              | inr err ↦
                  rw err (other-Room (omega arith) refl refl refl (wide-Room (slack_le read) r))
              | inl good ↦ rw good (last_word read b pos r)
            ])
      ]

  end_block-Replies : {n : ℕ} (b : Block) → n < 65536 → Room 4 n b → Replies n (end_block target b)
  unfolding end_block send_response
  end_block-Replies b small r =
      let says =
        reported_lem b.dap.response (u8 (bit_and b.completed 0xFF))
          (u8 (bit_and (b.completed >>> 8) 0xFF)) b.transfer_status (end_block target b).1 r.size
          refl in
      let low = bit_and-low_mask 8 b.completed in
      let high = bit_and-low_mask 8 (b.completed >>> 8) in
      let counts : reported (end_block target b).1 ≡ b.completed =
        says ∙ omega (arith, low, high, r.completed_le) in
      record {
        words_le = rw counts (
            min_le b.response_offset _ (length-take b.response_offset _)
              (omega (arith, r.offset_le)));
        reported_le = rw counts r.completed_le;
      }

  -- For every command, refused or not, whose two count bytes are bytes, and every target,
  -- DAP_TransferBlock reports no more transfers than the command counts, and its response has no more
  -- than four bytes for each of them, after the four of its header.
  pub handle_transfer_block-Replies :
      (buffer : List ℕ) (d : Dap)
      → get_or buffer 2 0 < 256
      → get_or buffer 3 0 < 256
      → Replies
          (get_or buffer 2 0 + 256 * get_or buffer 3 0)
          (handle_transfer_block target buffer d)
  unfolding handle_transfer_block clear_response
  handle_transfer_block-Replies buffer d small2 small3 =
      let d0 = record d { stat_block = next32 d.stat_block } in
      let d' = clear_response 0x06 d0 in
      let n = get_or buffer 2 0 + 256 * get_or buffer 3 0 in
      let count = u16 (bit_or (get_or buffer 2 0) (get_or buffer 3 0 <<< 8)) in
      let counts : 0 + count ≡ n =
        omega (arith, bit_or-low 8 (get_or buffer 2 0) (get_or buffer 3 0) (omega arith)) in
      let request = get_or buffer 4 0 in
      let is_ap = test_bit request 0 in
      let read = test_bit request 1 in
      let addr = bit_and request (bit_or 0x04 0x08) in
      elim (Bool-cases (ltb (length buffer) 5)) [
        | inl short ↦ rw short (refuse_block-Replies 0xFF d' (clear_response-size 0x06 d0))
        | inr long ↦
            rw long
              (elim (Bool-cases (test_bit request 4 || test_bit request 5 || test_bit request 7)) [
                | inl bad ↦ rw bad (refuse_block-Replies 0x04 d' (clear_response-size 0x06 d0))
                | inr good ↦ rw good (
                    end_block-Replies _ (omega arith) (
                      finish_block-Room is_ap read _ (
                        run_block-Room is_ap read addr buffer count 0 n _ (sym counts) (omega arith)
                          (record {
                            offset_le = omega arith;
                            completed_le = omega arith;
                            size = clear_response-size 0x06 d0;
                          })
                          refl)))
              ])
      ]
