-- ===== src/Dap/Bounds.antt =====
-- The counts of DAP_Transfer: an answer is written for a request at most, so that the response has
-- room for all of them, and the loops end.
pub mod Invariant
mod Steps
use Prim.{Unit, tt, ⊥}
use esp32_daplink.Base.{
  bit_or, ℕ, zero, suc, ◌+◌, ◌*◌, ◌%◌, ◌≤◌, ◌<◌, ◌≡◌, ◌≢◌, refl, ◌∙◌, bit_and, bit_or, min, Bool,
  true, false, not, ◌&&◌, ◌||◌, Option, none, some, List, ltb, leb, ◌==◌, if◌then◌else◌, length,
  get_or, set, take, u8, u16, inl, inr, arith, Bool-cases, length-set, length-take, get_or-set_ne,
  get_or-set_self, length-replicate, replicate, test_bit,
}
use esp32_daplink.Esp.{is_ok}
use esp32_daplink.Swd.Wire.{Swd, Target, digit}
use esp32_daplink.Swd.Port.{read_dp, raw_transfer}
use esp32_daplink.Dap.{Dap, response_size, put, put_u32_le, clear_response, send_response, next32}
use esp32_daplink.Dap.Transfer.{
  Progress, Turn, go, stop, out_of_fuel, MatchEnd, matched, unmatched, refused, no_fuel, answer,
  with_status, on_bus, failed_status, count_fault, flush, match_read, match_loop, after_match,
  match_value, read_ap_reg, read_dp_reg, write_reg, and_then, with_word, after_turn, auto_clear,
  run_request, run_requests, finish_requests, end_transfer, start, handle_transfer,
}
use esp32_daplink.Dap.Bounds.Invariant.{
  Fits, TurnFits, Counts, Done, Fits-Counts, Fits-Done, Fits-le, Fits-no_post, Fits-suc,
  after_turn-Fits, and_then-Fits, answer-Fits, clear_response-size, count_byte, count_lem, counted,
  first_lem, length-put_u32_le, min_le, on_bus-Fits, pending_lem, posted_lem, read_answer,
  with_word-Fits,
}
use esp32_daplink.Dap.Bounds.Steps.{run_request-Fits}

module _ (target : Target) where
  -- The `for` loop ends within the fuel, with an answer for each request at most.
  run_requests-Fits :
      {fuel : ℕ} (buffer : List ℕ) (left k n : ℕ) (p : Progress)
      → n ≡ k + left
      → n < 256
      → Fits fuel k p
      → (q : Progress) × (run_requests target fuel buffer left p ≡ some q) × Fits fuel n q
  unfolding run_requests
  run_requests-Fits buffer zero k n p e small f = (p, refl, Fits-le (omega arith) f)
  run_requests-Fits {fuel = fuel} buffer (suc left) k n p e small f =
      elim (Bool-cases (ltb p.request_offset (length buffer))) [
        | inr empty ↦ rw empty (p, refl, Fits-le (omega arith) f)
        | inl more ↦ rw more (
            after_turn-Fits (run_requests target fuel buffer left) _ (omega arith)
              (run_request-Fits target buffer (get_or buffer p.request_offset 0)
                (record p { request_offset = p.request_offset + 1 }) (omega arith)
                (record {
                  offset_le = f.offset_le;
                  completed_le = f.completed_le;
                  size = f.size;
                  rounds = f.rounds;
                  no_wrap = f.no_wrap;
                }))
              (λ q g. run_requests-Fits buffer left (suc k) n q (omega arith) small g))
      ]

  finish_requests-Done :
      {fuel k : ℕ} (p : Progress) → k < 256 → Fits fuel k p → Done k (finish_requests target p)
  unfolding finish_requests answer
  finish_requests-Done {k = k} p small f =
      let r = read_dp target 0x0C p.dap.bus in
      elim (Bool-cases (p.post_read || p.check_write)) [
        | inr idle ↦ rw idle (Fits-Done f)
        | inl busy ↦ rw busy (elim (Bool-cases (is_ok r.0.error)) [
          | inr err ↦ rw err (Fits-Done (on_bus-Fits f))
          | inl good ↦ rw good (elim (Bool-cases p.post_read) [
            | inr write ↦ rw write (record {
              offset_le = f.offset_le;
              completed_le = (Fits-Done f).completed_le;
              size = f.size;
            })
            | inl posted ↦ rw posted (
                let a =
                  answer-Fits r.0.value _ small (Fits-no_post f)
                    (pending_lem p.completed k p.post_read posted f.completed_le) in
                record {
                  offset_le = a.offset_le;
                  completed_le = (Fits-Done a).completed_le;
                  size = a.size;
                })
          ])
        ])
      ]

  end_transfer_lem :
      {k : ℕ} (p : Progress)
      → Done k (finish_requests target p)
      → (length (end_transfer target p).0 ≤ 3 + 4 * get_or (end_transfer target p).1.response 1 0)
        × (get_or (end_transfer target p).1.response 1 0 ≤ k)
  unfolding end_transfer send_response
  end_transfer_lem p f =
      let q = finish_requests target p in
      rw (count_byte q.dap.response q.completed q.transfer_status f.size)
        (min_le q.response_offset _ (length-take q.response_offset _) f.offset_le, f.completed_le)

  -- A command with a count byte below 256, and a finite retry count: DAP_Transfer ends, with a fuel of the
  -- retry count and 2. It reports no more transfers than the command counts, and the response has
  -- no more than four bytes for each that it reports, after the three of its header.
  pub handle_transfer-total :
      (fuel : ℕ) (buffer : List ℕ) (d : Dap)
      → 3 ≤ length buffer
      → get_or buffer 2 0 < 256
      → d.match_retry < 0xFFFF
      → d.match_retry + 2 ≤ fuel
      → (reply : List ℕ × Dap) × (handle_transfer target fuel buffer d ≡ some reply)
        × (length reply.0 ≤ 3 + 4 * get_or reply.1.response 1 0)
        × (get_or reply.1.response 1 0 ≤ get_or buffer 2 0)
  unfolding handle_transfer clear_response
  handle_transfer-total fuel buffer d long small no_wrap rounds =
      let d0 = record d { stat_xfer = next32 d.stat_xfer } in
      let d' = clear_response 0x05 d0 in
      let (q, runs, fits) =
        run_requests-Fits buffer (get_or buffer 2 0) 0 (get_or buffer 2 0) (start d') (omega arith)
          small
          (record {
            offset_le = omega arith;
            completed_le = omega arith;
            size = clear_response-size 0x05 d0;
            rounds = rounds;
            no_wrap = no_wrap;
          }) in
      let short : ltb (length buffer) 3 ≡ false = ground arith in
      let ends = end_transfer_lem q (finish_requests-Done q small fits) in
      (end_transfer target q, rw (short, runs) refl, ends.0, ends.1)
