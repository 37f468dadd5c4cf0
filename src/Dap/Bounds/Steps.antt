-- ===== src/Dap/Bounds/Steps.antt =====
-- The counts of DAP_Transfer are kept by each kind of request.
use esp32_daplink.Base.{
  bit_or, ℕ, zero, suc, ◌+◌, ◌≤◌, ◌<◌, ◌≢◌, refl, bit_and, bit_or, Bool, true, false, List, leb,
  ◌==◌, u16, inl, inr, arith, Bool-cases, test_bit,
}
use esp32_daplink.Esp.{is_ok}
use esp32_daplink.Swd.Wire.{Swd, Target, digit}
use esp32_daplink.Swd.Port.{read_dp, raw_transfer}
use esp32_daplink.Dap.Transfer.{
  Progress, MatchEnd, matched, unmatched, refused, no_fuel, answer, flush, match_read, match_loop,
  after_match, match_value, read_ap_reg, read_dp_reg, write_reg, run_request,
}
use esp32_daplink.Dap.Bounds.Invariant.{
  Fits, TurnFits, Fits-Counts, Fits-no_post, Fits-suc, and_then-Fits, answer-Fits, counted,
  first_lem, on_bus-Fits, pending_lem, posted_lem, read_answer, with_word-Fits,
}

module _ (target : Target) where
  pub match_loop-ne-no_fuel :
      (fuel retry : ℕ) (ap : Bool) (addr value mask match_retry : ℕ) (bus : Swd)
      → match_retry < 0xFFFF
      → retry ≤ match_retry + 1
      → match_retry + 2 ≤ fuel + retry
      → match_loop target fuel retry ap addr value mask match_retry bus ≢ no_fuel
  unfolding match_loop
  match_loop-ne-no_fuel zero retry ap addr value mask match_retry bus small within enough =
      absurd (omega arith)
  match_loop-ne-no_fuel (suc fuel) retry ap addr value mask match_retry bus small within enough =
      elim (Bool-cases (leb retry match_retry)) [
        | inr past ↦ rw past (λ e. absurd (cc))
        | inl more ↦ rw more (elim (Bool-cases (is_ok (match_read target ap addr bus).0.error)) [
          | inr err ↦ rw err (λ e. absurd (cc))
          | inl good ↦
              rw good
                (elim (Bool-cases
                  (bit_and (match_read target ap addr bus).0.value mask == bit_and value mask)) [
                    | inl same ↦ rw same (λ e. absurd (cc))
                    | inr differ ↦ rw differ (
                        match_loop-ne-no_fuel fuel (u16 (retry + 1)) ap addr value mask match_retry
                          _ small (ground arith) (ground arith))
                  ])
        ])
      ]

  flush-Fits :
      {fuel k : ℕ} (p : Progress) → k < 256 → Fits fuel k p → TurnFits fuel k (flush target p)
  unfolding flush
  flush-Fits {k = k} p small f =
      let g = Fits-no_post f in
      elim (Bool-cases p.post_read) [
        | inr none_left ↦ rw none_left g
        | inl pending ↦
            rw pending (elim (Bool-cases (is_ok (read_dp target 0x0C p.dap.bus).0.error)) [
              | inl good ↦ rw good (
                  answer-Fits _ _ small (on_bus-Fits g)
                    (pending_lem p.completed k p.post_read pending f.completed_le))
              | inr err ↦ rw err (on_bus-Fits g)
            ])
      ]

  after_match-Fits :
      {fuel k : ℕ} (p : Progress) (m : MatchEnd)
      → suc k < 256
      → Fits fuel k p
      → m ≢ no_fuel
      → TurnFits fuel (suc k) (after_match p m)
  unfolding after_match
  after_match-Fits p (matched bus) small f h =
      let c = Fits-Counts small f in
      record {
        offset_le = c.offset_le;
        completed_le = c.completed_le;
        size = c.size;
        rounds = c.rounds;
        no_wrap = c.no_wrap;
      }
  after_match-Fits p (unmatched bus) small f h =
      let c = Fits-Counts small f in
      record {
        offset_le = c.offset_le;
        completed_le = c.completed_le;
        size = c.size;
        rounds = c.rounds;
        no_wrap = c.no_wrap;
      }
  after_match-Fits p (refused status bus) small f h =
      let c = Fits-suc f in
      record {
        offset_le = c.offset_le;
        completed_le = c.completed_le;
        size = c.size;
        rounds = c.rounds;
        no_wrap = c.no_wrap;
      }
  after_match-Fits p no_fuel small f h = absurd (h refl)

  match_value-Fits :
      {fuel k : ℕ} (ap : Bool) (addr value : ℕ) (p : Progress)
      → suc k < 256
      → Fits fuel k p
      → TurnFits fuel (suc k) (match_value target fuel ap addr value p)
  unfolding match_value
  match_value-Fits {fuel = fuel} ap addr value p small f = after_match-Fits p _ small f (
      match_loop-ne-no_fuel fuel 0 ap addr value p.dap.match_mask p.dap.match_retry p.dap.bus
        f.no_wrap (omega arith) (omega (arith, f.rounds)))

  read_ap_reg-Fits :
      {fuel k : ℕ} (addr : ℕ) (p : Progress)
      → suc k < 256
      → Fits fuel k p
      → TurnFits fuel (suc k) (read_ap_reg target addr p)
  unfolding read_ap_reg answer
  read_ap_reg-Fits {k = k} addr p small f =
      let r = raw_transfer target true true addr 0 p.dap.bus in
      elim (Bool-cases (is_ok r.0.error)) [
        | inr err ↦ rw err (record {
          offset_le = f.offset_le;
          completed_le = (Fits-suc (Fits-no_post f)).completed_le;
          size = f.size;
          rounds = f.rounds;
          no_wrap = f.no_wrap;
        })
        | inl good ↦ rw good (elim (Bool-cases p.post_read) [
          | inl posted ↦ rw posted (record {
            offset_le = (read_answer r.0.value p small f).offset_le;
            completed_le = posted_lem p.completed k p.post_read posted small f.completed_le;
            size = (read_answer r.0.value p small f).size;
            rounds = f.rounds;
            no_wrap = f.no_wrap;
          })
          | inr first ↦ rw first (record {
            offset_le = f.offset_le;
            completed_le = first_lem p.completed k (digit p.post_read) f.completed_le;
            size = f.size;
            rounds = f.rounds;
            no_wrap = f.no_wrap;
          })
        ])
      ]

  read_dp_reg-Fits :
      {fuel k : ℕ} (addr : ℕ) (p : Progress)
      → suc k < 256
      → Fits fuel k p
      → TurnFits fuel (suc k) (read_dp_reg target addr p)
  unfolding read_dp_reg answer
  read_dp_reg-Fits {k = k} addr p small f =
      elim (Bool-cases (is_ok (raw_transfer target false true addr 0 p.dap.bus).0.error)) [
        | inr err ↦ rw err (record {
          offset_le = f.offset_le;
          completed_le = (Fits-suc f).completed_le;
          size = f.size;
          rounds = f.rounds;
          no_wrap = f.no_wrap;
        })
        | inl good ↦ rw good (
            let g =
              read_answer (raw_transfer target false true addr 0 p.dap.bus).0.value p small f in
            record {
              offset_le = g.offset_le;
              completed_le = g.completed_le;
              size = g.size;
              rounds = g.rounds;
              no_wrap = g.no_wrap;
            })
      ]

  write_reg-Fits :
      {fuel k : ℕ} (ap : Bool) (addr value : ℕ) (p : Progress)
      → suc k < 256
      → Fits fuel k p
      → TurnFits fuel (suc k) (write_reg target ap addr value p)
  unfolding write_reg
  write_reg-Fits {k = k} ap addr value p small f =
      elim (Bool-cases (is_ok (raw_transfer target ap false addr value p.dap.bus).0.error)) [
        | inr err ↦ rw err (record {
          offset_le = f.offset_le;
          completed_le = (Fits-suc f).completed_le;
          size = f.size;
          rounds = f.rounds;
          no_wrap = f.no_wrap;
        })
        | inl good ↦ rw good (record {
          offset_le = (Fits-Counts small f).offset_le;
          completed_le = (Fits-Counts small f).completed_le;
          size = f.size;
          rounds = f.rounds;
          no_wrap = f.no_wrap;
        })
      ]

  pub run_request-Fits :
      {fuel k : ℕ} (buffer : List ℕ) (request : ℕ) (p : Progress)
      → suc k < 256
      → Fits fuel k p
      → TurnFits fuel (suc k) (run_request target fuel buffer request p)
  unfolding run_request
  run_request-Fits {fuel = fuel} buffer request p small f =
      let ap = test_bit request 0 in
      let addr = bit_and request (bit_or 0x04 0x08) in
      elim (Bool-cases (test_bit request 5)) [
        | inl mask ↦
            rw mask (with_word-Fits buffer p _ f (λ v q g. counted q (Fits-Counts small g)))
        | inr no_mask ↦ rw no_mask (elim (Bool-cases (test_bit request 4)) [
          | inl value ↦ rw value (
              with_word-Fits buffer p _ f (λ v q g.
                and_then-Fits (flush target q) _ (flush-Fits q (omega arith) g)
                  (λ x h. match_value-Fits ap addr v x small h)))
          | inr no_value ↦ rw no_value (elim (Bool-cases (test_bit request 1)) [
            | inl reads ↦ rw reads (elim (Bool-cases ap) [
              | inl is_ap ↦ rw is_ap (read_ap_reg-Fits addr p small f)
              | inr is_dp ↦ rw is_dp (
                  and_then-Fits (flush target p) _ (flush-Fits p (omega arith) f)
                    (λ x h. read_dp_reg-Fits addr x small h))
            ])
            | inr writes ↦ rw writes (
                with_word-Fits buffer p _ f (λ v q g.
                  and_then-Fits (flush target q) _ (flush-Fits q (omega arith) g)
                    (λ x h. write_reg-Fits ap addr v x small h)))
          ])
        ])
      ]
