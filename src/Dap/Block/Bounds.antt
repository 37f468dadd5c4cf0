-- ===== src/Dap/Block/Bounds.antt =====
-- The counts of DAP_TransferBlock, and the bounds of its response.
use esp32_daplink.Base.{
  ℕ, suc, ◌+◌, ◌*◌, ◌≤◌, ◌<◌, ◌≡◌, refl, ap, ◌∙◌, max, Bool, true, false, ◌&&◌, List, ltb, ◌==◌,
  if◌then◌else◌, length, inl, inr, arith, Bool-cases,
}
use esp32_daplink.Esp.{is_ok}
use esp32_daplink.Swd.Wire.{Target}
use esp32_daplink.Swd.Port.{raw_transfer}
use esp32_daplink.Dap.{response_size, get_u32_le}
use esp32_daplink.Dap.Block.{
  Block, BlockTurn, on, over, put_word, is_full, store_ap, store_dp, read_block, write_block,
  run_word,
}
use esp32_daplink.Dap.Bounds.Invariant.{length-put_u32_le}

-- a block whose words lag behind the count by one where `slack` is 0, and not where it is 4
pub record Room (slack k : ℕ) (b : Block) : Type 0 where
  pub offset_le : b.response_offset ≤ max 4 (4 * b.completed + slack)
  pub completed_le : b.completed ≤ k
  pub size : length b.dap.response ≡ response_size

-- A word that goes on has completed one more.
abbrev pub TurnRoom : ℕ → ℕ → BlockTurn → Type 0
TurnRoom slack n (on b) = Room slack n b × (b.completed ≡ n)
TurnRoom slack n (over b) = Room slack n b

abbrev pub slack_of : Bool → Bool → ℕ
slack_of ap read = if ap && read then 0 else 4

store_ap-Room :
    (index v : ℕ) (b : Block)
    → suc index < 65536
    → Room 0 index b
    → b.completed ≡ index
    → TurnRoom 0 (suc index) (store_ap index v b)
unfolding store_ap put_word
store_ap-Room index v b small r e = elim (Bool-cases (index == 0)) [
  | inl first ↦ rw first (
    record {
      offset_le = omega (arith, e, r.offset_le);
      completed_le = omega (arith, e, r.offset_le);
      size = r.size;
    },
    omega (arith, e, r.offset_le),
  )
  | inr later ↦
      let pos : 0 < index = ground arith in
      rw later (elim (Bool-cases (is_full b)) [
        | inl full ↦ rw full (record {
          offset_le = r.offset_le;
          completed_le = omega (arith, e, r.offset_le);
          size = r.size;
        })
        | inr free ↦ rw free (
          record {
            offset_le = omega (arith, e, pos, r.offset_le);
            completed_le = omega (arith, e, pos, r.offset_le);
            size = length-put_u32_le b.response_offset v b.dap.response ∙ r.size;
          },
          omega (arith, e, pos, r.offset_le),
        )
      ])
]

store_dp-Room :
    (index v : ℕ) (b : Block)
    → suc index < 65536
    → Room 4 index b
    → b.completed ≡ index
    → TurnRoom 4 (suc index) (store_dp v b)
unfolding store_dp put_word is_full
store_dp-Room index v b small r e = elim (Bool-cases (is_full b)) [
  | inl full ↦ rw full (record {
    offset_le = omega (arith, e, r.offset_le);
    completed_le = omega (arith, e, r.offset_le);
    size = r.size;
  })
  | inr free ↦ rw free (
    record {
      offset_le = omega (arith, e, r.offset_le);
      completed_le = omega (arith, e, r.offset_le);
      size = length-put_u32_le b.response_offset v b.dap.response ∙ r.size;
    },
    omega (arith, e, r.offset_le),
  )
]

-- The counters and the bus have no part in it.
pub other-Room :
    {slack k n : ℕ} {b c : Block}
    → k ≤ n
    → c.response_offset ≡ b.response_offset
    → c.completed ≡ b.completed
    → c.dap.response ≡ b.dap.response
    → Room slack k b
    → Room slack n c
other-Room {slack} {k} {n} {b} {c} le e f g r = record {
  offset_le = omega (arith, e, f, r.offset_le);
  completed_le = omega (arith, f, r.completed_le);
  size = ap length g ∙ r.size;
}

module _ (target : Target) where
  read_block-Room :
      (ap_read : Bool) (addr index : ℕ) (b : Block)
      → suc index < 65536
      → Room (slack_of ap_read true) index b
      → b.completed ≡ index
      → TurnRoom (slack_of ap_read true) (suc index) (read_block target ap_read addr index b)
  unfolding read_block
  read_block-Room true addr index b small r e =
      elim (Bool-cases (is_ok (raw_transfer target true true addr 0 b.dap.bus).0.error)) [
        | inl good ↦
            rw good (store_ap-Room index _ _ small (other-Room (omega arith) refl refl refl r) e)
        | inr err ↦ rw err (other-Room (omega arith) refl refl refl r)
      ]
  read_block-Room false addr index b small r e =
      elim (Bool-cases (is_ok (raw_transfer target false true addr 0 b.dap.bus).0.error)) [
        | inl good ↦
            rw good (store_dp-Room index _ _ small (other-Room (omega arith) refl refl refl r) e)
        | inr err ↦ rw err (other-Room (omega arith) refl refl refl r)
      ]

  write_block-Room :
      (ap_write : Bool) (addr index : ℕ) (buffer : List ℕ) (b : Block)
      → suc index < 65536
      → Room 4 index b
      → b.completed ≡ index
      → TurnRoom 4 (suc index) (write_block target ap_write addr buffer b)
  unfolding write_block
  write_block-Room ap_write addr index buffer b small r e =
      elim (Bool-cases (ltb (length buffer) (b.request_offset + 4))) [
        | inl short ↦ rw short (other-Room (omega arith) refl refl refl r)
        | inr enough ↦
            rw enough
              (elim (Bool-cases (
                is_ok
                  (raw_transfer target ap_write false addr (get_u32_le buffer b.request_offset)
                    b.dap.bus).0.error)) [
                      | inr err ↦ rw err (other-Room (omega arith) refl refl refl r)
                      | inl good ↦ rw good (
                        record {
                          offset_le = omega (arith, e, r.offset_le);
                          completed_le = omega (arith, e);
                          size = r.size;
                        },
                        omega (arith, e),
                      )
                    ])
      ]

  pub run_word-Room :
      (ap read : Bool) (addr index : ℕ) (buffer : List ℕ) (b : Block)
      → suc index < 65536
      → Room (slack_of ap read) index b
      → b.completed ≡ index
      → TurnRoom (slack_of ap read) (suc index) (run_word target ap read addr buffer index b)
  unfolding run_word
  run_word-Room ap true addr index buffer b small r e = read_block-Room ap addr index b small r e
  run_word-Room true false addr index buffer b small r e =
      write_block-Room true addr index buffer b small r e
  run_word-Room false false addr index buffer b small r e =
      write_block-Room false addr index buffer b small r e
