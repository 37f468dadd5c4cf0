-- ===== src/Dap/Words.antt =====
-- The words of a response: `get_u32_le` against `put_u32_le`.
use esp32_daplink.Base.{
  ℕ, ◌+◌, ◌*◌, ◌^◌, ◌≤◌, ◌<◌, ◌≡◌, ap, ◌∙◌, false, List, ltb, length, get_or, set, u8, u32, bit_and,
  bit_or, arith, length-set, get_or-set_self, get_or-set_ne, ◌<<<◌, ◌>>>◌,
}
use esp32_daplink.Base.Bits.{bit_and-low_mask, bit_or-low}
use esp32_daplink.Dap.{put_u32_le, get_u32_le}

module _ (r : List ℕ) (o b0 b1 b2 b3 : ℕ) (room : o + 4 ≤ length r) where
  abbrev written : List ℕ
  written = set (set (set (set r (o + 0) b0) (o + 1) b1) (o + 2) b2) (o + 3) b3

  length-written : length written ≡ length r
  length-written = length-set _ _ _ ∙ length-set _ _ _ ∙ length-set _ _ _ ∙ length-set _ _ _

  byte_0 : get_or written o 0 ≡ b0
  byte_0 =
      get_or-set_ne _ (o + 3) o b3 0 (omega arith)
      ∙ get_or-set_ne _ (o + 2) o b2 0 (omega arith)
      ∙ get_or-set_ne _ (o + 1) o b1 0 (omega arith)
      ∙ ap (λ (i : ℕ). get_or (set r i b0) o 0) (omega arith)
      ∙ get_or-set_self r o b0 0 (omega arith)

  byte_1 : get_or written (o + 1) 0 ≡ b1
  byte_1 =
      get_or-set_ne _ (o + 3) (o + 1) b3 0 (omega arith)
      ∙ get_or-set_ne _ (o + 2) (o + 1) b2 0 (omega arith)
      ∙ get_or-set_self _ (o + 1) b1 0 (omega (arith, length-set r (o + 0) b0))

  byte_2 : get_or written (o + 2) 0 ≡ b2
  byte_2 =
      get_or-set_ne _ (o + 3) (o + 2) b3 0 (omega arith)
      ∙ get_or-set_self _ (o + 2) b2 0
          (omega (arith, length-set (set r (o + 0) b0) (o + 1) b1, length-set r (o + 0) b0))

  byte_3 : get_or written (o + 3) 0 ≡ b3
  byte_3 = get_or-set_self _ (o + 3) b3 0 (
      omega (
        arith,
        length-set (set (set r (o + 0) b0) (o + 1) b1) (o + 2) b2,
        length-set (set r (o + 0) b0) (o + 1) b1,
        length-set r (o + 0) b0,
      ))

-- the four bytes of a word, together again
joined_lem :
    (b0 b1 b2 b3 : ℕ)
    → b0 < 256
    → b1 < 256
    → b2 < 256
    → b3 < 256
    → bit_or (bit_or (bit_or b0 (u32 (b1 <<< 8))) (u32 (b2 <<< 16))) (u32 (b3 <<< 24))
      ≡ b0 + b1 * 256 + b2 * 65536 + b3 * 16777216
joined_lem b0 b1 b2 b3 h0 h1 h2 h3 =
    let w1 : u32 (b1 <<< 8) ≡ b1 <<< 8 = omega arith in
    let w2 : u32 (b2 <<< 16) ≡ b2 <<< 16 = omega arith in
    let w3 : u32 (b3 <<< 24) ≡ b3 <<< 24 = omega arith in
    let e1 : bit_or b0 (b1 <<< 8) ≡ b0 + b1 * 256 = bit_or-low 8 b0 b1 (omega arith) in
    let e2 : bit_or (b0 + b1 * 256) (b2 <<< 16) ≡ b0 + b1 * 256 + b2 * 65536 =
      bit_or-low 16 (b0 + b1 * 256) b2 (omega arith) in
    let e3 = bit_or-low 24 (b0 + b1 * 256 + b2 * 65536) b3 (omega arith) in
    rw (w1, w2, w3, e1, e2) e3

-- In a response that has room for four bytes at the offset, `get_u32_le` reads the 32-bit word that
-- `put_u32_le` wrote there.
get_u32_le-put_u32_le :
    (offset value : ℕ) (response : List ℕ)
    → offset + 4 ≤ length response
    → value < 2 ^ 32
    → get_u32_le (put_u32_le offset value response) offset ≡ value
unfolding get_u32_le put_u32_le
get_u32_le-put_u32_le offset value response room small =
    let b0 = u8 (bit_and value 0xFF) in
    let b1 = u8 (bit_and (value >>> 8) 0xFF) in
    let b2 = u8 (bit_and (value >>> 16) 0xFF) in
    let b3 = u8 (bit_and (value >>> 24) 0xFF) in
    let fits : ltb (length response) (offset + 4) ≡ false = ground arith in
    let still : ltb (length (written response offset b0 b1 b2 b3 room)) (offset + 4) ≡ false =
      ground (arith, length-written response offset b0 b1 b2 b3 room) in
    rw
      (
        fits,
        still,
        byte_0 response offset b0 b1 b2 b3 room,
        byte_1 response offset b0 b1 b2 b3 room,
        byte_2 response offset b0 b1 b2 b3 room,
        byte_3 response offset b0 b1 b2 b3 room,
      )
      (joined_lem b0 b1 b2 b3 (omega arith) (omega arith) (omega arith) (omega arith)
        ∙ omega (
          arith,
          bit_and-low_mask 8 value,
          bit_and-low_mask 8 (value >>> 8),
          bit_and-low_mask 8 (value >>> 16),
          bit_and-low_mask 8 (value >>> 24),
        ))
