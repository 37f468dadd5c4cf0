-- ===== src/Swd/Request.antt =====
-- The request byte and the parity bit.
use esp32_daplink.Base.{
  ℕ, zero, suc, ◌+◌, ◌*◌, ◌/◌, ◌%◌, ◌^◌, ◌<◌, ◌≡◌, refl, ap, ◌∙◌, Bool, true, false, bit_xor, arith,
  ◌>>>◌,
}
use esp32_daplink.Base.Bits.{bit_and-low_mask}
use esp32_daplink.Base.Bits.Parity.{ones, ones_from, ones-fold}
use esp32_daplink.Swd.Wire.{parity32, make_request, request_byte, digit}

lowest : (v : ℕ) → v % 2 ^ 1 ≡ ones v 1 % 2
unfolding ones_from
lowest v = omega arith

-- `parity32` is the parity of the number of ones among the 32 bits, for every word.
pub parity32-ones : (v : ℕ) → parity32 v ≡ ones v 32 % 2
unfolding parity32
parity32-ones v =
    let v1 = bit_xor v (v >>> 16) in
    let v2 = bit_xor v1 (v1 >>> 8) in
    let v3 = bit_xor v2 (v2 >>> 4) in
    let v4 = bit_xor v3 (v3 >>> 2) in
    let v5 = bit_xor v4 (v4 >>> 1) in
    bit_and-low_mask 1 v5
    ∙ lowest v5
    ∙ ones-fold v4 1
    ∙ ones-fold v3 2
    ∙ ones-fold v2 4
    ∙ ones-fold v1 8
    ∙ ones-fold v 16

-- The eight bits of the request: start 1, APnDP, RnW, A2, A3, the parity of those four, stop 0,
-- park 1.
abbrev fields : Bool → Bool → ℕ → ℕ → ℕ
fields ap read a2 a3 =
    1
    + digit ap * 2
    + digit read * 4
    + a2 * 8
    + a3 * 16
    + (digit ap + digit read + a2 + a3) % 2 * 32
    + 128

abbrev TableRow : Bool → Bool → Type 0
TableRow ap read =
    (request_byte ap read 0 0 ≡ fields ap read 0 0)
    × (request_byte ap read 0 1 ≡ fields ap read 0 1)
    × (request_byte ap read 1 0 ≡ fields ap read 1 0)
    × (request_byte ap read 1 1 ≡ fields ap read 1 1)

table : (ap read : Bool) → TableRow ap read
unfolding request_byte
table false false = (refl, refl, refl, refl)
table false true = (refl, refl, refl, refl)
table true false = (refl, refl, refl, refl)
table true true = (refl, refl, refl, refl)

request_byte-fields :
    (ap read : Bool) (a2 a3 : ℕ)
    → a2 < 2
    → a3 < 2
    → request_byte ap read a2 a3 ≡ fields ap read a2 a3
request_byte-fields ap read zero zero p q = (table ap read).0
request_byte-fields ap read zero (suc zero) p q = (table ap read).1
request_byte-fields ap read (suc zero) zero p q = (table ap read).2
request_byte-fields ap read (suc zero) (suc zero) p q = (table ap read).3
request_byte-fields ap read (suc (suc a2)) a3 p q = absurd (omega arith)
request_byte-fields ap read zero (suc (suc a3)) p q = absurd (omega arith)
request_byte-fields ap read (suc zero) (suc (suc a3)) p q = absurd (omega arith)

-- For every register address, `make_request` is the packet request of the ADI specification: start
-- bit 1, APnDP, RnW, address bits 2 and 3, their even parity, stop bit 0 and park bit 1.
make_request-fields :
    (ap read : Bool) (addr : ℕ)
    → make_request ap read addr ≡ fields ap read (addr / 4 % 2) (addr / 8 % 2)
unfolding make_request
make_request-fields ap read addr =
    rw (bit_and-low_mask 1 (addr / 4), bit_and-low_mask 1 (addr / 8))
      (request_byte-fields ap read (addr / 4 % 2) (addr / 8 % 2) (omega arith) (omega arith))
