-- ===== src/Hex/Bytes.antt =====
-- Two hex digits: what `parse_hex_byte` reads, and that nothing behind the end of a text matters.
use esp32_daplink.Base.{
  ℕ, zero, suc, ◌+◌, ◌-◌, ◌/◌, ◌%◌, ◌≤◌, ◌<◌, ◌≡◌, refl, ap, ◌∙◌, inl, inr, none, some, List, [],
  ◌∷◌, ◌++◌, ltb, if◌then◌else◌, length, drop, arith, get_or-append_left, get_or-append_right,
  get_or-drop, drop-drop, Option-cases, >>=-eq-some,
}
use esp32_daplink.Base.Bits.{bit_or-high}
use esp32_daplink.Hex.{nibble, toupper, parse_hex_byte, parse_bytes}

-- The digits that the formatter of Record writes.
unfoldable pub hex_digit : ℕ → ℕ
hex_digit n = if ltb n 10 then b'0' + n else b'A' + (n - 10)

abbrev pub hex_byte : ℕ → List ℕ
hex_byte b = hex_digit (b / 16) ∷ hex_digit (b % 16) ∷ []

abbrev pub hex_bytes : List ℕ → List ℕ
hex_bytes [] = []
hex_bytes (b ∷ bs) = hex_digit (b / 16) ∷ hex_digit (b % 16) ∷ hex_bytes bs

abbrev pub IsByte : ℕ → Type 0
IsByte b = b < 256

abbrev pub AllBytes : List ℕ → Type 0
AllBytes [] = Unit
AllBytes (b ∷ bs) = (b < 256) × AllBytes bs

nibble-hex_digit : (n : ℕ) → n < 16 → nibble (hex_digit n) ≡ some n
unfolding nibble hex_digit toupper
nibble-hex_digit n h = ground arith

nibble-lt : (ch : ℕ) {n : ℕ} → nibble ch ≡ some n → n < 16
unfolding nibble toupper
nibble-lt ch h = ground arith

pub nibble-zero : nibble 0 ≡ none
unfolding nibble toupper
nibble-zero = refl

pub parse_hex_byte-lt : (text : List ℕ) (at : ℕ) {b : ℕ} → parse_hex_byte text at ≡ some b → b < 256
unfolding parse_hex_byte
parse_hex_byte-lt text at h = ground arith

-- Only the two characters matter.
pub parse_hex_byte-drop :
    (text : List ℕ) (at : ℕ) → parse_hex_byte text at ≡ parse_hex_byte (drop at text) 0
unfolding parse_hex_byte
parse_hex_byte-drop text at =
    ground (arith, get_or-drop text at 0 at 0 (omega arith), get_or-drop text at 1 (at + 1) 0 refl)

pub parse_hex_byte-digits :
    (b : ℕ) (rest : List ℕ)
    → b < 256
    → parse_hex_byte (hex_digit (b / 16) ∷ hex_digit (b % 16) ∷ rest) 0 ≡ some b
unfolding parse_hex_byte
parse_hex_byte-digits b rest h = ground (
  arith,
  nibble-hex_digit (b / 16) (omega arith),
  nibble-hex_digit (b % 16) (omega arith),
  bit_or-high 4 (b / 16) (b % 16) (omega arith),
)

-- Reading back what the formatter writes at place `at`.
pub parse_hex_byte-hex_byte :
    (text : List ℕ) (at b : ℕ) (rest : List ℕ)
    → b < 256
    → drop at text ≡ hex_digit (b / 16) ∷ hex_digit (b % 16) ∷ rest
    → parse_hex_byte text at ≡ some b
parse_hex_byte-hex_byte text at b rest h e =
    parse_hex_byte-drop text at ∙ ap (λ t. parse_hex_byte t 0) e ∙ parse_hex_byte-digits b rest h

drop_pair :
    (text : List ℕ) (at : ℕ) {x y : ℕ} {rest : List ℕ}
    → drop at text ≡ x ∷ y ∷ rest
    → drop (at + 2) text ≡ rest
drop_pair text at e = drop-drop text at 2 (at + 2) refl ∙ ap (drop 2) e

-- `parse_bytes` reads back every list of bytes that was written in hex.
pub parse_bytes-hex_bytes :
    (text : List ℕ) (at : ℕ) (bs rest : List ℕ)
    → AllBytes bs
    → drop at text ≡ hex_bytes bs ++ rest
    → parse_bytes text at (length bs) ≡ some bs
unfolding parse_bytes
parse_bytes-hex_bytes text at [] rest h e = refl
parse_bytes-hex_bytes text at (b ∷ bs) rest h e = ground (
  arith,
  parse_hex_byte-hex_byte text at b (hex_bytes bs ++ rest) h.0 e,
  parse_bytes-hex_bytes text (at + 2) bs rest h.1 (drop_pair text at e),
)

-- What is read is a list of bytes, as many as were asked for.
pub parse_bytes-AllBytes :
    (text : List ℕ) (at count : ℕ) (bs : List ℕ)
    → parse_bytes text at count ≡ some bs
    → AllBytes bs × (length bs ≡ count)
unfolding parse_bytes
parse_bytes-AllBytes text at zero bs h = ground arith
parse_bytes-AllBytes text at (suc count) bs h =
    let (b, first, more) = >>=-eq-some (parse_hex_byte text at) _ h in
    let (tail, others, same) = >>=-eq-some (parse_bytes text (at + 2) count) _ more in
    ground
      (arith, parse_hex_byte-lt text at first, parse_bytes-AllBytes text (at + 2) count tail others)

-- Behind the zero that ends a text anything may stand: a read that starts in the text or at its
-- end has the same result.
module _ (text s t : List ℕ) where
  pub parse_hex_byte_stale :
      (at : ℕ)
      → at ≤ length text
      → parse_hex_byte (text ++ 0 ∷ s) at ≡ parse_hex_byte (text ++ 0 ∷ t) at
  unfolding parse_hex_byte
  parse_hex_byte_stale at h = ground (
    arith,
    get_or-append_left text (0 ∷ s) at 0,
    get_or-append_left text (0 ∷ t) at 0,
    get_or-append_left text (0 ∷ s) (at + 1) 0,
    get_or-append_left text (0 ∷ t) (at + 1) 0,
    get_or-append_right text (0 ∷ s) 0 at 0,
    get_or-append_right text (0 ∷ t) 0 at 0,
    get_or-append_right text (0 ∷ s) 0 (at + 1) 0,
    get_or-append_right text (0 ∷ t) 0 (at + 1) 0,
    nibble-zero,
  )

  -- a read that succeeds lies within the text
  pub parse_hex_byte_inside :
      (at : ℕ)
      → at ≤ length text
      → {b : ℕ} → parse_hex_byte (text ++ 0 ∷ s) at ≡ some b
      → at + 2 ≤ length text
  unfolding parse_hex_byte
  parse_hex_byte_inside at h e = ground (
    arith,
    get_or-append_right text (0 ∷ s) 0 at 0,
    get_or-append_right text (0 ∷ s) 0 (at + 1) 0,
    nibble-zero,
  )

  pub parse_bytes_stale :
      (count at : ℕ)
      → at ≤ length text
      → parse_bytes (text ++ 0 ∷ s) at count ≡ parse_bytes (text ++ 0 ∷ t) at count
  unfolding parse_bytes
  parse_bytes_stale zero at h = refl
  parse_bytes_stale (suc count) at h = elim (Option-cases (parse_hex_byte (text ++ 0 ∷ s) at)) [
    | inl fails ↦ ground (arith, parse_hex_byte_stale at h)
    | inr (b, reads) ↦ ground (
      arith,
      parse_hex_byte_stale at h,
      parse_hex_byte_inside at h reads,
      parse_bytes_stale count (at + 2),
    )
  ]
