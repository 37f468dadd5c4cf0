-- ===== src/Hex/Record.antt =====
-- One line of the file: the record that the parser reads is the one that was written, and the
-- bytes behind the end of the text are never used.
use mathlib.Core.List.{append_assoc}
use esp32_daplink.Base.{
  ℕ, zero, suc, ◌+◌, ◌*◌, ◌/◌, ◌%◌, ◌≤◌, ◌<◌, ◌≡◌, refl, ◌≢◌, ap, inl, inr, some, List, [], ◌∷◌,
  ◌++◌, ltb, length, add32, arith, get_or-append_left, length-append, Bool-cases, Option-cases,
  if◌then◌else◌, ◌==◌, get_or,
}
use esp32_daplink.Base.Bits.{bit_or-high}
use esp32_daplink.Hex.{
  Image, Header, next, finish, strlen, add_segment, offset_of, parse_header, parse_data,
  parse_record, parse_base_bytes, parse_base, parse_line,
}
use esp32_daplink.Hex.Bytes.{
  hex_digit, hex_bytes, hex_byte, AllBytes, parse_hex_byte-hex_byte, parse_bytes-hex_bytes,
  parse_hex_byte_stale, parse_bytes_stale,
}

-- No character of a text is its terminating zero.
abbrev pub IsText : List ℕ → Type 0
IsText [] = Unit
IsText (c ∷ text) = (0 < c) × IsText text

strlen-append : (text rest : List ℕ) → IsText text → length text ≤ strlen (text ++ rest)
strlen-append [] rest h = omega arith
strlen-append (zero ∷ text) rest h = absurd (omega arith)
strlen-append (suc c ∷ text) rest h = omega (arith, strlen-append text rest h.1)

strlen-eq : (text stale : List ℕ) → IsText text → strlen (text ++ 0 ∷ stale) ≡ length text
strlen-eq [] stale h = refl
strlen-eq (zero ∷ text) stale h = absurd (omega arith)
strlen-eq (suc c ∷ text) stale h = ap suc (strlen-eq text stale h.1)

module _ (text s t : List ℕ) (long : 11 ≤ length text) where
  parse_header_stale : parse_header (text ++ 0 ∷ s) ≡ parse_header (text ++ 0 ∷ t)
  unfolding parse_header
  parse_header_stale =
      rw
        (
          parse_hex_byte_stale text s t 1 (omega arith),
          parse_hex_byte_stale text s t 3 (omega arith),
          parse_hex_byte_stale text s t 5 (omega arith),
          parse_hex_byte_stale text s t 7 (omega arith),
        )
        refl

  parse_base_bytes_stale : parse_base_bytes (text ++ 0 ∷ s) ≡ parse_base_bytes (text ++ 0 ∷ t)
  unfolding parse_base_bytes
  parse_base_bytes_stale =
      rw
        (
          parse_hex_byte_stale text s t 9 (omega arith),
          parse_hex_byte_stale text s t 11 (omega arith),
        )
        refl

  parse_data_stale :
      (image : Image) (base n : ℕ) (h : Header)
      → parse_data image base n (text ++ 0 ∷ s) h ≡ parse_data image base n (text ++ 0 ∷ t) h
  unfolding parse_data
  parse_data_stale image base n h =
      ground (arith, parse_bytes_stale text s t h.byte_count 9 (omega arith))

  parse_base_stale :
      (image : Image) (n : ℕ) (h : Header)
      → parse_base image n (text ++ 0 ∷ s) h ≡ parse_base image n (text ++ 0 ∷ t) h
  unfolding parse_base
  parse_base_stale image n h = ground (arith, parse_base_bytes_stale)

  parse_record_stale :
      (image : Image) (base n : ℕ) (h : Header)
      → parse_record image base n (text ++ 0 ∷ s) h ≡ parse_record image base n (text ++ 0 ∷ t) h
  unfolding parse_record
  parse_record_stale image base n h =
      ground (arith, parse_data_stale image base n h, parse_base_stale image n h)

  first_stale : get_or (text ++ 0 ∷ s) 0 0 ≡ get_or (text ++ 0 ∷ t) 0 0
  first_stale =
      omega (arith, get_or-append_left text (0 ∷ s) 0 0, get_or-append_left text (0 ∷ t) 0 0)

-- For every line text (no character of it zero), whatever stands in the line buffer behind the
-- text's terminating zero, such as the rest of a longer line read before or memory that was never
-- written, the outcome of the line is the same.
pub parse_line_stale :
    (image : Image) (base n : ℕ) (text s t : List ℕ)
    → IsText text
    → parse_line image base n (text ++ 0 ∷ s) ≡ parse_line image base n (text ++ 0 ∷ t)
unfolding parse_line
parse_line_stale image base n text s t h = elim (Bool-cases (ltb (length text) 11)) [
  | inl short ↦ rw (strlen-eq text s h, strlen-eq text t h, short) refl
  | inr long ↦
      let enough : 11 ≤ length text = ground arith in
      elim (Option-cases (parse_header (text ++ 0 ∷ t))) [
        | inl fails ↦ ground (
          arith,
          strlen-eq text s h,
          strlen-eq text t h,
          parse_header_stale text s t enough,
          first_stale text s t enough,
        )
        | inr (header, reads) ↦ ground (
          arith,
          strlen-eq text s h,
          strlen-eq text t h,
          parse_header_stale text s t enough,
          first_stale text s t enough,
          parse_record_stale text s t enough image base n header,
        )
      ]
]

-- The text of one record, without its line end. The parser does not look at the checksum.
unfoldable pub record_text : ℕ → ℕ → List ℕ → ℕ → List ℕ
record_text kind offset bs checksum =
    b':' ∷ hex_bytes (length bs ∷ offset / 256 ∷ offset % 256 ∷ kind ∷ [])
    ++ (hex_bytes bs ++ hex_byte checksum)

hex_digit-pos : (n : ℕ) → 0 < hex_digit n
unfolding hex_digit
hex_digit-pos n = ground arith

hex_bytes-IsText : (bs : List ℕ) → IsText (hex_bytes bs)
hex_bytes-IsText [] = tt
hex_bytes-IsText (b ∷ bs) = (hex_digit-pos (b / 16), (hex_digit-pos (b % 16), hex_bytes-IsText bs))

append-IsText : (s t : List ℕ) → IsText s → IsText t → IsText (s ++ t)
append-IsText [] t p q = q
append-IsText (c ∷ s) t p q = (p.0, append-IsText s t p.1 q)

pub record_text-IsText :
    (kind offset : ℕ) (bs : List ℕ) (checksum : ℕ) → IsText (record_text kind offset bs checksum)
unfolding record_text
record_text-IsText kind offset bs checksum = (
  omega arith,
  append-IsText (hex_bytes (length bs ∷ offset / 256 ∷ offset % 256 ∷ kind ∷ []))
      (hex_bytes bs ++ hex_byte checksum)
      (hex_bytes-IsText (length bs ∷ offset / 256 ∷ offset % 256 ∷ kind ∷ []))
      (append-IsText (hex_bytes bs) (hex_byte checksum) (hex_bytes-IsText bs)
        (hex_bytes-IsText (checksum ∷ []))),
)

-- What the parser is given: a record's text with anything behind it.
module _ (kind offset : ℕ) (bs : List ℕ) (checksum : ℕ) (rest : List ℕ) (kind_byte : kind < 256)
    (offset_fits : offset < 65536) (few : length bs < 256) where
  abbrev line : List ℕ
  line = record_text kind offset bs checksum ++ rest

  abbrev header_of : Header
  header_of = record {
    byte_count = length bs;
    addr_hi = offset / 256;
    addr_lo = offset % 256;
    record_type = kind;
  }

  parse_header-record_text : parse_header line ≡ some header_of
  unfolding parse_header record_text
  parse_header-record_text = ground (
    arith,
    parse_hex_byte-hex_byte line 1 (length bs) _ few refl,
    parse_hex_byte-hex_byte line 3 (offset / 256) _ (omega arith) refl,
    parse_hex_byte-hex_byte line 5 (offset % 256) _ (omega arith) refl,
    parse_hex_byte-hex_byte line 7 kind _ kind_byte refl,
  )

  record_text-long : 11 ≤ strlen line
  unfolding record_text
  record_text-long = omega (
    arith,
    strlen-append (record_text kind offset bs checksum) rest
        (record_text-IsText kind offset bs checksum),
    length-append {0} (hex_bytes bs) (hex_byte checksum),
  )

  offset_of-header_of : offset_of header_of ≡ offset
  offset_of-header_of = omega (arith, bit_or-high 8 (offset / 256) (offset % 256) (omega arith))

  parse_line-record_text :
      (image : Image) (base n : ℕ)
      → parse_line image base n line ≡ parse_record image base n line header_of
  unfolding parse_line record_text
  parse_line-record_text image base n = ground (arith, parse_header-record_text, record_text-long)

-- A data record that is written with any 16-bit offset, at most 255 bytes and any checksum byte is
-- read, whatever follows it in the buffer, as exactly those bytes at the base address plus the
-- offset (modulo 2 ^ 32); the base address stays.
pub parse_line-data :
    (image : Image) (base n offset : ℕ) (bs : List ℕ) (checksum : ℕ) (rest : List ℕ)
    → offset < 65536
    → length bs < 256
    → AllBytes bs
    → parse_line image base n (record_text 0 offset bs checksum ++ rest)
      ≡ next (add_segment image (record { address = add32 base offset; bytes = bs })) base
unfolding parse_record parse_data record_text
parse_line-data image base n offset bs checksum rest p q h = ground (
  arith,
  parse_line-record_text 0 offset bs checksum rest (omega arith) p q image base n,
  offset_of-header_of 0 offset bs checksum rest (omega arith) p q,
  parse_bytes-hex_bytes (record_text 0 offset bs checksum ++ rest) 9 bs (hex_byte checksum ++ rest)
      h (append_assoc (hex_bytes bs) (hex_byte checksum) rest),
)

-- An extended linear address record sets the base address to its 16 bits, shifted up by 16, and
-- adds no segment.
pub parse_line-base :
    (image : Image) (base n offset hi lo checksum : ℕ) (rest : List ℕ)
    → offset < 65536
    → hi < 256
    → lo < 256
    → parse_line image base n (record_text 4 offset (hi ∷ lo ∷ []) checksum ++ rest)
      ≡ next image ((hi * 256 + lo) * 65536)
unfolding parse_record parse_base parse_base_bytes record_text
parse_line-base image base n offset hi lo checksum rest p qh ql = ground (
  arith,
  parse_line-record_text 4 offset (hi ∷ lo ∷ []) checksum rest (omega arith) p (omega arith) image
      base n,
  parse_hex_byte-hex_byte (record_text 4 offset (hi ∷ lo ∷ []) checksum ++ rest) 9 hi _ qh refl,
  parse_hex_byte-hex_byte (record_text 4 offset (hi ∷ lo ∷ []) checksum ++ rest) 11 lo _ ql refl,
  bit_or-high 8 hi lo (omega arith),
)

-- An end-of-file record ends the file, and any record of another type changes nothing.
pub parse_line-other :
    (image : Image) (base n kind offset : ℕ) (bs : List ℕ) (checksum : ℕ) (rest : List ℕ)
    → kind < 256
    → offset < 65536
    → length bs < 256
    → kind ≢ 0
    → kind ≢ 4
    → parse_line image base n (record_text kind offset bs checksum ++ rest)
      ≡ (if kind == 1 then finish image else next image base)
unfolding parse_record
parse_line-other image base n kind offset bs checksum rest k p q n0 n4 =
    ground (arith, parse_line-record_text kind offset bs checksum rest k p q image base n)
