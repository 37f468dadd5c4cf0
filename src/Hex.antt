-- ===== src/Hex.antt =====
-- hex_parser.h and hex_parser.cpp (esp32s3-idf/lib/daplink): Intel HEX files. A line is the
-- 600-byte buffer that `fgets` fills, with whatever stands behind its terminating zero. `std::sort`
-- is a parameter, since the order that it gives to equal addresses is not specified.
pub mod Bytes
pub mod Record
pub mod Bounds
pub mod Merge
pub mod File
pub mod Format
pub mod RoundTrip
pub mod Finish
mod Tests
use esp32_daplink.Base.{
  ℕ, zero, suc, ◌+◌, ◌-◌, ◌*◌, bit_or, min, max, Bool, true, false, not, ◌&&◌, ◌||◌, Option, none,
  some, List, [], ◌∷◌, ◌++◌, ltb, leb, ◌==◌, if◌then◌else◌, length, get_or, drop, u8, u16, u32,
  add32, ◌<<<◌, ◌>>=◌,
}
use esp32_daplink.Esp.{EspErr, esp_ok, invalid_arg, invalid_size, not_found}

pub record Segment : Type 0 where
  pub address : ℕ
  pub bytes : List ℕ

pub record Image : Type 0 where
  pub segments : List Segment
  pub lowest_address : ℕ
  pub highest_address : ℕ

-- the strings that `error_message` is set to; a number is the line's
pub data Message : Type 0 where
  cannot_open no_data : Message
  bad_format bad_header bad_byte bad_base : ℕ → Message

-- `image = {}`
unfoldable pub empty_image : Image
empty_image = record { segments = []; lowest_address = 0xffff_ffff; highest_address = 0 }

-- `std::toupper` in the C locale
unfoldable pub toupper : ℕ → ℕ
toupper ch = if leb b'a' ch && leb ch b'z' then ch - 32 else ch

-- `none` is the -1 of the lambda `nibble`
unfoldable pub nibble : ℕ → Option ℕ
nibble ch =
    if leb b'0' ch && leb ch b'9'
    then some (ch - b'0')
    else let up = toupper ch in if leb b'A' up && leb up b'F' then some (10 + (up - b'A')) else none

-- The byte that two hex digits at `text[at]` and `text[at + 1]` give.
unfoldable pub parse_hex_byte : List ℕ → ℕ → Option ℕ
parse_hex_byte text at = do
  hi ← nibble (get_or text at 0)
  lo ← nibble (get_or text (at + 1) 0)
  some (u8 (bit_or (hi <<< 4) lo))

abbrev pub strlen : List ℕ → ℕ
strlen [] = 0
strlen (zero ∷ text) = 0
strlen (suc c ∷ text) = suc (strlen text)

-- The loop over `segment.data`: `count` bytes from `text[at]` on.
unfoldable pub parse_bytes : List ℕ → ℕ → ℕ → Option (List ℕ)
parse_bytes text at zero = some []
parse_bytes text at (suc count) = do
  b ← parse_hex_byte text at
  bs ← parse_bytes text (at + 2) count
  some (b ∷ bs)

pub record Header : Type 0 where
  pub byte_count : ℕ
  pub addr_hi : ℕ
  pub addr_lo : ℕ
  pub record_type : ℕ

unfoldable pub parse_header : List ℕ → Option Header
parse_header line = do
  count ← parse_hex_byte line 1
  hi ← parse_hex_byte line 3
  lo ← parse_hex_byte line 5
  kind ← parse_hex_byte line 7
  some (record { byte_count = count; addr_hi = hi; addr_lo = lo; record_type = kind })

-- How a round of the `while` loop ends: on to the next line with the new image and base address,
-- `break` at the end-of-file record, or a return with an error.
pub data Round : Type 0 where
  next : Image → ℕ → Round
  finish : Image → Round
  bad : Message → Image → Round

-- `image` after `push_back` of a segment and the updates of the two bounds
unfoldable pub add_segment : Image → Segment → Image
add_segment image s = record {
  segments = image.segments ++ (s ∷ []);
  lowest_address = min image.lowest_address s.address;
  highest_address = max image.highest_address (add32 s.address (length s.bytes));
}

abbrev offset_of : Header → ℕ
offset_of h = u16 (bit_or (h.addr_hi <<< 8) h.addr_lo)

unfoldable pub parse_data : Image → ℕ → ℕ → List ℕ → Header → Round
parse_data image base line_number line h = elim (parse_bytes line 9 h.byte_count) [
  | none ↦ bad (bad_byte line_number) image
  | some bs ↦
      next (add_segment image (record { address = add32 base (offset_of h); bytes = bs })) base
]

-- The two bytes of an extended linear address.
unfoldable pub parse_base_bytes : List ℕ → Option (ℕ × ℕ)
parse_base_bytes line = do
  msb ← parse_hex_byte line 9
  lsb ← parse_hex_byte line 11
  some (msb, lsb)

unfoldable pub parse_base : Image → ℕ → List ℕ → Header → Round
parse_base image line_number line h =
    if not (h.byte_count == 2)
    then bad (bad_base line_number) image
    else elim (parse_base_bytes line) [
      | none ↦ bad (bad_base line_number) image
      | some (msb, lsb) ↦ next image (u32 (bit_or (msb <<< 8) lsb <<< 16))
    ]

-- The chain on `record_type`; types other than 0, 1 and 4 are passed over.
unfoldable pub parse_record : Image → ℕ → ℕ → List ℕ → Header → Round
parse_record image base line_number line h =
    if h.record_type == 0x00
    then parse_data image base line_number line h
    else if h.record_type == 0x01
    then finish image
    else if h.record_type == 0x04
    then parse_base image line_number line h
    else next image base

-- The body of the `while` loop, at one line.
unfoldable pub parse_line : Image → ℕ → ℕ → List ℕ → Round
parse_line image base line_number line =
    if ltb (strlen line) 11 || not (get_or line 0 0 == b':')
    then bad (bad_format line_number) image
    else elim (parse_header line) [
      | none ↦ bad (bad_header line_number) image
      | some h ↦ parse_record image base line_number line h
    ]

-- What `fgets` takes: at most `room` characters, up to a newline; and what stays in the file.
unfoldable pub take_line : ℕ → List ℕ → List ℕ × List ℕ
take_line zero file = ([], file)
take_line (suc room) [] = ([], [])
take_line (suc room) (c ∷ file) =
    let more = take_line room file in if c == 10 then (c ∷ [], file) else (c ∷ more.0, more.1)

-- `char line[600]` after a read: the characters, a zero, and the rest of what it held.
unfoldable pub fill : List ℕ → List ℕ → List ℕ
fill chars line = chars ++ 0 ∷ drop (length chars + 1) line

abbrev pub line_size : ℕ
line_size = 600

pub data Outcome : Type 0 where
  parsed : Image → Outcome
  failed : EspErr → Message → Image → Outcome
  out_of_fuel : Outcome

-- How the loop goes on after a round.
abbrev pub after_round : (Image → ℕ → Outcome) → Round → Outcome
after_round again (next image base) = again image base
after_round again (finish image) = parsed image
after_round again (bad message image) = failed invalid_arg message image

-- The `while` loop. Each round takes a character at least, so the length of the file is fuel.
unfoldable pub parse_lines : ℕ → Image → ℕ → ℕ → List ℕ → List ℕ → Outcome
parse_lines fuel image base line_number line [] = parsed image
parse_lines zero image base line_number line (c ∷ file) = out_of_fuel
parse_lines (suc fuel) image base line_number line (c ∷ file) =
    let (chars, rest) = take_line (line_size - 1) (c ∷ file) in
    let line' = fill chars line in
    after_round (λ image' base'. parse_lines fuel image' base' (line_number + 1) line' rest)
      (parse_line image base (line_number + 1) line')

-- The merging loop, with `merged.back()` as an argument of its own.
unfoldable pub merge_onto : Segment → List Segment → List Segment
merge_onto back [] = back ∷ []
merge_onto back (s ∷ segments) = elim (s.address == add32 back.address (length back.bytes)) [
  | true ↦ merge_onto (record back { bytes = back.bytes ++ s.bytes }) segments
  | false ↦ back ∷ merge_onto s segments
]

unfoldable pub merge_segments : List Segment → List Segment
merge_segments [] = []
merge_segments (s ∷ segments) = merge_onto s segments

-- What follows the loop. `sort` is `std::sort` by address.
unfoldable pub finish_image : (List Segment → List Segment) → Outcome → Outcome
finish_image sort (parsed image) = elim image.segments [
  | [] ↦ failed invalid_size no_data image
  | s ∷ ss ↦ parsed (record image { segments = merge_segments (sort image.segments) })
]
finish_image sort other = other

-- `parse_file`: `none` is a file that `fopen` does not open, and `line` the uninitialised buffer.
unfoldable pub parse_file : (List Segment → List Segment) → List ℕ → Option (List ℕ) → Outcome
parse_file sort line none = failed not_found cannot_open empty_image
parse_file sort line (some file) =
    finish_image sort (parse_lines (length file) empty_image 0 0 line file)
