-- ===== src/Hex/RoundTrip.antt =====
-- A file that was written in Intel HEX is read as it was meant.
use mathlib.Core.List.{append_assoc}
use esp32_daplink.Base.{
  ℕ, zero, suc, ◌+◌, ◌-◌, ◌*◌, ◌/◌, ◌%◌, ◌<◌, ◌≡◌, refl, ap, ◌∙◌, some, List, [], ◌∷◌, ◌++◌, length,
  add32, arith, drop, length-append,
}
use esp32_daplink.Hex.{
  Segment, Image, parsed, empty_image, add_segment, parse_line, fill, line_size, parse_lines,
  after_round, finish_image, parse_file,
}
use esp32_daplink.Hex.Bytes.{hex_bytes, hex_byte}
use esp32_daplink.Hex.Record.{record_text, parse_line-data, parse_line-base, parse_line-other}
use esp32_daplink.Hex.Format.{
  Entry, data_entry, base_entry, AllEntries, entry_text, hex_file, replay, IsLine, take_line-IsLine,
  record_text-IsLine, length-record_text,
}

-- One turn of the loop at a line of text: the buffer then holds the text, a newline, a zero and
-- the rest of what it held.
parse_lines-text :
    (fuel : ℕ) (image : Image) (base n : ℕ) (line : List ℕ) (c : ℕ) (text file : List ℕ)
    → IsLine (c ∷ text)
    → length (c ∷ text) < line_size - 1
    → let line' = fill ((c ∷ text) ++ 10 ∷ []) line in
      parse_lines (suc fuel) image base n line ((c ∷ text) ++ 10 ∷ file)
      ≡ after_round
          (λ i b. parse_lines fuel i b (n + 1) line' file)
          (parse_line image base (n + 1) line')
unfolding parse_lines
parse_lines-text fuel image base n line c text file h k =
    rw (take_line-IsLine (line_size - 1) (c ∷ text) file h k) refl

fill-text :
    (text line : List ℕ) → (behind : List ℕ) × (fill (text ++ 10 ∷ []) line ≡ text ++ behind)
unfolding fill
fill-text text line = (
  10 ∷ 0 ∷ drop (length (text ++ 10 ∷ []) + 1) line,
  append_assoc text (10 ∷ []) (0 ∷ drop (length (text ++ 10 ∷ []) + 1) line),
)

-- One turn of the loop at a record: the buffer then holds its text, a newline, and something.
parse_lines-record_text :
    (fuel : ℕ) (image : Image) (base n : ℕ) (line : List ℕ) (kind offset : ℕ) (bs : List ℕ)
    (checksum : ℕ) (file : List ℕ)
    → length bs < 256
    → (line' : List ℕ) × (behind : List ℕ) × (parse_lines
          (suc fuel)
          image
          base
          n
          line
          (record_text kind offset bs checksum ++ 10 ∷ file)
        ≡ after_round
            (λ i b. parse_lines fuel i b (n + 1) line' file)
            (parse_line image base (n + 1) (record_text kind offset bs checksum ++ behind)))
parse_lines-record_text fuel image base n line kind offset bs checksum file few =
    let text = record_text kind offset bs checksum in
    let line' = fill (text ++ 10 ∷ []) line in
    let (behind, same) = fill-text text line in
    (
      line',
      behind,
      turn
          ∙ ap
              (λ l.
                after_round (λ i b. parse_lines fuel i b (n + 1) line' file)
                  (parse_line image base (n + 1) l))
              same,
    )
  where
    turn :
        parse_lines (suc fuel) image base n line (record_text kind offset bs checksum ++ 10 ∷ file)
        ≡ after_round
            (λ i b.
              parse_lines fuel i b
                (n + 1)
                (fill (record_text kind offset bs checksum ++ 10 ∷ []) line)
                file)
            (parse_line image base
              (n + 1)
              (fill (record_text kind offset bs checksum ++ 10 ∷ []) line))
    turn =
        unfold record_text in
        parse_lines-text fuel image base n line b':'
          (hex_bytes (length bs ∷ offset / 256 ∷ offset % 256 ∷ kind ∷ [])
            ++ (hex_bytes bs ++ hex_byte checksum))
          file (record_text-IsLine kind offset bs checksum)
          (omega (arith, length-record_text kind offset bs checksum))

parse_lines-hex_file :
    (fuel : ℕ) (image : Image) (base n : ℕ) (line : List ℕ) (entries : List Entry)
    (trailing : List ℕ)
    → length entries < fuel
    → AllEntries entries
    → parse_lines fuel image base n line (hex_file entries trailing)
      ≡ parsed (replay image base entries)
unfolding hex_file entry_text
parse_lines-hex_file zero image base n line entries trailing h k = absurd (omega arith)
parse_lines-hex_file (suc fuel) image base n line [] trailing h k =
    let (line', behind, turn) =
      parse_lines-record_text fuel image base n line 1 0 [] 0xff trailing (omega arith) in
    turn
    ∙ ap (after_round (λ i b. parse_lines fuel i b (n + 1) line' trailing)) (
        parse_line-other image base (n + 1) 1 0 [] 0xff behind (omega arith) (omega arith)
          (omega arith) (omega arith) (omega arith))
parse_lines-hex_file (suc fuel) image base n line (data_entry offset bs checksum ∷ entries) trailing
      h k =
    let file = hex_file entries trailing in
    let (line', behind, turn) =
      parse_lines-record_text fuel image base n line 0 offset bs checksum file k.0.1 in
    turn
    ∙ ap (after_round (λ i b. parse_lines fuel i b (n + 1) line' file))
        (parse_line-data image base (n + 1) offset bs checksum behind k.0.0 k.0.1 k.0.2)
    ∙ parse_lines-hex_file fuel
        (add_segment image (record { address = add32 base offset; bytes = bs })) base (n + 1) line'
        entries trailing (omega arith) k.1
parse_lines-hex_file (suc fuel) image base n line (base_entry hi lo checksum ∷ entries) trailing h
      k =
    let file = hex_file entries trailing in
    let (line', behind, turn) =
      parse_lines-record_text fuel image base n line 4 0 (hi ∷ lo ∷ []) checksum file
        (omega arith) in
    turn
    ∙ ap (after_round (λ i b. parse_lines fuel i b (n + 1) line' file))
        (parse_line-base image base (n + 1) 0 hi lo checksum behind (omega arith) k.0.0 k.0.1)
    ∙ parse_lines-hex_file fuel image ((hi * 256 + lo) * 65536) (n + 1) line' entries trailing
        (omega arith) k.1

length-hex_file :
    (entries : List Entry) (trailing : List ℕ) → length entries < length (hex_file entries trailing)
unfolding hex_file
length-hex_file [] trailing =
    omega (arith, length-append {0} (record_text 1 0 [] 0xff) (10 ∷ trailing))
length-hex_file (e ∷ entries) trailing = omega (
  arith,
  length-append {0} (entry_text e) (10 ∷ hex_file entries trailing),
  length-hex_file entries trailing,
)

-- For every list of well-formed records, the file that writes them in Intel HEX, a line each, then
-- the end-of-file record and anything at all behind it, has as its lines the image with the segments
-- and the bounds that the records mean, with no error, and the file the outcome of that image: the
-- error for an image with no data when none of the records is one of data, and else the segments
-- sorted and merged.
pub parse_file-hex_file :
    (sort : List Segment → List Segment) (line : List ℕ) (entries : List Entry) (trailing : List ℕ)
    → AllEntries entries
    → parse_file sort line (some (hex_file entries trailing))
      ≡ finish_image sort (parsed (replay empty_image 0 entries))
unfolding parse_file
parse_file-hex_file sort line entries trailing h = ap (finish_image sort) (
    parse_lines-hex_file (length (hex_file entries trailing)) empty_image 0 0 line entries trailing
      (length-hex_file entries trailing) h)
