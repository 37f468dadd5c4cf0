-- ===== src/Hex/Tests.antt =====
-- The theorems on Intel HEX at concrete files, lines and segments.
use mathlib.Core.List.{Perm}
use mathlib.Core.List.Perm
use esp32_daplink.Base.{
  ℕ, ◌≡◌, ◌≢◌, refl, List, [], ◌∷◌, ◌++◌, leb, if◌then◌else◌, some, inl, inr, Bool-cases, arith,
  add32, length,
}
use esp32_daplink.Hex.{
  take_line, fill, parse_header, parse_hex_byte, nibble, toupper, parse_record, parse_data,
  parse_base, parse_base_bytes, parse_bytes, merge_onto, Segment, Image, next, parsed, out_of_fuel,
  empty_image, add_segment, parse_line, parse_lines, merge_segments, finish_image, parse_file,
}
use esp32_daplink.Hex.Record.{record_text, parse_line_stale, parse_line-data}
use esp32_daplink.Hex.Bytes.{hex_digit}
use esp32_daplink.Hex.Bounds.{IsSound, RoundSound, parse_line-RoundSound, empty_image-IsSound}
use esp32_daplink.Hex.Merge.{writes, IsAscending, writes-merge_segments}
use esp32_daplink.Hex.File.{parse_file-ne-out_of_fuel}
use esp32_daplink.Hex.Format.{Entry, data_entry, base_entry, hex_file, entry_text, replay}
use esp32_daplink.Hex.RoundTrip.{parse_file-hex_file}
use esp32_daplink.Hex.Finish.{Sorter, Delivers, parse_file-Delivers}

-- an insertion sort, as one `std::sort`
insert : Segment → List Segment → List Segment
insert s [] = s ∷ []
insert s (t ∷ segments) =
    let rest = insert s segments in if leb s.address t.address then s ∷ t ∷ segments else t ∷ rest

unfoldable sort : List Segment → List Segment
sort [] = []
sort (s ∷ segments) = insert s (sort segments)

insert-perm : (s : Segment) (segments : List Segment) → Perm (insert s segments) (s ∷ segments)
unfolding insert
insert-perm s [] = Perm.refl (s ∷ [])
insert-perm s (t ∷ segments) = elim (Bool-cases (leb s.address t.address)) [
  | inl le ↦ rw le (Perm.refl (s ∷ t ∷ segments))
  | inr gt ↦ rw gt (Perm.trans (Perm.cons t (insert-perm s segments)) (Perm.swap s t segments))
]

sort-perm : (segments : List Segment) → Perm (sort segments) segments
unfolding sort
sort-perm [] = Perm.refl []
sort-perm (s ∷ segments) =
    Perm.trans (insert-perm s (sort segments)) (Perm.cons s (sort-perm segments))

-- `s` is below the whole of an ascending list, or the list's head stays in front
insert-IsAscending :
    (s : Segment) (segments : List Segment) → IsAscending segments → IsAscending (insert s segments)
unfolding insert
insert-IsAscending s [] h = tt
insert-IsAscending s (t ∷ []) h = elim (Bool-cases (leb s.address t.address)) [
  | inl le ↦ rw le (ground arith, tt)
  | inr gt ↦ rw gt (ground arith, tt)
]
insert-IsAscending s (t ∷ u ∷ segments) h = elim (Bool-cases (leb s.address t.address)) [
  | inl le ↦ rw le (ground arith, h)
  | inr gt ↦ rw gt (
      let rest = insert-IsAscending s (u ∷ segments) h.1 in
      elim (Bool-cases (leb s.address u.address)) [
        | inl near ↦ rw near (ground arith, (ground arith, h.1))
        | inr far ↦ rw far (h.0, rw far at rest)
      ])
]

sort-IsAscending : (segments : List Segment) → IsAscending (sort segments)
unfolding sort
sort-IsAscending [] = tt
sort-IsAscending (s ∷ segments) = insert-IsAscending s (sort segments) (sort-IsAscending segments)

abbrev sorter : Sorter
sorter = record { sort = sort; sort-perm = sort-perm; sort-IsAscending = sort-IsAscending }

-- three records: the flash at 0x0800_0000, then two runs that meet
abbrev entries : List Entry
entries =
    base_entry 0x08 0x00 0xf2
    ∷ data_entry 0x0004 (0x05 ∷ 0x06 ∷ []) 0xef
    ∷ data_entry 0x0000 (0x01 ∷ 0x02 ∷ 0x03 ∷ 0x04 ∷ []) 0xf2
    ∷ []

abbrev file : List ℕ
file = hex_file entries (0x20 ∷ [])

abbrev segment_a : Segment
segment_a = record { address = 0x0800_0000; bytes = 0x01 ∷ 0x02 ∷ 0x03 ∷ 0x04 ∷ [] }

abbrev segment_b : Segment
segment_b = record { address = 0x0800_0004; bytes = 0x05 ∷ 0x06 ∷ [] }

abbrev image_ab : Image
image_ab = record {
  segments =
      record { address = 0x0800_0000; bytes = 0x01 ∷ 0x02 ∷ 0x03 ∷ 0x04 ∷ 0x05 ∷ 0x06 ∷ [] } ∷ [];
  lowest_address = 0x0800_0000;
  highest_address = 0x0800_0006;
}

file_parses : parse_file sort [] (some file) ≡ parsed image_ab
unfolding parse_file parse_lines take_line fill parse_line parse_header parse_hex_byte nibble
    toupper hex_file entry_text record_text hex_digit parse_record parse_data parse_base
    parse_base_bytes parse_bytes add_segment empty_image finish_image merge_segments merge_onto sort
    insert
file_parses = refl

parse_file-hex_file_example :
    parse_file sort [] (some file) ≡ finish_image sort (parsed (replay empty_image 0 entries))
parse_file-hex_file_example = parse_file-hex_file sort [] entries (0x20 ∷ []) (
  (omega arith, omega arith),
  (
    (omega arith, omega arith, (omega arith, (omega arith, tt))),
    (
      (omega arith, omega arith, (omega arith, (omega arith, (omega arith, (omega arith, tt))))),
      tt,
    ),
  ),
)

parse_file-Delivers_example :
    (image : Image) × (parse_lines (length file) empty_image 0 0 [] file ≡ parsed image)
    × (image.segments ≢ [])
    × IsSound image
    × Delivers image image_ab
parse_file-Delivers_example = parse_file-Delivers sorter [] file image_ab file_parses

parse_file-ne-out_of_fuel_example : parse_file sort [] (some (0x3a ∷ 10 ∷ [])) ≢ out_of_fuel
parse_file-ne-out_of_fuel_example = parse_file-ne-out_of_fuel sort [] (some (0x3a ∷ 10 ∷ []))

writes-merge_segments_example :
    writes (merge_segments (segment_a ∷ segment_b ∷ [])) ≡ writes (segment_a ∷ segment_b ∷ [])
writes-merge_segments_example =
    writes-merge_segments (segment_a ∷ segment_b ∷ []) (omega arith, (omega arith, tt))

-- a record of two bytes at 0x1000
abbrev data_line : List ℕ
data_line = record_text 0 0x1000 (0xde ∷ 0xad ∷ []) 0x63

parse_line-data_example :
    parse_line empty_image 0x0800_0000 7 (data_line ++ 0x0d ∷ 0x0a ∷ 0 ∷ [])
    ≡ next
        (add_segment empty_image
          (record { address = add32 0x0800_0000 0x1000; bytes = 0xde ∷ 0xad ∷ [] }))
        0x0800_0000
parse_line-data_example =
    parse_line-data empty_image 0x0800_0000 7 0x1000 (0xde ∷ 0xad ∷ []) 0x63 (0x0d ∷ 0x0a ∷ 0 ∷ [])
      (omega arith) (omega arith) (omega arith, (omega arith, tt))

-- a line that ends in the middle of a record
abbrev cut_line : List ℕ
cut_line = b':' ∷ b'0' ∷ b'2' ∷ b'0' ∷ b'0' ∷ b'0' ∷ b'0' ∷ b'0' ∷ b'0' ∷ b'd' ∷ b'e' ∷ b'a' ∷ []

parse_line_stale_example :
    parse_line empty_image 0 1 (cut_line ++ 0 ∷ b'd' ∷ [])
    ≡ parse_line empty_image 0 1 (cut_line ++ 0 ∷ [])
parse_line_stale_example = parse_line_stale empty_image 0 1 cut_line (b'd' ∷ []) [] (
  omega arith,
  (
    omega arith,
    (
      omega arith,
      (
        omega arith,
        (
          omega arith,
          (
            omega arith,
            (
              omega arith,
              (omega arith, (omega arith, (omega arith, (omega arith, (omega arith, tt))))),
            ),
          ),
        ),
      ),
    ),
  ),
)

parse_line-RoundSound_example : RoundSound (parse_line empty_image 0 1 (data_line ++ 0 ∷ []))
parse_line-RoundSound_example =
    parse_line-RoundSound empty_image 0 1 (data_line ++ 0 ∷ []) empty_image-IsSound
