-- ===== src/Hex/Format.antt =====
-- Intel HEX as a tool writes it, and what its records mean.
use esp32_daplink.Base.{
  ℕ, zero, suc, ◌+◌, ◌*◌, ◌/◌, ◌%◌, ◌<◌, ◌≡◌, ◌≢◌, refl, List, [], ◌∷◌, ◌++◌, length, add32, arith,
  length-append,
}
use esp32_daplink.Hex.{Image, add_segment, take_line}
use esp32_daplink.Hex.Bytes.{hex_digit, hex_bytes, hex_byte, AllBytes}
use esp32_daplink.Hex.Record.{record_text}

-- A record as a tool that writes Intel HEX chooses it, with the checksum byte that it computes.
pub data Entry : Type 0 where
  data_entry : ℕ → List ℕ → ℕ → Entry
  base_entry : ℕ → ℕ → ℕ → Entry

abbrev pub IsEntry : Entry → Type 0
IsEntry (data_entry offset bs checksum) = (offset < 65536) × (length bs < 256) × AllBytes bs
IsEntry (base_entry hi lo checksum) = (hi < 256) × (lo < 256)

abbrev pub AllEntries : List Entry → Type 0
AllEntries [] = Unit
AllEntries (e ∷ entries) = IsEntry e × AllEntries entries

unfoldable pub entry_text : Entry → List ℕ
entry_text (data_entry offset bs checksum) = record_text 0 offset bs checksum
entry_text (base_entry hi lo checksum) = record_text 4 0 (hi ∷ lo ∷ []) checksum

-- Each record on a line, then the end-of-file record with anything after it.
unfoldable pub hex_file : List Entry → List ℕ → List ℕ
hex_file [] trailing = record_text 1 0 [] 0xff ++ 10 ∷ trailing
hex_file (e ∷ entries) trailing = entry_text e ++ 10 ∷ hex_file entries trailing

-- What the records mean, independently of their text.
abbrev pub replay : Image → ℕ → List Entry → Image
replay image base [] = image
replay image base (data_entry offset bs checksum ∷ entries) =
    replay (add_segment image (record { address = add32 base offset; bytes = bs })) base entries
replay image base (base_entry hi lo checksum ∷ entries) =
    replay image ((hi * 256 + lo) * 65536) entries

-- A line of text that `fgets` takes whole.
abbrev pub IsLine : List ℕ → Type 0
IsLine [] = Unit
IsLine (c ∷ text) = (c ≢ 10) × IsLine text

pub take_line-IsLine :
    (room : ℕ) (text file : List ℕ)
    → IsLine text
    → length text < room
    → take_line room (text ++ 10 ∷ file) ≡ (text ++ 10 ∷ [], file)
unfolding take_line
take_line-IsLine zero text file h k = absurd (omega arith)
take_line-IsLine (suc room) [] file h k = refl
take_line-IsLine (suc room) (c ∷ text) file h k =
    ground (arith, take_line-IsLine room text file h.1 (omega arith))

append-IsLine : (s t : List ℕ) → IsLine s → IsLine t → IsLine (s ++ t)
append-IsLine [] t p q = q
append-IsLine (c ∷ s) t p q = (p.0, append-IsLine s t p.1 q)

hex_digit-ne : (n : ℕ) → hex_digit n ≢ 10
unfolding hex_digit
hex_digit-ne n = ground arith

hex_bytes-IsLine : (bs : List ℕ) → IsLine (hex_bytes bs)
hex_bytes-IsLine [] = tt
hex_bytes-IsLine (b ∷ bs) = (hex_digit-ne (b / 16), (hex_digit-ne (b % 16), hex_bytes-IsLine bs))

length-hex_bytes : (bs : List ℕ) → length (hex_bytes bs) ≡ 2 * length bs
length-hex_bytes [] = refl
length-hex_bytes (b ∷ bs) = omega (arith, length-hex_bytes bs)

pub record_text-IsLine :
    (kind offset : ℕ) (bs : List ℕ) (checksum : ℕ) → IsLine (record_text kind offset bs checksum)
unfolding record_text
record_text-IsLine kind offset bs checksum = (
  omega arith,
  append-IsLine (hex_bytes (length bs ∷ offset / 256 ∷ offset % 256 ∷ kind ∷ []))
      (hex_bytes bs ++ hex_byte checksum)
      (hex_bytes-IsLine (length bs ∷ offset / 256 ∷ offset % 256 ∷ kind ∷ []))
      (append-IsLine (hex_bytes bs) (hex_byte checksum) (hex_bytes-IsLine bs)
        (hex_bytes-IsLine (checksum ∷ []))),
)

pub length-record_text :
    (kind offset : ℕ) (bs : List ℕ) (checksum : ℕ)
    → length (record_text kind offset bs checksum) ≡ 11 + 2 * length bs
unfolding record_text
length-record_text kind offset bs checksum =
    omega (arith, length-append {0} (hex_bytes bs) (hex_byte checksum), length-hex_bytes bs)
