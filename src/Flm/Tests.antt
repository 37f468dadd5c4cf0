-- ===== src/Flm/Tests.antt =====
-- The parser on a small file: one segment of four bytes in memory, three of them in the file, and one
-- symbol.
use esp32_daplink.Base.{
  ℕ, ◌%◌, ◌/◌, ◌^◌, ◌≡◌, ◌≢◌, refl, true, some, List, [], ◌∷◌, ◌++◌, replicate, arith,
}
use esp32_daplink.Flm.{ParsedFlm}
use esp32_daplink.Flm.Elf.{
  u16_at, u32_at, read_at, ehdr_of, phdr_of, shdr_of, c_string, same_text, symbol_at, find_from,
  find_symbol,
}
use esp32_daplink.Flm.Parse.{
  parsed, overrun, no_device, parse_file, parse_header, parse_loads, load_at, loads_from, code_min,
  code_max, store, load_segment, load_segments, section_at, tables_of, find_tables, entry,
  entries_of, device_at, resolve, finish,
}
use esp32_daplink.Flm.Usable.Parsed.{
  IsUsable, AllWell, DeviceFits, headers_of, tables_in, blob_base, parse_file-IsUsable,
  parse_file-ne-overrun,
}

abbrev le16 : ℕ → List ℕ
le16 n = n % 256 ∷ n / 256 ∷ []

abbrev le32 : ℕ → List ℕ
le32 n = le16 (n % 2 ^ 16) ++ le16 (n / 2 ^ 16)

abbrev header : List ℕ
header =
    0x7F
    ∷ b'E'
    ∷ b'L'
    ∷ b'F'
    ∷ 1
    ∷ (replicate 11 0
        ++ (le16 2
            ++ (le16 40
                ++ (le32 1
                    ++ (le32 0
                        ++ (le32 52
                            ++ (le32 84
                                ++ (le32 0
                                    ++ (le16 52
                                        ++ (le16 32
                                            ++ (le16 1 ++ (le16 40 ++ (le16 2 ++ le16 0)))))))))))))

abbrev program_header : ℕ → List ℕ
program_header filesz =
    le32 1 ++ (le32 164 ++ (le32 0 ++ (le32 0 ++ (le32 filesz ++ (le32 4 ++ (le32 5 ++ le32 4))))))

abbrev section : ℕ → ℕ → ℕ → ℕ → List ℕ
section kind offset size link =
    le32 0
    ++ (le32 kind
        ++ (le32 0 ++ (le32 0 ++ (le32 offset ++ (le32 size ++ (le32 link ++ replicate 12 0))))))

-- Segment bytes at 164, the symbol table at 168, the string table at 184.
abbrev elf : ℕ → List ℕ
elf filesz =
    header
    ++ (program_header filesz
        ++ (section 2 168 16 1
            ++ (section 3 184 6 0
                ++ (1 ∷ 2 ∷ 3 ∷ 4 ∷ (le32 1 ++ (le32 9 ++ replicate 8 0)))
                ++ (0 ∷ b'I' ∷ b'n' ∷ b'i' ∷ b't' ∷ replicate 60 0))))

abbrev flm : ParsedFlm
flm = record {
  code = 1 ∷ 2 ∷ 3 ∷ 0xFF ∷ [];
  code_base = 0;
  code_size = 4;
  func = record {
    init = 9;
    uninit = 0;
    erase_chip = 0;
    erase_sector = 0;
    program_page = 0;
    verify = 0;
  };
  device = no_device;
  stack_size = 512;
  valid = true;
}

elf_parsed : parse_file (some (elf 3)) ≡ parsed flm
unfolding parse_file parse_header parse_loads load_at loads_from code_min code_max store
    load_segment load_segments section_at tables_of find_tables entry entries_of device_at resolve
    finish u16_at u32_at read_at ehdr_of phdr_of shdr_of c_string same_text symbol_at find_from
    find_symbol
elf_parsed = refl

-- With five bytes in the file for the four in memory, the read goes beyond the blob.
elf_overruns : parse_file (some (elf 5)) ≡ overrun
unfolding parse_file parse_header parse_loads load_at loads_from code_min code_max store
    load_segment load_segments section_at tables_of find_tables entry entries_of device_at resolve
    finish u16_at u32_at read_at ehdr_of phdr_of shdr_of c_string same_text symbol_at find_from
    find_symbol
elf_overruns = refl

parse_file-IsUsable_example : IsUsable flm
parse_file-IsUsable_example = parse_file-IsUsable (elf 3) flm elf_parsed

elf-AllWell : AllWell (headers_of (elf 3))
unfolding loads_from load_at u16_at u32_at read_at ehdr_of phdr_of
elf-AllWell = omega arith

elf-DeviceFits : DeviceFits ⊥ (elf 3) (blob_base (headers_of (elf 3))) (tables_in (elf 3))
unfolding loads_from load_at u16_at u32_at read_at ehdr_of phdr_of section_at tables_of find_tables
    shdr_of code_min c_string same_text symbol_at find_from find_symbol
elf-DeviceFits = λ value found outside. cc found

parse_file-ne-overrun_example : parse_file (some (elf 3)) ≢ overrun
parse_file-ne-overrun_example = parse_file-ne-overrun (elf 3) elf-AllWell elf-DeviceFits
