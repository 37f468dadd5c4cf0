-- ===== src/Flm/Parse.antt =====
-- `parse_flash_device` and `parse_file`.
use esp32_daplink.Base.{
  ℕ, zero, suc, ◌+◌, ◌*◌, ◌==◌, ◌||◌, ◌&&◌, not, leb, ltb, true, if◌then◌else◌, Option, none, some,
  List, [], ◌∷◌, ◌++◌, length, take, drop, get_or, replicate, add32, sub32,
}
use esp32_daplink.Esp.{EspErr, not_found, invalid_size, invalid_arg}
use esp32_daplink.Flm.{FlashSector, FlashDeviceInfo, FuncEntry, ParsedFlm}
use esp32_daplink.Flm.Elf.{
  u32_at, read_at, Ehdr, ehdr_of, Phdr, phdr_of, Shdr, no_section, shdr_of, find_symbol,
}

-- The strings that `error_message` is set to.
pub data Message : Type 0 where
  cannot_open no_header not_elf not_arm no_segments bad_segment no_functions : Message

-- `overrun` is an access beyond the end of the code blob, of which C++ says nothing.
pub data Outcome (A : Type 0) : Type 0 where
  parsed : A → Outcome A
  failed : EspErr → Message → Outcome A
  overrun : Outcome A

infixl 5 ◌>>=◌
abbrev pub ◌>>=◌ : {A B : Type 0} → Outcome A → (A → Outcome B) → Outcome B
parsed a >>= f = f a
failed e m >>= f = failed e m
overrun >>= f = overrun

abbrev pub no_device : FlashDeviceInfo
no_device = record {
  name = replicate 128 0;
  dev_addr = 0;
  dev_size = 0;
  page_size = 0;
  val_empty = 0;
  timeout_prog = 0;
  timeout_erase = 0;
  sectors = [];
}

-- The loop over the sector table in the bytes that remain; the fuel is at least their number.
unfoldable pub parse_sectors : ℕ → List ℕ → List FlashSector
parse_sectors zero bytes = []
parse_sectors (suc fuel) bytes =
    let rest = parse_sectors fuel (drop 8 bytes) in
    let size = u32_at bytes 0 in
    if ltb (length bytes) 8 || size == 0xFFFFFFFF || size == 0
    then []
    else record { size = size; address = u32_at bytes 4 } ∷ rest

-- The fields of the descriptor that starts the bytes.
unfoldable pub device_of : List ℕ → FlashDeviceInfo
device_of p = record {
  name = take 127 (drop 2 p) ++ 0 ∷ [];
  dev_addr = u32_at p 132;
  dev_size = u32_at p 136;
  page_size = u32_at p 140;
  val_empty = get_or p 148 0;
  timeout_prog = u32_at p 152;
  timeout_erase = u32_at p 156;
  sectors = parse_sectors (length p) (drop 160 p);
}

-- Where it returns `false`, the device stays as it is.
unfoldable pub parse_flash_device : List ℕ → ℕ → Outcome FlashDeviceInfo
parse_flash_device bytes offset =
    if ltb (length bytes) (add32 offset 160)
    then parsed no_device
    else if ltb (length bytes) (offset + 160)
    then overrun
    else parsed (device_of (drop offset bytes))

-- The i-th program header, where it is one that is loaded.
unfoldable pub load_at : List ℕ → Ehdr → ℕ → Option Phdr
load_at file ehdr i = elim (read_at file (add32 ehdr.phoff (i * ehdr.phentsize)) 32) [
  | none ↦ none
  | some b ↦ if not (u32_at b 0 == 1) || u32_at b 16 == 0 then none else some (phdr_of b)
]

-- The headers that are loaded, from the i-th on, with `left` to go.
unfoldable pub loads_from : List ℕ → Ehdr → ℕ → ℕ → List Phdr
loads_from file ehdr i zero = []
loads_from file ehdr i (suc left) =
    let rest = loads_from file ehdr (suc i) left in
    elim (load_at file ehdr i) [ none ↦ rest | some p ↦ p ∷ rest ]

abbrev pub loads : List ℕ → Ehdr → List Phdr
loads file ehdr = loads_from file ehdr 0 ehdr.phnum

-- The loops over `code_min_addr` and `code_max_addr`.
unfoldable pub code_min : ℕ → List Phdr → ℕ
code_min low [] = low
code_min low (p ∷ headers) = code_min (if ltb p.vaddr low then p.vaddr else low) headers

unfoldable pub code_max : ℕ → List Phdr → ℕ
code_max high [] = high
code_max high (p ∷ headers) =
    let end = add32 p.vaddr p.memsz in code_max (if ltb high end then end else high) headers

-- The read of `bytes` into the blob at `offset`.
unfoldable pub store : List ℕ → ℕ → List ℕ → Outcome (List ℕ)
store blob offset bytes =
    if ltb (length blob) (offset + length bytes)
    then overrun
    else parsed (take offset blob ++ (bytes ++ drop (offset + length bytes) blob))

-- A read of more bytes than the file has stores those that there are, and is an error.
unfoldable pub store_short : List ℕ → ℕ → List ℕ → Outcome (List ℕ)
store_short blob offset [] = failed invalid_size bad_segment
store_short blob offset (b ∷ bytes) =
    store blob offset (b ∷ bytes) >>= λ _. failed invalid_size bad_segment

unfoldable pub load_segment : List ℕ → ℕ → List ℕ → Phdr → Outcome (List ℕ)
load_segment file low blob p = elim (read_at file p.offset p.filesz) [
  | none ↦ store_short blob (sub32 p.vaddr low) (take p.filesz (drop p.offset file))
  | some bytes ↦ store blob (sub32 p.vaddr low) bytes
]

unfoldable pub load_segments : List ℕ → ℕ → List ℕ → List Phdr → Outcome (List ℕ)
load_segments file low blob [] = parsed blob
load_segments file low blob (p ∷ headers) =
    load_segment file low blob p >>= λ blob'. load_segments file low blob' headers

-- `symtab_shdr` and `strtab_shdr`.
pub record Tables : Type 0 where
  pub symtab : Shdr
  pub strtab : Shdr

-- The section header at an index.
unfoldable pub section_at : List ℕ → Ehdr → ℕ → Option Shdr
section_at file ehdr i = elim (read_at file (add32 ehdr.shoff (i * ehdr.shentsize)) 40) [
  | none ↦ none
  | some b ↦ some (shdr_of b)
]

-- The linked string table, or none where it cannot be read.
unfoldable pub tables_of : List ℕ → Ehdr → Shdr → Tables
tables_of file ehdr symtab = elim (section_at file ehdr symtab.link) [
  | none ↦ record { symtab = symtab; strtab = no_section }
  | some s ↦ record { symtab = symtab; strtab = s }
]

-- The loop over the section headers up to the first symbol table.
unfoldable pub find_tables : List ℕ → Ehdr → ℕ → ℕ → Option Tables
find_tables file ehdr i zero = none
find_tables file ehdr i (suc left) =
    let rest = find_tables file ehdr (suc i) left in
    elim (section_at file ehdr i) [
      | none ↦ rest
      | some s ↦ if s.type == 2 then some (tables_of file ehdr s) else rest
    ]

-- A function's symbol, or the 0 that its field starts with.
unfoldable pub entry : List ℕ → Tables → List ℕ → ℕ
entry file t name = elim (find_symbol file t.symtab t.strtab name) [ none ↦ 0 | some value ↦ value ]

-- The names of the symbols.
abbrev pub init_name : List ℕ
init_name = b'I' ∷ b'n' ∷ b'i' ∷ b't' ∷ []

abbrev pub un_init_name : List ℕ
un_init_name = b'U' ∷ b'n' ∷ b'I' ∷ b'n' ∷ b'i' ∷ b't' ∷ []

abbrev pub erase_chip_name : List ℕ
erase_chip_name = b'E' ∷ b'r' ∷ b'a' ∷ b's' ∷ b'e' ∷ b'C' ∷ b'h' ∷ b'i' ∷ b'p' ∷ []

abbrev pub erase_sector_name : List ℕ
erase_sector_name = b'E' ∷ b'r' ∷ b'a' ∷ b's' ∷ b'e' ∷ b'S' ∷ b'e' ∷ b'c' ∷ b't' ∷ b'o' ∷ b'r' ∷ []

abbrev pub program_page_name : List ℕ
program_page_name = b'P' ∷ b'r' ∷ b'o' ∷ b'g' ∷ b'r' ∷ b'a' ∷ b'm' ∷ b'P' ∷ b'a' ∷ b'g' ∷ b'e' ∷ []

abbrev pub verify_name : List ℕ
verify_name = b'V' ∷ b'e' ∷ b'r' ∷ b'i' ∷ b'f' ∷ b'y' ∷ []

abbrev pub flash_device_name : List ℕ
flash_device_name = b'F' ∷ b'l' ∷ b'a' ∷ b's' ∷ b'h' ∷ b'D' ∷ b'e' ∷ b'v' ∷ b'i' ∷ b'c' ∷ b'e' ∷ []

unfoldable pub entries_of : List ℕ → Tables → FuncEntry
entries_of file t = record {
  init = entry file t init_name;
  uninit = entry file t un_init_name;
  erase_chip = entry file t erase_chip_name;
  erase_sector = entry file t erase_sector_name;
  program_page = entry file t program_page_name;
  verify = entry file t verify_name;
}

unfoldable pub device_at : List ℕ → Tables → ℕ → List ℕ → Outcome FlashDeviceInfo
device_at file t low code = elim (find_symbol file t.symtab t.strtab flash_device_name) [
  | none ↦ parsed no_device
  | some value ↦ parse_flash_device code (sub32 value low)
]

abbrev pub no_entries : FuncEntry
no_entries = record {
  init = 0;
  uninit = 0;
  erase_chip = 0;
  erase_sector = 0;
  program_page = 0;
  verify = 0;
}

-- From the symbol table on.
unfoldable pub resolve : List ℕ → Option Tables → ℕ → List ℕ → Outcome (FuncEntry × FlashDeviceInfo)
resolve file none low code = parsed (no_entries, no_device)
resolve file (some t) low code =
    device_at file t low code >>= λ device. parsed (entries_of file t, device)

unfoldable pub finish : ℕ → List ℕ → ℕ → FuncEntry × FlashDeviceInfo → Outcome ParsedFlm
finish low code size (func, device) =
    if func.init == 0 && func.erase_sector == 0 && func.program_page == 0
    then failed invalid_arg no_functions
    else parsed (record {
      code = code;
      code_base = low;
      code_size = size;
      func = func;
      device = device;
      stack_size = 512;
      valid = true;
    })

-- From the checks of the header on. The program headers are read twice, with the same results.
unfoldable pub parse_loads : List ℕ → Ehdr → List Phdr → Outcome ParsedFlm
parse_loads file ehdr headers =
    let low = code_min 0xFFFFFFFF headers in
    let high = code_max 0 headers in
    if leb high low
    then failed invalid_arg no_segments
    else load_segments file low (replicate (sub32 high low) 0xFF) headers >>= λ code.
        resolve file (find_tables file ehdr 0 ehdr.shnum) low code
        >>= finish low code (sub32 high low)

unfoldable pub parse_header : List ℕ → Ehdr → Outcome ParsedFlm
parse_header file ehdr =
    let at = λ (i : ℕ). get_or ehdr.ident i 0 in
    if not (at 0 == 0x7F) || not (at 1 == b'E') || not (at 2 == b'L') || not (at 3 == b'F')
    then failed invalid_arg not_elf
    else if not (at 4 == 1) || not (ehdr.machine == 40)
    then failed invalid_arg not_arm
    else parse_loads file ehdr (loads file ehdr)

-- `none` is a file that cannot be opened.
unfoldable pub parse_file : Option (List ℕ) → Outcome ParsedFlm
parse_file none = failed not_found cannot_open
parse_file (some file) = elim (read_at file 0 52) [
  | none ↦ failed invalid_size no_header
  | some b ↦ parse_header file (ehdr_of b)
]
