-- ===== src/Flm/Elf.antt =====
-- The ELF structures, and what is read of the file.
use esp32_daplink.Base.{
  ℕ, zero, suc, ◌+◌, ◌*◌, ◌/◌, ◌^◌, ◌==◌, ◌||◌, ◌&&◌, leb, Bool, true, false, if◌then◌else◌, Option,
  none, some, List, [], ◌∷◌, length, take, drop, get_or, add32,
}

-- Little-endian numbers in a structure.
unfoldable pub u16_at : List ℕ → ℕ → ℕ
u16_at bytes i = get_or bytes i 0 + get_or bytes (i + 1) 0 * 2 ^ 8

unfoldable pub u32_at : List ℕ → ℕ → ℕ
u32_at bytes i = u16_at bytes i + u16_at bytes (i + 2) * 2 ^ 16

-- `fseek` and `fread` of `size` bytes: they succeed for bytes that the file has.
unfoldable pub read_at : List ℕ → ℕ → ℕ → Option (List ℕ)
read_at file offset size =
    if leb (offset + size) (length file) then some (take size (drop offset file)) else none

-- The fields of the structures that the parser reads.
pub record Ehdr : Type 0 where
  pub ident : List ℕ
  pub machine : ℕ
  pub phoff : ℕ
  pub shoff : ℕ
  pub phentsize : ℕ
  pub phnum : ℕ
  pub shentsize : ℕ
  pub shnum : ℕ

unfoldable pub ehdr_of : List ℕ → Ehdr
ehdr_of b = record {
  ident = take 16 b;
  machine = u16_at b 18;
  phoff = u32_at b 28;
  shoff = u32_at b 32;
  phentsize = u16_at b 42;
  phnum = u16_at b 44;
  shentsize = u16_at b 46;
  shnum = u16_at b 48;
}

pub record Phdr : Type 0 where
  pub type : ℕ
  pub offset : ℕ
  pub vaddr : ℕ
  pub filesz : ℕ
  pub memsz : ℕ

unfoldable pub phdr_of : List ℕ → Phdr
phdr_of b = record {
  type = u32_at b 0;
  offset = u32_at b 4;
  vaddr = u32_at b 8;
  filesz = u32_at b 16;
  memsz = u32_at b 20;
}

pub record Shdr : Type 0 where
  pub type : ℕ
  pub offset : ℕ
  pub size : ℕ
  pub link : ℕ

abbrev pub no_section : Shdr
no_section = record { type = 0; offset = 0; size = 0; link = 0 }

unfoldable pub shdr_of : List ℕ → Shdr
shdr_of b = record {
  type = u32_at b 4;
  offset = u32_at b 16;
  size = u32_at b 20;
  link = u32_at b 24;
}

-- A `char` array up to its first zero.
unfoldable pub c_string : List ℕ → List ℕ
c_string [] = []
c_string (c ∷ text) = if c == 0 then [] else c ∷ c_string text

-- `strcmp(a, b) == 0`
unfoldable pub same_text : List ℕ → List ℕ → Bool
same_text [] [] = true
same_text [] (d ∷ b) = false
same_text (c ∷ a) [] = false
same_text (c ∷ a) (d ∷ b) = (c == d) && same_text a b

-- The value of the i-th symbol, where it has the name; `false` and `continue` are `none`.
unfoldable pub symbol_at : List ℕ → Shdr → Shdr → List ℕ → ℕ → Option ℕ
symbol_at file symtab strtab name i = elim (read_at file (add32 symtab.offset (i * 16)) 16) [
  | none ↦ none
  | some sym ↦
      if (u32_at sym 0 == 0) || leb strtab.size (u32_at sym 0)
      then none
      else elim (read_at file (add32 strtab.offset (u32_at sym 0)) 63) [
        | none ↦ none
        | some text ↦ if same_text (c_string text) name then some (u32_at sym 4) else none
      ]
]

-- The loop of `find_symbol` from `i` on, with `left` symbols to go.
unfoldable pub find_from : List ℕ → Shdr → Shdr → List ℕ → ℕ → ℕ → Option ℕ
find_from file symtab strtab name i zero = none
find_from file symtab strtab name i (suc left) =
    let rest = find_from file symtab strtab name (suc i) left in
    elim (symbol_at file symtab strtab name i) [ some value ↦ some value | none ↦ rest ]

unfoldable pub find_symbol : List ℕ → Shdr → Shdr → List ℕ → Option ℕ
find_symbol file symtab strtab name = find_from file symtab strtab name 0 (symtab.size / 16)
