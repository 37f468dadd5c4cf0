-- ===== src/Flm/Usable/Parsed.antt =====
-- The whole of `parse_file`: what a result has, and when it stays in the blob.
use mathlib.Core.Path.{subst}
use esp32_daplink.Base.{
  ℕ, ◌+◌, ◌^◌, ◌≤◌, ◌<◌, ◌≡◌, ◌≢◌, refl, sym, ◌∙◌, ◌==◌, ◌||◌, ◌&&◌, not, leb, ltb, false,
  if◌then◌else◌, if_elim, Option, none, some, List, [], ◌∷◌, length, take, drop, get_or,
  length-replicate, replicate, add32, sub32, arith,
}
use esp32_daplink.Esp.{invalid_arg, invalid_size}
use esp32_daplink.Flm.{FlashDeviceInfo, FuncEntry, ParsedFlm}
use esp32_daplink.Flm.Elf.{read_at, Ehdr, ehdr_of, Phdr, find_symbol}
use esp32_daplink.Flm.Parse.{
  Outcome, parsed, failed, overrun, ◌>>=◌, no_header, not_elf, not_arm, no_segments, no_functions,
  no_device, device_of, parse_flash_device, loads, code_min, code_max, load_segments, Tables,
  entries_of, flash_device_name, device_at, resolve, finish, find_tables, parse_loads, parse_header,
  parse_file,
}
use esp32_daplink.Flm.Usable.{
  Ensures, Ensures-bind, AllSized, parse_sectors-AllSized, AllFit, load_segments-Ensures,
}

-- What `program_with_flm` takes a parsed file for.
pub record IsUsable (flm : ParsedFlm) : Type 0 where
  pub sized : length flm.code ≡ flm.code_size
  pub holds_code : 0 < flm.code_size
  pub below : flm.code_base + flm.code_size < 2 ^ 32
  pub sectors : AllSized flm.device.sectors
  pub runs :
      (flm.func.init == 0 && flm.func.erase_sector == 0 && flm.func.program_page == 0) ≡ false

module _ (X : Type 0) where
  device_of-AllSized : (p : List ℕ) → AllSized (device_of p).sectors
  unfolding device_of
  device_of-AllSized p = parse_sectors-AllSized (length p) (drop 160 p)

  parse_flash_device-Ensures :
      (bytes : List ℕ) (offset : ℕ)
      → (2 ^ 32 ≤ offset + 160 → X)
      → Ensures X (λ d. AllSized d.sectors) (parse_flash_device bytes offset)
  unfolding parse_flash_device
  parse_flash_device-Ensures bytes offset outside =
      let P : FlashDeviceInfo → Type 0 = λ d. AllSized d.sectors in
      if_elim (Ensures X P) (ltb (length bytes) (add32 offset 160)) (parsed no_device)
        (if ltb (length bytes) (offset + 160)
          then overrun
          else parsed (device_of (drop offset bytes)))
        (λ _. tt)
        (λ fits.
          if_elim (Ensures X P) (ltb (length bytes) (offset + 160)) overrun
            (parsed (device_of (drop offset bytes))) (λ e. outside (ground (arith, e, fits)))
            (λ _. device_of-AllSized (drop offset bytes)))

  -- The descriptor's symbol lies so far below the blob that its offset wraps only with `X`.
  abbrev pub DeviceFits : List ℕ → ℕ → Option Tables → Type 0
  DeviceFits file low none = Unit {0}
  DeviceFits file low (some t) =
      (value : ℕ)
      → find_symbol file t.symtab t.strtab flash_device_name ≡ some value
      → 2 ^ 32 ≤ sub32 value low + 160
      → X

  device_at-Ensures :
      (file : List ℕ) (t : Tables) (low : ℕ) (code : List ℕ)
      → DeviceFits file low (some t)
      → Ensures X (λ d. AllSized d.sectors) (device_at file t low code)
  unfolding device_at
  device_at-Ensures file t low code outside =
      split (find_symbol file t.symtab t.strtab flash_device_name) outside
    where
      split :
          (o : Option ℕ)
          → ((value : ℕ) → o ≡ some value → 2 ^ 32 ≤ sub32 value low + 160 → X)
          → Ensures X
              (λ d. AllSized d.sectors)
              (elim o as (λ _. Outcome FlashDeviceInfo) [
                | none ↦ parsed no_device
                | some value ↦ parse_flash_device code (sub32 value low)
              ])
      split none h = tt
      split (some value) h = parse_flash_device-Ensures code (sub32 value low) (h value refl)

  resolve-Ensures :
      (file : List ℕ) (t : Option Tables) (low : ℕ) (code : List ℕ)
      → DeviceFits file low t
      → Ensures X
          (λ (r : FuncEntry × FlashDeviceInfo). AllSized r.1.sectors)
          (resolve file t low code)
  unfolding resolve
  resolve-Ensures file none low code outside = tt
  resolve-Ensures file (some t) low code outside =
      Ensures-bind X (λ d. AllSized d.sectors)
        (λ (r : FuncEntry × FlashDeviceInfo). AllSized r.1.sectors) (device_at file t low code)
        (λ device. parsed (entries_of file t, device)) (device_at-Ensures file t low code outside)
        (λ d h. h)

  finish-Ensures :
      (low : ℕ) (code : List ℕ) (size : ℕ) (r : FuncEntry × FlashDeviceInfo)
      → length code ≡ size
      → 0 < size
      → low + size < 2 ^ 32
      → AllSized r.1.sectors
      → Ensures X IsUsable (finish low code size r)
  unfolding finish
  finish-Ensures low code size (func, device) same some_code below sectors =
      if_elim (Ensures X IsUsable)
        (func.init == 0 && func.erase_sector == 0 && func.program_page == 0)
        (failed invalid_arg no_functions) (parsed _) (λ _. tt)
        (λ e. record {
          sized = same;
          holds_code = some_code;
          below = below;
          sectors = sectors;
          runs = e;
        })

code_max-lt : (high : ℕ) (headers : List Phdr) → high < 2 ^ 32 → code_max high headers < 2 ^ 32
unfolding code_max
code_max-lt high [] h = h
code_max-lt high (p ∷ headers) h =
    code_max-lt (if ltb high (add32 p.vaddr p.memsz) then add32 p.vaddr p.memsz else high) headers
      (ground (arith, h))

-- The blob's base and size, for the headers that are loaded.
abbrev pub blob_base : List Phdr → ℕ
blob_base headers = code_min 0xFFFFFFFF headers

abbrev pub blob_size : List Phdr → ℕ
blob_size headers = sub32 (code_max 0 headers) (blob_base headers)

parse_loads-Ensures :
    (X : Type 0) (file : List ℕ) (ehdr : Ehdr) (headers : List Phdr)
    → AllFit X (blob_base headers) (blob_size headers) headers
    → DeviceFits X file (blob_base headers) (find_tables file ehdr 0 ehdr.shnum)
    → Ensures X IsUsable (parse_loads file ehdr headers)
unfolding parse_loads
parse_loads-Ensures X file ehdr headers fit device =
    let low = blob_base headers in
    let high = code_max 0 headers in
    let size = blob_size headers in
    let small = code_max-lt 0 headers (omega arith) in
    let filled : length (replicate size 0xFF) ≡ size = length-replicate size 0xFF in
    let resolved : List ℕ → Outcome (FuncEntry × FlashDeviceInfo) =
      λ code. resolve file (find_tables file ehdr 0 ehdr.shnum) low code in
    let rest : List ℕ → Outcome ParsedFlm = λ code. resolved code >>= finish low code size in
    if_elim (Ensures X IsUsable) (leb high low) (failed invalid_arg no_segments)
      (load_segments file low (replicate size 0xFF) headers >>= rest) (λ _. tt)
      (λ e.
        let apart : low < high = ground (arith, e) in
        Ensures-bind X (λ code. length code ≡ length (replicate size 0xFF)) IsUsable
          (load_segments file low (replicate size 0xFF) headers) rest
          (load_segments-Ensures X file low (replicate size 0xFF) headers
            (subst (λ n. AllFit X low n headers) (sym filled) fit))
          (λ code same.
            Ensures-bind X (λ (r : FuncEntry × FlashDeviceInfo). AllSized r.1.sectors) IsUsable
              (resolved code) (finish low code size)
              (resolve-Ensures X file (find_tables file ehdr 0 ehdr.shnum) low code device)
              (λ r sectors.
                finish-Ensures X low code size r (same ∙ filled) (omega (arith, apart, small))
                  (omega (arith, apart, small)) sectors)))

parse_header-Ensures :
    (X : Type 0) (file : List ℕ) (ehdr : Ehdr)
    → AllFit X (blob_base (loads file ehdr)) (blob_size (loads file ehdr)) (loads file ehdr)
    → DeviceFits X file (blob_base (loads file ehdr)) (find_tables file ehdr 0 ehdr.shnum)
    → Ensures X IsUsable (parse_header file ehdr)
unfolding parse_header
parse_header-Ensures X file ehdr fit device =
    let at = λ (i : ℕ). get_or ehdr.ident i 0 in
    let magic =
      not (at 0 == 0x7F) || not (at 1 == b'E') || not (at 2 == b'L') || not (at 3 == b'F') in
    let arm = not (at 4 == 1) || not (ehdr.machine == 40) in
    let rest : Outcome ParsedFlm = parse_loads file ehdr (loads file ehdr) in
    if_elim (Ensures X IsUsable) magic (failed invalid_arg not_elf)
      (if arm then failed invalid_arg not_arm else rest) (λ _. tt)
      (λ _.
        if_elim (Ensures X IsUsable) arm (failed invalid_arg not_arm) rest (λ _. tt)
          (λ _. parse_loads-Ensures X file ehdr (loads file ehdr) fit device))

-- The program headers that are loaded of a file.
abbrev pub headers_of : List ℕ → List Phdr
headers_of file = loads file (ehdr_of (take 52 file))

-- Its symbol table and the linked string table.
abbrev pub tables_in : List ℕ → Option Tables
tables_in file = find_tables file (ehdr_of (take 52 file)) 0 (ehdr_of (take 52 file)).shnum

parse_file-Ensures :
    (X : Type 0) (file : List ℕ)
    → AllFit X (blob_base (headers_of file)) (blob_size (headers_of file)) (headers_of file)
    → DeviceFits X file (blob_base (headers_of file)) (tables_in file)
    → Ensures X IsUsable (parse_file (some file))
unfolding parse_file read_at
parse_file-Ensures X file fit device =
    let Goal : Option (List ℕ) → Type 0 = λ o.
      Ensures X IsUsable (elim o as (λ _. Outcome ParsedFlm) [
        | none ↦ failed invalid_size no_header
        | some b ↦ parse_header file (ehdr_of b)
      ]) in
    if_elim Goal (leb (0 + 52) (length file)) (some (take 52 file)) none
      (λ _. parse_header-Ensures X file (ehdr_of (take 52 file)) fit device) (λ _. tt)

-- Every segment's bytes in the file fit in its memory, which ends below 2^32.
abbrev pub AllWell : List Phdr → Type 0
AllWell [] = Unit {0}
AllWell (p ∷ headers) = (p.filesz ≤ p.memsz) × (p.vaddr + p.memsz < 2 ^ 32) × AllWell headers

code_min-le : (low : ℕ) (headers : List Phdr) → code_min low headers ≤ low
unfolding code_min
code_min-le low [] = omega arith
code_min-le low (p ∷ headers) =
    ground (arith, code_min-le (if ltb p.vaddr low then p.vaddr else low) headers)

le-code_max : (high : ℕ) (headers : List Phdr) → high ≤ code_max high headers
unfolding code_max
le-code_max high [] = omega arith
le-code_max high (p ∷ headers) = ground (
  arith,
  le-code_max (if ltb high (add32 p.vaddr p.memsz) then add32 p.vaddr p.memsz else high) headers,
)

-- Headers that lie between two addresses fit in a blob from the one to the other.
module _ (low high : ℕ) (small : high < 2 ^ 32) where
  fits_between :
      (l h : ℕ) (headers : List Phdr)
      → AllWell headers
      → low ≤ code_min l headers
      → code_max h headers ≤ high
      → AllFit ⊥ low (sub32 high low) headers
  unfolding code_min code_max
  fits_between l h [] well from to = tt
  fits_between l h (p ∷ headers) (file_fits, ends, well) from to =
      let l' = if ltb p.vaddr l then p.vaddr else l in
      let h' = if ltb h (add32 p.vaddr p.memsz) then add32 p.vaddr p.memsz else h in
      let first : low ≤ p.vaddr = ground (arith, from, code_min-le l' headers) in
      let last : p.vaddr + p.memsz ≤ high = ground (arith, to, ends, le-code_max h' headers) in
      (
        λ outside. omega (arith, outside, file_fits, first, last, small),
        fits_between l' h' headers well from to,
      )

Ensures-parsed :
    {A : Type 0} (X : Type 0) (P : A → Type 0) (m : Outcome A) (a : A)
    → Ensures X P m
    → m ≡ parsed a
    → P a
Ensures-parsed X P m a h e = subst (Ensures X P) e h

any_fit : (low n : ℕ) (headers : List Phdr) → AllFit (Unit {0}) low n headers
any_fit low n [] = tt
any_fit low n (p ∷ headers) = (λ _. tt, any_fit low n headers)

any_device : (file : List ℕ) (low : ℕ) (t : Option Tables) → DeviceFits (Unit {0}) file low t
any_device file low none = tt
any_device file low (some t) = λ value found outside. tt

-- A file that is parsed with no error, whatever it holds, gives a blob of the size that goes with it,
-- which is not empty and ends below 2^32, a sector table with no size of 0, and a function to call.
pub parse_file-IsUsable :
    (file : List ℕ) (flm : ParsedFlm) → parse_file (some file) ≡ parsed flm → IsUsable flm
parse_file-IsUsable file flm e =
    Ensures-parsed (Unit {0}) IsUsable (parse_file (some file)) flm
      (parse_file-Ensures (Unit {0}) file
        (any_fit (blob_base (headers_of file)) (blob_size (headers_of file)) (headers_of file))
        (any_device file (blob_base (headers_of file)) (tables_in file)))
      e

-- The parser does not access what lies beyond the blob, for a file whose segments have no more bytes
-- in the file than in memory and end below 2^32, when the descriptor's symbol, if it has one, is not
-- in the 160 bytes below the blob.
pub parse_file-ne-overrun :
    (file : List ℕ)
    → AllWell (headers_of file)
    → DeviceFits ⊥ file (blob_base (headers_of file)) (tables_in file)
    → parse_file (some file) ≢ overrun
parse_file-ne-overrun file well device e =
    let headers = headers_of file in
    subst (Ensures ⊥ IsUsable) e (
      parse_file-Ensures ⊥ file
        (fits_between (blob_base headers) (code_max 0 headers) (code_max-lt 0 headers (omega arith))
          0xFFFFFFFF 0 headers well (omega arith) (omega arith))
        device)
