-- ===== src/Flm/Usable.antt =====
-- What holds of every file that is parsed with no error, and when the parser stays in the blob.
pub mod Parsed
use mathlib.Core.Path.{subst}
use esp32_daplink.Base.{
  ℕ, zero, suc, ◌+◌, ◌-◌, ◌^◌, ◌≤◌, ◌<◌, ◌≡◌, ◌≢◌, refl, sym, ap, ◌∙◌, ◌==◌, ◌||◌, ◌&&◌, leb, ltb,
  Bool, true, false, if◌then◌else◌, if_elim, Option, none, some, List, [], ◌∷◌, ◌++◌, length, take,
  drop, length-take, length-drop, length-append, length-replicate, replicate, min, add32, sub32,
  arith,
}
use esp32_daplink.Esp.{invalid_arg, invalid_size}
use esp32_daplink.Flm.{FlashSector, FlashDeviceInfo, FuncEntry, ParsedFlm}
use esp32_daplink.Flm.Elf.{u32_at, read_at, Ehdr, Phdr, find_symbol}
use esp32_daplink.Flm.Parse.{
  Outcome, parsed, failed, overrun, ◌>>=◌, no_segments, no_functions, bad_segment, no_device,
  parse_sectors, device_of, parse_flash_device, code_min, code_max, store, store_short,
  load_segment, load_segments, Tables, entries_of, flash_device_name, device_at, resolve, finish,
  find_tables, parse_loads,
}

-- `P` holds of a result, and an access beyond the blob comes only with `X`.
abbrev pub Ensures : {A : Type 0} → Type 0 → (A → Type 0) → Outcome A → Type 0
Ensures X P (parsed a) = P a
Ensures X P (failed e m) = Unit {0}
Ensures X P overrun = X

Ensures-bind :
    {A B : Type 0} (X : Type 0) (P : A → Type 0) (Q : B → Type 0) (m : Outcome A)
    (f : A → Outcome B)
    → Ensures X P m
    → ((a : A) → P a → Ensures X Q (f a))
    → Ensures X Q (m >>= f)
Ensures-bind X P Q (parsed a) f h k = k a h
Ensures-bind X P Q (failed e m) f h k = tt
Ensures-bind X P Q overrun f h k = h

abbrev pub AllSized : List FlashSector → Type 0
AllSized [] = Unit {0}
AllSized (s ∷ sectors) = (0 < s.size) × AllSized sectors

parse_sectors-AllSized : (fuel : ℕ) (bytes : List ℕ) → AllSized (parse_sectors fuel bytes)
unfolding parse_sectors
parse_sectors-AllSized zero bytes = tt
parse_sectors-AllSized (suc fuel) bytes =
    let size = u32_at bytes 0 in
    if_elim AllSized (ltb (length bytes) 8 || size == 0xFFFFFFFF || size == 0) []
      (record { size = size; address = u32_at bytes 4 } ∷ parse_sectors fuel (drop 8 bytes))
      (λ _. tt) (λ e. (ground (arith, e), parse_sectors-AllSized fuel (drop 8 bytes)))

store-Ensures :
    (X : Type 0) (blob : List ℕ) (offset : ℕ) (bytes : List ℕ)
    → (length blob < offset + length bytes → X)
    → Ensures X (λ after. length after ≡ length blob) (store blob offset bytes)
unfolding store
store-Ensures X blob offset bytes outside =
    if_elim (Ensures X (λ after. length after ≡ length blob))
      (ltb (length blob) (offset + length bytes)) overrun
      (parsed (take offset blob ++ (bytes ++ drop (offset + length bytes) blob)))
      (λ e. outside (ground (arith, e)))
      (λ e.
        let fits : offset + length bytes ≤ length blob = ground (arith, e) in
        omega (
          arith,
          fits,
          length-append (take offset blob) (bytes ++ drop (offset + length bytes) blob),
          length-append bytes (drop (offset + length bytes) blob),
          length-take offset blob,
          length-drop (offset + length bytes) blob,
        ))

-- A header whose bytes in the file do not fit in the blob of `n` bytes from `low` on gives `X`.
abbrev pub AllFit : Type 0 → ℕ → ℕ → List Phdr → Type 0
AllFit X low n [] = Unit {0}
AllFit X low n (p ∷ headers) = (n < sub32 p.vaddr low + p.filesz → X) × AllFit X low n headers

store_short-Ensures :
    (X : Type 0) (blob : List ℕ) (offset : ℕ) (bytes : List ℕ)
    → (length blob < offset + length bytes → X)
    → Ensures X (λ after. length after ≡ length blob) (store_short blob offset bytes)
unfolding store_short
store_short-Ensures X blob offset [] outside = tt
store_short-Ensures X blob offset (b ∷ bytes) outside =
    Ensures-bind X (λ after. length after ≡ length blob) (λ after. length after ≡ length blob)
      (store blob offset (b ∷ bytes)) (λ _. failed invalid_size bad_segment)
      (store-Ensures X blob offset (b ∷ bytes) outside) (λ _ _. tt)

load_segment-Ensures :
    (X : Type 0) (file : List ℕ) (low : ℕ) (blob : List ℕ) (p : Phdr)
    → (length blob < sub32 p.vaddr low + p.filesz → X)
    → Ensures X (λ after. length after ≡ length blob) (load_segment file low blob p)
unfolding load_segment read_at
load_segment-Ensures X file low blob p outside =
    let bytes = take p.filesz (drop p.offset file) in
    let Goal : Option (List ℕ) → Type 0 = λ o.
      Ensures X (λ after. length after ≡ length blob)
        (elim o as (λ _. Outcome (List ℕ)) [
          | none ↦ store_short blob (sub32 p.vaddr low) bytes
          | some b ↦ store blob (sub32 p.vaddr low) b
        ]) in
    if_elim Goal (leb (p.offset + p.filesz) (length file)) (some bytes) none
      (λ e.
        let long : length bytes ≡ p.filesz =
          ground (arith, e, length-take p.filesz (drop p.offset file), length-drop p.offset file) in
        store-Ensures X blob (sub32 p.vaddr low) bytes (λ h. outside (omega (arith, h, long))))
      (λ _.
        store_short-Ensures X blob (sub32 p.vaddr low) bytes
          (λ h. outside (omega (arith, h, length-take p.filesz (drop p.offset file)))))

load_segments-Ensures :
    (X : Type 0) (file : List ℕ) (low : ℕ) (blob : List ℕ) (headers : List Phdr)
    → AllFit X low (length blob) headers
    → Ensures X (λ after. length after ≡ length blob) (load_segments file low blob headers)
unfolding load_segments
load_segments-Ensures X file low blob [] fit = refl
load_segments-Ensures X file low blob (p ∷ headers) fit =
    Ensures-bind X (λ b. length b ≡ length blob) (λ b. length b ≡ length blob)
      (load_segment file low blob p) (λ b. load_segments file low b headers)
      (load_segment-Ensures X file low blob p fit.0)
      (λ b same.
        subst (λ n. Ensures X (λ after. length after ≡ n) (load_segments file low b headers)) same
          (load_segments-Ensures X file low b headers
            (subst (λ n. AllFit X low n headers) (sym same) fit.1)))
