-- ===== src/Exec/Load.antt =====
-- target_exec.cpp: `setup`, `call_function` and `upload_data`.
use esp32_daplink.Base.{
  ◌^◌, ◌∷◌, [], take, ℕ, zero, suc, ◌+◌, ◌-◌, ◌*◌, bit_and, bit_or, List, length, drop, ltb, leb,
  if◌then◌else◌, add32, sub32, ◌<<<◌,
}
use esp32_daplink.Esp.{no_mem}
use esp32_daplink.Esp.Action.{Act, pure, raise, ◌>>◌}
use esp32_daplink.Port.{SwdPort}
use esp32_daplink.Exec.Core.{ap_word_access, mem_write32, halt_core, write_core_reg}

pub record RamLayout : Type 0 where
  pub ram_base : ℕ
  pub ram_size : ℕ
  pub code_addr : ℕ
  pub code_size : ℕ
  pub bkpt_addr : ℕ
  pub stack_ptr : ℕ
  pub buf_addr : ℕ
  pub buf_size : ℕ

-- The part of `ParsedFlm` that `setup` reads.
pub record Algorithm : Type 0 where
  pub code : List ℕ
  pub code_size : ℕ
  pub stack_size : ℕ

-- The layout up to the check for enough RAM, where `buf_size` is still what it was.
unfoldable pub layout_of : Algorithm → ℕ → ℕ → RamLayout
layout_of flm ram_base ram_size =
    let bkpt = bit_and (add32 (add32 ram_base flm.code_size) 3) (2 ^ 32 - 4) in
    let stack = add32 (add32 bkpt 4) flm.stack_size in
    record {
      ram_base = ram_base;
      ram_size = ram_size;
      code_addr = ram_base;
      code_size = flm.code_size;
      bkpt_addr = bkpt;
      stack_ptr = stack;
      buf_addr = stack;
      buf_size = sub32 (add32 ram_base ram_size) stack;
    }

-- `(word & ~(0xFFU << (b * 8))) | (byte << (b * 8))`
unfoldable pub put_byte : ℕ → ℕ → ℕ → ℕ
put_byte word b byte = bit_or (bit_and word (2 ^ 32 - 1 - (0xFF <<< (8 * b)))) (byte <<< (8 * b))

-- `for (b = 0; b < 4 && i + b < size; ++b)` over the bytes that are left, each put in by `join`.
unfoldable pub pack_from : (ℕ → ℕ → ℕ → ℕ) → ℕ → ℕ → ℕ → List ℕ → ℕ
pack_from join word b zero bytes = word
pack_from join word b (suc left) [] = word
pack_from join word b (suc left) (x ∷ bytes) = pack_from join (join word b x) (b + 1) left bytes

-- `word |= code[i + b] << (b * 8)`
unfoldable pub or_byte : ℕ → ℕ → ℕ → ℕ
or_byte word b byte = bit_or word (byte <<< (8 * b))

abbrev pub code_word : List ℕ → ℕ
code_word = pack_from or_byte 0 0 4

abbrev pub data_word : List ℕ → ℕ
data_word = pack_from put_byte (2 ^ 32 - 1) 0 4

module _ {S : Type 0} (port : SwdPort S) where
  -- `for (i = 0; i < size; i += 4)`: a word for each four bytes of `bytes`, from `address` on. The
  -- fuel is at least the number of words.
  unfoldable pub write_words : (List ℕ → ℕ) → ℕ → ℕ → List ℕ → Act S (Unit {0})
  write_words word_of zero address bytes = pure tt
  write_words word_of (suc fuel) address [] = pure tt
  write_words word_of (suc fuel) address (b ∷ bytes) =
      let rest = write_words word_of fuel (add32 address 4) (drop 3 bytes) in
      mem_write32 port address (word_of (b ∷ bytes)) >> rest

  unfoldable pub upload_data : RamLayout → List ℕ → Act S (Unit {0})
  upload_data layout bytes =
      if ltb layout.buf_size (length bytes)
      then raise no_mem
      else write_words data_word (length bytes) layout.buf_addr bytes

  -- `setup` from the code upload on.
  unfoldable pub upload_code : Algorithm → ℕ → RamLayout → Act S RamLayout
  upload_code flm ram_base layout = do
    write_words code_word flm.code_size ram_base (take flm.code_size flm.code)
    mem_write32 port layout.bkpt_addr 0xBE00BE00
    pure layout

  -- From the check for enough RAM on.
  unfoldable pub place : Algorithm → ℕ → ℕ → Act S RamLayout
  place flm ram_base ram_size =
      let layout = layout_of flm ram_base ram_size in
      if leb (add32 ram_base ram_size) layout.buf_addr
      then raise no_mem
      else upload_code flm ram_base layout

  -- The layout is what the parameter `layout` holds after an error-free return.
  unfoldable pub setup : Algorithm → ℕ → ℕ → Act S RamLayout
  setup flm ram_base ram_size = do ap_word_access port; halt_core port; place flm ram_base ram_size

  -- The eight registers, in the order of the source.
  unfoldable pub set_registers : RamLayout → ℕ → ℕ → ℕ → ℕ → ℕ → Act S (Unit {0})
  set_registers layout func_addr r0 r1 r2 r3 = do
    write_core_reg port 0 r0
    write_core_reg port 1 r1
    write_core_reg port 2 r2
    write_core_reg port 3 r3
    write_core_reg port 13 layout.stack_ptr
    write_core_reg port 14 (bit_or layout.bkpt_addr 1)
    write_core_reg port 15 (bit_or (add32 func_addr layout.code_addr) 1)
    write_core_reg port 16 0x01000000
