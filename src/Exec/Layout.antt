-- ===== src/Exec/Layout.antt =====
-- The RAM layout that `setup` returns.
use mathlib.Core.Path.{subst}
use esp32_daplink.Base.{
  ℕ, ◌+◌, ◌-◌, ◌%◌, ◌^◌, ◌≤◌, ◌<◌, ◌≡◌, refl, sym, ap, ◌∙◌, bit_and, add32, leb, false, take, arith,
}
use esp32_daplink.Base.Bits.Split.{clear_two}
use esp32_daplink.Esp.{no_mem}
use esp32_daplink.Esp.Action.{ok, pure, ◌>>=◌, >>=-inv, guard-inv}
use esp32_daplink.Port.{SwdPort}
use esp32_daplink.Exec.Core.{ap_word_access, halt_core, mem_write32}
use esp32_daplink.Exec.Load.{
  RamLayout, Algorithm, layout_of, setup, place, upload_code, write_words, code_word,
}

-- The parts of the RAM, from the low end: the code, the breakpoint, the stack, the buffer.
pub record LaidOut (flm : Algorithm) (ram_base ram_size : ℕ) (l : RamLayout) : Type 0 where
  pub code_first : l.code_addr ≡ ram_base
  pub bkpt_aligned : l.bkpt_addr % 4 ≡ 0
  pub bkpt_behind : l.code_addr + flm.code_size ≤ l.bkpt_addr
  pub bkpt_close : l.bkpt_addr < l.code_addr + flm.code_size + 4
  pub stack_room : l.bkpt_addr + 4 + flm.stack_size ≡ l.stack_ptr
  pub buf_behind : l.buf_addr ≡ l.stack_ptr
  pub buf_end : l.buf_addr + l.buf_size ≡ ram_base + ram_size
  pub buf_some : 0 < l.buf_size

layout_of-LaidOut :
    (flm : Algorithm) (ram_base ram_size : ℕ)
    → ram_base + flm.code_size + 7 + flm.stack_size < 2 ^ 32
    → ram_base + ram_size < 2 ^ 32
    → leb (add32 ram_base ram_size) (layout_of flm ram_base ram_size).buf_addr ≡ false
    → LaidOut flm ram_base ram_size (layout_of flm ram_base ram_size)
unfolding layout_of
layout_of-LaidOut flm ram_base ram_size small fits room =
    let wraps : add32 (add32 ram_base flm.code_size) 3 ≡ ram_base + flm.code_size + 3 =
      omega arith in
    let bkpt : (layout_of flm ram_base ram_size).bkpt_addr
        ≡ ram_base + flm.code_size + 3 - (ram_base + flm.code_size + 3) % 4 =
      ap (λ x. bit_and x (2 ^ 32 - 4)) wraps
      ∙ clear_two (ram_base + flm.code_size + 3) (omega arith) in
    let stack : (layout_of flm ram_base ram_size).stack_ptr
        ≡ (layout_of flm ram_base ram_size).bkpt_addr + 4 + flm.stack_size =
      omega (arith, bkpt) in
    let below : (layout_of flm ram_base ram_size).buf_addr < ram_base + ram_size =
      ground (arith, room) in
    record {
      code_first = refl;
      bkpt_aligned = omega (arith, bkpt);
      bkpt_behind = omega (arith, bkpt);
      bkpt_close = omega (arith, bkpt);
      stack_room = sym stack;
      buf_behind = refl;
      buf_end = omega (arith, below);
      buf_some = omega (arith, below);
    }

module _ {S : Type 0} (port : SwdPort S) where
  upload_code-same :
      (flm : Algorithm) (ram_base : ℕ) (layout l : RamLayout) (s : S)
      → (upload_code port flm ram_base layout s).0 ≡ ok l
      → layout ≡ l
  unfolding upload_code
  upload_code-same flm ram_base layout l s e =
      let code = write_words port code_word flm.code_size ram_base (take flm.code_size flm.code) in
      let bkpt = mem_write32 port layout.bkpt_addr 0xBE00BE00 in
      let first = >>=-inv code (λ _. bkpt >>= λ _. pure layout) s l e in
      let second = >>=-inv bkpt (λ _. pure layout) first.1 l first.2 in cc

  place-LaidOut :
      (flm : Algorithm) (ram_base ram_size : ℕ) (s : S) (l : RamLayout)
      → ram_base + flm.code_size + 7 + flm.stack_size < 2 ^ 32
      → ram_base + ram_size < 2 ^ 32
      → (place port flm ram_base ram_size s).0 ≡ ok l
      → LaidOut flm ram_base ram_size l
  unfolding place
  place-LaidOut flm ram_base ram_size s l small fits e =
      let layout = layout_of flm ram_base ram_size in
      let (room, done) =
        guard-inv (leb (add32 ram_base ram_size) layout.buf_addr) no_mem
          (upload_code port flm ram_base layout) s l e in
      subst (LaidOut flm ram_base ram_size) (upload_code-same flm ram_base layout l s done)
        (layout_of-LaidOut flm ram_base ram_size small fits room)

  -- A layout that `setup` returns, when the sums of the source do not overflow, has the parts of
  -- the RAM one behind the other, and a buffer that is not empty.
  pub setup-LaidOut :
      (flm : Algorithm) (ram_base ram_size : ℕ) (s : S) (l : RamLayout)
      → ram_base + flm.code_size + 7 + flm.stack_size < 2 ^ 32
      → ram_base + ram_size < 2 ^ 32
      → (setup port flm ram_base ram_size s).0 ≡ ok l
      → LaidOut flm ram_base ram_size l
  unfolding setup
  setup-LaidOut flm ram_base ram_size s l small fits e =
      let rest = place port flm ram_base ram_size in
      let first = >>=-inv (ap_word_access port) (λ _. halt_core port >>= λ _. rest) s l e in
      let second = >>=-inv (halt_core port) (λ _. rest) first.1 l first.2 in
      place-LaidOut flm ram_base ram_size second.1 l small fits second.2
