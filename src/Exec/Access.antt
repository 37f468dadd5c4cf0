-- ===== src/Exec/Access.antt =====
-- The memory access of target_exec.cpp on a port that gives word access to memory.
use esp32_daplink.Base.{ℕ, ◌%◌, ◌^◌, ◌<◌, u32, ◌≡◌, refl, ap, ◌∙◌, ◌==◌, if◌then◌else◌, arith}
use esp32_daplink.Esp.Action.{Result, ok}
use esp32_daplink.Swd.Wire.{TransferResult}
use esp32_daplink.Port.{SwdPort}
use esp32_daplink.Port.Memory.{Acked, Memory}
use esp32_daplink.Exec.Core.{checked, mem_write32, mem_read32}

-- A run that ends with `a` in a state of which `P` holds.
pub record Ends {S A : Type 0} (r : Result A × S) (a : A) (P : S → Type 0) : Type 0 where
  pub after : S
  pub runs : r ≡ (ok a, after)
  pub holds : P after

pub checked-ok :
    {S : Type 0} (transfer : S → TransferResult × S) (s : S)
    → Acked (transfer s).0
    → checked transfer s ≡ (ok (transfer s).0.value, (transfer s).1)
checked-ok transfer s a = rw a.no_error refl

module _ {S : Type 0} (port : SwdPort S) (m : Memory port) where
  pub mem_write32-Memory :
      (a v : ℕ) (s : S)
      → a % 4 ≡ 0
      → a < 2 ^ 32
      → Ends
          (mem_write32 port a v s)
          tt
          (λ t. (b : ℕ) → m.word t b ≡ (if b == a then u32 v else m.word s b))
  unfolding mem_write32
  mem_write32-Memory a v s aligned fits =
      let s1 = (port.ap_write 0x04 a s).1 in
      let s2 = (port.ap_write 0x0C v s1).1 in
      let set : m.tar s1 ≡ a = m.ap_tar_set a s ∙ omega (arith, fits) in
      record {
        after = s2;
        runs = ground (arith, (m.ap_tar_ok a s).no_error, (m.ap_drw_ok v s1).no_error);
        holds = λ b.
            m.ap_drw_word v s1 b (omega (arith, set, aligned))
            ∙ rw set (ap (λ w. if b == a then u32 v else w) (m.ap_tar_word a s b));
      }

  pub mem_read32-Memory :
      (a : ℕ) (s : S)
      → a % 4 ≡ 0
      → a < 2 ^ 32
      → Ends (mem_read32 port a s) (m.word s a) (λ t. (b : ℕ) → m.word t b ≡ m.word s b)
  unfolding mem_read32
  mem_read32-Memory a s aligned fits =
      let s1 = (port.ap_write 0x04 a s).1 in
      let s2 = (port.ap_read 0x0C s1).1 in
      let set : m.tar s1 ≡ a = m.ap_tar_set a s ∙ omega (arith, fits) in
      let read : (port.ap_read 0x0C s1).0.value ≡ m.word s a =
        m.ap_read_value s1 (omega (arith, set, aligned))
        ∙ ap (m.word s1) set
        ∙ m.ap_tar_word a s a in
      record {
        after = s2;
        runs = ground (arith, (m.ap_tar_ok a s).no_error, (m.ap_read_ok s1).no_error, read);
        holds = λ b. m.ap_read_word s1 b ∙ m.ap_tar_word a s b;
      }
