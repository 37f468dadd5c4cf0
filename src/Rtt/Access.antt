-- ===== src/Rtt/Access.antt =====
-- The memory access of rtt_reader.cpp on a port that gives word access to memory.
use esp32_daplink.Base.{
  ℕ, ◌%◌, ◌^◌, ◌<◌, u32, ◌≡◌, ap, ◌∙◌, true, false, ◌==◌, if◌then◌else◌, arith,
}
use esp32_daplink.Port.{SwdPort}
use esp32_daplink.Port.Memory.{Memory}
use esp32_daplink.Exec.Access.{Ends}
use esp32_daplink.Rtt.Core.{mem_read32, mem_write32}

module _ {S : Type 0} (port : SwdPort S) (m : Memory port) where
  pub mem_read32-Memory :
      (a : ℕ) (s : S)
      → a % 4 ≡ 0
      → a < 2 ^ 32
      → Ends (mem_read32 port a s) (m.word s a) (λ t. (b : ℕ) → m.word t b ≡ m.word s b)
  unfolding mem_read32
  mem_read32-Memory a s aligned fits =
      let s1 = (port.dp_write 0x08 0 s).1 in
      let s2 = (port.raw true false 0x04 a s1).1 in
      let s3 = (port.raw true true 0x0C 0 s2).1 in
      let s4 = (port.dp_read 0x0C s3).1 in
      let set : m.tar s2 ≡ a = m.tar_set a s1 ∙ omega (arith, fits) in
      let kept : (b : ℕ) → m.word s2 b ≡ m.word s b = λ b. m.tar_word a s1 b ∙ m.select_word s b in
      let read : (port.dp_read 0x0C s3).0.value ≡ m.word s a =
        m.rdbuff_value s3
        ∙ m.post_set s2 (omega (arith, set, aligned))
        ∙ ap (m.word s2) set
        ∙ kept a in
      record {
        after = s4;
        runs = ground (
          arith,
          (m.select_ok s).no_error,
          (m.tar_ok a s1).no_error,
          (m.tar_ok a s1).ack_one,
          (m.post_ok s2).no_error,
          (m.post_ok s2).ack_one,
          (m.rdbuff_ok s3).no_error,
          read,
        );
        holds = λ b. m.rdbuff_word s3 b ∙ m.post_word s2 b ∙ kept b;
      }

  pub mem_write32-Memory :
      (a v : ℕ) (s : S)
      → a % 4 ≡ 0
      → a < 2 ^ 32
      → Ends
          (mem_write32 port a v s)
          tt
          (λ t. (b : ℕ) → m.word t b ≡ (if b == a then u32 v else m.word s b))
  unfolding mem_write32
  mem_write32-Memory a v s aligned fits =
      let s1 = (port.dp_write 0x08 0 s).1 in
      let s2 = (port.raw true false 0x04 a s1).1 in
      let set : m.tar s2 ≡ a = m.tar_set a s1 ∙ omega (arith, fits) in
      record {
        after = (port.raw true false 0x0C v s2).1;
        runs = ground (
          arith,
          (m.select_ok s).no_error,
          (m.tar_ok a s1).no_error,
          (m.tar_ok a s1).ack_one,
          (m.drw_ok v s2).no_error,
          (m.drw_ok v s2).ack_one,
        );
        holds = λ b.
            m.drw_word v s2 b (omega (arith, set, aligned))
            ∙ rw set
                (ap (λ w. if b == a then u32 v else w) (m.tar_word a s1 b ∙ m.select_word s b));
      }
