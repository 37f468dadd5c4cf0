-- ===== src/Exec/Upload.antt =====
-- `write_words` on a port that gives word access: what it leaves in memory, and `upload_data`.
use mathlib.Core.Path.{subst}
use esp32_daplink.Base.{
  u32, ℕ, zero, suc, ◌+◌, ◌*◌, ◌%◌, ◌^◌, ◌≤◌, ◌<◌, ◌≡◌, refl, sym, ap, ◌∙◌, ◌⊎◌, inl, inr, List, [],
  ◌∷◌, length, drop, length-drop, drop-drop, ◌==◌, le-or-lt, if◌then◌else◌, add32, arith,
}
use esp32_daplink.Esp.Action.{>>=-ok}
use esp32_daplink.Port.{SwdPort}
use esp32_daplink.Port.Memory.{Memory}
use esp32_daplink.Exec.Core.{mem_write32}
use esp32_daplink.Exec.Load.{write_words}
use esp32_daplink.Exec.Access.{Ends, mem_write32-Memory}

module _ {S : Type 0} (port : SwdPort S) (m : Memory port) where
  -- The words of `bytes` stand from `address` on in `t`, and all else is as in `s`.
  pub record Holds (word_of : List ℕ → ℕ) (address : ℕ) (bytes : List ℕ) (s t : S) : Type 0 where
    pub inside :
        (i : ℕ) → 4 * i < length bytes → m.word t (address + 4 * i) ≡ word_of (drop (4 * i) bytes)
    pub outside : (b : ℕ) → (b < address) ⊎ (address + length bytes ≤ b) → m.word t b ≡ m.word s b

  Holds-cons :
      (word_of : List ℕ → ℕ) (address next x : ℕ) (bytes : List ℕ) (s s1 t : S)
      → next ≡ address + 4
      → ((b : ℕ) → m.word s1 b ≡ (if b == address then word_of (x ∷ bytes) else m.word s b))
      → Holds word_of next (drop 3 bytes) s1 t
      → Holds word_of address (x ∷ bytes) s t
  Holds-cons word_of address next x bytes s s1 t e first rest = record {
    inside = inside;
    outside = outside;
  }
    where
      inside :
          (i : ℕ)
          → 4 * i < length (x ∷ bytes)
          → m.word t (address + 4 * i) ≡ word_of (drop (4 * i) (x ∷ bytes))
      inside zero h =
          ap (m.word t) (omega arith)
          ∙ rest.outside address (inl (omega arith))
          ∙ first address
          ∙ ground arith
      inside (suc i) h =
          ap (m.word t) (omega arith)
          ∙ rest.inside i (omega (arith, length-drop 3 bytes))
          ∙ ap word_of (sym (drop-drop (x ∷ bytes) 4 (4 * i) (4 * suc i) (omega arith)))

      outside :
          (b : ℕ) → (b < address) ⊎ (address + length (x ∷ bytes) ≤ b) → m.word t b ≡ m.word s b
      outside b (inl h) = rest.outside b (inl (omega arith)) ∙ first b ∙ ground arith
      outside b (inr h) = elim (le-or-lt next b) [
        | inl le ↦
            rest.outside b (inr (omega (arith, length-drop 3 bytes))) ∙ first b ∙ ground arith
        | inr gt ↦ rest.outside b (inl gt) ∙ first b ∙ ground arith
      ]

  pub write_words-Memory :
      (word_of : List ℕ → ℕ) (fuel address : ℕ) (bytes : List ℕ) (s : S)
      → length bytes ≤ fuel
      → address % 4 ≡ 0
      → address + length bytes + 4 ≤ 2 ^ 32
      → ((p : ℕ) → word_of (drop p bytes) < 2 ^ 32)
      → Ends (write_words port word_of fuel address bytes s) tt (Holds word_of address bytes s)
  unfolding write_words
  write_words-Memory word_of zero address (x ∷ bytes) s enough aligned fits small =
      absurd (omega arith)
  write_words-Memory word_of zero address [] s enough aligned fits small = record {
    after = s;
    runs = refl;
    holds = record { inside = λ i h. absurd (omega arith); outside = λ b h. refl };
  }
  write_words-Memory word_of (suc fuel) address [] s enough aligned fits small = record {
    after = s;
    runs = refl;
    holds = record { inside = λ i h. absurd (omega arith); outside = λ b h. refl };
  }
  write_words-Memory word_of (suc fuel) address (x ∷ bytes) s enough aligned fits small =
      let first = mem_write32-Memory port m address (word_of (x ∷ bytes)) s aligned (omega arith) in
      let word_fits : u32 (word_of (x ∷ bytes)) ≡ word_of (x ∷ bytes) = omega (arith, small 0) in
      let next : add32 address 4 ≡ address + 4 = omega arith in
      let rest =
        write_words-Memory word_of fuel (add32 address 4) (drop 3 bytes) first.after
          (omega (arith, length-drop 3 bytes)) (omega arith) (omega (arith, length-drop 3 bytes))
          (λ p.
            subst (λ l. word_of l < 2 ^ 32) (drop-drop (x ∷ bytes) 4 p (4 + p) refl)
              (small (4 + p))) in
      record {
        after = rest.after;
        runs =
            >>=-ok (mem_write32 port address (word_of (x ∷ bytes)))
              (λ _. write_words port word_of fuel (add32 address 4) (drop 3 bytes)) s tt first.after
              first.runs
            ∙ rest.runs;
        holds =
            Holds-cons word_of address (add32 address 4) x bytes s first.after rest.after next
              (λ b. first.holds b ∙ ap (λ w. if b == address then w else m.word s b) word_fits)
              rest.holds;
      }
