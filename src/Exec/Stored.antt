-- ===== src/Exec/Stored.antt =====
-- `upload_data` on a port that gives word access: the target's memory, byte by byte.
use esp32_daplink.Base.{
  ℕ, ◌+◌, ◌-◌, ◌*◌, ◌/◌, ◌%◌, ◌^◌, ◌≤◌, ◌<◌, ◌≡◌, refl, sym, ap, ap₂, ◌∙◌, ◌⊎◌, inl, inr, List,
  length, get_or, drop, get_or-drop, ltb, leb, le-or-lt, if◌then◌else◌, ◌&&◌, arith,
}
use esp32_daplink.Port.{SwdPort}
use esp32_daplink.Port.Memory.{Memory}
use esp32_daplink.Exec.Load.{RamLayout, upload_data, data_word}
use esp32_daplink.Exec.Access.{Ends}
use esp32_daplink.Exec.Words.{word_sum, data_word-word_sum, byte_of, byte_of-word_sum}
use esp32_daplink.Exec.Upload.{Holds, write_words-Memory}

pub get_or-drop_small :
    (bytes : List ℕ) (p d : ℕ)
    → ((i : ℕ) → get_or bytes i d < 256)
    → (i : ℕ) → get_or (drop p bytes) i d < 256
get_or-drop_small bytes p d small i =
    omega (arith, small (p + i), get_or-drop bytes p i (p + i) d refl)

-- The length, rounded up to words.
unfoldable pub rounded : List ℕ → ℕ
rounded bytes = 4 * ((length bytes + 3) / 4)

data_word-lt : (l : List ℕ) → ((i : ℕ) → get_or l i 0xFF < 256) → data_word l < 2 ^ 32
unfolding word_sum
data_word-lt l small = omega (arith, data_word-word_sum l small, small 0, small 1, small 2, small 3)

module _ {S : Type 0} (port : SwdPort S) (m : Memory port) where
  unfoldable pub byte_at : S → ℕ → ℕ
  byte_at s a = byte_of (m.word s (a - a % 4)) (a % 4)

  -- A byte of memory after `bytes` are put at `address`, in whole words filled up with 0xFF.
  unfoldable pub overlaid : S → ℕ → List ℕ → ℕ → ℕ
  overlaid s address bytes a =
      if leb address a && ltb a (address + rounded bytes)
      then get_or bytes (a - address) 0xFF
      else byte_at s a

  Holds-byte :
      (address : ℕ) (bytes : List ℕ) (s t : S) (i k : ℕ)
      → address % 4 ≡ 0
      → ((j : ℕ) → get_or bytes j 0xFF < 256)
      → Holds port m data_word address bytes s t
      → 4 * i < length bytes
      → k < 4
      → byte_at t (address + (4 * i + k)) ≡ get_or bytes (4 * i + k) 0xFF
  unfolding byte_at
  Holds-byte address bytes s t i k aligned small holds inside few =
      ap₂ (λ w n. byte_of (m.word t w) n) (omega arith) (omega arith)
      ∙ ap (λ w. byte_of w k)
          (holds.inside i inside
            ∙ data_word-word_sum (drop (4 * i) bytes) (get_or-drop_small bytes (4 * i) 0xFF small))
      ∙ byte_of-word_sum 0xFF (drop (4 * i) bytes) k (get_or-drop_small bytes (4 * i) 0xFF small)
          few
      ∙ sym (get_or-drop bytes (4 * i) k (4 * i + k) 0xFF refl)

  Holds-apart :
      (word_of : List ℕ → ℕ) (address : ℕ) (bytes : List ℕ) (s t : S) (a : ℕ)
      → Holds port m word_of address bytes s t
      → (a - a % 4 < address) ⊎ (address + length bytes ≤ a - a % 4)
      → byte_at t a ≡ byte_at s a
  unfolding byte_at
  Holds-apart word_of address bytes s t a holds apart =
      ap (λ w. byte_of w (a % 4)) (holds.outside (a - a % 4) apart)

  Holds-overlaid :
      (address : ℕ) (bytes : List ℕ) (s t : S) (a : ℕ)
      → address % 4 ≡ 0
      → ((j : ℕ) → get_or bytes j 0xFF < 256)
      → Holds port m data_word address bytes s t
      → byte_at t a ≡ overlaid s address bytes a
  unfolding overlaid rounded
  Holds-overlaid address bytes s t a aligned small holds = elim (le-or-lt address a) [
    | inr below ↦
        ground (arith, Holds-apart data_word address bytes s t a holds (inl (omega arith)))
    | inl from ↦ elim (le-or-lt (address + 4 * ((length bytes + 3) / 4)) a) [
      | inl beyond ↦
          ground (arith, Holds-apart data_word address bytes s t a holds (inr (omega arith)))
      | inr within ↦
          let place : 4 * ((a - address) / 4) + a % 4 ≡ a - address = omega arith in
          let back : address + (a - address) ≡ a = omega arith in
          let read =
            Holds-byte address bytes s t ((a - address) / 4) (a % 4) aligned small holds
              (omega arith) (omega arith) in
          let here : byte_at t a ≡ get_or bytes (a - address) 0xFF =
            ap (byte_at t) (sym (ap (λ n. address + n) place ∙ back))
            ∙ read
            ∙ ap (λ n. get_or bytes n 0xFF) place in
          ground (arith, here)
    ]
  ]

  -- After an upload that fits, every byte of the target's memory is one of the data, or 0xFF in
  -- what the last word has beyond them, or what it was before; and the upload succeeds.
  pub upload_data-overlaid :
      (layout : RamLayout) (bytes : List ℕ) (s : S)
      → length bytes ≤ layout.buf_size
      → layout.buf_addr % 4 ≡ 0
      → layout.buf_addr + length bytes + 4 ≤ 2 ^ 32
      → ((j : ℕ) → get_or bytes j 0xFF < 256)
      → Ends
          (upload_data port layout bytes s)
          tt
          (λ t. (a : ℕ) → byte_at t a ≡ overlaid s layout.buf_addr bytes a)
  unfolding upload_data
  upload_data-overlaid layout bytes s fits aligned below small =
      let r =
        write_words-Memory port m data_word (length bytes) layout.buf_addr bytes s (omega arith)
          aligned below (λ p. data_word-lt (drop p bytes) (get_or-drop_small bytes p 0xFF small)) in
      record {
        after = r.after;
        runs = ground (arith, r.runs);
        holds = λ a. Holds-overlaid layout.buf_addr bytes s r.after a aligned small r.holds;
      }
