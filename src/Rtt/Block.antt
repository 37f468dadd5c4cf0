-- ===== src/Rtt/Block.antt =====
-- Blocks of memory as lists of bytes, and the signature in them.
use mathlib.Core.Path.{fun_ext}
use esp32_daplink.Base.{
  ℕ, zero, suc, ◌+◌, ◌-◌, ◌*◌, ◌%◌, ◌^◌, ◌≤◌, ◌<◌, ◌≡◌, refl, sym, ap, ap₂, ◌∙◌, Bool, true, false,
  Bool-cases, inl, inr, if◌then◌else◌, some, List, [], ◌++◌, drop, add32, arith,
}
use esp32_daplink.Esp.Action.{ok, pure, ◌>>=◌, >>=-ok}
use esp32_daplink.Port.{SwdPort}
use esp32_daplink.Port.Memory.{Memory}
use esp32_daplink.Exec.Access.{Ends}
use esp32_daplink.Rtt.Core.{word_bytes, mem_read32, mem_read_block}
use esp32_daplink.Rtt.Access.{mem_read32-Memory}
use esp32_daplink.Rtt.Search.{signature, starts, find_in}

-- The bytes of `n` words from `a` on.
abbrev pub memory_bytes : (ℕ → ℕ) → ℕ → ℕ → List ℕ
memory_bytes word zero a = []
memory_bytes word (suc n) a = word_bytes (word a) ++ memory_bytes word n (add32 a 4)

-- The signature stands at an address.
unfoldable pub is_block : (ℕ → ℕ) → ℕ → Bool
is_block word a = starts signature (memory_bytes word 3 a)

pub starts-is_block :
    (word : ℕ → ℕ) (n a : ℕ) → 3 ≤ n → starts signature (memory_bytes word n a) ≡ is_block word a
unfolding is_block starts word_bytes
starts-is_block word zero a h = absurd (omega arith)
starts-is_block word (suc zero) a h = absurd (omega arith)
starts-is_block word (suc (suc zero)) a h = absurd (omega arith)
starts-is_block word (suc (suc (suc n))) a h = refl

drop-four :
    (v : ℕ) (rest : List ℕ) (k n : ℕ) → k ≡ 4 + n → drop k (word_bytes v ++ rest) ≡ drop n rest
unfolding word_bytes
drop-four v rest zero n e = absurd (omega arith)
drop-four v rest (suc zero) n e = absurd (omega arith)
drop-four v rest (suc (suc zero)) n e = absurd (omega arith)
drop-four v rest (suc (suc (suc zero))) n e = absurd (omega arith)
drop-four v rest (suc (suc (suc (suc k)))) n e = ap (λ j. drop j rest) (omega (arith, e))

pub drop-memory_bytes :
    (word : ℕ → ℕ) (u n i a k : ℕ)
    → n ≡ u + i
    → k ≡ 4 * u
    → a + 4 * n < 2 ^ 32
    → drop k (memory_bytes word n a) ≡ memory_bytes word i (a + 4 * u)
drop-memory_bytes word zero n i a zero e f small =
    ap₂ (memory_bytes word) (omega (arith, e)) (omega arith)
drop-memory_bytes word zero n i a (suc k) e f small = absurd (omega arith)
drop-memory_bytes word (suc u) zero i a k e f small = absurd (omega arith)
drop-memory_bytes word (suc u) (suc n) i a k e f small =
    let next : add32 a 4 ≡ a + 4 = omega arith in
    let on : a + 4 + 4 * u ≡ a + 4 * suc u = omega arith in
    drop-four (word a) (memory_bytes word n (add32 a 4)) k (4 * u) (omega (arith, f))
    ∙ ap (λ b. drop (4 * u) (memory_bytes word n b)) next
    ∙ drop-memory_bytes word u n i (a + 4) (4 * u) (omega (arith, e)) refl (omega arith)
    ∙ ap (memory_bytes word i) on

-- The place that the loop over a chunk gives.
pub record IsHit (left i : ℕ) (chunk : List ℕ) (k : ℕ) : Type 0 where
  pub step : ℕ
  pub place : k ≡ i + 4 * step
  pub within : step < left
  pub signed : starts signature (drop k chunk) ≡ true

pub find_in_sound :
    (left i : ℕ) (chunk : List ℕ) (k : ℕ) → find_in left i chunk ≡ some k → IsHit left i chunk k
unfolding find_in
find_in_sound zero i chunk k e = cc
find_in_sound (suc left) i chunk k e =
    let later = find_in left (i + 4) chunk in
    let pick = λ (b : Bool). if b then some i else later in
    elim (Bool-cases (starts signature (drop i chunk))) [
      | inl signed_here ↦
          let same : some i ≡ some k = sym (ap pick signed_here) ∙ e in
          let here : i ≡ k = cc in
          record {
            step = 0;
            place = omega (arith, here);
            within = omega arith;
            signed = ap (λ j. starts signature (drop j chunk)) (sym here) ∙ signed_here;
          }
      | inr no_start ↦
          let rest = find_in_sound left (i + 4) chunk k (sym (ap pick no_start) ∙ e) in
          record {
            step = suc rest.step;
            place = omega (arith, rest.place);
            within = omega (arith, rest.within);
            signed = rest.signed;
          }
    ]

pub find_in-found :
    (left i : ℕ) (chunk : List ℕ) (t : ℕ)
    → t < left
    → starts signature (drop (i + 4 * t) chunk) ≡ true
    → (k : ℕ) × (find_in left i chunk ≡ some k)
unfolding find_in
find_in-found zero i chunk t h e = absurd (omega arith)
find_in-found (suc left) i chunk t h e =
    let later = find_in left (i + 4) chunk in
    let pick = λ (b : Bool). if b then some i else later in
    elim (Bool-cases (starts signature (drop i chunk))) [
      | inl signed_here ↦ (i, ap pick signed_here)
      | inr no_start ↦
          let (k, rest) =
            find_in-found left (i + 4) chunk (t - 1) (smaller t h no_start e)
              (moved t no_start e) in
          (k, ap pick no_start ∙ rest)
    ]
  where
    smaller :
        (t : ℕ)
        → t < suc left
        → starts signature (drop i chunk) ≡ false
        → starts signature (drop (i + 4 * t) chunk) ≡ true
        → t - 1 < left
    smaller zero h n e =
        let here : i + 4 * 0 ≡ i = omega arith in
        let clash : true ≡ false = sym e ∙ ap (λ j. starts signature (drop j chunk)) here ∙ n in cc
    smaller (suc t) h n e = omega arith

    moved :
        (t : ℕ)
        → starts signature (drop i chunk) ≡ false
        → starts signature (drop (i + 4 * t) chunk) ≡ true
        → starts signature (drop (i + 4 + 4 * (t - 1)) chunk) ≡ true
    moved zero n e =
        let here : i + 4 * 0 ≡ i = omega arith in
        let clash : true ≡ false = sym e ∙ ap (λ j. starts signature (drop j chunk)) here ∙ n in cc
    moved (suc t) n e =
        let there : i + 4 + 4 * (suc t - 1) ≡ i + 4 * suc t = omega arith in
        ap (λ j. starts signature (drop j chunk)) there ∙ e

module _ {S : Type 0} (port : SwdPort S) (m : Memory port) where
  pub mem_read_block-Memory :
      (n a : ℕ) (s : S)
      → a % 4 ≡ 0
      → a + 4 * n < 2 ^ 32
      → Ends
          (mem_read_block port n a s)
          (memory_bytes (m.word s) n a)
          (λ t. (b : ℕ) → m.word t b ≡ m.word s b)
  unfolding mem_read_block
  mem_read_block-Memory zero a s aligned small = record {
    after = s;
    runs = refl;
    holds = λ b. refl;
  }
  mem_read_block-Memory (suc n) a s aligned small =
      let next : add32 a 4 ≡ a + 4 = omega arith in
      let first = mem_read32-Memory port m a s aligned (omega arith) in
      let rest =
        mem_read_block-Memory n (add32 a 4) first.after (omega (arith, next))
          (omega (arith, next)) in
      let others = mem_read_block port n (add32 a 4) in
      record {
        after = rest.after;
        runs =
            >>=-ok (mem_read32 port a) (λ val. others >>= λ bytes. pure (word_bytes val ++ bytes)) s
              (m.word s a) first.after first.runs
            ∙ >>=-ok others (λ bytes. pure (word_bytes (m.word s a) ++ bytes)) first.after
                (memory_bytes (m.word first.after) n (add32 a 4)) rest.after rest.runs
            ∙ ap (λ f. (ok (word_bytes (m.word s a) ++ memory_bytes f n (add32 a 4)), rest.after))
                (fun_ext first.holds);
        holds = λ b. rest.holds b ∙ first.holds b;
      }
