-- ===== src/Rtt/Found.antt =====
-- `search_control_block`, on a port that gives word access, finds a control block.
use mathlib.Core.Path.{fun_ext, subst}
use esp32_daplink.Base.{
  ℕ, zero, suc, ◌+◌, ◌-◌, ◌*◌, ◌%◌, ◌^◌, ◌≤◌, ◌<◌, ◌≡◌, refl, sym, ap, ◌∙◌, Bool, true, false, ◌⊎◌,
  inl, inr, ltb, ◌==◌, if◌then◌else◌, if_elim, le-or-lt, Option-cases, Option, none, some, List,
  drop, add32, arith,
}
use esp32_daplink.Esp.Action.{Result, ok, err}
use esp32_daplink.Port.{SwdPort}
use esp32_daplink.Port.Memory.{Memory}
use esp32_daplink.Rtt.Search.{
  World, signature, starts, find_in, verify_cb_at, search_chunk, search_chunks,
  search_control_block,
}
use esp32_daplink.Rtt.Block.{
  memory_bytes, is_block, starts-is_block, drop-memory_bytes, IsHit, find_in_sound, find_in-found,
  mem_read_block-Memory,
}

-- The signature at the place `step` of a chunk, as the loop over the chunk tries it.
tried_at :
    (word : ℕ → ℕ) (a step k : ℕ)
    → k ≡ 4 * step
    → step ≤ 60
    → a + 256 < 2 ^ 32
    → starts signature (drop k (memory_bytes word 64 a)) ≡ is_block word (a + 4 * step)
tried_at word a step k e few small =
    ap (starts signature)
      (drop-memory_bytes word step 64 (64 - step) a k (omega arith) e (omega arith))
    ∙ starts-is_block word (64 - step) (a + 4 * step) (omega arith)

module _ {S : Type 0} (port : SwdPort S) (m : Memory port) where
  -- What a chunk gives: the address of a block, or nothing.
  record IsSearched (word : ℕ → ℕ) (a : ℕ) (r : Option ℕ × S) : Type 0 where
    same : (b : ℕ) → m.word r.1 b ≡ word b
    sound : (cb : ℕ) → r.0 ≡ some cb → is_block word cb ≡ true
    found :
        (step : ℕ) → step ≤ 60 → is_block word (a + 4 * step) ≡ true → (cb : ℕ) × (r.0 ≡ some cb)

  search_chunk-IsSearched :
      (a : ℕ) (s : S)
      → a % 4 ≡ 0
      → a + 256 < 2 ^ 32
      → IsSearched (m.word s) a (search_chunk port a s)
  unfolding search_chunk
  search_chunk-IsSearched a s aligned small =
      let r = mem_read_block-Memory port m 64 a s aligned small in
      let chunk = memory_bytes (m.word s) 64 a in
      let give = λ (o : Option ℕ) (t : S). elim o as (λ _. Option ℕ × S) [
        | none ↦ (none, t)
        | some i ↦ (some (add32 a i), t)
      ] in
      subst (IsSearched (m.word s) a)
        (sym (
          ap
            (λ (x : Result (List ℕ) × S). elim x.0 as (λ _. Option ℕ × S) [
              | err _ ↦ (none, x.1)
              | ok chunk ↦ give (find_in 61 0 chunk) x.1
            ])
            r.runs))
        (given r.after r.holds (find_in 61 0 chunk) (λ k e. find_in_sound 61 0 chunk k e)
          (λ step few h.
            find_in-found 61 0 chunk step (omega arith)
              (tried_at (m.word s) a step (0 + 4 * step) (omega arith) few small ∙ h)))
    where
      given :
          (t : S)
          → ((b : ℕ) → m.word t b ≡ m.word s b)
          → (o : Option ℕ) → ((k : ℕ) → o ≡ some k → IsHit 61 0 (memory_bytes (m.word s) 64 a) k)
          → ((step : ℕ)
              → step ≤ 60
              → is_block (m.word s) (a + 4 * step) ≡ true
              → (k : ℕ) × (o ≡ some k))
          → IsSearched
              (m.word s)
              a
              (elim o as (λ _. Option ℕ × S) [ none ↦ (none, t) | some i ↦ (some (add32 a i), t) ])
      given t same none hit found = record {
        same = same;
        sound = λ cb e. cc;
        found = λ step few h. let (k, e) = found step few h in cc;
      }
      given t same (some i) hit found = record {
        same = same;
        sound = λ cb e.
            let h = hit i refl in
            let at : add32 a i ≡ cb = cc in
            let place : cb ≡ a + 4 * h.step = omega (arith, at, h.place, h.within) in
            ap (is_block (m.word s)) place
            ∙ sym (
                tried_at (m.word s) a h.step i (omega (arith, h.place)) (omega (arith, h.within))
                  small)
            ∙ h.signed;
        found = λ step few h. (add32 a i, refl);
      }

  -- A search that has found a block.
  Finds : (ℕ → ℕ) → Option (Bool × World S) → Type 0
  Finds word o = (w : World S) × (o ≡ some (true, w)) × (is_block word w.rtt.cb_addr ≡ true)

  search_chunks-Finds :
      (others : S → S) (word : ℕ → ℕ) (fuel d c step : ℕ) (w : World S)
      → ((s : S) (b : ℕ) → m.word (others s) b ≡ m.word s b)
      → ((b : ℕ) → m.word w.swd b ≡ word b)
      → w.rtt.search_start % 4 ≡ 0
      → w.rtt.search_start + w.rtt.search_size + 256 < 2 ^ 32
      → d ≤ c
      → 256 * c < w.rtt.search_size
      → c < d + fuel
      → step ≤ 60
      → is_block word (w.rtt.search_start + 256 * c + 4 * step) ≡ true
      → Finds word (search_chunks port others fuel (256 * d) w)
  unfolding search_chunks Finds
  search_chunks-Finds others word zero d c step w quiet same aligned small le inside rounds few
        block =
      absurd (omega arith)
  search_chunks-Finds others word (suc fuel) d c step w quiet same aligned small le inside rounds
        few block =
      let offset = 256 * d in
      let start = if ltb 0 offset then others w.swd else w.swd in
      let start_same : m.word start ≡ word = fun_ext (λ b.
        if_elim (λ (t : S). m.word t b ≡ word b) (ltb 0 offset) (others w.swd) w.swd
          (λ _. quiet w.swd b ∙ same b) (λ _. same b)) in
      let at : add32 w.rtt.search_start offset ≡ w.rtt.search_start + offset = omega arith in
      let next : add32 offset 256 ≡ 256 * suc d = omega arith in
      let r = search_chunk port (add32 w.rtt.search_start offset) start in
      let searched =
        subst (λ f. IsSearched f (add32 w.rtt.search_start offset) r) start_same
          (search_chunk-IsSearched (add32 w.rtt.search_start offset) start (omega (arith, at))
            (omega (arith, at))) in
      let after : World S = record w { swd = r.1 } in
      let again = search_chunks port others fuel (add32 offset 256) after in
      let decide : Option ℕ → Option (Bool × World S) = λ o.
        elim o as (λ _. Option (Bool × World S)) [
          | none ↦ again
          | some cb ↦
              some (
                true,
                record { rtt = record w.rtt { cb_addr = cb; cached_cb_addr = cb }; swd = r.1 },
              )
        ] in
      if_elim (Finds word) (ltb offset w.rtt.search_size) (decide r.0) (some (false, w))
        (λ _. elim (Option-cases r.0) [
          | inr (cb, e) ↦ subst (λ o. Finds word (decide o)) (sym e) (_, refl, searched.sound cb e)
          | inl nothing ↦
              subst (λ o. Finds word (decide o)) (sym nothing)
                (subst (λ o. Finds word (search_chunks port others fuel o after)) (sym next)
                  (search_chunks-Finds others word fuel (suc d) c step after quiet searched.same
                    aligned small (later (le-or-lt c d) searched nothing at) inside (omega arith)
                    few block))
        ])
        (λ e. absurd (ground (arith, e)))
    where
      later :
          (c ≤ d) ⊎ (d < c)
          → IsSearched word (add32 w.rtt.search_start (256 * d)) (
              search_chunk port
                (add32 w.rtt.search_start (256 * d))
                (if ltb 0 (256 * d) then others w.swd else w.swd))
          → (search_chunk port
              (add32 w.rtt.search_start (256 * d))
              (if ltb 0 (256 * d) then others w.swd else w.swd)).0
            ≡ none
          → add32 w.rtt.search_start (256 * d) ≡ w.rtt.search_start + 256 * d
          → suc d ≤ c
      later (inr lt) searched nothing at = lt
      later (inl ge) searched nothing at =
          let here : add32 w.rtt.search_start (256 * d) + 4 * step
              ≡ w.rtt.search_start + 256 * c + 4 * step =
            omega (arith, at) in
          let (cb, e) = searched.found step few (ap (is_block word) here ∙ block) in cc

  verify_cb_at-Memory :
      (a : ℕ) (s : S)
      → a % 4 ≡ 0
      → a + 16 < 2 ^ 32
      → (t : S) × (verify_cb_at port a s ≡ (is_block (m.word s) a, t))
        × ((b : ℕ) → m.word t b ≡ m.word s b)
  unfolding verify_cb_at
  verify_cb_at-Memory a s aligned small =
      let r = mem_read_block-Memory port m 4 a s aligned small in
      (
        r.after,
        ap
              (λ (x : Result (List ℕ) × S). elim x.0 as (λ _. Bool × S) [
                | ok sig ↦ (starts signature sig, x.1)
                | err _ ↦ (false, x.1)
              ])
              r.runs
            ∙ ap (λ (b : Bool). (b, r.after)) (starts-is_block (m.word s) 4 a (omega arith)),
        r.holds,
      )

  -- The search, when other tasks do not write to memory, finds a control block when one stands at
  -- an aligned place of the search range that is at most 240 bytes into a chunk of 256.
  pub search_control_block-Finds :
      (others : S → S) (fuel c step : ℕ) (w : World S)
      → ((s : S) (b : ℕ) → m.word (others s) b ≡ m.word s b)
      → w.rtt.search_start % 4 ≡ 0
      → w.rtt.search_start + w.rtt.search_size + 256 < 2 ^ 32
      → w.rtt.cached_cb_addr % 4 ≡ 0
      → w.rtt.cached_cb_addr + 16 < 2 ^ 32
      → 256 * c < w.rtt.search_size
      → c < fuel
      → step ≤ 60
      → is_block (m.word w.swd) (w.rtt.search_start + 256 * c + 4 * step) ≡ true
      → (v : World S) × (search_control_block port others fuel w ≡ some (true, v))
        × (is_block (m.word w.swd) v.rtt.cb_addr ≡ true)
  unfolding search_control_block Finds
  search_control_block-Finds others fuel c step w quiet aligned small cached_aligned cached_small
        inside rounds few block =
      let word = m.word w.swd in
      let (t, checked, same) =
        verify_cb_at-Memory w.rtt.cached_cb_addr w.swd cached_aligned cached_small in
      let found : Bool × S → World S =
        λ x. record { rtt = record w.rtt { cb_addr = w.rtt.cached_cb_addr }; swd = x.1 } in
      let fresh : Bool × S → World S =
        λ x. record { rtt = record w.rtt { cached_cb_addr = 0 }; swd = x.1 } in
      let full : World S → Option (Bool × World S) = λ v. search_chunks port others fuel 0 v in
      let finish : Bool × S → Option (Bool × World S) =
        λ x. if x.0 then some (true, found x) else full (fresh x) in
      if_elim (Finds word) (w.rtt.cached_cb_addr == 0) (full w)
        (finish (verify_cb_at port w.rtt.cached_cb_addr w.swd))
        (λ _.
          search_chunks-Finds others word fuel 0 c step w quiet (λ b. refl) aligned small
            (omega arith) inside (omega arith) few block)
        (λ _.
          subst (λ x. Finds word (finish x)) (sym checked)
            (if_elim (Finds word) (is_block word w.rtt.cached_cb_addr)
              (some (true, found (true, t))) (full (fresh (false, t))) (λ e. (_, refl, e))
              (λ _.
                search_chunks-Finds others word fuel 0 c step (fresh (false, t)) quiet same aligned
                  small (omega arith) inside (omega arith) few block)))
