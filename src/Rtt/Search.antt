-- ===== src/Rtt/Search.antt =====
-- rtt_reader.cpp: the search for the control block and its buffer descriptors.
use esp32_daplink.Base.{
  ℕ, zero, suc, ◌+◌, ◌*◌, ◌%◌, ◌^◌, Bool, true, false, not, ltb, ◌==◌, ◌&&◌, if◌then◌else◌, Option,
  none, some, List, [], ◌∷◌, drop, add32,
}
use esp32_daplink.Esp.{esp_fail}
use esp32_daplink.Esp.Action.{Result, ok, err, Act, pure, raise, ◌>>◌}
use esp32_daplink.Port.{SwdPort}
use esp32_daplink.Rtt.Core.{Rtt, mem_read32, mem_read_block}

-- The globals beside the port's state.
pub record World (S : Type 0) : Type 0 where
  pub rtt : Rtt
  pub swd : S

-- The ten characters of `kRttSignature` that are compared, "SEGGER RTT".
abbrev pub signature : List ℕ
signature = 0x53 ∷ 0x45 ∷ 0x47 ∷ 0x47 ∷ 0x45 ∷ 0x52 ∷ 0x20 ∷ 0x52 ∷ 0x54 ∷ 0x54 ∷ []

-- `memcmp(...) == 0`, over the length of the first list.
unfoldable pub starts : List ℕ → List ℕ → Bool
starts [] bytes = true
starts (c ∷ cs) [] = false
starts (c ∷ cs) (b ∷ bytes) = let rest = starts cs bytes in (c == b) && rest

-- The loop over a chunk: the first offset, in steps of four from `i` on, where the signature stands.
unfoldable pub find_in : ℕ → ℕ → List ℕ → Option ℕ
find_in zero i chunk = none
find_in (suc left) i chunk =
    let later = find_in left (i + 4) chunk in
    if starts signature (drop i chunk) then some i else later

-- The bool of a function that returns false after an error.
abbrev pub holds : {A : Type 0} → Result A → Bool
holds (ok _) = true
holds (err _) = false

module _ {S : Type 0} (port : SwdPort S) where
  unfoldable pub verify_cb_at : ℕ → S → Bool × S
  verify_cb_at addr s =
      let (r, s') = mem_read_block port 4 addr s in
      elim r [ ok sig ↦ (starts signature sig, s') | err _ ↦ (false, s') ]

  -- The chunk at `addr`: the address of a control block in it.
  unfoldable pub search_chunk : ℕ → S → Option ℕ × S
  search_chunk addr s =
      let (r, s') = mem_read_block port 64 addr s in
      elim r [
        | err _ ↦ (none, s')
        | ok chunk ↦ elim (find_in 61 0 chunk) [
          | none ↦ (none, s')
          | some i ↦ (some (add32 addr i), s')
        ]
      ]

  -- The loop over the chunks. `others` is what the tasks that take the lock in between do to the
  -- port; `none` is without an end within the fuel.
  unfoldable pub search_chunks : (S → S) → ℕ → ℕ → World S → Option (Bool × World S)
  search_chunks others zero offset w = none
  search_chunks others (suc fuel) offset w =
      let start = if ltb 0 offset then others w.swd else w.swd in
      let (hit, s) = search_chunk (add32 w.rtt.search_start offset) start in
      let again = search_chunks others fuel (add32 offset 256) (record w { swd = s }) in
      if ltb offset w.rtt.search_size
      then (elim hit [
        | none ↦ again
        | some cb ↦
            some
              (true, record { rtt = record w.rtt { cb_addr = cb; cached_cb_addr = cb }; swd = s })
      ])
      else some (false, w)

  unfoldable pub search_control_block : (S → S) → ℕ → World S → Option (Bool × World S)
  search_control_block others fuel w =
      let cached = w.rtt.cached_cb_addr in
      let (valid, s) = verify_cb_at cached w.swd in
      if cached == 0
      then search_chunks others fuel 0 w
      else if valid
      then some (true, record { rtt = record w.rtt { cb_addr = cached }; swd = s })
      else search_chunks others fuel 0
          (record { rtt = record w.rtt { cached_cb_addr = 0 }; swd = s })

  -- `mem_read32(addr, &global)`: the global keeps its value after an error.
  unfoldable pub load : (Rtt → ℕ) → (ℕ → Rtt → Rtt) → Act (World S) (Unit {0})
  load addr put w =
      let (r, s) = mem_read32 port (addr w.rtt) w.swd in
      elim r [
        | ok v ↦ (ok tt, record { rtt = put v w.rtt; swd = s })
        | err e ↦ (err e, record w { swd = s })
      ]

  unfoldable pub read_down : Act (World S) (Unit {0})
  read_down w =
      if ltb 0 w.rtt.max_down
      then (load (λ g. add32 g.down0_base 0x04) (λ v g. record g { down0_buf_ptr = v })
            >> load (λ g. add32 g.down0_base 0x08) (λ v g. record g { down0_size = v }))
          w
      else pure tt w

  -- `if (g_max_up == 0) return false;` and the two bases.
  unfoldable pub set_bases : Act (World S) (Unit {0})
  set_bases w =
      let up0 = add32 w.rtt.cb_addr 0x18 in
      let down0 = (up0 + w.rtt.max_up * 24) % 2 ^ 32 in
      if w.rtt.max_up == 0
      then raise esp_fail w
      else (ok tt, record w { rtt = record w.rtt { up0_base = up0; down0_base = down0 } })

  -- An error stands for `return false`.
  unfoldable pub read_buffer_descriptors : Act (World S) (Unit {0})
  read_buffer_descriptors = do
    load (λ g. add32 g.cb_addr 0x10) (λ v g. record g { max_up = v })
    load (λ g. add32 g.cb_addr 0x14) (λ v g. record g { max_down = v })
    set_bases
    load (λ g. add32 g.up0_base 0x04) (λ v g. record g { up0_buf_ptr = v })
    load (λ g. add32 g.up0_base 0x08) (λ v g. record g { up0_size = v })
    read_down
    λ w.
        if ltb 0 w.rtt.up0_size && not (w.rtt.up0_buf_ptr == 0) then pure tt w else raise esp_fail w
