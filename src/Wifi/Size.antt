-- ===== src/Wifi/Size.antt =====
-- `dap_request_size`, and that it does not depend on what comes after the command.
use esp32_daplink.Base.{
  ℕ, zero, suc, ◌+◌, ◌*◌, ◌/◌, ◌<<<◌, ◌≡◌, ◌≢◌, refl, ap, ◌∙◌, ◌≤◌, bit_and, bit_or, ◌==◌, ltb, leb,
  not, ◌||◌, Bool, true, false, if◌then◌else◌, List, [], ◌∷◌, ◌++◌, length, get_or, length-append,
  get_or-append_left, arith,
}

-- The commands of a fixed size.
unfoldable pub fixed_size : ℕ → ℕ
fixed_size command =
    if command == 0x00
    then 2
    else if command == 0x01
    then 3
    else if command == 0x02
    then 2
    else if command == 0x03
    then 1
    else if command == 0x04
    then 6
    else if command == 0x07
    then 1
    else if command == 0x08
    then 6
    else if command == 0x09
    then 3
    else if command == 0x0A
    then 1
    else if command == 0x10
    then 7
    else if command == 0x11
    then 5
    else if command == 0x13
    then 2
    else 0

unfoldable pub sequence_size : List ℕ → ℕ
sequence_size cmd =
    let bits = get_or cmd 1 0 in
    if ltb (length cmd) 2 then 0 else 2 + (if bits == 0 then 32 else (bits + 7) / 8)

-- A write and a match mask have four bytes behind the request.
unfoldable pub after_request : ℕ → ℕ → ℕ
after_request request pos =
    if (bit_and request 0x02 == 0) || not (bit_and request 0x20 == 0) then pos + 1 + 4 else pos + 1

-- The loop over the requests of a DAP_Transfer.
unfoldable pub transfers_size : ℕ → List ℕ → ℕ → ℕ
transfers_size zero cmd pos = pos
transfers_size (suc count) cmd pos =
    let rest = transfers_size count cmd (after_request (get_or cmd pos 0) pos) in
    if leb (length cmd) pos then 0 else rest

unfoldable pub transfer_size : List ℕ → ℕ
transfer_size cmd = if ltb (length cmd) 3 then 0 else transfers_size (get_or cmd 2 0) cmd 3

unfoldable pub block_size : List ℕ → ℕ
block_size cmd =
    let count = bit_or (get_or cmd 2 0) (get_or cmd 3 0 <<< 8) in
    if ltb (length cmd) 5
    then 0
    else if bit_and (get_or cmd 4 0) 0x02 == 0
    then 5 + count * 4
    else 5

-- 0 for a command that is unknown or cut off.
unfoldable pub dap_request_size : List ℕ → ℕ
dap_request_size [] = 0
dap_request_size (command ∷ args) =
    if command == 0x12
    then sequence_size (command ∷ args)
    else if command == 0x05
    then transfer_size (command ∷ args)
    else if command == 0x06
    then block_size (command ∷ args)
    else fixed_size command

-- A size that is refused for a command that is cut off is the same when the command goes on.
guarded :
    (b b' : Bool) (x y : ℕ)
    → (if b then 0 else x) ≢ 0
    → (b ≡ false → (b' ≡ false) × (y ≡ x))
    → (if b' then 0 else y) ≡ (if b then 0 else x)
guarded true b' x y known same = absurd (known refl)
guarded false b' x y known same =
    let (longer, eq) = same refl in ap (λ c. if c then 0 else y) longer ∙ eq

longer :
    (cmd rest : List ℕ) (n : ℕ)
    → ltb (length cmd) n ≡ false
    → (ltb (length (cmd ++ rest)) n ≡ false) × (n ≤ length cmd)
longer cmd rest n e = (ground (arith, length-append cmd rest), ground arith)

sequence_size-append :
    (cmd rest : List ℕ) → sequence_size cmd ≢ 0 → sequence_size (cmd ++ rest) ≡ sequence_size cmd
unfolding sequence_size
sequence_size-append cmd rest known =
    guarded (ltb (length cmd) 2) (ltb (length (cmd ++ rest)) 2) _ _ known (λ e.
      let (more, long) = longer cmd rest 2 e in
      (
        more,
        ap (λ bits. 2 + (if bits == 0 then 32 else (bits + 7) / 8))
            (get_or-append_left cmd rest 1 0 (omega arith)),
      ))

transfers_size-append :
    (count : ℕ) (cmd rest : List ℕ) (pos : ℕ)
    → transfers_size count cmd pos ≢ 0
    → transfers_size count (cmd ++ rest) pos ≡ transfers_size count cmd pos
unfolding transfers_size
transfers_size-append zero cmd rest pos known = refl
transfers_size-append (suc count) cmd rest pos known =
    guarded (leb (length cmd) pos) (leb (length (cmd ++ rest)) pos) _ _ known (λ e. (
      ground (arith, length-append cmd rest),
      ap (λ request. transfers_size count (cmd ++ rest) (after_request request pos))
            (get_or-append_left cmd rest pos 0 (ground arith))
          ∙ transfers_size-append count cmd rest (after_request (get_or cmd pos 0) pos) (λ z.
            known (
              ap
                (λ b.
                  if b then 0 else transfers_size count cmd (after_request (get_or cmd pos 0) pos))
                e
              ∙ z)),
    ))

transfer_size-append :
    (cmd rest : List ℕ) → transfer_size cmd ≢ 0 → transfer_size (cmd ++ rest) ≡ transfer_size cmd
unfolding transfer_size
transfer_size-append cmd rest known =
    guarded (ltb (length cmd) 3) (ltb (length (cmd ++ rest)) 3) _ _ known (λ e.
      let (more, long) = longer cmd rest 3 e in
      (
        more,
        ap (λ count. transfers_size count (cmd ++ rest) 3)
              (get_or-append_left cmd rest 2 0 (omega arith))
            ∙ transfers_size-append (get_or cmd 2 0) cmd rest 3 (λ z.
              known (ap (λ b. if b then 0 else transfers_size (get_or cmd 2 0) cmd 3) e ∙ z)),
      ))

block_size-append :
    (cmd rest : List ℕ) → block_size cmd ≢ 0 → block_size (cmd ++ rest) ≡ block_size cmd
unfolding block_size
block_size-append cmd rest known =
    guarded (ltb (length cmd) 5) (ltb (length (cmd ++ rest)) 5) _ _ known (λ e.
      let (more, long) = longer cmd rest 5 e in
      let low = get_or-append_left cmd rest 2 0 (omega arith) in
      let high = get_or-append_left cmd rest 3 0 (omega arith) in
      let request = get_or-append_left cmd rest 4 0 (omega arith) in
      (
        more,
        ap
              (λ r.
                if bit_and r 0x02 == 0
                then 5 + bit_or (get_or (cmd ++ rest) 2 0) (get_or (cmd ++ rest) 3 0 <<< 8) * 4
                else 5)
              request
            ∙ ap
                (λ l.
                  if bit_and (get_or cmd 4 0) 0x02 == 0
                  then 5 + bit_or l (get_or (cmd ++ rest) 3 0 <<< 8) * 4
                  else 5)
                low
            ∙ ap
                (λ h.
                  if bit_and (get_or cmd 4 0) 0x02 == 0
                  then 5 + bit_or (get_or cmd 2 0) (h <<< 8) * 4
                  else 5)
                high,
      ))

-- The size of a command that is known does not depend on what comes behind it.
pub dap_request_size-append :
    (cmd rest : List ℕ)
    → dap_request_size cmd ≢ 0
    → dap_request_size (cmd ++ rest) ≡ dap_request_size cmd
unfolding dap_request_size
dap_request_size-append [] rest known = absurd (known refl)
dap_request_size-append (command ∷ args) rest known =
    choice (command == 0x12) _ _ _ _ (sequence_size-append (command ∷ args) rest)
      (choice (command == 0x05) _ _ _ _ (transfer_size-append (command ∷ args) rest)
        (choice (command == 0x06) _ _ _ _ (block_size-append (command ∷ args) rest) (λ k. refl)))
      known
  where
    choice :
        (b : Bool) (x y x' y' : ℕ)
        → (x ≢ 0 → x' ≡ x)
        → (y ≢ 0 → y' ≡ y)
        → (if b then x else y) ≢ 0
        → (if b then x' else y') ≡ (if b then x else y)
    choice true x y x' y' f g k = f k
    choice false x y x' y' f g k = g k
