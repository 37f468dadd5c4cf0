-- ===== src/Wifi/Commands.antt =====
-- The commands of CMSIS-DAP as a host packs them, and what `dap_request_size` makes of them.
use mathlib.Core.List.{append_assoc}
use esp32_daplink.Base.{
  sym, ap₂, ℕ, ◌+◌, ◌*◌, ◌/◌, ◌%◌, ◌^◌, ◌≤◌, ◌<◌, ◌≡◌, refl, ap, ◌∙◌, ◌⊎◌, inl, inr, ltb, leb,
  if_elim, List, [], ◌∷◌, ◌++◌, length, get_or, drop, length-append, drop-length, get_or-drop,
  arith,
}
use esp32_daplink.Base.Bits.{bit_and-flag, bit_or-low}
use esp32_daplink.Wifi.Size.{
  fixed_size, sequence_size, after_request, transfers_size, transfer_size, block_size,
  dap_request_size,
}

-- Four bytes of data.
pub record Word : Type 0 where
  pub b0 : ℕ
  pub b1 : ℕ
  pub b2 : ℕ
  pub b3 : ℕ

-- A request of a DAP_Transfer: one that only reads a register; one with data, which writes them to a
-- register or to the match mask. The byte has RnW as bit 1, and the match mask as bit 5.
pub data Request : Type 0 where
  reads : ℕ → Request
  with_data : ℕ → Word → Request

-- The commands, with the bytes that they hold. A sequence has the number of its bits, from 1 to 256;
-- a block has the DAP index, the request, and the number of words to read or the words to write.
pub data Command : Type 0 where
  info connect swd_configure : ℕ → Command
  disconnect transfer_abort reset_target : Command
  host_status delay : ℕ → ℕ → Command
  swj_clock : Word → Command
  transfer_configure write_abort : ℕ → Word → Command
  swj_pins : ℕ → ℕ → Word → Command
  swj_sequence : ℕ → List ℕ → Command
  transfer : ℕ → List Request → Command
  read_block : ℕ → ℕ → ℕ → Command
  write_block : ℕ → ℕ → List Word → Command

abbrev word_bytes_of : Word → List ℕ
word_bytes_of w = w.b0 ∷ w.b1 ∷ w.b2 ∷ w.b3 ∷ []

abbrev pub words_bytes : List Word → List ℕ
words_bytes [] = []
words_bytes (w ∷ ws) = word_bytes_of w ++ words_bytes ws

abbrev pub request_bytes : Request → List ℕ
request_bytes (reads r) = r ∷ []
request_bytes (with_data r w) = r ∷ word_bytes_of w

abbrev pub requests_bytes : List Request → List ℕ
requests_bytes [] = []
requests_bytes (r ∷ rs) = request_bytes r ++ requests_bytes rs

abbrev pub command_bytes : Command → List ℕ
command_bytes (info id) = 0x00 ∷ id ∷ []
command_bytes (host_status type status) = 0x01 ∷ type ∷ status ∷ []
command_bytes (connect port) = 0x02 ∷ port ∷ []
command_bytes disconnect = 0x03 ∷ []
command_bytes (transfer_configure idle retries) = 0x04 ∷ idle ∷ word_bytes_of retries
command_bytes (transfer index requests) = 0x05 ∷ index ∷ length requests ∷ requests_bytes requests
command_bytes (read_block index request count) =
    0x06 ∷ index ∷ count % 256 ∷ count / 256 ∷ request ∷ []
command_bytes (write_block index request words) =
    0x06 ∷ index ∷ length words % 256 ∷ length words / 256 ∷ request ∷ words_bytes words
command_bytes transfer_abort = 0x07 ∷ []
command_bytes (write_abort index value) = 0x08 ∷ index ∷ word_bytes_of value
command_bytes (delay low high) = 0x09 ∷ low ∷ high ∷ []
command_bytes reset_target = 0x0A ∷ []
command_bytes (swj_pins output select wait) = 0x10 ∷ output ∷ select ∷ word_bytes_of wait
command_bytes (swj_clock hz) = 0x11 ∷ word_bytes_of hz
command_bytes (swj_sequence count bits) = 0x12 ∷ count % 256 ∷ bits
command_bytes (swd_configure config) = 0x13 ∷ config ∷ []

-- A read is no match-value read: bit 4 is not set.
abbrev pub IsRequest : Request → Type 0
IsRequest (reads r) = (r / 2 % 2 ≡ 1) × (r / 16 % 2 ≡ 0) × (r / 32 % 2 ≡ 0)
IsRequest (with_data r w) = (r / 2 % 2 ≡ 0) ⊎ (r / 32 % 2 ≡ 1)

abbrev pub AllRequests : List Request → Type 0
AllRequests [] = Unit {0}
AllRequests (r ∷ rs) = IsRequest r × AllRequests rs

-- The bytes of a sequence are as few as hold its bits; a block has fewer than 2^16 words.
abbrev pub IsCommand : Command → Type 0
IsCommand (swj_sequence count bits) =
    (1 ≤ count) × (count ≤ 256) × (count ≤ 8 * length bits) × (8 * length bits < count + 8)
IsCommand (transfer index requests) = (length requests < 256) × AllRequests requests
IsCommand (read_block index request count) = (request / 2 % 2 ≡ 1) × (count < 2 ^ 16)
IsCommand (write_block index request words) = (request / 2 % 2 ≡ 0) × (length words < 2 ^ 16)
IsCommand _ = Unit {0}

sequence-sized :
    (count : ℕ) (bits : List ℕ)
    → IsCommand (swj_sequence count bits)
    → sequence_size (0x12 ∷ count % 256 ∷ bits) ≡ length (0x12 ∷ count % 256 ∷ bits)
unfolding sequence_size
sequence-sized count bits (least, most, room, tight) = ground (arith, least, most, room, tight)

length-words : (ws : List Word) → length (words_bytes ws) ≡ 4 * length ws
length-words [] = omega arith
length-words (w ∷ ws) = omega (arith, length-words ws)

read-sized :
    (index request count : ℕ)
    → IsCommand (read_block index request count)
    → block_size (0x06 ∷ index ∷ count % 256 ∷ count / 256 ∷ request ∷ []) ≡ 5
unfolding block_size
read-sized index request count (rnw, small) = ground (arith, rnw, bit_and-flag 1 request)

write-sized :
    (index request : ℕ) (words : List Word)
    → IsCommand (write_block index request words)
    → block_size (command_bytes (write_block index request words))
      ≡ length (command_bytes (write_block index request words))
unfolding block_size
write-sized index request words (rnw, small) = ground (
  arith,
  rnw,
  bit_and-flag 1 request,
  length-words words,
  bit_or-low 8 (length words % 256) (length words / 256) (omega arith),
)

after_reads : (r pos : ℕ) → IsRequest (reads r) → after_request r pos ≡ pos + 1
unfolding after_request
after_reads r pos (rnw, no_match, no_mask) =
    ground (arith, rnw, no_mask, bit_and-flag 1 r, bit_and-flag 5 r)

after_data : (r pos : ℕ) (w : Word) → IsRequest (with_data r w) → after_request r pos ≡ pos + 5
unfolding after_request
after_data r pos w (inl write) = ground (arith, write, bit_and-flag 1 r)
after_data r pos w (inr mask) = ground (arith, mask, bit_and-flag 5 r)

transfers-sized :
    (rs : List Request) (front cmd : List ℕ) (pos : ℕ)
    → cmd ≡ front ++ requests_bytes rs
    → pos ≡ length front
    → AllRequests rs
    → transfers_size (length rs) cmd pos ≡ length cmd
unfolding transfers_size
transfers-sized [] front cmd pos e at all = omega (arith, ap length e, length-append front [], at)
transfers-sized (reads r ∷ rs) front cmd pos e at (h, all) =
    let long = ap length e ∙ length-append front (r ∷ requests_bytes rs) in
    let byte : get_or cmd pos 0 ≡ r =
      get_or-drop cmd pos 0 pos 0 (omega arith)
      ∙ ap₂ (λ p l. get_or (drop p l) 0 0) at e
      ∙ ap (λ l. get_or l 0 0) (drop-length front (r ∷ requests_bytes rs)) in
    if_elim (λ x. x ≡ length cmd) (leb (length cmd) pos) 0 _
      (λ over. absurd (ground (arith, over, long, at)))
      (λ _.
        ap (λ q. transfers_size (length rs) cmd (after_request q pos)) byte
        ∙ ap (transfers_size (length rs) cmd) (after_reads r pos h)
        ∙ transfers-sized rs (front ++ (r ∷ [])) cmd (pos + 1)
            (e ∙ sym (append_assoc front (r ∷ []) (requests_bytes rs)))
            (omega (arith, at, length-append front (r ∷ []))) all)
transfers-sized (with_data r w ∷ rs) front cmd pos e at (h, all) =
    let now = r ∷ word_bytes_of w in
    let long = ap length e ∙ length-append front (now ++ requests_bytes rs) in
    let byte : get_or cmd pos 0 ≡ r =
      get_or-drop cmd pos 0 pos 0 (omega arith)
      ∙ ap₂ (λ p l. get_or (drop p l) 0 0) at e
      ∙ ap (λ l. get_or l 0 0) (drop-length front (now ++ requests_bytes rs)) in
    if_elim (λ x. x ≡ length cmd) (leb (length cmd) pos) 0 _
      (λ over. absurd (ground (arith, over, long, at)))
      (λ _.
        ap (λ q. transfers_size (length rs) cmd (after_request q pos)) byte
        ∙ ap (transfers_size (length rs) cmd) (after_data r pos w h)
        ∙ transfers-sized rs (front ++ now) cmd (pos + 5)
            (e ∙ sym (append_assoc front now (requests_bytes rs)))
            (omega (arith, at, length-append front now)) all)

transfer-sized :
    (index : ℕ) (rs : List Request)
    → AllRequests rs
    → transfer_size (command_bytes (transfer index rs)) ≡ length (command_bytes (transfer index rs))
unfolding transfer_size
transfer-sized index rs all =
    let cmd : List ℕ = command_bytes (transfer index rs) in
    if_elim (λ x. x ≡ length cmd) (ltb (length cmd) 3) 0 (transfers_size (length rs) cmd 3)
      (λ short. absurd (ground (arith, short)))
      (λ _. transfers-sized rs (0x05 ∷ index ∷ length rs ∷ []) cmd 3 refl refl all)

-- The size of a command is the number of its bytes.
pub command-sized :
    (c : Command) → IsCommand c → dap_request_size (command_bytes c) ≡ length (command_bytes c)
unfolding dap_request_size fixed_size
command-sized (info id) h = refl
command-sized (host_status type status) h = refl
command-sized (connect port) h = refl
command-sized disconnect h = refl
command-sized (transfer_configure idle retries) h = refl
command-sized (transfer index requests) h = transfer-sized index requests h.1
command-sized (read_block index request count) h = read-sized index request count h
command-sized (write_block index request words) h = write-sized index request words h
command-sized transfer_abort h = refl
command-sized (write_abort index value) h = refl
command-sized (delay low high) h = refl
command-sized reset_target h = refl
command-sized (swj_pins output select wait) h = refl
command-sized (swj_clock hz) h = refl
command-sized (swj_sequence count bits) h = sequence-sized count bits h
command-sized (swd_configure config) h = refl

pub command-filled : (c : Command) → 0 < length (command_bytes c)
command-filled (info id) = omega arith
command-filled (host_status type status) = omega arith
command-filled (connect port) = omega arith
command-filled disconnect = omega arith
command-filled (transfer_configure idle retries) = omega arith
command-filled (transfer index requests) = omega arith
command-filled (read_block index request count) = omega arith
command-filled (write_block index request words) = omega arith
command-filled transfer_abort = omega arith
command-filled (write_abort index value) = omega arith
command-filled (delay low high) = omega arith
command-filled reset_target = omega arith
command-filled (swj_pins output select wait) = omega arith
command-filled (swj_clock hz) = omega arith
command-filled (swj_sequence count bits) = omega arith
command-filled (swd_configure config) = omega arith
