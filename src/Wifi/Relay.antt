-- ===== src/Wifi/Relay.antt =====
-- The client of the TCP relay: `tcp_relay_send_raw`, `tcp_relay_dispatch`, `tcp_relay_disconnect` and
-- `tcp_relay_poll`.
pub mod Frames
pub mod Stream
pub mod Ends
use esp32_daplink.Base.{
  ℕ, zero, suc, ◌+◌, ◌==◌, ltb, leb, not, ◌&&◌, ◌||◌, Bool, true, false, if◌then◌else◌, bit_and,
  bit_or, u32, ◌<<<◌, ◌>>>◌, Option, none, some, List, [], ◌∷◌, ◌++◌, length, take, drop, get_or,
}

pub record FlashMsg : Type 0 where
  pub cmd : ℕ
  pub address : ℕ
  pub bytes : List ℕ

-- What the client calls or stores for other tasks: a message for a queue, the bytes of a buffer that
-- is then ready, the parts of the hole punch and of the serial bridge, and the two writes of a frame.
pub data Call : Type 0 where
  dap_message serial_bytes rtt_bytes punch_message sent_frame : List ℕ → Call
  flash_message : FlashMsg → Call
  punch_start : List ℕ → ℕ → Call
  punch_reset : Call
  set_uart_paused : Bool → Call

-- The state of the TCP relay, with the calls newest first; `is_open` is `g_tcp_relay_fd >= 0`, `rx` is
-- `g_tcp_rx_buf` up to `g_tcp_rx_len`, `serial_client` is `g_serial_client_fd >= 0`.
pub record Relay : Type 0 where
  pub is_open : Bool
  pub connected : Bool
  pub paired : Bool
  pub serial_client : Bool
  pub rx : List ℕ
  pub calls : List Call

abbrev call : Call → Relay → Relay
call c r = record r { calls = c ∷ r.calls }

-- The length in two bytes, and the message.
unfoldable pub framed : List ℕ → List ℕ
framed message = bit_and (length message >>> 8) 0xFF ∷ bit_and (length message) 0xFF ∷ message

unfoldable pub tcp_relay_send_raw : List ℕ → Relay → Relay
tcp_relay_send_raw message r =
    if not r.is_open || not r.paired || (length message == 0)
    then r
    else call (sent_frame (framed message)) r

unfoldable pub tcp_relay_disconnect : Relay → Relay
tcp_relay_disconnect r =
    let closed = record r { is_open = false; connected = false; paired = false; rx = [] } in
    if r.serial_client then closed else call (set_uart_paused false) closed

-- A message whose data are cut off has none, and the address 0.
unfoldable pub flash_of : List ℕ → FlashMsg
flash_of payload =
    let cmd = get_or payload 0 0 in
    if (cmd == 2) && leb 5 (length payload)
    then record {
      cmd = cmd;
      address = u32 (
          bit_or
            (bit_or (bit_or (get_or payload 1 0) (get_or payload 2 0 <<< 8))
              (get_or payload 3 0 <<< 16))
            (get_or payload 4 0 <<< 24));
      bytes = drop 5 payload;
    }
    else record { cmd = cmd; address = 0; bytes = [] }

-- The loop goes on, or it is left.
pub data Round : Type 0 where
  again leave : Relay → Round

-- The peer is gone: from its notification on.
abbrev unpair : List ℕ → Relay → Relay
unpair rest r = record r {
  paired = false;
  rx = rest;
  calls = set_uart_paused false ∷ punch_reset ∷ r.calls;
}

unfoldable pub pair_up : Relay → Round
pair_up r =
    let ip_len = get_or r.rx 3 0 in
    let peer_ip = take ip_len (drop 4 r.rx) in
    let peer_port = bit_or (get_or r.rx 1 0 <<< 8) (get_or r.rx 2 0) in
    let pairs = record r {
      paired = true;
      rx = drop (4 + ip_len) r.rx;
      calls = set_uart_paused true ∷ r.calls;
    } in
    if ltb (length r.rx) 4
    then leave r
    else if ltb 45 ip_len
    then leave (record r { rx = [] })
    else if ltb (length r.rx) (4 + ip_len)
    then leave r
    else again
        (if get_or peer_ip 0 0 == 0 then pairs else call (punch_start peer_ip peer_port) pairs)

unfoldable pub waiting_round : Relay → Round
waiting_round r =
    let status = get_or r.rx 0 0 in
    if status == 0
    then again (record r { rx = drop 1 r.rx })
    else if status == 1
    then pair_up r
    else if status == 2
    then again (unpair (drop 1 r.rx) r)
    else leave (tcp_relay_disconnect r)

-- What `recv` gives: bytes, one at least and no more than there is space for; the end of the
-- stream; an error that says to wait; or another.
pub data Received : Type 0 where
  bytes : List ℕ → Received
  closed would_block failed : Received

-- `dap_queue` and `flash_queue` say that these have been created.
module _ (dap_queue flash_queue : Bool) where
  -- The calls for a message: one or none.
  unfoldable pub tcp_relay_dispatch : List ℕ → List Call
  tcp_relay_dispatch [] = []
  tcp_relay_dispatch (channel ∷ payload) =
      if (channel == 0) && leb (length payload) 1500 && dap_queue
      then dap_message payload ∷ []
      else if (channel == 1) && leb (length payload) 256
      then serial_bytes payload ∷ []
      else if (channel == 2) && leb (length payload) 256
      then rtt_bytes payload ∷ []
      else if (channel == 3) && leb 1 (length payload) && flash_queue
      then flash_message (flash_of payload) ∷ []
      else if (channel == 4) && leb 1 (length payload)
      then punch_message payload ∷ []
      else []

  unfoldable pub paired_round : Relay → Round
  paired_round r =
      let msg_len = bit_or (get_or r.rx 0 0 <<< 8) (get_or r.rx 1 0) in
      let rest = drop (2 + msg_len) r.rx in
      if ltb (length r.rx) 2
      then leave r
      else if (msg_len == 0) || ltb 4000 msg_len
      then leave (record r { rx = [] })
      else if ltb (length r.rx) (2 + msg_len)
      then leave r
      else if (msg_len == 1) && (get_or r.rx 2 0 == 2)
      then again (unpair rest r)
      else again (record r {
        rx = rest;
        calls = tcp_relay_dispatch (take msg_len (drop 2 r.rx)) ++ r.calls;
      })

  -- Every round that goes on takes a byte at least, so that their number is enough fuel.
  unfoldable pub process : ℕ → Relay → Option Relay
  process zero r = if length r.rx == 0 then some r else none
  process (suc n) r =
      let rest = process n in
      if length r.rx == 0
      then some r
      else elim (if r.paired then paired_round r else waiting_round r) [
        | again r' ↦ rest r'
        | leave r' ↦ some r'
      ]

  unfoldable pub tcp_relay_poll : Received → Relay → Option Relay
  tcp_relay_poll received r =
      if not r.is_open
      then some r
      else if leb 4096 (length r.rx)
      then some (record r { rx = [] })
      else elim received [
        | bytes xs ↦ process (length (r.rx ++ xs)) (record r { rx = r.rx ++ xs })
        | closed ↦ some (tcp_relay_disconnect r)
        | would_block ↦ process (length r.rx) r
        | failed ↦ some (tcp_relay_disconnect r)
      ]
