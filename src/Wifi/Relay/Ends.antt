-- ===== src/Wifi/Relay/Ends.antt =====
-- The loop over the buffer ends, whatever the relay sends.
use esp32_daplink.Base.{
  ℕ, zero, suc, ◌+◌, ◌<◌, ◌≤◌, ◌≡◌, refl, ◌==◌, ltb, leb, not, ◌&&◌, ◌||◌, Bool, false,
  if◌then◌else◌, if_elim, Option, some, List, ◌++◌, Returns, length, drop, get_or, bit_or, ◌<<<◌,
  length-drop, arith,
}
use esp32_daplink.Wifi.Relay.{
  Relay, tcp_relay_disconnect, Round, again, leave, pair_up, waiting_round, paired_round, process,
  Received, bytes, closed, would_block, failed, tcp_relay_poll,
}

-- A round that goes on leaves fewer bytes than `n`.
abbrev Shrinks : ℕ → Round → Type 0
Shrinks n (again r) = length r.rx < n
Shrinks n (leave r) = Unit {0}

drop-shrinks : (k : ℕ) (xs : List ℕ) → 0 < k → 0 < length xs → length (drop k xs) < length xs
drop-shrinks k xs some_taken filled = omega (arith, length-drop k xs)

pair_up-Shrinks : (r : Relay) → Shrinks (length r.rx) (pair_up r)
unfolding pair_up
pair_up-Shrinks r =
    if_elim (Shrinks (length r.rx)) (ltb (length r.rx) 4) _ _ (λ _. tt)
      (λ long.
        if_elim (Shrinks (length r.rx)) (ltb 45 (get_or r.rx 3 0)) _ _ (λ _. tt)
          (λ _.
            if_elim (Shrinks (length r.rx)) (ltb (length r.rx) (4 + get_or r.rx 3 0)) _ _ (λ _. tt)
              (λ _.
                if_elim (λ (r' : Relay). length r'.rx < length r.rx) _ _ _ (λ _. shorter long)
                  (λ _. shorter long))))
  where
    shorter : ltb (length r.rx) 4 ≡ false → length (drop (4 + get_or r.rx 3 0) r.rx) < length r.rx
    shorter long = drop-shrinks (4 + get_or r.rx 3 0) r.rx (omega arith) (ground (arith, long))

waiting_round-Shrinks : (r : Relay) → 0 < length r.rx → Shrinks (length r.rx) (waiting_round r)
unfolding waiting_round
waiting_round-Shrinks r filled =
    let shorter = drop-shrinks 1 r.rx (omega arith) filled in
    if_elim (Shrinks (length r.rx)) (get_or r.rx 0 0 == 0) _ _ (λ _. shorter)
      (λ _.
        if_elim (Shrinks (length r.rx)) (get_or r.rx 0 0 == 1) _ _ (λ _. pair_up-Shrinks r)
          (λ _.
            if_elim (Shrinks (length r.rx)) (get_or r.rx 0 0 == 2) _ _ (λ _. shorter) (λ _. tt)))

module _ (dap_queue flash_queue : Bool) where
  paired_round-Shrinks :
      (r : Relay) → 0 < length r.rx → Shrinks (length r.rx) (paired_round dap_queue flash_queue r)
  unfolding paired_round
  paired_round-Shrinks r filled =
      let msg_len : ℕ = bit_or (get_or r.rx 0 0 <<< 8) (get_or r.rx 1 0) in
      let shorter = drop-shrinks (2 + msg_len) r.rx (omega arith) filled in
      if_elim (Shrinks (length r.rx)) (ltb (length r.rx) 2) _ _ (λ _. tt)
        (λ _.
          if_elim (Shrinks (length r.rx)) ((msg_len == 0) || ltb 4000 msg_len) _ _ (λ _. tt)
            (λ _.
              if_elim (Shrinks (length r.rx)) (ltb (length r.rx) (2 + msg_len)) _ _ (λ _. tt)
                (λ _.
                  if_elim (Shrinks (length r.rx)) ((msg_len == 1) && (get_or r.rx 2 0 == 2)) _ _
                    (λ _. shorter) (λ _. shorter))))

  process-Returns :
      (n : ℕ) (r : Relay) → length r.rx ≤ n → Returns (process dap_queue flash_queue n r)
  unfolding process
  process-Returns zero r short =
      if_elim Returns (length r.rx == 0) _ _ (λ _. (_, refl))
        (λ e. absurd (ground (arith, e, short)))
  process-Returns (suc n) r short =
      if_elim Returns (length r.rx == 0) _ _ (λ _. (_, refl))
        (λ e.
          by_round (if r.paired then paired_round dap_queue flash_queue r else waiting_round r)
            (if_elim (Shrinks (length r.rx)) r.paired (paired_round dap_queue flash_queue r)
              (waiting_round r) (λ _. paired_round-Shrinks r (ground (arith, e)))
              (λ _. waiting_round-Shrinks r (ground (arith, e))))
            (λ r' shorter. process-Returns n r' (omega (arith, short, shorter))))
    where
      by_round :
          (R : Round)
          → Shrinks (length r.rx) R
          → ((r' : Relay)
              → length r'.rx < length r.rx
              → Returns (process dap_queue flash_queue n r'))
          → Returns (elim R as (λ _. Option Relay) [
            | again r' ↦ process dap_queue flash_queue n r'
            | leave r' ↦ some r'
          ])
      by_round (again r') shorter ends = ends r' shorter
      by_round (leave r') shorter ends = (_, refl)

  -- A poll ends in every state and whatever it receives: the loop over the buffer is left after no
  -- more rounds than the buffer has bytes.
  pub tcp_relay_poll-Returns :
      (received : Received) (r : Relay) → Returns (tcp_relay_poll dap_queue flash_queue received r)
  unfolding tcp_relay_poll
  tcp_relay_poll-Returns received r =
      if_elim Returns (not r.is_open) (some r) _ (λ _. (_, refl))
        (λ _.
          if_elim Returns (leb 4096 (length r.rx)) (some _) _ (λ _. (_, refl))
            (λ _. by_received received))
    where
      by_received :
          (received : Received)
          → Returns (elim received as (λ _. Option Relay) [
            | bytes xs ↦
                process dap_queue flash_queue (length (r.rx ++ xs)) (record r { rx = r.rx ++ xs })
            | closed ↦ some (tcp_relay_disconnect r)
            | would_block ↦ process dap_queue flash_queue (length r.rx) r
            | failed ↦ some (tcp_relay_disconnect r)
          ])
      by_received (bytes xs) =
          process-Returns (length (r.rx ++ xs)) (record r { rx = r.rx ++ xs }) (omega arith)
      by_received closed = (_, refl)
      by_received would_block = process-Returns (length r.rx) r (omega arith)
      by_received failed = (_, refl)
