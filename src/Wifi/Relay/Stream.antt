-- ===== src/Wifi/Relay/Stream.antt =====
-- A stream of frames, cut anywhere, is taken apart into its messages.
use mathlib.Core.Path.{subst}
use mathlib.Core.List.{append_assoc, append-nil}
use esp32_daplink.Base.{
  ℕ, zero, suc, ◌+◌, ◌<◌, ◌≤◌, ◌≡◌, refl, sym, ap, ap₂, ◌∙◌, inl, inr, ◌==◌, ltb, leb, not, ◌&&◌,
  ◌||◌, Bool, true, false, if◌then◌else◌, if_elim, Option, none, some, List, [], ◌∷◌, ◌++◌, length,
  take, drop, get_or, length-append, take-length, drop-length, arith,
}
use esp32_daplink.Wifi.Packed.{packed}
use esp32_daplink.Wifi.Relay.{
  Call, Relay, framed, tcp_relay_dispatch, Round, again, leave, paired_round, waiting_round,
  process, bytes, tcp_relay_poll,
}
use esp32_daplink.Wifi.Relay.Frames.{
  IsMessage, AllMessages, stream, size_in, size_in-framed, length-framed, Incomplete, stream-Cut,
}

two_more : (n : ℕ) → 2 + n ≡ suc (suc n)
two_more n = omega arith

drop-framed : (m xs : List ℕ) → drop (2 + length m) (framed m ++ xs) ≡ xs
unfolding framed
drop-framed m xs = ap (λ n. drop n (framed m ++ xs)) (two_more (length m)) ∙ drop-length m xs

drop-two : (m xs : List ℕ) → drop 2 (framed m ++ xs) ≡ m ++ xs
unfolding framed
drop-two m xs = refl

third : (m xs : List ℕ) → 0 < length m → get_or (framed m ++ xs) 2 0 ≡ get_or m 0 0
unfolding framed
third [] xs filled = absurd (omega arith)
third (b ∷ m) xs filled = refl

Incomplete-short : (xs : List ℕ) → Incomplete xs → length xs < 4096
Incomplete-short xs (inl short) = omega arith
Incomplete-short xs (inr (filled, small, short)) = omega arith

-- A stream whose frames have all come has no start of a frame behind them.
at_end :
    (xs : List ℕ) (ms : List (List ℕ)) → AllMessages ms → Incomplete xs → xs ≡ stream ms → ms ≡ []
at_end xs [] messages cut e = refl
at_end xs (m ∷ ms) (message, messages) (inl short) e =
    absurd
      (omega (arith, short, ap length e, length-append (framed m) (stream ms), length-framed m))
at_end xs (m ∷ ms) (message, messages) (inr (filled, small, short)) e = absurd (
    omega (
      arith,
      short,
      ap length e,
      length-append (framed m) (stream ms),
      length-framed m,
      ap size_in e ∙ size_in-framed m (stream ms) message.small,
    ))

module _ (dap_queue flash_queue : Bool) where
  -- The calls for messages, one after the other, newest first.
  pub dispatched : List (List ℕ) → List Call → List Call
  dispatched [] calls = calls
  dispatched (m ∷ ms) calls = dispatched ms (tcp_relay_dispatch dap_queue flash_queue m ++ calls)

  paired_round-again :
      (m xs : List ℕ) (r : Relay)
      → IsMessage m
      → r.rx ≡ framed m ++ xs
      → paired_round dap_queue flash_queue r
        ≡ again
            (record r { rx = xs; calls = tcp_relay_dispatch dap_queue flash_queue m ++ r.calls })
  unfolding paired_round
  paired_round-again m xs r message e =
      let size : size_in r.rx ≡ length m = ap size_in e ∙ size_in-framed m xs message.small in
      let long : length r.rx ≡ 2 + length m + length xs =
        ap length e ∙ length-append (framed m) xs ∙ ap (λ n. n + length xs) (length-framed m) in
      let filled = message.filled in
      let small = message.small in
      let Ends : Round → Type 0 = λ R.
        R
        ≡ again
            (record r { rx = xs; calls = tcp_relay_dispatch dap_queue flash_queue m ++ r.calls }) in
      if_elim Ends (ltb (length r.rx) 2) _ _ (λ c. absurd (ground (arith, c, long)))
        (λ _.
          if_elim Ends ((size_in r.rx == 0) || ltb 4000 (size_in r.rx)) _ _
            (λ c. absurd (ground (arith, c, size, filled, small)))
            (λ _.
              if_elim Ends (ltb (length r.rx) (2 + size_in r.rx)) _ _
                (λ c. absurd (ground (arith, c, size, long)))
                (λ _.
                  if_elim Ends ((size_in r.rx == 1) && (get_or r.rx 2 0 == 2)) _ _
                    (λ c. absurd (
                      differ (
                        sym c
                        ∙ ap₂ (λ n b. (n == 1) && (b == 2)) size
                            (ap (λ l. get_or l 2 0) e ∙ third m xs filled)
                        ∙ message.stays)))
                    (λ _.
                      ap₂
                        (λ n l. again (record r {
                          rx = drop (2 + n) l;
                          calls =
                              tcp_relay_dispatch dap_queue flash_queue (take n (drop 2 l))
                              ++ r.calls;
                        }))
                        size e
                      ∙ ap₂
                          (λ rest taken. again (record r {
                            rx = rest;
                            calls = tcp_relay_dispatch dap_queue flash_queue taken ++ r.calls;
                          }))
                          (drop-framed m xs)
                          (ap (take (length m)) (drop-two m xs) ∙ take-length m xs)))))
    where
      differ : ¬ (true ≡ false)
      differ e = cc

  paired_round-leave :
      (r : Relay) → Incomplete r.rx → paired_round dap_queue flash_queue r ≡ leave r
  unfolding paired_round
  paired_round-leave r (inl short) =
      if_elim (λ R. R ≡ leave r) (ltb (length r.rx) 2) _ _ (λ _. refl)
        (λ c. absurd (ground (arith, c, short)))
  paired_round-leave r (inr (filled, small, short)) =
      if_elim (λ R. R ≡ leave r) (ltb (length r.rx) 2) _ _ (λ _. refl)
        (λ _.
          if_elim (λ R. R ≡ leave r) ((size_in r.rx == 0) || ltb 4000 (size_in r.rx)) _ _
            (λ c. absurd (ground (arith, c, filled, small)))
            (λ _.
              if_elim (λ R. R ≡ leave r) (ltb (length r.rx) (2 + size_in r.rx)) _ _ (λ _. refl)
                (λ c. absurd (ground (arith, c, short)))))

  process-rest :
      (n : ℕ) (p : List ℕ) (r : Relay)
      → Incomplete p
      → r.paired ≡ true
      → r.rx ≡ p
      → length r.rx ≤ n
      → process dap_queue flash_queue n r ≡ some (record r { rx = p })
  unfolding process
  process-rest zero p r cut paired e short =
      if_elim (λ o. o ≡ some (record r { rx = p })) (length r.rx == 0) _ _
        (λ _. ap (λ x. some (record r { rx = x })) e) (λ c. absurd (ground (arith, c, short)))
  process-rest (suc n) p r cut paired e short =
      let onto = λ (R : Round). elim R as (λ _. Option Relay) [
        | again r' ↦ process dap_queue flash_queue n r'
        | leave r' ↦ some r'
      ] in
      if_elim (λ o. o ≡ some (record r { rx = p })) (length r.rx == 0) _ _
        (λ _. ap (λ x. some (record r { rx = x })) e)
        (λ _.
          ap (λ b. onto (if b then paired_round dap_queue flash_queue r else waiting_round r))
            paired
          ∙ ap onto (paired_round-leave r (subst Incomplete (sym e) cut))
          ∙ ap (λ x. some (record r { rx = x })) e)

  process-stream :
      (n : ℕ) (ms : List (List ℕ)) (p : List ℕ) (r : Relay)
      → AllMessages ms
      → Incomplete p
      → r.paired ≡ true
      → r.rx ≡ stream ms ++ p
      → length r.rx ≤ n
      → process dap_queue flash_queue n r
        ≡ some (record r { rx = p; calls = dispatched ms r.calls })
  unfolding process dispatched
  process-stream n [] p r messages cut paired e short = process-rest n p r cut paired e short
  process-stream zero (m ∷ ms) p r messages cut paired e short = absurd (
      omega (
        arith,
        short,
        ap length e,
        length-append (framed m ++ stream ms) p,
        length-append (framed m) (stream ms),
        length-framed m,
      ))
  process-stream (suc n) (m ∷ ms) p r (message, messages) cut paired e short =
      let front : r.rx ≡ framed m ++ (stream ms ++ p) = e ∙ append_assoc (framed m) (stream ms) p in
      let long : length r.rx ≡ 2 + length m + length (stream ms ++ p) =
        ap length front
        ∙ length-append (framed m) (stream ms ++ p)
        ∙ ap (λ k. k + length (stream ms ++ p)) (length-framed m) in
      let onto = λ (R : Round). elim R as (λ _. Option Relay) [
        | again r' ↦ process dap_queue flash_queue n r'
        | leave r' ↦ some r'
      ] in
      if_elim (λ o. o ≡ some (record r { rx = p; calls = dispatched (m ∷ ms) r.calls }))
        (length r.rx == 0) _ _ (λ c. absurd (ground (arith, c, long)))
        (λ _.
          ap (λ b. onto (if b then paired_round dap_queue flash_queue r else waiting_round r))
            paired
          ∙ ap onto (paired_round-again m (stream ms ++ p) r message front)
          ∙ process-stream n ms p
              (record r {
                rx = stream ms ++ p;
                calls = tcp_relay_dispatch dap_queue flash_queue m ++ r.calls;
              })
              messages cut paired refl (omega (arith, short, long)))

  -- The polls that give these bytes one after the other.
  pub poll_all : List (List ℕ) → Relay → Option Relay
  poll_all [] r = some r
  poll_all (c ∷ chunks) r = elim (tcp_relay_poll dap_queue flash_queue (bytes c) r) [
    | none ↦ none
    | some r' ↦ poll_all chunks r'
  ]

  dispatched-append :
      (ms ns : List (List ℕ)) (calls : List Call)
      → dispatched (ms ++ ns) calls ≡ dispatched ns (dispatched ms calls)
  unfolding dispatched
  dispatched-append [] ns calls = refl
  dispatched-append (m ∷ ms) ns calls =
      dispatched-append ms ns (tcp_relay_dispatch dap_queue flash_queue m ++ calls)

  poll-open :
      (c : List ℕ) (r : Relay)
      → r.is_open ≡ true
      → length r.rx < 4096
      → tcp_relay_poll dap_queue flash_queue (bytes c) r
        ≡ process dap_queue flash_queue (length (r.rx ++ c)) (record r { rx = r.rx ++ c })
  unfolding tcp_relay_poll
  poll-open c r is_open room =
      let Runs : Option Relay → Type 0 =
        λ o. o ≡ process dap_queue flash_queue (length (r.rx ++ c)) (record r { rx = r.rx ++ c }) in
      if_elim Runs (not r.is_open) _ _ (λ e. cc)
        (λ _.
          if_elim Runs (leb 4096 (length r.rx)) _ _ (λ e. absurd (ground (arith, e, room)))
            (λ _. refl))

  -- When the client is paired and holds nothing but the start of a frame, and what it holds with the
  -- bytes of the next polls is a stream of frames, as tcp_relay_send_raw makes them, of messages of 1
  -- to 4000 bytes other than the notification that the peer is gone, then these polls, wherever they
  -- cut the stream, dispatch exactly these messages in their order and leave nothing in the buffer.
  pub tcp_relay_poll-stream :
      (chunks ms : List (List ℕ)) (r : Relay)
      → AllMessages ms
      → r.is_open ≡ true
      → r.paired ≡ true
      → Incomplete r.rx
      → r.rx ++ packed chunks ≡ stream ms
      → poll_all chunks r ≡ some (record r { rx = []; calls = dispatched ms r.calls })
  unfolding poll_all dispatched
  tcp_relay_poll-stream [] ms r messages is_open paired cut e =
      let all : r.rx ≡ stream ms = sym (append-nil r.rx) ∙ e in
      let none_left : ms ≡ [] = at_end r.rx ms messages cut all in
      ap₂ (λ x k. some (record r { rx = x; calls = dispatched k r.calls }))
        (all ∙ ap stream none_left) (sym none_left)
  tcp_relay_poll-stream (c ∷ chunks) ms r messages is_open paired cut e =
      let parts =
        stream-Cut (r.rx ++ c) (packed chunks) ms messages
          (append_assoc r.rx c (packed chunks) ∙ e) in
      let next : Relay = record r { rx = parts.rest; calls = dispatched parts.whole r.calls } in
      let after = λ (o : Option Relay). elim o as (λ _. Option Relay) [
        | none ↦ none
        | some r' ↦ poll_all chunks r'
      ] in
      ap after (
        poll-open c r is_open (Incomplete-short r.rx cut)
        ∙ process-stream (length (r.rx ++ c)) parts.whole parts.rest (record r { rx = r.rx ++ c })
            parts.whole_messages parts.incomplete paired parts.part (omega arith))
      ∙ tcp_relay_poll-stream chunks parts.left next parts.left_messages is_open paired
          parts.incomplete parts.onward
      ∙ ap (λ k. some (record r { rx = []; calls = k }))
          (sym (dispatched-append parts.whole parts.left r.calls)
            ∙ ap (λ k. dispatched k r.calls) (sym parts.all))
