-- ===== src/Swd/Keeps.antt =====
-- What the bus operations do to the state: pin events on the trace, and how many requests are made.
use esp32_daplink.Base.{
  ℕ, zero, suc, bit_or, ◌<<<◌, ◌+◌, ◌*◌, ◌≤◌, ◌≢◌, ◌||◌, ◌/◌, ◌%◌, ◌^◌, inl, inr, ◌≡◌, refl, ap,
  Bool, true, false, [], ◌∷◌, ◌++◌, ltb, ◌==◌, if◌then◌else◌, arith, Bool-cases,
}
use esp32_daplink.Swd.Wire.{
  Pin, digit, clk_low, clk_high, out_low, out_high, drive, release, parity32, Trace, Target, Swd,
  emit, set_swd_out, clock_cycle, clock_cycles, write_bits_from, write_bits, read_bits_from,
  read_bits, request_phase, turn_back, settle, clear_sticky, write_data, idle, make_request, ack_ok,
  ack_wait, ack_fault,
}
use esp32_daplink.Esp.{is_ok}
use esp32_daplink.Swd.Transfer.{
  Ended, transfer_loop, read_phase, transfer_end, transfer, abort_loop, write_abort,
}
use esp32_daplink.Swd.Retry.{transfer_loop_rule}

-- The requests in a trace: each releases the line once.
unfoldable pub requests : Trace → ℕ
requests [] = 0
requests (release ∷ trace) = suc (requests trace)
requests (p ∷ trace) = requests trace

-- `after` is `before` with some pin events more; `left` requests of the `budget` are still to use.
pub record Extends (budget left : ℕ) (before after : Swd) : Type 0 where
  pub added : Trace
  pub same : after ≡ record before { trace = added ++ before.trace }
  pub few : requests added + left ≤ budget

abbrev ended : ℕ → Bool
ended ack = (ack == ack_ok) || (ack == ack_fault)

Extends-refl : {n : ℕ} (s : Swd) → Extends n n s s
unfolding requests
Extends-refl s = record { added = []; same = refl; few = omega arith }

less_lem : (B m n k : ℕ) → m ≤ n → k + n ≤ B → k + m ≤ B
less_lem B m n k h g = omega arith

Extends-less : {B m n : ℕ} {s t : Swd} → m ≤ n → Extends B n s t → Extends B m s t
Extends-less {B} {m} {n} h e = record {
  added = e.added;
  same = e.same;
  few = less_lem B m n (requests e.added) h e.few;
}

Extends-emit :
    {B n : ℕ} {s t : Swd} (p : Pin) → p ≢ release → Extends B n s t → Extends B n s (emit p t)
unfolding requests
Extends-emit clk_low h e = record {
  added = clk_low ∷ e.added;
  same = ap (emit clk_low) e.same;
  few = e.few;
}
Extends-emit clk_high h e = record {
  added = clk_high ∷ e.added;
  same = ap (emit clk_high) e.same;
  few = e.few;
}
Extends-emit out_low h e = record {
  added = out_low ∷ e.added;
  same = ap (emit out_low) e.same;
  few = e.few;
}
Extends-emit out_high h e = record {
  added = out_high ∷ e.added;
  same = ap (emit out_high) e.same;
  few = e.few;
}
Extends-emit drive h e = record {
  added = drive ∷ e.added;
  same = ap (emit drive) e.same;
  few = e.few;
}
Extends-emit release h e = absurd (h refl)

one_more_lem : (B n k : ℕ) → k + suc n ≤ B → suc k + n ≤ B
one_more_lem B n k h = omega arith

Extends-release : {B n : ℕ} {s t : Swd} → Extends B (suc n) s t → Extends B n s (emit release t)
unfolding requests
Extends-release {B} {n} e = record {
  added = release ∷ e.added;
  same = ap (emit release) e.same;
  few = one_more_lem B n (requests e.added) e.few;
}

out-Extends : {B l : ℕ} {s t : Swd} (b : Bool) → Extends B l s t → Extends B l s (set_swd_out b t)
out-Extends true e = Extends-emit out_high (cc) e
out-Extends false e = Extends-emit out_low (cc) e

cycle-Extends : {B l : ℕ} {s t : Swd} → Extends B l s t → Extends B l s (clock_cycle t)
unfolding clock_cycle
cycle-Extends e = Extends-emit clk_high (cc) (Extends-emit clk_low (cc) e)

cycles-Extends : (n : ℕ) {B l : ℕ} {s t : Swd} → Extends B l s t → Extends B l s (clock_cycles n t)
unfolding clock_cycles
cycles-Extends zero e = e
cycles-Extends (suc n) e = cycles-Extends n (cycle-Extends e)

write_bits_from-Extends :
    (v i n : ℕ) {B l : ℕ} {s t : Swd} → Extends B l s t → Extends B l s (write_bits_from v i n t)
unfolding write_bits_from
write_bits_from-Extends v i zero e = e
write_bits_from-Extends v i (suc n) e =
    write_bits_from-Extends v (i + 1) n
      (Extends-emit clk_high (cc) (Extends-emit clk_low (cc) (out-Extends (v / 2 ^ i % 2 == 1) e)))

write_bits-Extends :
    (v n : ℕ) {B l : ℕ} {s t : Swd} → Extends B l s t → Extends B l s (write_bits v n t)
unfolding write_bits
write_bits-Extends v n e = write_bits_from-Extends v 0 n e

idle-Extends : {B l : ℕ} {s t : Swd} → Extends B l s t → Extends B l s (idle t)
unfolding idle
idle-Extends {B = B} {l = l} {s = s} {t = t} e =
    elim (ltb 0 t.idle_cycles)
      as (λ b.
        Extends B l s
          (set_swd_out true (if b then clock_cycles t.idle_cycles (set_swd_out false t) else t))) [
            | true ↦
                Extends-emit out_high (cc)
                  (cycles-Extends t.idle_cycles (Extends-emit out_low (cc) e))
            | false ↦ Extends-emit out_high (cc) e
          ]

write_data-Extends :
    (v : ℕ) {B l : ℕ} {s t : Swd} → Extends B l s t → Extends B l s (write_data v t)
unfolding write_data
write_data-Extends v {t = t} e = idle-Extends (
    write_bits-Extends (parity32 v) 1
      (write_bits-Extends v 32 (Extends-emit drive (cc) (cycle-Extends e))))

turn_back-Extends : {B l : ℕ} {s t : Swd} → Extends B l s t → Extends B l s (turn_back t)
unfolding turn_back
turn_back-Extends {t = t} e =
    Extends-emit out_high (cc) (Extends-emit drive (cc) (cycles-Extends t.turnaround e))

settle-Extends : {B l : ℕ} {s t : Swd} → Extends B l s t → Extends B l s (settle t)
unfolding settle
settle-Extends {B = B} {l = l} {s = s} {t = t} e =
    elim t.data_phase as (λ b. Extends B l s (turn_back (if b then clock_cycles 33 t else t))) [
      | true ↦ turn_back-Extends (cycles-Extends 33 e)
      | false ↦ turn_back-Extends e
    ]

module _ (target : Target) where
  read_bits_from-Extends :
      (v i n : ℕ) {B l : ℕ} {s t : Swd}
      → Extends B l s t
      → Extends B l s (read_bits_from target v i n t).1
  unfolding read_bits_from
  read_bits_from-Extends v i zero e = e
  read_bits_from-Extends v i (suc n) {s = s} {t = t} e =
      read_bits_from-Extends (bit_or v (digit (target (clk_low ∷ t.trace)) <<< i)) (i + 1) n
        (Extends-emit clk_high (cc) (Extends-emit clk_low (cc) e))

  read_bits-Extends :
      (n : ℕ) {B l : ℕ} {s t : Swd} → Extends B l s t → Extends B l s (read_bits target n t).1
  unfolding read_bits
  read_bits-Extends n e = read_bits_from-Extends 0 0 n e

  request_phase-Extends :
      (rq : ℕ) {B l : ℕ} {s t : Swd}
      → Extends B (suc l) s t
      → Extends B l s (request_phase target rq t).1
  unfolding request_phase
  request_phase-Extends rq e =
      read_bits-Extends 3
        (cycle-Extends (Extends-release (write_bits-Extends rq 8 (Extends-emit drive (cc) e))))

  clear_sticky-Extends :
      {B l : ℕ} {s t : Swd} → Extends B (suc l) s t → Extends B l s (clear_sticky target t)
  unfolding clear_sticky
  clear_sticky-Extends e = write_data-Extends 0x1E (request_phase-Extends _ e)

  transfer_loop-Extends :
      (rq r f : ℕ) {B : ℕ} {s t : Swd}
      → Extends B (r + 2 * f + 1) s t
      → Extends B 0 s (transfer_loop target rq r f t).after
  transfer_loop-Extends rq r f {B = B} {s = s} {t = t} e =
      transfer_loop_rule target rq (λ r f x. Extends B (r + 2 * f + 1) s x)
        (λ x. Extends B 0 s x.after)
        (λ r f x k _. settle-Extends (request_phase-Extends rq (Extends-less (omega arith) k)))
        (λ r f x k _.
          clear_sticky-Extends
            (settle-Extends (request_phase-Extends rq (Extends-less (omega arith) k))))
        (λ r f x k _. request_phase-Extends rq (Extends-less (omega arith) k))
        (λ r f x k _ _ _. settle-Extends (request_phase-Extends rq (Extends-less (omega arith) k)))
        r f t e

  read_phase-Extends :
      (ack : ℕ) {B l : ℕ} {s t : Swd} → Extends B l s t → Extends B l s (read_phase target ack t).1
  unfolding read_phase
  read_phase-Extends ack {t = t} e =
      let done =
        idle-Extends (
          Extends-emit drive (cc) (cycle-Extends (read_bits-Extends 1 (read_bits-Extends 32 e)))) in
      elim (Bool-cases
        ((read_bits target 1 (read_bits target 32 t).1).0 == parity32 (read_bits target 32 t).0)) [
          | inl good ↦ rw good done
          | inr wrong ↦ rw wrong done
        ]

  transfer_end-Extends :
      (read : Bool) (v : ℕ) (x : Ended) {B l : ℕ} {s : Swd}
      → Extends B l s x.after
      → Extends B l s (transfer_end target read v x).1
  unfolding transfer_end
  transfer_end-Extends read v x e = elim (Bool-cases (is_ok x.error)) [
    | inr err ↦ rw err e
    | inl good ↦ rw good (elim (Bool-cases read) [
      | inl r ↦ rw r (read_phase-Extends x.ack e)
      | inr w ↦ rw w (write_data-Extends v e)
    ])
  ]

  -- A transfer, with any target and any result, only adds pin events: it changes nothing else of
  -- the state, and it makes at most `wait_retry` + 3 requests, the write to ABORT included.
  pub transfer-Extends :
      (ap read : Bool) (addr value : ℕ) (s : Swd)
      → Extends (s.wait_retry + 3) 0 s (transfer target ap read addr value s).1
  unfolding transfer
  transfer-Extends ap read addr value s =
      transfer_end-Extends read value
        (transfer_loop target (make_request ap read addr) s.wait_retry 1 s)
        (transfer_loop-Extends (make_request ap read addr) s.wait_retry 1
          (Extends-less (omega arith) (Extends-refl s)))

  abort_loop-Extends :
      (rq r : ℕ) {B : ℕ} {s t : Swd}
      → Extends B (r + 1) s t
      → Extends B 0 s (abort_loop target rq r t).1
  unfolding abort_loop
  abort_loop-Extends rq zero {t = t} e = elim (Bool-cases (ended (request_phase target rq t).0)) [
    | inl d ↦ rw d (request_phase-Extends rq e)
    | inr d ↦ rw d (turn_back-Extends (request_phase-Extends rq e))
  ]
  abort_loop-Extends rq (suc r) {t = t} e =
      let first = request_phase-Extends rq (Extends-less (omega arith) e) in
      elim (Bool-cases (ended (request_phase target rq t).0)) [
        | inl d ↦ rw d first
        | inr d ↦ rw d (elim (Bool-cases ((request_phase target rq t).0 == ack_wait)) [
          | inl w ↦ rw w (
              abort_loop-Extends rq r
                (turn_back-Extends (request_phase-Extends rq (Extends-less (omega arith) e))))
          | inr w ↦ rw w (turn_back-Extends first)
        ])
      ]

  -- `write_abort` only adds pin events too, with at most `wait_retry` + 1 requests.
  write_abort-Extends :
      (value : ℕ) (s : Swd) → Extends (s.wait_retry + 1) 0 s (write_abort target value s).1
  unfolding write_abort
  write_abort-Extends value s =
      write_data-Extends value
        (abort_loop-Extends (make_request false false 0x00) s.wait_retry (Extends-refl s))
