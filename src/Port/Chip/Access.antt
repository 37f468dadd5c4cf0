-- ===== src/Port/Chip/Access.antt =====
-- The firmware's own port on the line to the chip, as Port/Memory asks for it.
use mathlib.Core.Path.{subst}
use esp32_daplink.Base.{
  ℕ, ◌≡◌, refl, ap, ◌∙◌, sym, Bool, true, false, ◌==◌, if◌then◌else◌, u32, not, arith,
}
use esp32_daplink.Swd.Wire.{Swd}
use esp32_daplink.Swd.Wire.{TransferResult}
use esp32_daplink.Swd.Transfer.{transfer}
use esp32_daplink.Swd.Port.{
  read_dp, write_dp, read_ap, write_ap, raw_transfer, ensure_connected, connect,
}
use esp32_daplink.Port.{swd_port}
use esp32_daplink.Port.Memory.{Acked, Memory}
use esp32_daplink.Port.Chip.{Chip, Machine, run, chip_target, chip_of}
use esp32_daplink.Port.Chip.Line.{good}
use esp32_daplink.Port.Chip.Reads.{tail_9f, tail_bd, post, fetch}
use esp32_daplink.Port.Chip.Writes.{sent_8b, sent_bb, sent_b1, set_tar, set_drw, select}

good-Acked : (v : ℕ) → Acked (good v)
good-Acked v = record { no_error = refl; ack_one = refl }

ensured : (s : Swd) → run (ensure_connected s).trace ≡ run s.trace
unfolding connect
ensured s = by_case (not s.connected)
  where
    by_case : (b : Bool) → run (if b then (connect s).1 else s).trace ≡ run s.trace
    by_case true = refl
    by_case false = refl

ensured-chip : (s : Swd) → chip_of (ensure_connected s) ≡ chip_of s
unfolding chip_of
ensured-chip s = ap (λ (m : Machine). m.chip) (ensured s)

-- What an operation of the port gives, and the chip behind it.
record Gives (r : TransferResult × Swd) (v : ℕ) (c : Chip) : Type 0 where
  pub result : r.0 ≡ good v
  pub chip : chip_of r.1 ≡ c

gives :
    (r : TransferResult × Swd) (v : ℕ) (c : Chip) (s : Swd)
    → r ≡ (good v, s)
    → chip_of s ≡ c
    → Gives r v c
gives r v c s e h = record {
  result = ap (λ (x : TransferResult × Swd). x.0) e;
  chip = ap (λ (x : TransferResult × Swd). chip_of x.1) e ∙ h;
}

moved :
    (r : TransferResult × Swd) (v : ℕ) (f : Chip → Chip) (s : Swd)
    → Gives r v (f (chip_of (ensure_connected s)))
    → Gives r v (f (chip_of s))
moved r v f s g = record { result = g.result; chip = g.chip ∙ ap f (ensured-chip s) }

abbrev to_tar : ℕ → Chip → Chip
to_tar v c = record c { tar = u32 v }

abbrev to_cell : ℕ → Chip → Chip
to_cell v c = record c { cells = λ b. if b == c.tar then u32 v else c.cells b }

abbrev to_posted : Chip → Chip
to_posted c = record c { posted = c.cells c.tar }

selects : (v : ℕ) (s : Swd) → Gives (transfer chip_target false false 0x08 v s) v (chip_of s)
selects v s = gives _ v _ _ (select v s) (sent_b1 v s)

sets_tar :
    (v : ℕ) (s : Swd) → Gives (transfer chip_target true false 0x04 v s) v (to_tar v (chip_of s))
sets_tar v s = gives _ v _ _ (set_tar v s) (sent_8b v s)

sets_drw :
    (v : ℕ) (s : Swd) → Gives (transfer chip_target true false 0x0C v s) v (to_cell v (chip_of s))
sets_drw v s = gives _ v _ _ (set_drw v s) (sent_bb v s)

posts :
    (v : ℕ) (s : Swd)
    → Gives
        (transfer chip_target true true 0x0C v s)
        (u32 (chip_of s).posted)
        (to_posted (chip_of s))
posts v s = gives _ _ _ _ (post v s) (tail_9f s)

fetches :
    (v : ℕ) (s : Swd)
    → Gives (transfer chip_target false true 0x0C v s) (u32 (chip_of s).posted) (chip_of s)
fetches v s = gives _ _ _ _ (fetch v s) (tail_bd s)

write_dp-Gives : (s : Swd) → Gives (write_dp chip_target 0x08 0 s) 0 (chip_of s)
unfolding write_dp
write_dp-Gives s = moved _ 0 (λ c. c) s (selects 0 (ensure_connected s))

raw-sets_tar :
    (v : ℕ) (s : Swd)
    → Gives (raw_transfer chip_target true false 0x04 v s) v (to_tar v (chip_of s))
unfolding raw_transfer
raw-sets_tar v s = moved _ v (to_tar v) s (sets_tar v (ensure_connected s))

raw-sets_drw :
    (v : ℕ) (s : Swd)
    → Gives (raw_transfer chip_target true false 0x0C v s) v (to_cell v (chip_of s))
unfolding raw_transfer
raw-sets_drw v s = moved _ v (to_cell v) s (sets_drw v (ensure_connected s))

raw-posts :
    (s : Swd)
    → Gives
        (raw_transfer chip_target true true 0x0C 0 s)
        (u32 (chip_of s).posted)
        (to_posted (chip_of s))
unfolding raw_transfer
raw-posts s =
    let g = posts 0 (ensure_connected s) in
    record {
      result = g.result ∙ ap (λ (c : Chip). good (u32 c.posted)) (ensured-chip s);
      chip = g.chip ∙ ap to_posted (ensured-chip s);
    }

read_dp-Gives : (s : Swd) → Gives (read_dp chip_target 0x0C s) (u32 (chip_of s).posted) (chip_of s)
unfolding read_dp
read_dp-Gives s =
    let g = fetches 0 (ensure_connected s) in
    record {
      result = g.result ∙ ap (λ (c : Chip). good (u32 c.posted)) (ensured-chip s);
      chip = g.chip ∙ ensured-chip s;
    }

write_ap-tar : (v : ℕ) (s : Swd) → Gives (write_ap chip_target 0x04 v s) v (to_tar v (chip_of s))
unfolding write_ap
write_ap-tar v s =
    let first = write_dp-Gives (ensure_connected s) in
    let next = sets_tar v (write_dp chip_target 0x08 0 (ensure_connected s)).1 in
    rw first.result (record {
      result = next.result;
      chip = next.chip ∙ ap (to_tar v) (first.chip ∙ ensured-chip s);
    })

write_ap-drw : (v : ℕ) (s : Swd) → Gives (write_ap chip_target 0x0C v s) v (to_cell v (chip_of s))
unfolding write_ap
write_ap-drw v s =
    let first = write_dp-Gives (ensure_connected s) in
    let next = sets_drw v (write_dp chip_target 0x08 0 (ensure_connected s)).1 in
    rw first.result (record {
      result = next.result;
      chip = next.chip ∙ ap (to_cell v) (first.chip ∙ ensured-chip s);
    })

read_ap-Gives :
    (s : Swd)
    → Gives
        (read_ap chip_target 0x0C s)
        (u32 ((chip_of s).cells (chip_of s).tar))
        (to_posted (chip_of s))
unfolding read_ap
read_ap-Gives s =
    let first = write_dp-Gives (ensure_connected s) in
    let s1 = (write_dp chip_target 0x08 0 (ensure_connected s)).1 in
    let second = posts 0 s1 in
    let third = read_dp-Gives (transfer chip_target true true 0x0C 0 s1).1 in
    let c : chip_of (transfer chip_target true true 0x0C 0 s1).1 ≡ to_posted (chip_of s) =
      second.chip ∙ ap to_posted (first.chip ∙ ensured-chip s) in
    rw first.result (
      rw second.result (record {
        result = third.result ∙ ap (λ (x : Chip). good (u32 x.posted)) c;
        chip = third.chip ∙ c;
      }))

Gives-Acked : (r : TransferResult × Swd) (v : ℕ) (c : Chip) → Gives r v c → Acked r.0
Gives-Acked r v c g = subst Acked (sym g.result) (good-Acked v)

abbrev word_of : Chip → ℕ → ℕ
word_of c b = u32 (c.cells b)

Gives-word :
    (r : TransferResult × Swd) (v : ℕ) (c : Chip) (b : ℕ)
    → Gives r v c
    → word_of (chip_of r.1) b ≡ word_of c b
Gives-word r v c b g = ap (λ (x : Chip). word_of x b) g.chip

cell-word : (t : Bool) (v w : ℕ) → u32 (if t then u32 v else w) ≡ (if t then u32 v else u32 w)
cell-word true v w = omega arith
cell-word false v w = refl

-- The port that swd.cpp gives, on the line to a chip that decodes its pins, gives word access to the
-- chip's memory in every state of the globals and after any traffic: TAR and DRW are written with the
-- low 32 bits of a value, a read of DRW posts the word at TAR and RDBUFF returns it, a read of DRW by
-- read_ap returns it at once, SELECT leaves the memory alone, and all are acknowledged with OK.
swd_port-Memory : Memory (swd_port chip_target)
swd_port-Memory = record {
  word = λ s. word_of (chip_of s);
  tar = λ s. (chip_of s).tar;
  posted = λ s. u32 (chip_of s).posted;
  select_ok = λ s. Gives-Acked _ _ _ (write_dp-Gives s);
  select_word = λ s b. Gives-word _ _ _ b (write_dp-Gives s);
  tar_ok = λ a s. Gives-Acked _ _ _ (raw-sets_tar a s);
  tar_set = λ a s. ap (λ (c : Chip). c.tar) (raw-sets_tar a s).chip;
  tar_word = λ a s b. Gives-word _ _ _ b (raw-sets_tar a s);
  drw_ok = λ v s. Gives-Acked _ _ _ (raw-sets_drw v s);
  drw_word = λ v s b h.
      Gives-word _ _ _ b (raw-sets_drw v s)
      ∙ cell-word (b == (chip_of s).tar) v ((chip_of s).cells b);
  post_ok = λ s. Gives-Acked _ _ _ (raw-posts s);
  post_set = λ s h. ap (λ (c : Chip). u32 c.posted) (raw-posts s).chip;
  post_word = λ s b. Gives-word _ _ _ b (raw-posts s);
  rdbuff_ok = λ s. Gives-Acked _ _ _ (read_dp-Gives s);
  rdbuff_value = λ s. ap (λ (r : TransferResult). r.value) (read_dp-Gives s).result;
  rdbuff_word = λ s b. Gives-word _ _ _ b (read_dp-Gives s);
  ap_tar_ok = λ a s. Gives-Acked _ _ _ (write_ap-tar a s);
  ap_tar_set = λ a s. ap (λ (c : Chip). c.tar) (write_ap-tar a s).chip;
  ap_tar_word = λ a s b. Gives-word _ _ _ b (write_ap-tar a s);
  ap_drw_ok = λ v s. Gives-Acked _ _ _ (write_ap-drw v s);
  ap_drw_word = λ v s b h.
      Gives-word _ _ _ b (write_ap-drw v s)
      ∙ cell-word (b == (chip_of s).tar) v ((chip_of s).cells b);
  ap_read_ok = λ s. Gives-Acked _ _ _ (read_ap-Gives s);
  ap_read_value = λ s h. ap (λ (r : TransferResult). r.value) (read_ap-Gives s).result;
  ap_read_word = λ s b. Gives-word _ _ _ b (read_ap-Gives s);
}
