-- ===== src/Port/Ideal.antt =====
-- A port on which every transfer succeeds, before a memory of words: a port for examples, that meets
-- Port/Memory.
use esp32_daplink.Base.{ℕ, refl, ◌==◌, not, if◌then◌else◌, u32}
use esp32_daplink.Esp.{esp_ok}
use esp32_daplink.Swd.Wire.{TransferResult}
use esp32_daplink.Port.{SwdPort}
use esp32_daplink.Port.Memory.{Acked, Memory}

pub record Chip : Type 0 where
  pub cells : ℕ → ℕ
  pub tar : ℕ
  pub rdbuff : ℕ

abbrev pub done : ℕ → TransferResult
done v = record { error = esp_ok; ack = 0x01; value = v }

abbrev store : ℕ → Chip → Chip
store v c = record c { cells = λ b. if b == c.tar then u32 v else c.cells b }

abbrev set_ap : ℕ → ℕ → Chip → TransferResult × Chip
set_ap a v c =
    if a == 0x04
    then (done v, record c { tar = u32 v })
    else if a == 0x0C
    then (done v, store v c)
    else (done v, c)

abbrev pub ideal : SwdPort Chip
ideal = record {
  dp_read = λ a c. (done c.rdbuff, c);
  dp_write = λ a v c. (done v, c);
  ap_read = λ a c. (done (c.cells c.tar), c);
  ap_write = set_ap;
  raw = λ ap read a v c.
      if not ap
      then (done 0, c)
      else if read
      then (done c.rdbuff, record c { rdbuff = c.cells c.tar })
      else set_ap a v c;
  abort = λ v c. (done v, c);
}

pub acked : (v : ℕ) → Acked (done v)
acked v = record { no_error = refl; ack_one = refl }

abbrev pub ideal_memory : Memory ideal
ideal_memory = record {
  word = λ c. c.cells;
  tar = λ c. c.tar;
  posted = λ c. c.rdbuff;
  select_ok = λ s. acked 0;
  select_word = λ s b. refl;
  tar_ok = λ a s. acked a;
  tar_set = λ a s. refl;
  tar_word = λ a s b. refl;
  drw_ok = λ v s. acked v;
  drw_word = λ v s b h. refl;
  post_ok = λ s. acked s.rdbuff;
  post_set = λ s h. refl;
  post_word = λ s b. refl;
  rdbuff_ok = λ s. acked s.rdbuff;
  rdbuff_value = λ s. refl;
  rdbuff_word = λ s b. refl;
  ap_tar_ok = λ a s. acked a;
  ap_tar_set = λ a s. refl;
  ap_tar_word = λ a s b. refl;
  ap_drw_ok = λ v s. acked v;
  ap_drw_word = λ v s b h. refl;
  ap_read_ok = λ s. acked (s.cells s.tar);
  ap_read_value = λ s h. refl;
  ap_read_word = λ s b. refl;
}
