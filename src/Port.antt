-- ===== src/Port.antt =====
-- The interface of namespace `swd` (esp32s3-idf/lib/daplink/swd.h) to its clients: the operations that
-- target_exec, rtt_reader, flash_algo and target_probe call. A client takes a port; Swd fills it.
pub mod Memory
pub mod Ideal
pub mod Chip
use esp32_daplink.Base.{ℕ, Bool}
use esp32_daplink.Swd.Wire.{Swd, Target, TransferResult}
use esp32_daplink.Swd.Transfer.{write_abort}
use esp32_daplink.Swd.Port.{read_dp, write_dp, read_ap, write_ap, raw_transfer}

pub record SwdPort (S : Type 0) : Type 0 where
  pub dp_read : ℕ → S → TransferResult × S
  pub dp_write : ℕ → ℕ → S → TransferResult × S
  pub ap_read : ℕ → S → TransferResult × S
  pub ap_write : ℕ → ℕ → S → TransferResult × S
  pub raw : Bool → Bool → ℕ → ℕ → S → TransferResult × S
  pub abort : ℕ → S → TransferResult × S

-- The firmware's own port, on a line with a target.
abbrev pub swd_port : Target → SwdPort Swd
swd_port target = record {
  dp_read = read_dp target;
  dp_write = write_dp target;
  ap_read = read_ap target;
  ap_write = write_ap target;
  raw = raw_transfer target;
  abort = write_abort target;
}
