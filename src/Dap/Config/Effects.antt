-- ===== src/Dap/Config/Effects.antt =====
-- What the configuration commands decide about later transfers.
use esp32_daplink.Base.{
  ℕ, ◌+◌, ◌*◌, ◌≤◌, ◌<◌, ◌≡◌, refl, false, Bool, List, ltb, length, get_or, arith, bit_or, u16,
  ◌<<<◌,
}
use esp32_daplink.Base.Bits.{bit_or-low}
use esp32_daplink.Swd.Wire.{Target}
use esp32_daplink.Swd.Transfer.{transfer}
use esp32_daplink.Swd.Port.{set_transfer_config}
use esp32_daplink.Swd.Keeps.{Extends, transfer-Extends}
use esp32_daplink.Dap.{Dap}
use esp32_daplink.Dap.Config.{handle_transfer_configure}

word : (lo hi : ℕ) → lo < 256 → hi < 256 → u16 (bit_or lo (hi <<< 8)) ≡ lo + 256 * hi
word lo hi p q = omega (arith, bit_or-low 8 lo hi (omega arith))

waits :
    (buffer : List ℕ) (d : Dap)
    → 6 ≤ length buffer
    → get_or buffer 2 0 < 256
    → get_or buffer 3 0 < 256
    → (handle_transfer_configure buffer d).1.bus.wait_retry
      ≡ get_or buffer 2 0 + 256 * get_or buffer 3 0
unfolding handle_transfer_configure set_transfer_config
waits buffer d long p q =
    let enough : ltb (length buffer) 6 ≡ false = ground arith in rw enough (word _ _ p q)

matches :
    (buffer : List ℕ) (d : Dap)
    → 6 ≤ length buffer
    → get_or buffer 4 0 < 256
    → get_or buffer 5 0 < 256
    → (handle_transfer_configure buffer d).1.match_retry
      ≡ get_or buffer 4 0 + 256 * get_or buffer 5 0
unfolding handle_transfer_configure
matches buffer d long p q =
    let enough : ltb (length buffer) 6 ≡ false = ground arith in rw enough (word _ _ p q)

idles :
    (buffer : List ℕ) (d : Dap)
    → 6 ≤ length buffer
    → (handle_transfer_configure buffer d).1.bus.idle_cycles ≡ get_or buffer 1 0
unfolding handle_transfer_configure set_transfer_config
idles buffer d long = let enough : ltb (length buffer) 6 ≡ false = ground arith in rw enough refl

-- A DAP_TransferConfigure command of at least six bytes, of which the four of the two counts are
-- bytes, sets the idle cycles of the port, its wait retries and the match retry count to what the
-- command gives, the last two as little-endian numbers; and with any target, a transfer after it
-- makes at most those wait retries and 3 requests, and only adds to the trace.
pub handle_transfer_configure-transfer :
    (target : Target) (buffer : List ℕ) (d : Dap) (is_ap read : Bool) (addr value : ℕ)
    → 6 ≤ length buffer
    → get_or buffer 2 0 < 256
    → get_or buffer 3 0 < 256
    → get_or buffer 4 0 < 256
    → get_or buffer 5 0 < 256
    → ((handle_transfer_configure buffer d).1.bus.idle_cycles ≡ get_or buffer 1 0)
      × ((handle_transfer_configure buffer d).1.bus.wait_retry
          ≡ get_or buffer 2 0 + 256 * get_or buffer 3 0)
      × ((handle_transfer_configure buffer d).1.match_retry
          ≡ get_or buffer 4 0 + 256 * get_or buffer 5 0)
      × Extends
          (get_or buffer 2 0 + 256 * get_or buffer 3 0 + 3)
          0
          (handle_transfer_configure buffer d).1.bus
          (transfer target is_ap read addr value (handle_transfer_configure buffer d).1.bus).1
handle_transfer_configure-transfer target buffer d is_ap read addr value long h2 h3 h4 h5 =
    let d' = (handle_transfer_configure buffer d).1 in
    (
      idles buffer d long,
      waits buffer d long h2 h3,
      matches buffer d long h4 h5,
      rw (← waits buffer d long h2 h3) (transfer-Extends target is_ap read addr value d'.bus),
    )
