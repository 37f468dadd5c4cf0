-- ===== src/Probe.antt =====
-- target_probe.h and target_probe.cpp (esp32s3-idf/lib/daplink): which target is on the line. The
-- names of the targets, which are only shown, log output and delays are left out.
mod Tests
use esp32_daplink.Base.{
  ℕ, zero, suc, ◌==◌, ◌||◌, ◌&&◌, not, Bool, if◌then◌else◌, bit_and, ◌>>>◌, Option, none, some,
  List, [], ◌∷◌, ◌++◌,
}
use esp32_daplink.Esp.{is_ok}
use esp32_daplink.Esp.Action.{Result, ok, err, Act, pure, ◌>>=◌, ◌>>◌}
use esp32_daplink.Port.{SwdPort}
use esp32_daplink.Exec.Core.{checked}
use esp32_daplink.Flash.Select.{
  Family, unknown, stm32, gd32, cw32, ch32, apm32, agm32, TargetInfo, one_of, f1_ids, f4_ids,
  g4_ids,
}

-- The `switch` over the masked DPIDR.
pub data Core : Type 0 where
  cortex_m0 cortex_m other_core : Core

unfoldable pub core_of : ℕ → Core
core_of dpidr =
    let masked = bit_and dpidr 0x0FFFFFFF in
    if one_of masked (0x0BA01477 ∷ 0x0BA02477 ∷ 0x0BA04477 ∷ [])
    then cortex_m
    else if one_of masked (0x0BC11477 ∷ 0x0BC01477 ∷ [])
    then cortex_m0
    else other_core

-- The `case` labels with the family STM32: F1; F2, F4, F7 and H7; G4.
abbrev pub stm32_ids : List ℕ
stm32_ids =
    0x410 ∷ 0x414 ∷ 0x412 ∷ 0x418 ∷ 0x420 ∷ 0x411 ∷ 0x413 ∷ 0x419 ∷ 0x423 ∷ 0x433 ∷ 0x431 ∷ 0x441
    ∷ 0x421 ∷ 0x434 ∷ 0x449 ∷ 0x451 ∷ 0x468 ∷ 0x469 ∷ 0x479 ∷ 0x450 ∷ 0x480 ∷ []

unfoldable pub family_of_id : ℕ → Family
family_of_id dev_id =
    if one_of dev_id stm32_ids
    then stm32
    else if dev_id == 0x430
    then gd32
    else if (dev_id == 0x601) || (dev_id == 0x602)
    then agm32
    else unknown

-- The refinement by REV_ID of an identifier 0x410.
unfoldable pub refine_f103 : ℕ → Family → Family
refine_f103 rev_id family =
    if rev_id == 0x2000
    then ch32
    else if (rev_id == 0x3000) || (rev_id == 0x1000)
    then apm32
    else if (rev_id == 0x1303) || (rev_id == 0x2303)
    then gd32
    else family

unfoldable pub refine : ℕ → ℕ → Family → Family
refine dev_id rev_id family =
    if dev_id == 0x410
    then refine_f103 rev_id family
    else if (dev_id == 0x413) && (rev_id == 0x1000)
    then apm32
    else family

abbrev pub info_of : Family → ℕ → ℕ → TargetInfo
info_of family dpidr dev_id = record { family = family; dpidr = dpidr; dev_id = dev_id }

-- A Cortex-M3, M4 or M7, by what DBGMCU_IDCODE holds.
unfoldable pub identify_m : ℕ → Option ℕ → TargetInfo
identify_m dpidr none = info_of unknown dpidr 0
identify_m dpidr (some idcode) =
    let dev_id = bit_and idcode 0xFFF in
    let rev_id = bit_and (idcode >>> 16) 0xFFFF in
    info_of (refine dev_id rev_id (family_of_id dev_id)) dpidr dev_id

-- A word that is read without an error and is neither 0 nor all ones.
abbrev pub valid_word : ℕ → Bool
valid_word value = not (value == 0) && not (value == 0xFFFFFFFF)

module _ {S : Type 0} (port : SwdPort S) where
  -- `write_ap(0x04, address)` and `read_ap(0x0C)`.
  unfoldable pub look : ℕ → S → Option ℕ × S
  look address s =
      let (r, s') = port.ap_read 0x0C (port.ap_write 0x04 address s).1 in
      (if is_ok r.error && valid_word r.value then some r.value else none, s')

  -- A Cortex-M0: an STM32 where DBGMCU_IDCODE holds something, else a CW32.
  unfoldable pub identify_m0 : ℕ → S → TargetInfo × S
  identify_m0 dpidr s =
      let (dbg, s1) = look 0x40015800 s in
      let (cw_dbg, s2) = look 0x40010000 s1 in
      elim dbg [
        | some idcode ↦ (info_of stm32 dpidr (bit_and idcode 0xFFF), s1)
        | none ↦ elim cw_dbg [
          | some value ↦ (info_of Family.cw32 dpidr value, s2)
          | none ↦ (info_of Family.cw32 dpidr 0, s2)
        ]
      ]

  unfoldable pub identify_large : ℕ → S → TargetInfo × S
  identify_large dpidr s = let (dbg, s') = look 0xE0042000 s in (identify_m dpidr dbg, s')

  unfoldable pub identify : ℕ → S → TargetInfo × S
  identify dpidr s =
      let s' = (port.ap_write 0x00 0x23000002 s).1 in
      elim (core_of dpidr) [
        | cortex_m0 ↦ identify_m0 dpidr s'
        | cortex_m ↦ identify_large dpidr s'
        | other_core ↦ (info_of unknown dpidr 0, s)
      ]

  -- `for (int i = 0; i < 100; ++i)` until the power-up is acknowledged.
  unfoldable pub power_up : ℕ → S → S
  power_up zero s = s
  power_up (suc left) s =
      let (stat, s') = port.dp_read 0x04 s in
      let again = power_up left s' in
      if is_ok stat.error && bit_and stat.value 0xA0000000 == 0xA0000000 then s' else again

  -- From the reading of DPIDR on.
  unfoldable pub identify_attached : ℕ → Act S TargetInfo
  identify_attached dpidr s =
      let s1 = (port.abort 0x0000001E s).1 in
      let s2 = power_up 100 (port.dp_write 0x04 0x50000000 s1).1 in
      let (info, s3) = identify dpidr s2 in (ok info, s3)

  -- `connect` is `swd::jtag_to_swd` and `swd::connect`.
  unfoldable pub probe : Act S (Unit {0}) → Act S TargetInfo
  probe connect = connect >> (checked (port.dp_read 0x00) >>= identify_attached)
