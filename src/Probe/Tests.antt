-- ===== src/Probe/Tests.antt =====
-- The probe on a port before a memory.
use esp32_daplink.Base.{◌==◌, ◌≡◌, refl, if◌then◌else◌}
use esp32_daplink.Esp.Action.{ok, pure}
use esp32_daplink.Port.Ideal.{Chip, ideal}
use esp32_daplink.Flash.Select.{ch32}
use esp32_daplink.Probe.{
  probe, identify_attached, identify, identify_large, identify_m, look, core_of, power_up, refine,
  refine_f103, family_of_id, info_of,
}

-- A Cortex-M3 with DEV_ID 0x410 and REV_ID 0x2000. The ideal port reads RDBUFF at every address of
-- the debug port.
abbrev chip : Chip
chip = record {
  cells = λ a. if a == 0xE0042000 then 0x20000410 else 0;
  tar = 0;
  rdbuff = 0x1BA01477;
}

ch32_found : (probe ideal (pure tt) chip).0 ≡ ok (info_of ch32 0x1BA01477 0x410)
unfolding probe identify_attached identify identify_large identify_m look core_of power_up refine
    refine_f103 family_of_id
ch32_found = refl
