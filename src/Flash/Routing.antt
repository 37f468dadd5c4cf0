-- ===== src/Flash/Routing.antt =====
-- Which targets the G0 routine of `program_target` is run on.
use esp32_daplink.Base.{
  ℕ, Bool, true, false, ◌&&◌, ◌||◌, ◌==◌, ltb, leb, ◌%◌, ◌^◌, ◌≡◌, refl, not, if◌then◌else◌, arith,
}
use esp32_daplink.Base.Bits.{bit_and-low_mask}
use esp32_daplink.Hex.{Image}
use esp32_daplink.Flash.Select.{
  Family, unknown, stm32, nordic, nxp, gd32, cw32, ch32, apm32, agm32, unknown_name, TargetInfo,
  stm32_name, f1_or_f4, chosen, guess, select_algorithm, names_g, names_f4, Routine,
  program_stm32_g0, f1_unless_f4, program_target,
}

unfoldable pub is_g0 : Routine → Bool
is_g0 program_stm32_g0 = true
is_g0 _ = false

-- DEV_ID of the STM32G03x and G04x, G05x and G06x, G07x and G08x, and G0Bx and G0Cx.
abbrev is_g0_id : ℕ → Bool
is_g0_id dev = (dev == 0x466) || (dev == 0x456) || (dev == 0x460) || (dev == 0x467)

-- DEV_ID of the STM32G43x and G44x, G47x and G48x, and G49x and G4Ax.
abbrev is_g4_id : ℕ → Bool
is_g4_id dev = (dev == 0x468) || (dev == 0x469) || (dev == 0x479)

-- The other identifiers that the program knows: of the F1, the F2 and the F4.
abbrev is_f_id : ℕ → Bool
is_f_id dev =
    (dev == 0x410)
    || (dev == 0x412)
    || (dev == 0x414)
    || (dev == 0x418)
    || (dev == 0x420)
    || (dev == 0x411)
    || (dev == 0x413)
    || (dev == 0x419)
    || (dev == 0x421)
    || (dev == 0x423)
    || (dev == 0x431)
    || (dev == 0x433)
    || (dev == 0x434)
    || (dev == 0x441)
    || (dev == 0x449)
    || (dev == 0x450)
    || (dev == 0x451)
    || (dev == 0x480)

-- The identifier of a G0 or a G4, or no identifier that is known and the debug port of a Cortex-M0.
abbrev pub fits_g0 : TargetInfo → Bool
fits_g0 target =
    is_g0_id target.dev_id
    || is_g4_id target.dev_id
    || (not (is_f_id target.dev_id)
        && ((target.dpidr % 2 ^ 28 == 0x0BC11477) || (target.dpidr % 2 ^ 28 == 0x0BC01477)))

abbrev pub in_first_mib : Image → Bool
in_first_mib image = leb 0x08000000 image.lowest_address && ltb image.lowest_address 0x08100000

-- An STM32 that fits, or a target of no known family or an NXP, with an image in the first MiB of flash.
abbrev pub goes_to_g0 : Image → TargetInfo → Bool
goes_to_g0 image target = elim target.family [
  | stm32 ↦ fits_g0 target
  | unknown ↦ in_first_mib image
  | nxp ↦ in_first_mib image
  | _ ↦ false
]

stm32_name-fits :
    (target : TargetInfo)
    → is_g0
        (if names_g (stm32_name target) then program_stm32_g0 else f1_unless_f4 (stm32_name target))
      ≡ fits_g0 target
unfolding stm32_name names_g names_f4 is_g0
stm32_name-fits target = ground (arith, bit_and-low_mask 28 target.dpidr)

guess-in_first_mib :
    (image : Image) (family : Family)
    → is_g0 (program_target (chosen unknown_name family)) ≡ false
    → is_g0 (program_target (guess image family)) ≡ in_first_mib image
unfolding guess names_g is_g0 program_target
guess-in_first_mib image family e = ground arith

f1_or_f4-other : (dev : ℕ) → is_g0 (f1_unless_f4 (f1_or_f4 dev)) ≡ false
unfolding f1_or_f4 names_f4 is_g0
f1_or_f4-other dev = ground arith

routed :
    (image : Image) (family : Family) (dpidr dev_id : ℕ)
    → let target : TargetInfo = record { family = family; dpidr = dpidr; dev_id = dev_id } in
      is_g0 (program_target (select_algorithm image target)) ≡ goes_to_g0 image target
unfolding select_algorithm program_target is_g0 names_f4
routed image stm32 dpidr dev_id =
    stm32_name-fits (record { family = stm32; dpidr = dpidr; dev_id = dev_id })
routed image unknown dpidr dev_id = guess-in_first_mib image unknown refl
routed image nxp dpidr dev_id = guess-in_first_mib image nxp refl
routed image gd32 dpidr dev_id = f1_or_f4-other dev_id
routed image apm32 dpidr dev_id = f1_or_f4-other dev_id
routed image ch32 dpidr dev_id = refl
routed image cw32 dpidr dev_id = refl
routed image agm32 dpidr dev_id = refl
routed image nordic dpidr dev_id = refl

-- The target that `select_algorithm` is given is programmed by the routine for the G0 exactly when
-- it is an STM32 with the identifier of a G0 or a G4, an STM32 with no identifier that is known and
-- the debug port of a Cortex-M0, or it is of no family that is known, or an NXP, and the lowest
-- address of the image is in the first MiB of the flash.
pub program_target-goes_to_g0 :
    (image : Image) (target : TargetInfo)
    → is_g0 (program_target (select_algorithm image target)) ≡ goes_to_g0 image target
program_target-goes_to_g0 image target = routed image target.family target.dpidr target.dev_id
