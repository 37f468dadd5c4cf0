-- ===== src/Flash/Select.antt =====
-- `select_algorithm`, and the branches of `program_target` as the routine that they call.
use esp32_daplink.Base.{
  ℕ, bit_and, Bool, true, false, ◌&&◌, ◌||◌, ◌==◌, ltb, leb, if◌then◌else◌, List, [], ◌∷◌,
}
use esp32_daplink.Hex.{Image}

pub data Family : Type 0 where
  unknown stm32 nordic nxp gd32 cw32 ch32 apm32 agm32 : Family

-- The strings that `algorithm_name` is set to.
pub data AlgorithmName : Type 0 where
  unknown_name stm32g0_direct stm32g4_direct stm32f1_direct stm32f4_direct : AlgorithmName
  cw32_direct nrf_generic stm32g0_address_guess : AlgorithmName

pub record TargetInfo : Type 0 where
  pub family : Family
  pub dpidr : ℕ
  pub dev_id : ℕ

pub record SelectionResult : Type 0 where
  pub algorithm_name : AlgorithmName
  pub family : Family

-- `x == a || x == b || ...`
abbrev pub one_of : ℕ → List ℕ → Bool
one_of x [] = false
one_of x (a ∷ rest) = (x == a) || one_of x rest

abbrev pub g0_ids : List ℕ
g0_ids = 0x466 ∷ 0x460 ∷ 0x456 ∷ 0x467 ∷ []

abbrev pub g4_ids : List ℕ
g4_ids = 0x468 ∷ 0x469 ∷ 0x479 ∷ []

abbrev pub f1_ids : List ℕ
f1_ids = 0x410 ∷ 0x414 ∷ 0x412 ∷ 0x418 ∷ 0x420 ∷ []

abbrev pub f4_ids : List ℕ
f4_ids =
    0x411 ∷ 0x413 ∷ 0x419 ∷ 0x423 ∷ 0x433 ∷ 0x431 ∷ 0x441 ∷ 0x421 ∷ 0x434 ∷ 0x449 ∷ 0x451 ∷ 0x450
    ∷ 0x480 ∷ []

-- The case of an STM32.
unfoldable pub stm32_name : TargetInfo → AlgorithmName
stm32_name target =
    let masked = bit_and target.dpidr 0x0FFFFFFF in
    if one_of target.dev_id g0_ids
    then stm32g0_direct
    else if one_of target.dev_id g4_ids
    then stm32g4_direct
    else if one_of target.dev_id f1_ids
    then stm32f1_direct
    else if one_of target.dev_id f4_ids
    then stm32f4_direct
    else if (masked == 0x0BC11477) || (masked == 0x0BC01477)
    then stm32g0_direct
    else stm32f1_direct

-- The cases of GD32 and APM32.
unfoldable pub f1_or_f4 : ℕ → AlgorithmName
f1_or_f4 dev = if (dev == 0x413) || (dev == 0x419) then stm32f4_direct else stm32f1_direct

abbrev pub chosen : AlgorithmName → Family → SelectionResult
chosen name family = record { algorithm_name = name; family = family }

-- The fallback by the lowest address of the image.
unfoldable pub guess : Image → Family → SelectionResult
guess image family =
    if leb 0x08000000 image.lowest_address && ltb image.lowest_address 0x08100000
    then chosen stm32g0_address_guess stm32
    else chosen unknown_name family

unfoldable pub select_algorithm : Image → TargetInfo → SelectionResult
select_algorithm image target = elim target.family [
  | stm32 ↦ chosen (stm32_name target) stm32
  | gd32 ↦ chosen (f1_or_f4 target.dev_id) gd32
  | ch32 ↦ chosen stm32f1_direct ch32
  | apm32 ↦ chosen (f1_or_f4 target.dev_id) apm32
  | cw32 ↦ chosen cw32_direct cw32
  | agm32 ↦ chosen stm32f4_direct agm32
  | nordic ↦ chosen nrf_generic nordic
  | unknown ↦ guess image unknown
  | nxp ↦ guess image nxp
]

-- `strstr(name, "g0") != nullptr || strstr(name, "g4") != nullptr`
unfoldable pub names_g : AlgorithmName → Bool
names_g stm32g0_direct = true
names_g stm32g4_direct = true
names_g stm32g0_address_guess = true
names_g _ = false

-- `strstr(name, "f4") != nullptr`
unfoldable pub names_f4 : AlgorithmName → Bool
names_f4 stm32f4_direct = true
names_f4 _ = false

-- The routine that `program_target` returns the result of, or `ESP_ERR_NOT_SUPPORTED`.
pub data Routine : Type 0 where
  program_stm32_g0 program_stm32_f1 program_cw32 not_implemented : Routine

abbrev pub f1_unless_f4 : AlgorithmName → Routine
f1_unless_f4 name = if names_f4 name then not_implemented else program_stm32_f1

unfoldable pub program_target : SelectionResult → Routine
program_target selection = elim selection.family [
  | stm32 ↦
      if names_g selection.algorithm_name
      then program_stm32_g0
      else f1_unless_f4 selection.algorithm_name
  | gd32 ↦ f1_unless_f4 selection.algorithm_name
  | ch32 ↦ f1_unless_f4 selection.algorithm_name
  | apm32 ↦ f1_unless_f4 selection.algorithm_name
  | cw32 ↦ program_cw32
  | _ ↦ not_implemented
]
