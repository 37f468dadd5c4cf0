-- ===== src/Flash/WithFlm.antt =====
-- `program_with_flm`: an algorithm of an FLM file, run on the target.
use esp32_daplink.Base.{
  ℕ, zero, suc, ◌-◌, ◌^◌, ◌==◌, ltb, bit_and, min, if◌then◌else◌, Option, none, some, List, [], ◌∷◌,
  length, take, drop, add32,
}
use esp32_daplink.Esp.{esp_fail}
use esp32_daplink.Esp.Action.{Result, ok, err, raise}
use esp32_daplink.Esp.Run.{Run, done, endless, lift, attempt, ◌>>=◌, ◌>>◌}
use esp32_daplink.Hex.{Segment}
use esp32_daplink.Port.{SwdPort}
use esp32_daplink.Exec.Load.{Algorithm, RamLayout, setup, upload_data}
use esp32_daplink.Exec.Call.{call_function}
use esp32_daplink.Flm.{FlashDeviceInfo, ParsedFlm}
use esp32_daplink.Flash.G0.{reset_and_run}
use esp32_daplink.Flash.Sectors.{sectors_to_erase}

-- `timeout > 0 ? timeout : otherwise`
abbrev pub or_default : ℕ → ℕ → ℕ
or_default timeout otherwise = if ltb 0 timeout then timeout else otherwise

-- `page_size`, after its clamp to the buffer.
unfoldable pub chunk_size : FlashDeviceInfo → RamLayout → ℕ
chunk_size device layout =
    let size = if device.page_size == 0 then 512 else device.page_size in
    if ltb layout.buf_size size then bit_and layout.buf_size (2 ^ 32 - 4) else size

abbrev pub algorithm_of : ParsedFlm → Algorithm
algorithm_of flm = record {
  code = flm.code;
  code_size = flm.code_size;
  stack_size = flm.stack_size;
}

-- A computation that may have no end.
unfoldable pub computed : {S A : Type 0} → Option A → Run S A
computed none = endless
computed (some a) = done a

-- `if (result != 0) return ESP_FAIL;`
unfoldable pub check_result : {S : Type 0} → ℕ → Run S (Unit {0})
check_result result = if result == 0 then done tt else lift (raise esp_fail)

-- `clock n` is the n-th reading of `esp_log_timestamp`, and `fuel` the looks of a wait at DHCSR.
module _ {S : Type 0} (port : SwdPort S) (clock : ℕ → ℕ) (fuel : ℕ) (flm : ParsedFlm) where
  -- A call whose function has to return 0.
  unfoldable pub call_checked : RamLayout → ℕ → ℕ → ℕ → ℕ → ℕ → Run S (Unit {0})
  call_checked layout func_addr r0 r1 r2 timeout_ms =
      call_function port clock fuel layout func_addr r0 r1 r2 0 timeout_ms >>= check_result

  unfoldable pub erase_sectors : RamLayout → List ℕ → Run S (Unit {0})
  erase_sectors layout [] = done tt
  erase_sectors layout (s ∷ sectors) = do
    call_checked layout flm.func.erase_sector s 0 0 (or_default flm.device.timeout_erase 10000)
    erase_sectors layout sectors

  -- `for (offset = 0; offset < size; offset += page_size)`, without an end in `zero` rounds.
  unfoldable pub program_chunks : RamLayout → ℕ → ℕ → ℕ → List ℕ → Run S (Unit {0})
  program_chunks layout page_size zero address bytes = endless
  program_chunks layout page_size (suc rounds) address [] = done tt
  program_chunks layout page_size (suc rounds) address (b ∷ bytes) = do
    lift (upload_data port layout (take page_size (b ∷ bytes)))
    call_checked layout flm.func.program_page address (min (length (b ∷ bytes)) page_size)
        layout.buf_addr (or_default flm.device.timeout_prog 5000)
    program_chunks layout page_size rounds (add32 address page_size) (drop page_size (b ∷ bytes))

  unfoldable pub program_segments : RamLayout → ℕ → List Segment → Run S (Unit {0})
  program_segments layout rounds [] = done tt
  program_segments layout rounds (seg ∷ segments) = do
    program_chunks layout (chunk_size flm.device layout) rounds seg.address seg.bytes
    program_segments layout rounds segments

  -- The error of the call is not looked at.
  unfoldable pub uninit : RamLayout → Run S (Unit {0})
  uninit layout =
      if flm.func.uninit == 0
      then done tt
      else (attempt (call_function port clock fuel layout flm.func.uninit 1 0 0 0 5000) >> done tt)

  -- What follows `setup`; `rounds` is the bound of each loop over sectors and over chunks.
  unfoldable pub run_algorithm : ℕ → List Segment → RamLayout → Run S (Unit {0})
  run_algorithm rounds segments layout = do
    call_checked layout flm.func.init flm.device.dev_addr 0 1 5000
    computed (sectors_to_erase flm.device rounds segments []) >>= erase_sectors layout
    program_segments layout rounds segments
    uninit layout
    reset_and_run port

-- `parsed` is what `parse_file` returns.
unfoldable pub program_with_flm :
    {S : Type 0}
    → SwdPort S
    → (ℕ → ℕ)
    → ℕ
    → ℕ
    → Result ParsedFlm
    → List Segment
    → ℕ
    → ℕ
    → Run S (Unit {0})
program_with_flm port clock fuel rounds (err e) segments ram_base ram_size = lift (raise e)
program_with_flm port clock fuel rounds (ok flm) segments ram_base ram_size =
    lift (setup port (algorithm_of flm) ram_base ram_size)
    >>= run_algorithm port clock fuel flm rounds segments
