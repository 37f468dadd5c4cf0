-- ===== src/Volume/Scan.antt =====
-- `scan_and_process_once`.
use esp32_daplink.Base.{
  ℕ, ◌==◌, ◌&&◌, ◌||◌, ◌*◌, not, ltb, Bool, true, false, if◌then◌else◌, Option, none, some, List,
  [], ◌∷◌, sub32,
}
use esp32_daplink.Esp.{EspErr, is_ok}
use esp32_daplink.Esp.Action.{Result, ok, err, Act}
use esp32_daplink.Esp.Run.{Run, done, endless, lift, timestamp, attempt, ◌>>=◌, ◌>>◌}
use esp32_daplink.Hex as Hex
use esp32_daplink.Hex.{Segment, Image}
use esp32_daplink.Flm.{ParsedFlm}
use esp32_daplink.Flm.Parse as Flm
use esp32_daplink.Port.{SwdPort}
use esp32_daplink.Flash.Select.{TargetInfo, select_algorithm, one_of, g4_ids}
use esp32_daplink.Flash.Target.{program_target}
use esp32_daplink.Flash.WithFlm.{program_with_flm}
use esp32_daplink.Probe.{probe}
use esp32_daplink.Volume.{
  Mount, usb, app, Entry, hex_path, flm_path, Status, parse_failed, probe_failed, program_failed,
  program_ok, Drive, Volume,
}
use esp32_daplink.Volume.Files.{is_hex, delete_hex_files, find_flm_file, write_status_files}

-- The RAM that an FLM algorithm may use.
unfoldable pub ram_size_of : ℕ → ℕ
ram_size_of dev =
    if one_of dev g4_ids
    then 32 * 1024
    else if (dev == 0x410) || (dev == 0x414)
    then 20 * 1024
    else if (dev == 0x413) || (dev == 0x431) || (dev == 0x441)
    then 64 * 1024
    else 8 * 1024

-- After a file: look at the next one, or stop.
pub data Next : Type 0 where
  go_on stop : Next

-- `sort` and `line` are those of the Intel HEX parser, `connect` is that of the probe, `clock n` the
-- n-th reading of `esp_log_timestamp`, `fuel` the looks of a wait at a register, and `rounds` the
-- bound of the loops of the flash routines.
module _ {S : Type 0} (port : SwdPort S) (drive : Drive S) (connect : Act S (Unit {0}))
    (sort : List Segment → List Segment) (line : List ℕ) (clock : ℕ → ℕ) (fuel rounds : ℕ) where
  unfoldable pub report : Status → Bool → Run S (Unit {0})
  report status success = lift (λ s. (ok tt, write_status_files drive status success s))

  -- An FLM file that is accessed beyond its blob has no result.
  unfoldable pub parsed_flm : Flm.Outcome ParsedFlm → Run S (Result ParsedFlm)
  parsed_flm (Flm.parsed flm) = done (ok flm)
  parsed_flm (Flm.failed e message) = done (err e)
  parsed_flm Flm.overrun = endless

  abbrev succeeded : {A : Type 0} → Result A → Bool
  succeeded (ok a) = true
  succeeded (err e) = false

  unfoldable pub program_named : Image → TargetInfo → List ℕ → Run S Bool
  program_named image target name = do
    outcome ← lift (λ s. (ok (Flm.parse_file (drive.read_file (flm_path name) s)), s))
    flm ← parsed_flm outcome
    result ← attempt (
        program_with_flm port clock fuel rounds flm image.segments 0x20000000
          (ram_size_of target.dev_id))
    done (succeeded result)

  unfoldable pub try_flm : Image → TargetInfo → Option (List ℕ) → Run S Bool
  try_flm image target none = done false
  try_flm image target (some name) = program_named image target name

  -- With the built-in algorithm, then with an FLM file; whether one of them succeeded.
  unfoldable pub program_image : Image → TargetInfo → Run S Bool
  program_image image target = do
    result ←
        attempt
          (program_target port clock fuel rounds (select_algorithm image target) image.segments)
    if succeeded result
        then done true
        else (lift (λ s. (ok (find_flm_file drive s), s)) >>= try_flm image target)

  unfoldable pub conclude : Image → TargetInfo → List ℕ → Bool → Run S Next
  conclude image target name good =
      if good
      then lift (λ s. (ok tt, delete_hex_files drive s))
        >> (report (program_ok (select_algorithm image target) name) true >> done stop)
      else (report (program_failed (select_algorithm image target)) false >> done go_on)

  unfoldable pub process_target : Image → List ℕ → Result TargetInfo → Run S Next
  process_target image name (err e) = report probe_failed false >> done go_on
  process_target image name (ok target) = program_image image target >>= conclude image target name

  unfoldable pub process_parsed : List ℕ → Hex.Outcome → Run S Next
  process_parsed name (Hex.parsed image) =
      attempt (lift (probe port connect)) >>= process_target image name
  process_parsed name (Hex.failed e message image) =
      report (parse_failed message) false >> done go_on
  process_parsed name Hex.out_of_fuel = endless

  unfoldable pub process_file : List ℕ → Run S Next
  process_file name =
      lift (λ s. (ok (Hex.parse_file sort line (drive.read_file (hex_path name) s)), s))
      >>= process_parsed name

  -- The loop over the entries of the folder, as it is when it is opened.
  unfoldable pub process_entries : List Entry → Run S (Unit {0})
  process_entries [] = done tt
  process_entries (entry ∷ entries) =
      let rest = process_entries entries in
      if is_hex entry
      then (process_file entry.name >>= λ next. elim next [ go_on ↦ rest | stop ↦ done tt ])
      else rest

  unfoldable pub process_root : Option (List Entry) → Run S (Unit {0})
  process_root none = done tt
  process_root (some entries) = process_entries entries

  -- The scan, and back to the host.
  unfoldable pub scan_root : Run S (Unit {0})
  scan_root = do
    listed ← lift (λ s. (ok (drive.list_root s), s))
    process_root listed
    lift (λ s. (ok tt, (drive.set_mount_point usb s).1))

  -- A write that was not seen before starts the wait.
  unfoldable pub track : Volume → ℕ → Run S Volume
  track v last_write =
      if ltb 0 last_write && not (last_write == v.last_write_seen)
      then (timestamp clock >>= λ now.
          done (record v { last_write_seen = last_write; write_idle_start = now }))
      else done v

  unfoldable pub switched : Volume → EspErr → Run S Volume
  switched v e = if is_ok e then (scan_root >> done v) else done v

  unfoldable pub switch_to_app : Volume → Run S Volume
  switch_to_app v =
      lift (λ s. let (e, s') = drive.set_mount_point app s in (ok e, s'))
      >>= switched (record v { write_idle_start = 0 })

  unfoldable pub when_idle : Volume → Run S Volume
  when_idle v =
      if ltb 0 v.write_idle_start
      then (timestamp clock >>= λ now.
          if ltb 2000 (sub32 now v.write_idle_start) then switch_to_app v else done v)
      else done v

  unfoldable pub scan_mounted : Volume → Mount → Run S Volume
  scan_mounted v app = scan_root >> done v
  scan_mounted v usb = lift (λ s. (ok (drive.last_write_ms s), s)) >>= track v >>= when_idle

  unfoldable pub scan_and_process_once : Volume → Run S Volume
  scan_and_process_once v =
      if v.storage_ready
      then (lift (λ s. (ok (drive.mount_point s), s)) >>= scan_mounted v)
      else done v
