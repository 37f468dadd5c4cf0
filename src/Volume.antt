-- ===== src/Volume.antt =====
-- usb_msc_volume.h and usb_msc_volume.cpp (esp32s3-idf/lib/daplink): the USB drive whose hex files are
-- flashed to the target. The file system and the USB storage driver are a parameter, `Drive`; log
-- output and the activity state of the LEDs are left out.
pub mod Names
pub mod Files
pub mod Scan
pub mod Start
pub mod Quiet
mod Tests
use esp32_daplink.Base.{ℕ, Bool, List, Option}
use esp32_daplink.Esp.{EspErr}
use esp32_daplink.Hex as Hex
use esp32_daplink.Flash.Select.{SelectionResult, Family}

-- Who has the drive: the host, or this program.
pub data Mount : Type 0 where
  usb app : Mount

-- `dirent`
pub record Entry : Type 0 where
  pub is_dir : Bool
  pub name : List ℕ

-- A path: the mount path or the folder of algorithms joined with a name, or one of the status files.
pub data FilePath : Type 0 where
  hex_path flm_path : List ℕ → FilePath
  index_file status_file error_file : FilePath

-- The heading of the status page with what the details say; a list of numbers is a file's name.
pub data Status : Type 0 where
  ready probe_failed : Status
  parse_failed : Hex.Message → Status
  program_failed : SelectionResult → Status
  program_ok : SelectionResult → List ℕ → Status

-- The HTML page of a status, or its details alone.
pub data Text : Type 0 where
  html details : Status → Text

-- What the program calls of the file system, the USB storage driver and wear levelling.
pub record Drive (S : Type 0) : Type 0 where
  pub mount_point : S → Mount
  pub set_mount_point : Mount → S → EspErr × S
  pub last_write_ms : S → ℕ
  pub list_root : S → Option (List Entry)
  pub list_algo : S → Option (List Entry)
  pub read_file : FilePath → S → Option (List ℕ)
  pub write_file : FilePath → Text → S → S
  pub unlink : FilePath → S → S
  pub install_driver : S → EspErr × S
  pub find_partition : S → Bool
  pub wl_mount : S → EspErr × S
  pub wl_unmount : S → S
  pub new_storage : S → EspErr × S

-- The globals; `g_storage_handle` is set with `g_storage_ready`.
pub record Volume : Type 0 where
  pub storage_ready : Bool
  pub driver_ready : Bool
  pub last_write_seen : ℕ
  pub write_idle_start : ℕ
