-- ===== src/Volume/Files.antt =====
-- The files on the drive: `delete_hex_files`, `find_flm_file`, `write_status_files`, `reset_volume`.
use esp32_daplink.Base.{ℕ, ◌&&◌, not, Bool, true, if◌then◌else◌, Option, none, some, List, [], ◌∷◌}
use esp32_daplink.Volume.{
  Entry, hex_path, index_file, status_file, error_file, Status, ready, html, details, Drive,
}
use esp32_daplink.Volume.Names.{has_hex_extension, has_flm_extension}

-- A file that is no folder and has the extension `.hex`.
abbrev pub is_hex : Entry → Bool
is_hex entry = not entry.is_dir && has_hex_extension entry.name

unfoldable pub first_flm : List Entry → Option (List ℕ)
first_flm [] = none
first_flm (entry ∷ entries) =
    if not entry.is_dir && has_flm_extension entry.name then some entry.name else first_flm entries

module _ {S : Type 0} (drive : Drive S) where
  unfoldable pub delete_listed : List Entry → S → S
  delete_listed [] s = s
  delete_listed (entry ∷ entries) s =
      delete_listed entries (if is_hex entry then drive.unlink (hex_path entry.name) s else s)

  -- A folder is listed as it is when it is opened.
  unfoldable pub delete_hex_files : S → S
  delete_hex_files s = elim (drive.list_root s) [
    | none ↦ s
    | some entries ↦ delete_listed entries s
  ]

  -- The empty string is `none`.
  unfoldable pub find_flm_file : S → Option (List ℕ)
  find_flm_file s = elim (drive.list_algo s) [ none ↦ none | some entries ↦ first_flm entries ]

  unfoldable pub write_status_files : Status → Bool → S → S
  write_status_files status success s =
      let paged = drive.write_file index_file (html status) s in
      if success
      then drive.unlink error_file (drive.write_file status_file (details status) paged)
      else drive.write_file error_file (details status) paged

  unfoldable pub reset_volume : S → S
  reset_volume s = write_status_files ready true (drive.unlink error_file (delete_hex_files s))
