-- ===== src/Volume/Start.antt =====
-- `ensure_msc_driver`, `mount_partition` (and `init`, which calls it) and `with_app_mount`.
use esp32_daplink.Base.{not, true, if◌then◌else◌}
use esp32_daplink.Esp.{EspErr, esp_ok, is_ok, not_found, invalid_state}
use esp32_daplink.Volume.{usb, app, Drive, Volume}

module _ {S : Type 0} (drive : Drive S) where
  unfoldable pub ensure_msc_driver : Volume → S → EspErr × Volume × S
  ensure_msc_driver v s =
      let (e, s') = drive.install_driver s in
      if v.driver_ready
      then (esp_ok, v, s)
      else if is_ok e
      then (esp_ok, record v { driver_ready = true }, s')
      else (e, v, s')

  -- From the search of the partition on; a storage that fails is unmounted again.
  unfoldable pub open_partition : Volume → S → EspErr × Volume × S
  open_partition v s =
      let (e, mounted) = drive.wl_mount s in
      let (f, opened) = drive.new_storage mounted in
      if not (drive.find_partition s)
      then (not_found, v, s)
      else if not (is_ok e)
      then (e, v, mounted)
      else if not (is_ok f)
      then (f, v, drive.wl_unmount opened)
      else (esp_ok, record v { storage_ready = true }, opened)

  unfoldable pub mount_partition : Volume → S → EspErr × Volume × S
  mount_partition v s =
      let (e, v', s') = ensure_msc_driver v s in
      if v.storage_ready
      then (esp_ok, v, s)
      else if is_ok e
      then open_partition v' s'
      else (e, v', s')

  unfoldable pub with_app_mount : (S → S) → Volume → S → EspErr × S
  with_app_mount func v s =
      let (e, s') = drive.set_mount_point app s in
      if not v.storage_ready
      then (invalid_state, s)
      else if is_ok e
      then (esp_ok, (drive.set_mount_point usb (func s')).1)
      else (e, s')
