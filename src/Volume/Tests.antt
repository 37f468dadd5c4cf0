-- ===== src/Volume/Tests.antt =====
-- Scans of a drive that lists one hex file, which cannot be read.
use esp32_daplink.Base.{
  ℕ, suc, ◌==◌, true, false, if◌then◌else◌, ◌≡◌, refl, none, some, List, [], ◌∷◌,
}
use esp32_daplink.Esp.{esp_ok}
use esp32_daplink.Esp.Action.{ok, pure}
use esp32_daplink.Esp.Run.{Board, done, lift, timestamp, attempt, ◌>>=◌}
use esp32_daplink.Hex.{Segment, parse_file, toupper}
use esp32_daplink.Port.Ideal.{Chip, ideal}
use esp32_daplink.Volume.{usb, app, Drive, Volume}
use esp32_daplink.Volume.Names.{last_dot, same_name, has_extension}
use esp32_daplink.Volume.Files.{write_status_files}
use esp32_daplink.Volume.Scan.{
  report, process_parsed, process_file, process_entries, process_root, scan_root, track, switched,
  switch_to_app, when_idle, scan_mounted, scan_and_process_once,
}
use esp32_daplink.Volume.Quiet.{Decided, scan_and_process_once-Scanned}

-- Cell 0 says who has the drive; RDBUFF counts the files written.
abbrev cells_of : ℕ → (ℕ → ℕ) → ℕ → ℕ
cells_of owner cells a = if a == 0 then owner else cells a

abbrev drive : Drive Chip
drive = record {
  mount_point = λ s. if s.cells 0 == 0 then usb else app;
  set_mount_point =
      λ m s. (esp_ok, record s { cells = cells_of (elim m [ usb ↦ 0 | app ↦ 1 ]) s.cells });
  last_write_ms = λ s. 700;
  list_root = λ s. some (
      record { is_dir = true; name = b'a' ∷ [] }
      ∷ record { is_dir = false; name = b'a' ∷ b'.' ∷ b'H' ∷ b'e' ∷ b'x' ∷ [] }
      ∷ []);
  list_algo = λ s. none;
  read_file = λ path s. none;
  write_file = λ path text s. record s { rdbuff = suc s.rdbuff };
  unlink = λ path s. s;
  install_driver = λ s. (esp_ok, s);
  find_partition = λ s. true;
  wl_mount = λ s. (esp_ok, s);
  wl_unmount = λ s. s;
  new_storage = λ s. (esp_ok, s);
}

abbrev board : Board Chip
board = record { swd = record { cells = λ a. 0; tar = 0; rdbuff = 0 }; readings = 0 }

-- A write at 700 ms was seen at 1000 ms.
abbrev seen : Volume
seen = record {
  storage_ready = true;
  driver_ready = true;
  last_write_seen = 700;
  write_idle_start = 1000;
}

abbrev after : Board Chip
after = record {
  swd = record { cells = cells_of 0 (cells_of 1 (λ a. 0)); tar = 0; rdbuff = 2 };
  readings = 1;
}

abbrev sorted : List Segment → List Segment
sorted segments = segments

scanned :
    scan_and_process_once ideal drive (pure tt) sorted [] (λ n. 4000) 10 10 seen board
    ≡ some (ok (record seen { write_idle_start = 0 }), after)
unfolding scan_and_process_once scan_mounted when_idle switch_to_app switched scan_root process_root
    process_entries process_file process_parsed report track lift done timestamp attempt ◌>>=◌
    write_status_files last_dot same_name has_extension parse_file toupper
scanned = refl

scan_and_process_once-Scanned_example :
    Decided ideal drive
      (pure tt)
      sorted
      []
      (λ n. 4000)
      10
      10
      seen
      board
      (record seen { write_idle_start = 0 })
      after
scan_and_process_once-Scanned_example =
    scan_and_process_once-Scanned ideal drive (pure tt) sorted [] (λ n. 4000) 10 10 seen
      (record seen { write_idle_start = 0 }) board after refl refl scanned
