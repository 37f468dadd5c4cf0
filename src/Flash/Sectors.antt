-- ===== src/Flash/Sectors.antt =====
-- The sectors that `program_with_flm` collects for erasing.
pub mod Cover
use esp32_daplink.Base.{
  ℕ, zero, suc, ◌%◌, ◌==◌, leb, ltb, if◌then◌else◌, Option, none, some, List, [], ◌∷◌, length,
  add32, sub32,
}
use esp32_daplink.Hex.{Segment}
use esp32_daplink.Flm.{FlashSector, FlashDeviceInfo}
use esp32_daplink.Flash.Pages.{insert}

-- `sector_size` and `sector_base`.
pub record Sector : Type 0 where
  pub size : ℕ
  pub base : ℕ

unfoldable pub default_sector_size : FlashDeviceInfo → ℕ
default_sector_size device = elim device.sectors [ [] ↦ device.page_size | s ∷ _ ↦ s.size ]

-- The loop over the sector table: the last entry that starts at or before the address.
unfoldable pub find_sector : ℕ → ℕ → List FlashSector → Sector → Sector
find_sector dev_addr addr [] found = found
find_sector dev_addr addr (s ∷ sectors) found = find_sector dev_addr addr sectors (
    if leb (add32 dev_addr s.address) addr
    then record { size = s.size; base = add32 dev_addr s.address }
    else found)

unfoldable pub sector_of : FlashDeviceInfo → ℕ → Sector
sector_of device addr =
    find_sector device.dev_addr addr device.sectors
      (record { size = default_sector_size device; base = device.dev_addr })

unfoldable pub sector_addr : ℕ → Sector → ℕ
sector_addr addr s = sub32 addr (sub32 addr s.base % s.size)

-- `while (addr < end)`; `none` is a sector of size 0, which is divided by, or no end in `rounds`.
unfoldable pub sectors_from : FlashDeviceInfo → ℕ → ℕ → ℕ → List ℕ → Option (List ℕ)
sectors_from device zero addr end sectors = none
sectors_from device (suc rounds) addr end sectors =
    let s = sector_of device addr in
    let start = sector_addr addr s in
    let rest = sectors_from device rounds (add32 start s.size) end (insert start sectors) in
    if ltb addr end then (if s.size == 0 then none else rest) else some sectors

unfoldable pub sectors_to_erase : FlashDeviceInfo → ℕ → List Segment → List ℕ → Option (List ℕ)
sectors_to_erase device rounds [] sectors = some sectors
sectors_to_erase device rounds (seg ∷ segments) sectors =
    elim (sectors_from device rounds seg.address (add32 seg.address (length seg.bytes)) sectors) [
      | none ↦ none
      | some more ↦ sectors_to_erase device rounds segments more
    ]
