-- ===== src/Flash/Sectors/Cover.antt =====
-- Which addresses lie in a sector that is erased.
use esp32_daplink.Base.{ℕ, ◌+◌, ◌^◌, ◌≤◌, ◌<◌, ◌≡◌, ◌⊎◌, true, List, [], ◌∷◌, length}
use esp32_daplink.Hex.{Segment}
use esp32_daplink.Flm.{FlashDeviceInfo}
use esp32_daplink.Flash.Pages.Exact.{has}
use esp32_daplink.Flash.Sectors.{sector_of, sector_addr}

-- The start of the sector that the table gives for an address at or before `a`, with `a` inside.
pub record IsSector (device : FlashDeviceInfo) (a s : ℕ) : Type 0 where
  pub at : ℕ
  pub before : at ≤ a
  pub start : s ≡ sector_addr at (sector_of device at)
  pub from : s ≤ a
  pub below : a < s + (sector_of device at).size

-- What the loop over one segment keeps and what it adds.
record Covers (device : FlashDeviceInfo) (addr end : ℕ) (before after : List ℕ) : Type 0 where
  keeps : (s : ℕ) → has s before ≡ true → has s after ≡ true
  covers : (a : ℕ) → addr ≤ a → a < end → (s : ℕ) × (has s after ≡ true) × IsSector device a s

-- The addresses from `addr` up to `end` are in the flash, each in a sector that is not empty and that
-- does not reach, counted from the address, to the end of the addresses.
abbrev pub Tame : FlashDeviceInfo → ℕ → ℕ → Type 0
Tame device addr end =
    (device.dev_addr ≤ addr)
    × ((x : ℕ)
        → addr ≤ x
        → x < end
        → (0 < (sector_of device x).size) × (x + (sector_of device x).size < 2 ^ 32))

-- An address of a byte of one of the segments.
abbrev pub IsWritten : ℕ → List Segment → Type 0
IsWritten a [] = ⊥
IsWritten a (seg ∷ segments) =
    ((seg.address ≤ a) × (a < seg.address + length seg.bytes)) ⊎ IsWritten a segments

-- Segments in tame sectors, below 2^32, each with fewer bytes than there are rounds.
abbrev pub AllTame : FlashDeviceInfo → ℕ → List Segment → Type 0
AllTame device rounds [] = Unit {0}
AllTame device rounds (seg ∷ segments) =
    (seg.address + length seg.bytes < 2 ^ 32)
    × (length seg.bytes < rounds)
    × Tame device seg.address (seg.address + length seg.bytes)
    × AllTame device rounds segments

-- What is collected before is kept, and every byte of the segments is covered.
record AllCovered (device : FlashDeviceInfo) (segments : List Segment) (before after : List ℕ)
    : Type 0 where
  keeps : (s : ℕ) → has s before ≡ true → has s after ≡ true
  covers : (a : ℕ) → IsWritten a segments → (s : ℕ) × (has s after ≡ true) × IsSector device a s
