-- ===== src/Port/Chip.antt =====
-- A target on the line of swd.cpp: a chip with a MEM-AP in front of a memory of words, which decodes
-- the pins. It answers OK to every request. A listener between two turns of the driver, it takes a bit
-- at each rising edge, a request at the release of the line and a word with its 32nd data bit.
pub mod Line
pub mod Reads
pub mod Writes
pub mod Access
use esp32_daplink.Base.{
  ℕ, suc, ◌+◌, ◌-◌, ◌%◌, ◌≡◌, Bool, true, false, List, [], ◌∷◌, ◌++◌, leb, ◌==◌, ◌&&◌, ◌||◌,
  if◌then◌else◌, ◌>>>◌, u32, ◌⊎◌, ◌≤◌,
}
use esp32_daplink.Swd.Wire.{Pin, clk_low, clk_high, drive, release, Trace, Target, Swd, parity32}
use esp32_daplink.Swd.Words.{value_of}

pub record Chip : Type 0 where
  pub cells : ℕ → ℕ
  pub tar : ℕ
  pub posted : ℕ

pub record Machine : Type 0 where
  pub line : Bool
  pub bits : List Bool
  pub count : ℕ
  pub lows : ℕ
  pub request : ℕ
  pub reply : ℕ
  pub chip : Chip

-- a word that is written by a request: to TAR, or to the cell that TAR names
abbrev store : ℕ → ℕ → Chip → Chip
store r w c =
    if r == 0x8B
    then record c { tar = w }
    else if r == 0xBB
    then record c { cells = λ b. if b == c.tar then w else c.cells b }
    else c

-- a rising edge of the clock
abbrev pub clock : Machine → Machine
clock m = record m {
  bits = m.bits ++ (m.line ∷ []);
  count = suc m.count;
  chip = if m.count == 32 then store m.request (value_of m.bits) m.chip else m.chip;
}

-- a request, with the word that is sent in reply when it is a read; one of DRW posts its word
abbrev asked : ℕ → Machine → Machine
asked r m = record m {
  lows = 0;
  request = r;
  reply = u32 m.chip.posted;
  chip = if r == 0x9F then record (m.chip) { posted = m.chip.cells m.chip.tar } else m.chip;
}

abbrev step : Pin → Machine → Machine
step Pin.clk_low m = record m { lows = suc m.lows }
step Pin.clk_high m = clock m
step Pin.out_low m = record m { line = false }
step Pin.out_high m = record m { line = true }
step Pin.drive m = record m { bits = []; count = 0 }
step Pin.release m = asked (value_of m.bits) m

abbrev start : Machine
start = record {
  line = true;
  bits = [];
  count = 0;
  lows = 0;
  request = 0;
  reply = 0;
  chip = record { cells = λ a. 0; tar = 0; posted = 0 };
}

-- the events, newest first
abbrev pub run : Trace → Machine
run [] = start
run (p ∷ t) = step p (run t)

-- the level of the data line in the low phase of a clock: after the turnaround the acknowledge OK,
-- a word and its parity
abbrev answer : Machine → Bool
answer m =
    if m.lows == 37
    then parity32 m.reply == 1
    else (m.lows == 2) || (leb 5 m.lows && ((m.reply >>> (m.lows - 5)) % 2 == 1))

abbrev pub chip_target : Target
chip_target t = answer (run t)

-- No clock writes a word: the request is no write, or its word is already written.
pub Quiet : Machine → Type 0
Quiet m = ((w : ℕ) (c : Chip) → store m.request w c ≡ c) ⊎ (33 ≤ m.count)

pub chip_of : Swd → Chip
chip_of s = (run s.trace).chip
