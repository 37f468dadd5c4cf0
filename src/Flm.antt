-- ===== src/Flm.antt =====
-- flm_parser.h and flm_parser.cpp (esp32s3-idf/lib/daplink): the flash algorithm files, which are ELF
-- files with the code of the algorithm, its functions and a descriptor of the flash.
pub mod Elf
pub mod Parse
pub mod Usable
mod Tests
use esp32_daplink.Base.{ℕ, Bool, List}

pub record FlashSector : Type 0 where
  pub size : ℕ
  pub address : ℕ

pub record FlashDeviceInfo : Type 0 where
  pub name : List ℕ
  pub dev_addr : ℕ
  pub dev_size : ℕ
  pub page_size : ℕ
  pub val_empty : ℕ
  pub timeout_prog : ℕ
  pub timeout_erase : ℕ
  pub sectors : List FlashSector

pub record FuncEntry : Type 0 where
  pub init : ℕ
  pub uninit : ℕ
  pub erase_chip : ℕ
  pub erase_sector : ℕ
  pub program_page : ℕ
  pub verify : ℕ

-- `static_base` keeps its 0 and is left out.
pub record ParsedFlm : Type 0 where
  pub code : List ℕ
  pub code_base : ℕ
  pub code_size : ℕ
  pub func : FuncEntry
  pub device : FlashDeviceInfo
  pub stack_size : ℕ
  pub valid : Bool
