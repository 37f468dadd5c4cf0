-- ===== src/Flash.antt =====
-- flash_algo.h, flash_algo.cpp and the types of target_probe.h (esp32s3-idf/lib/daplink): the choice of
-- a flash algorithm for a target, the pages that a programming run erases, and the routines that
-- program a target through its flash controller.
pub mod Select
pub mod Pages
pub mod Routing
pub mod Status
pub mod G0
pub mod Paged
pub mod Target
pub mod Sectors
pub mod WithFlm
mod Tests
