-- ===== src/Swd.antt =====
-- swd.h and swd.cpp (esp32s3-idf/lib/daplink): the SWD line protocol, bit by bit. The pins are an
-- explicit trace of what the firmware drives; the target is a function from the trace so far to
-- the level that it puts on SWDIO, so every deterministic target is covered. Delays, log output and
-- the FreeRTOS mutex are left out.
pub mod Wire
pub mod Transfer
pub mod Port
pub mod Request
pub mod Words
pub mod Retry
pub mod Keeps
pub mod Outcome
mod Tests
