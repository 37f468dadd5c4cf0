-- ===== src/Exec.antt =====
-- target_exec.h and target_exec.cpp (esp32s3-idf/lib/daplink): running a flash algorithm in the target's
-- RAM. The SWD port is a parameter; delays, the watchdog and log output are left out.
pub mod Core
pub mod Words
pub mod Load
pub mod Call
pub mod Access
pub mod Upload
pub mod Stored
pub mod Layout
pub mod Wait
mod Tests
