-- ===== src/Rtt.antt =====
-- rtt_reader.h and rtt_reader.cpp (esp32s3-idf/lib/daplink): the reader of SEGGER RTT buffers in the
-- target's memory. The SWD port is a parameter; log output is left out.
pub mod Core
pub mod Search
pub mod Poll
pub mod Down
pub mod Access
pub mod Ring
pub mod Reading
pub mod Queue
pub mod Polling
pub mod Bounds
pub mod Append
pub mod Filling
pub mod Round
pub mod Writing
pub mod Pushed
pub mod Push
pub mod Block
pub mod Found
mod Tests
