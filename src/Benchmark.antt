-- ===== src/Benchmark.antt =====
-- examples/proxy_send_recv.cc: two hosts that write to each other through the proxy thread.
pub mod Device
pub mod Progress
pub mod Sending
pub mod Rounds
pub mod Receiving
pub mod Meeting
pub mod Draining
pub mod Ending
pub mod Setup
pub mod Objects
pub mod Live
pub mod Stacked
pub mod Released
pub mod Prepared
pub mod Examples
pub mod Aimed
mod MeetingExamples
mod ReleasedExamples
