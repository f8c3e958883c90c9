-- ===== src/Proxy.antt =====
-- csrc/proxy.h and csrc/proxy.cc: the proxy thread, its ring of operations and the pool of entries.
pub mod State
pub mod Queue
pub mod Thread
pub mod Flags
pub mod Control
pub mod Memory
pub mod Chain
pub mod Channels
pub mod Invariant
pub mod Append
pub mod Allocate
pub mod Rotate
pub mod Advance
pub mod System
pub mod Soundness
pub mod Lifecycle
pub mod Examples
mod WorkExamples
