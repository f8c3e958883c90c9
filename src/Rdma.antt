-- ===== src/Rdma.antt =====
-- csrc/rdma_utils.h and csrc/rdma_utils.cc: the states of a queue pair.
pub mod WorkRequest
pub mod Device
pub mod PortText
pub mod QueuePair
pub mod Connect
pub mod Examples
