-- ===== src/Messages.antt =====
-- csrc/flashreduce.pb.h and csrc/flashreduce.pb.cc: the messages between workers and controller.
pub mod Wire
pub mod SessionRequest
pub mod SessionResponse
pub mod Barrier
pub mod BroadcastCall
pub mod BroadcastReply
pub mod Examples
