-- ===== src/Grpc.antt =====
-- csrc/grpc_client.h and csrc/grpc_client.cc: the calls of a worker to the controller.
pub mod Client
pub mod Calls
pub mod Exchange
pub mod Broadcast
pub mod Session
pub mod Examples
mod BroadcastExamples
