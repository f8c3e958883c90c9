-- ===== src/Sockets.antt =====
-- The socket endpoint, csrc/socket_endpoint.h and csrc/socket_endpoint.cc.
pub mod Kernel
pub mod Endpoint
pub mod Ownership
pub mod Names
pub mod Construction
pub mod Connecting
pub mod Sync
pub mod Exchange
pub mod Handshake
pub mod RoundTrip
pub mod Examples
