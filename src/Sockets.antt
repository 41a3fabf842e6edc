-- ===== src/Sockets.antt =====
-- The socket programs.
pub mod InitServer
mod Examples
pub mod SendFd
pub mod TimeServer
pub mod AddrInfo
pub mod Retry
pub mod UniqueClient
pub mod TimeClient
pub mod UniqueServer
