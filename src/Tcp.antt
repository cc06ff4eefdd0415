-- ===== src/Tcp.antt =====
-- The TCP data plane of network/src: the shared types, and the sending end of a channel.
pub mod Protocol
pub mod Channel
pub mod Dispatcher
pub mod Connection
pub mod Intake
pub mod Registry
pub mod Link
pub mod Identify
