-- ===== src/Udp.antt =====
-- external/BDSPro_UDP_Channel/src/lib.rs: the UDP channel with flow control.
pub mod Message
pub mod Semaphore
pub mod Sender
pub mod Receiver
pub mod Network
pub mod Simple
pub mod Auto
pub mod Cli
