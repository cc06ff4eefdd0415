-- ===== src/Node.antt =====
-- test-node/src/main.rs: what the node's sinks and sources do with tuple buffers.
pub mod Sink
pub mod Tracker
pub mod Generator
pub mod ArrayQueue
pub mod Engine
pub mod Source
pub mod Thread
pub mod Program
