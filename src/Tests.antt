-- ===== src/Tests.antt =====
-- The theorems at concrete inputs: a codec, a semaphore, and calls that exercise the code.
mod Codec
mod Udp
mod Network
mod Gap
mod Channel
mod Connection
mod Node
mod Intake
mod Link
mod Finish
mod Engine
mod Program
mod Source
mod Thread
mod Stopped
mod Bridge
mod Auto
mod Identify
mod Cli
mod Registry
