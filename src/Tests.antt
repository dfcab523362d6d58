-- ===== src/Tests.antt =====
-- Runs at concrete inputs: each theorem with conditions holds of one of them, so it says something.
mod Buffers
mod Sessions
mod Registries
mod Documents
pub mod Processing
mod Handling
mod Serving
mod Kernel
pub mod Tool
mod Sockets
mod Signals
mod Owning
mod Raising
mod Living
