-- ===== src/Handlers.antt =====
-- The handlers that the server registers with its request processor.
pub mod Commands
pub mod Processes
