-- ===== src/Traceability.antt =====
-- pkg/traceability: the agent that turns Kong's request logs into events for Amplify Central.
pub mod Config
pub mod Entry
pub mod Sdk
pub mod Status
pub mod Transaction
pub mod Handler
pub mod Beater
pub mod Command
mod Samples
