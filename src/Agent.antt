-- ===== src/Agent.antt =====
-- pkg/discovery/agent: discovery of the services and routes, and what is published of them.
pub mod Sdk
pub mod Route
pub mod GlobalAcl
pub mod Security
pub mod Publish
pub mod Service
pub mod Discovery
mod Samples
pub mod Registered
pub mod Start
pub mod Command
