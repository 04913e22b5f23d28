-- ===== src/Kong.antt =====
-- pkg/discovery/kong: the client of Kong's Admin API, and what it decides on top of it.
pub mod Klib
pub mod AuthPlugins
pub mod Plugins
pub mod Selection
pub mod Client
pub mod Connection
pub mod Consumers
pub mod Acl
pub mod Quota
pub mod Spec
