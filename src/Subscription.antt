-- ===== src/Subscription.antt =====
-- pkg/discovery/subscription: the provisioning of access, applications and credentials.
pub mod Sdk
pub mod Samples
pub mod Access
pub mod Application
pub mod Credential
pub mod Register
pub mod Provisioner
