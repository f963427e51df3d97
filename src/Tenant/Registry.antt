-- ===== src/Tenant/Registry.antt =====
-- src/object/tenant/registry.rs: the tenants, their handles, and the words that fence them.
pub mod Words
pub mod Defs
pub mod Calls
pub mod Versions
pub mod Handles
pub mod History
pub mod Admission
pub mod Fit
pub mod Fencing
mod Examples
