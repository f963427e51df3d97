-- ===== src/Tenant.antt =====
-- src/object/tenant: the quota accounts of the tenants and the split of the memory capacity.
pub mod Account
pub mod Charges
pub mod Shares
pub mod Reserving
pub mod Registry
mod Examples
