-- ===== src/Tenant/Shares.antt =====
-- src/object/tenant/quota.rs: `distribute_effective_quota`, the split of the memory capacity.
pub mod Laws
pub mod Arithmetic
pub mod Defs
