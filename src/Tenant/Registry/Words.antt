-- ===== src/Tenant/Registry/Words.antt =====
-- src/object/tenant/registry.rs: the version word of a tenant, a generation with two bits of state.
use cakemaster.Base.{ℕ, ◌+◌, ◌-◌, ◌*◌, ◌/◌, ◌%◌, ◌≤◌, ◌<◌, ◌≡◌, arith}

abbrev pub registered_state : ℕ
registered_state = 0

abbrev pub closing_state : ℕ
closing_state = 1

abbrev pub removed_state : ℕ
removed_state = 2

-- `u64::MAX >> TENANT_STATE_BITS`.
abbrev pub max_generation : ℕ
max_generation = 4611686018427387903

unfoldable pub tenant_version : ℕ → ℕ → ℕ
tenant_version generation state = generation * 4 % 18446744073709551616 + state

unfoldable pub tenant_generation : ℕ → ℕ
tenant_generation version = version / 4

unfoldable pub tenant_state : ℕ → ℕ
tenant_state version = version % 4

unfoldable pub with_tenant_state : ℕ → ℕ → ℕ
with_tenant_state version state = version - version % 4 + state

pub tenant_version_lem :
    (generation state : ℕ)
    → generation ≤ max_generation
    → state < 4
    → (tenant_generation (tenant_version generation state) ≡ generation)
      × (tenant_state (tenant_version generation state) ≡ state)
unfolding tenant_version tenant_generation tenant_state
tenant_version_lem generation state g s = omega arith

pub with_tenant_state_lem :
    (version state : ℕ)
    → state < 4
    → (tenant_generation (with_tenant_state version state) ≡ tenant_generation version)
      × (tenant_state (with_tenant_state version state) ≡ state)
unfolding with_tenant_state tenant_generation tenant_state
with_tenant_state_lem version state s = omega arith

-- A word is its generation and its state.
pub version_eq :
    (v w : ℕ) → tenant_generation v ≡ tenant_generation w → tenant_state v ≡ tenant_state w → v ≡ w
unfolding tenant_generation tenant_state
version_eq v w g s = omega arith
