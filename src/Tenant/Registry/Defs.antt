-- ===== src/Tenant/Registry/Defs.antt =====
-- src/object/tenant/registry.rs: the registry and the split of the capacity over its tenants. What the
-- pool answers (`stable_capacity`) is an argument, the capacity and its epoch. Tenants are never taken
-- out of the directory, so a handle's entry is the tenant's id.
use Prim.Native.Nat.{Ordering}
use Prim.Native.String.{String, compare}
use cakemaster.Base.{
  ℕ, ◌+◌, ◌-◌, ◌%◌, Bool, false, ◌||◌, Option, List, [], ◌∷◌, if◌then◌else◌, eqb, ltb,
  saturating_add, wrapping_add, ◌==◌,
}
use cakemaster.Base.Table.{Table}
use cakemaster.Identity.{string_eq}
use cakemaster.Tenant.Account.{QuotaAccount, new_account}
use cakemaster.Tenant.Shares.Defs.{distribute_effective_quota}
use cakemaster.Tenant.Registry.Words.{removed_state, tenant_version, tenant_state}

abbrev pub TenantId : Type 0
TenantId = String

-- The namespace of the objects of single-tenant mode.
abbrev pub default_namespace : ℕ
default_namespace = 0

pub record TenantEntry : Type 0 where
  pub namespace : ℕ
  pub version : ℕ
  pub memory : QuotaAccount

pub record TenantRegistry : Type 0 where
  pub manager_id : ℕ
  pub single : Bool
  pub directory : Table TenantId TenantEntry
  pub next_namespace : ℕ
  pub capacity_generation : ℕ
  pub reclaim_state : ℕ

pub record ResolvedTenant : Type 0 where
  pub manager_id : ℕ
  pub namespace : ℕ
  pub version : ℕ
  pub entry : Option TenantId

pub data TenantAdminError : Type 0 where
  single_tenant_mode tenant_not_registered tenant_not_empty namespace_exhausted : TenantAdminError

pub data TenantObjectError : Type 0 where
  tenant_not_registered invalid_tenant_handle : TenantObjectError

abbrev pub new_tenant_entry : ℕ → ℕ → ℕ → TenantEntry
new_tenant_entry namespace requested state = record {
  namespace = namespace;
  version = tenant_version 1 state;
  memory = new_account requested;
}

-- `sort_unstable_by` on the ids.
unfoldable pub insert_by_id :
    TenantId × TenantEntry → Table TenantId TenantEntry → Table TenantId TenantEntry
insert_by_id x [] = x ∷ []
insert_by_id x (y ∷ ys) =
    let rest = insert_by_id x ys in
    elim (compare x.0 y.0) [ Ordering.gt ↦ y ∷ rest | _ ↦ x ∷ y ∷ ys ]

-- The tenants that are not removed, in the order of their ids.
unfoldable pub present : Table TenantId TenantEntry → Table TenantId TenantEntry
unfolding insert_by_id
present [] = []
present (x ∷ xs) =
    if eqb (tenant_state x.1.version) removed_state then present xs else insert_by_id x (present xs)

unfoldable pub accounts_of : Table TenantId TenantEntry → List QuotaAccount
accounts_of [] = []
accounts_of (x ∷ xs) = x.1.memory ∷ accounts_of xs

unfoldable pub set_memory :
    TenantId → QuotaAccount → Table TenantId TenantEntry → Table TenantId TenantEntry
set_memory id memory [] = []
set_memory id memory ((k, e) ∷ xs) =
    let rest = set_memory id memory xs in
    if k == id then (k, record e { memory = memory }) ∷ xs else (k, e) ∷ rest

unfoldable pub write_back :
    Table TenantId TenantEntry
    → List QuotaAccount
    → Table TenantId TenantEntry
    → Table TenantId TenantEntry
unfolding set_memory
write_back [] accounts directory = directory
write_back (x ∷ xs) [] directory = directory
write_back (x ∷ xs) (a ∷ accounts) directory = write_back xs accounts (set_memory x.0 a directory)

unfoldable pub has_reclaim_debt : List QuotaAccount → Bool
has_reclaim_debt [] = false
has_reclaim_debt (a ∷ accounts) =
    ltb (saturating_add a.effective a.retiring) a.demand || has_reclaim_debt accounts

-- The revision in the upper bits goes up, the lowest bit is the debt.
abbrev pub next_reclaim_state : ℕ → Bool → ℕ
next_reclaim_state state debt =
    (let revision = wrapping_add state 2 in revision - revision % 2 + (if debt then 1 else 0))

-- `recompute_with_capacity_locked`.
unfoldable pub recompute_with_capacity : ℕ → ℕ → TenantRegistry → TenantRegistry
unfolding present accounts_of write_back has_reclaim_debt
recompute_with_capacity capacity generation r =
    let entries = present r.directory in
    let accounts = distribute_effective_quota (accounts_of entries) capacity in
    record r {
      directory = write_back entries accounts r.directory;
      reclaim_state = next_reclaim_state r.reclaim_state (has_reclaim_debt accounts);
      capacity_generation = generation;
    }

-- `epoch` is what the first look at the pool finds, `observed` what the stable look finds.
unfoldable pub refresh_capacity : ℕ → ℕ → ℕ → TenantRegistry → TenantRegistry
unfolding recompute_with_capacity
refresh_capacity epoch capacity observed r =
    if r.single || eqb r.capacity_generation epoch || eqb r.capacity_generation observed
    then r
    else recompute_with_capacity capacity observed r
