-- ===== src/Tenant/Registry/Versions.antt =====
-- How the versions of the tenants change.
use cakemaster.Base.{
  ℕ, ◌+◌, ◌*◌, ◌≤◌, Option, none, some, List, [], ◌∷◌, ◌≡◌, ◌∙◌, refl, sym, ap, inl, inr, arith,
  if◌then◌else◌, eqb, Bool-cases, Option-cases, ◌==◌,
}
use mathlib.Core.Option.{some_inj}
use cakemaster.Base.Table.{Table, get, insert, get-insert}
use cakemaster.Identity.{string_eq}
use cakemaster.Tenant.Account.{QuotaAccount}
use cakemaster.Tenant.Registry.Words.{
  registered_state, max_generation, tenant_version, tenant_generation, tenant_state,
  tenant_version_lem,
}
use cakemaster.Tenant.Registry.Defs.{
  TenantId, TenantEntry, TenantRegistry, present, set_memory, write_back, recompute_with_capacity,
}
use cakemaster.Tenant.Registry.Calls.{set_version}

abbrev pub version_of : Option TenantEntry → Option ℕ
version_of none = none
version_of (some e) = some e.version

abbrev pub version_at : TenantId → Table TenantId TenantEntry → Option ℕ
version_at id directory = version_of (get id directory)

pub version_at-insert :
    (id j : TenantId) (e : TenantEntry) (d : Table TenantId TenantEntry)
    → version_at j (insert id e d) ≡ (if id == j then some e.version else version_at j d)
version_at-insert id j e d = elim (Bool-cases (id == j)) [
  | inl q ↦ ground (arith, get-insert id j e d, q)
  | inr q ↦ ground (arith, get-insert id j e d, q)
]

pub version_at-set_memory :
    (id j : TenantId) (memory : QuotaAccount) (d : Table TenantId TenantEntry)
    → version_at j (set_memory id memory d) ≡ version_at j d
unfolding set_memory get
version_at-set_memory id j memory [] = refl
version_at-set_memory id j memory ((k, e) ∷ xs) =
    ground (arith, version_at-set_memory id j memory xs)

pub version_at-write_back :
    (xs : Table TenantId TenantEntry) (accounts : List QuotaAccount) (j : TenantId)
    (d : Table TenantId TenantEntry)
    → version_at j (write_back xs accounts d) ≡ version_at j d
unfolding write_back
version_at-write_back [] accounts j d = refl
version_at-write_back (x ∷ xs) [] j d = refl
version_at-write_back (x ∷ xs) (a ∷ accounts) j d =
    version_at-write_back xs accounts j (set_memory x.0 a d) ∙ version_at-set_memory x.0 j a d

pub version_at-recompute :
    (capacity epoch : ℕ) (r : TenantRegistry) (j : TenantId)
    → version_at j (recompute_with_capacity capacity epoch r).directory ≡ version_at j r.directory
unfolding recompute_with_capacity
version_at-recompute capacity epoch r j =
    version_at-write_back (present r.directory) _ j r.directory

pub version_at-set_version :
    (id j : TenantId) (v : ℕ) (r : TenantRegistry) (e : TenantEntry)
    → get id r.directory ≡ some e
    → version_at j (set_version id (some v) r).directory
      ≡ (if id == j then some v else version_at j r.directory)
unfolding set_version
version_at-set_version id j v r e found =
    ground (arith, found, version_at-insert id j (record e { version = v }) r.directory)

abbrev pub rank : ℕ → ℕ
rank v = tenant_generation v * 2 + (if eqb (tenant_state v) registered_state then 0 else 1)

-- The tenant's version is at least g, in the order in which it changes.
abbrev pub Past : ℕ → TenantRegistry → TenantId → Type 0
Past g r id = (v : ℕ) × (version_at id r.directory ≡ some v) × (g ≤ rank v)

abbrev pub final_version : TenantEntry → Option ℕ → ℕ
final_version e none = e.version
final_version e (some v) = v

pub rank-tenant_version :
    (g : ℕ) → g ≤ max_generation → rank (tenant_version g registered_state) ≡ g * 2
rank-tenant_version g h =
    let l = tenant_version_lem g registered_state h (omega arith) in ground (arith, l.0, l.1)

pub found_of :
    (id : TenantId) (d : Table TenantId TenantEntry) (v : ℕ)
    → version_at id d ≡ some v
    → (e : TenantEntry) × (get id d ≡ some e) × (e.version ≡ v)
found_of id d v h = elim (Option-cases (get id d)) [
  | inl q ↦ absurd (ground (arith, ap version_of q, h))
  | inr (e, q) ↦ (e, q, some_inj.0 (sym (ap version_of q) ∙ h))
]
