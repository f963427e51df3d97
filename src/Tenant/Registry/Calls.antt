-- ===== src/Tenant/Registry/Calls.antt =====
-- src/object/tenant/registry.rs: the calls of the registry, of which those that administer hold its mutex.
use cakemaster.Base.{
  ℕ, ◌+◌, ◌-◌, ◌%◌, Bool, true, false, not, ◌&&◌, ◌||◌, Option, none, some, List, [], ◌∷◌,
  if◌then◌else◌, eqb, leb, ltb, u64_max, checked_add, Result, ok, err,
}
use cakemaster.Base.Table.{Table, get, insert}
use cakemaster.Identity.{string_eq}
use cakemaster.Tenant.Account.{QuotaAccount, set_effective}
use cakemaster.Tenant.Registry.Words.{
  registered_state, closing_state, removed_state, max_generation, tenant_version, tenant_generation,
  tenant_state, with_tenant_state,
}
use cakemaster.Tenant.Registry.Defs.{
  TenantId, default_namespace, TenantEntry, TenantRegistry, ResolvedTenant, TenantAdminError,
  single_tenant_mode, tenant_not_registered, tenant_not_empty, namespace_exhausted,
  TenantObjectError, invalid_tenant_handle, new_tenant_entry, recompute_with_capacity,
  refresh_capacity,
}

pub data TenantConfigError : Type 0 where
  duplicate_tenant : TenantId → TenantConfigError
  config_exhausted : TenantConfigError

-- The loop over the initial policies, each an id with its requested bytes.
unfoldable pub add_policies :
    List (TenantId × ℕ)
    → ℕ
    → Table TenantId TenantEntry
    → Result TenantConfigError (ℕ × Table TenantId TenantEntry)
add_policies [] next entries = ok (next, entries)
add_policies ((id, requested) ∷ policies) next entries = elim (get id entries) [
  | some e ↦ err (duplicate_tenant id)
  | none ↦ elim (checked_add next 1) [
    | none ↦ err config_exhausted
    | some next' ↦
        add_policies policies next'
          (insert id (new_tenant_entry next requested registered_state) entries)
  ]
]

-- `TenantRegistry::new`; none is the mode of a single tenant.
unfoldable pub new_registry :
    ℕ → ℕ × ℕ × ℕ → Option (List (TenantId × ℕ)) → Result TenantConfigError TenantRegistry
unfolding add_policies refresh_capacity
new_registry manager_id (epoch, capacity, observed) none = ok (record {
  manager_id = manager_id;
  single = true;
  directory = [];
  next_namespace = 1;
  capacity_generation = u64_max;
  reclaim_state = 0;
})
new_registry manager_id (epoch, capacity, observed) (some policies) =
    elim (add_policies policies 1 []) [
      | err e ↦ err e
      | ok (next, entries) ↦ ok (
          refresh_capacity epoch capacity observed (record {
            manager_id = manager_id;
            single = false;
            directory = entries;
            next_namespace = next;
            capacity_generation = u64_max;
            reclaim_state = 0;
          }))
    ]

abbrev reclaim_bytes : QuotaAccount → ℕ
reclaim_bytes a = a.demand - a.retiring - a.effective

-- The registered tenants with bytes to reclaim, each by its namespace; the source sorts them by it.
unfoldable pub targets : Table TenantId TenantEntry → List (ℕ × ℕ)
targets [] = []
targets (x ∷ xs) =
    let rest = targets xs in
    if eqb (tenant_state x.1.version) registered_state && ltb 0 (reclaim_bytes x.1.memory)
    then (x.1.namespace, reclaim_bytes x.1.memory) ∷ rest
    else rest

unfoldable pub insert_target : ℕ × ℕ → List (ℕ × ℕ) → List (ℕ × ℕ)
insert_target x [] = x ∷ []
insert_target x (y ∷ ys) =
    let rest = insert_target x ys in if ltb y.0 x.0 then y ∷ rest else x ∷ y ∷ ys

unfoldable pub sort_targets : List (ℕ × ℕ) → List (ℕ × ℕ)
unfolding insert_target
sort_targets [] = []
sort_targets (x ∷ xs) = insert_target x (sort_targets xs)

-- Where nothing is left to reclaim, the lowest bit is cleared.
unfoldable pub reclaim_targets : TenantRegistry → TenantRegistry × List (ℕ × ℕ)
unfolding targets sort_targets
reclaim_targets r =
    if r.single || eqb (r.reclaim_state % 2) 0
    then (r, [])
    else elim (sort_targets (targets r.directory)) [
      | [] ↦ (record r { reclaim_state = r.reclaim_state - r.reclaim_state % 2 }, [])
      | x ∷ xs ↦ (r, x ∷ xs)
    ]

unfoldable pub resolve : TenantRegistry → TenantId → Result TenantObjectError ResolvedTenant
resolve r id =
    if r.single
    then ok (record {
      manager_id = r.manager_id;
      namespace = default_namespace;
      version = tenant_version 0 registered_state;
      entry = none;
    })
    else elim (get id r.directory) [
      | none ↦ err TenantObjectError.tenant_not_registered
      | some e ↦
          if eqb (tenant_state e.version) registered_state
          then ok (record {
            manager_id = r.manager_id;
            namespace = e.namespace;
            version = e.version;
            entry = some id;
          })
          else err TenantObjectError.tenant_not_registered
    ]

-- The entry of a handle is in the directory.
unfoldable pub validate : TenantRegistry → ResolvedTenant → Result {0, 0} TenantObjectError Unit
validate r tenant =
    if not (eqb tenant.manager_id r.manager_id)
    then err invalid_tenant_handle
    else elim tenant.entry [
      | none ↦ ok tt
      | some id ↦ elim (get id r.directory) [
        | none ↦ err invalid_tenant_handle
        | some e ↦ if eqb e.version tenant.version then ok tt else err invalid_tenant_handle
      ]
    ]

abbrev pub put_tenant : TenantRegistry → TenantId → TenantEntry → TenantRegistry
put_tenant r id e = record r { directory = insert id e r.directory }

abbrev pub is_empty_entry : TenantEntry → Bool
is_empty_entry e = eqb e.memory.demand 0

abbrev pub set_requested : TenantEntry → ℕ → TenantEntry
set_requested e requested = record e { memory = record e.memory { requested = requested } }

-- The entry that `upsert` prepares, with the namespaces' counter and the version to publish.
unfoldable pub prepare_upsert :
    TenantRegistry → ℕ → Option TenantEntry → Result TenantAdminError (TenantEntry × ℕ × Option ℕ)
prepare_upsert r requested none = elim (checked_add r.next_namespace 1) [
  | none ↦ err namespace_exhausted
  | some next ↦ ok (
    new_tenant_entry r.next_namespace requested closing_state,
    next,
    some (tenant_version 1 registered_state),
  )
]
prepare_upsert r requested (some e) =
    if eqb (tenant_state e.version) registered_state
    then ok (set_requested e requested, r.next_namespace, none)
    else if not (eqb (tenant_state e.version) removed_state)
    then err tenant_not_registered
    else if not (is_empty_entry e)
    then err tenant_not_empty
    else if not (leb (tenant_generation e.version + 1) max_generation)
    then err namespace_exhausted
    else (let generation = tenant_generation e.version + 1 in
        ok (
          set_requested (record e { version = tenant_version generation closing_state }) requested,
          r.next_namespace,
          some (tenant_version generation registered_state),
        ))

unfoldable pub set_version : TenantId → Option ℕ → TenantRegistry → TenantRegistry
set_version id none r = r
set_version id (some version) r = elim (get id r.directory) [
  | none ↦ r
  | some e ↦ put_tenant r id (record e { version = version })
]

-- What `upsert` does to the registry.
unfoldable pub upsert :
    ℕ × ℕ → TenantRegistry → TenantId → ℕ → Result TenantAdminError TenantRegistry
unfolding prepare_upsert set_version recompute_with_capacity
upsert (capacity, epoch) r id requested =
    if r.single
    then err single_tenant_mode
    else elim (prepare_upsert r requested (get id r.directory)) [
      | err e ↦ err e
      | ok (e, next, publish) ↦
          (let prepared = record (put_tenant r id e) { next_namespace = next } in
            ok (set_version id publish (recompute_with_capacity capacity epoch prepared)))
    ]

-- `upsert`, with the handle that it returns; the entry is there.
unfoldable pub upsert_resolved :
    ℕ × ℕ
    → TenantRegistry
    → TenantId
    → ℕ
    → Result TenantAdminError (TenantRegistry × ResolvedTenant)
unfolding upsert
upsert_resolved answer r id requested = elim (upsert answer r id requested) [
  | err e ↦ err e
  | ok t ↦ elim (get id t.directory) [
    | none ↦ err tenant_not_registered
    | some e ↦
        (let tenant : ResolvedTenant = record {
          manager_id = t.manager_id;
          namespace = e.namespace;
          version = e.version;
          entry = some id;
        } in
          ok (t, tenant))
  ]
]

-- `delete` while no reservation of the tenant is under way.
unfoldable pub delete : ℕ × ℕ → TenantRegistry → TenantId → Result TenantAdminError TenantRegistry
unfolding recompute_with_capacity
delete (capacity, epoch) r id =
    if r.single then err single_tenant_mode else elim (get id r.directory) [
      | none ↦ err tenant_not_registered
      | some e ↦
          if not (eqb (tenant_state e.version) registered_state)
          then err tenant_not_registered
          else if not (is_empty_entry e)
          then err tenant_not_empty
          else (let gone : TenantEntry = record e {
            version = with_tenant_state e.version removed_state;
            memory = set_effective e.memory 0;
          } in
              ok (recompute_with_capacity capacity epoch (put_tenant r id gone)))
    ]
