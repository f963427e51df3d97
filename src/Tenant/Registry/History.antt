-- ===== src/Tenant/Registry/History.antt =====
-- Histories of the registry: its administration, and what the quota operations make of an account.
use cakemaster.Base.{
  ℕ, ◌+◌, false, ◌||◌, some, List, [], ◌∷◌, ◌≡◌, ◌∙◌, refl, sym, ap, subst, inl, inr, arith, eqb,
  Result, ok, err, Bool-cases, Option-cases, Result-cases,
}
use mathlib.Core.Option.{some_inj}
use cakemaster.Base.Table.{get}
use cakemaster.Identity.{string_eq}
use cakemaster.Tenant.Account.{QuotaAccount}
use cakemaster.Tenant.Registry.Words.{
  registered_state, removed_state, tenant_state, with_tenant_state,
}
use cakemaster.Tenant.Registry.Defs.{
  TenantId, TenantRegistry, ResolvedTenant, TenantAdminError, invalid_tenant_handle, set_memory,
  recompute_with_capacity, refresh_capacity,
}
use cakemaster.Tenant.Registry.Calls.{reclaim_targets, resolve, validate, upsert, delete}
use cakemaster.Tenant.Registry.Versions.{
  version_of, version_at, version_at-set_memory, version_at-recompute, found_of, rank, Past,
}
use cakemaster.Tenant.Registry.Handles.{
  Past-same, upsert-Past, delete-Past, delete-version, rank-removed,
}

-- The pairs are the pool's answers.
pub data RegistryCall : Type 0 where
  upserting : ℕ × ℕ → TenantId → ℕ → RegistryCall
  deleting : ℕ × ℕ → TenantId → RegistryCall
  refreshing : ℕ → ℕ → ℕ → RegistryCall
  accounting : TenantId → QuotaAccount → RegistryCall
  reclaiming : RegistryCall

abbrev pub after_call : TenantRegistry → Result TenantAdminError TenantRegistry → TenantRegistry
after_call r (ok t) = t
after_call r (err e) = r

unfoldable pub registry_step : TenantRegistry → RegistryCall → TenantRegistry
registry_step r (upserting answer id requested) = after_call r (upsert answer r id requested)
registry_step r (deleting answer id) = after_call r (delete answer r id)
registry_step r (refreshing epoch capacity observed) = refresh_capacity epoch capacity observed r
registry_step r reclaiming = (reclaim_targets r).0
registry_step r (accounting id memory) = record r { directory = set_memory id memory r.directory }

unfoldable pub registry_run : TenantRegistry → List RegistryCall → TenantRegistry
unfolding registry_step
registry_run r [] = r
registry_run r (c ∷ cs) = registry_run (registry_step r c) cs

reclaim_targets-directory : (r : TenantRegistry) → (reclaim_targets r).0.directory ≡ r.directory
unfolding reclaim_targets
reclaim_targets-directory r = ground arith

module _ (g : ℕ) (j : TenantId) where
  step-Past : (r : TenantRegistry) (c : RegistryCall) → Past g r j → Past g (registry_step r c) j
  unfolding registry_step refresh_capacity
  step-Past r (upserting (capacity, epoch) id requested) past =
      elim (Result-cases (upsert (capacity, epoch) r id requested)) [
        | inl (e, q) ↦ subst (λ x. Past g (after_call r x) j) (sym q) past
        | inr (t, q) ↦
            subst (λ x. Past g (after_call r x) j) (sym q)
              (upsert-Past g capacity epoch r t id j requested q past)
      ]
  step-Past r (deleting (capacity, epoch) id) past =
      elim (Result-cases (delete (capacity, epoch) r id)) [
        | inl (e, q) ↦ subst (λ x. Past g (after_call r x) j) (sym q) past
        | inr (t, q) ↦
            subst (λ x. Past g (after_call r x) j) (sym q)
              (delete-Past g capacity epoch r t id j q past)
      ]
  step-Past r (refreshing epoch capacity observed) past =
      elim (Bool-cases
        (r.single || eqb r.capacity_generation epoch || eqb r.capacity_generation observed)) [
          | inl q ↦ rw q past
          | inr q ↦ rw q (
              Past-same g r (recompute_with_capacity capacity observed r) j
                (version_at-recompute capacity observed r j) past)
        ]
  step-Past r reclaiming past =
      Past-same g r (reclaim_targets r).0 j (ap (λ d. version_at j d) (reclaim_targets-directory r))
        past
  step-Past r (accounting id memory) past =
      Past-same g r (record r { directory = set_memory id memory r.directory }) j
        (version_at-set_memory id j memory r.directory) past

  run-Past :
      (cs : List RegistryCall) (r : TenantRegistry) → Past g r j → Past g (registry_run r cs) j
  unfolding registry_run
  run-Past [] r past = past
  run-Past (c ∷ cs) r past = run-Past cs (registry_step r c) (step-Past r c past)

resolve_inv :
    (r : TenantRegistry) (id : TenantId) (tenant : ResolvedTenant)
    → r.single ≡ false
    → resolve r id ≡ ok tenant
    → (version_at id r.directory ≡ some tenant.version) × (tenant.entry ≡ some id)
unfolding resolve
resolve_inv r id tenant multi h = elim (Option-cases (get id r.directory)) [
  | inl q ↦ absurd (ground (arith, multi, q, h))
  | inr (e, q) ↦ elim (Bool-cases (eqb (tenant_state e.version) registered_state)) [
    | inr z ↦ absurd (ground (arith, multi, q, z, h))
    | inl z ↦
        let same : e.version ≡ tenant.version = ground (arith, multi, q, z, h) in
        (ap version_of q ∙ ap some same, ground (arith, multi, q, z, h))
  ]
]

validate-Past :
    (t : TenantRegistry) (id : TenantId) (tenant : ResolvedTenant)
    → tenant.entry ≡ some id
    → Past (rank tenant.version + 1) t id
    → validate t tenant ≡ err invalid_tenant_handle
unfolding validate
validate-Past t id tenant names (v, at, past) =
    let e = found_of id t.directory v at in
    elim (Bool-cases (eqb e.0.version tenant.version)) [
      | inl q ↦
          let same : v ≡ tenant.version = ground (arith, q, e.2) in
          absurd (omega (arith, past, ap rank same))
      | inr q ↦ ground (arith, names, e.1, q)
    ]

-- With several tenants: a handle that was resolved before its tenant was deleted, any calls before and
-- any calls after, is refused from the deletion on, also when the tenant is registered again under the
-- same id.
pub deleted_handle_refused :
    (r t : TenantRegistry) (id : TenantId) (tenant : ResolvedTenant)
    (before after : List RegistryCall) (capacity epoch : ℕ)
    → r.single ≡ false
    → resolve r id ≡ ok tenant
    → delete (capacity, epoch) (registry_run r before) id ≡ ok t
    → validate (registry_run t after) tenant ≡ err invalid_tenant_handle
deleted_handle_refused r t id tenant before after capacity epoch multi got gone =
    let h = resolve_inv r id tenant multi got in
    let s = registry_run r before in
    let old = run-Past (rank tenant.version) id before r (tenant.version, h.0, omega arith) in
    let d = delete-version capacity epoch s t id id gone in
    let v : d.0.version ≡ old.0 = some_inj.0 (sym (ap version_of d.1) ∙ old.1) in
    let now : Past (rank tenant.version + 1) t id = (
      with_tenant_state d.0.version removed_state,
      ground (arith, d.3, (string_eq.equal_iff id id).1 refl),
      ground (arith, rank-removed d.0.version, d.2, old.2, ap rank v),
    ) in
    validate-Past (registry_run t after) id tenant h.1
      (run-Past (rank tenant.version + 1) id after t now)
