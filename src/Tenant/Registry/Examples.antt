-- ===== src/Tenant/Registry/Examples.antt =====
-- A tenant that is deleted and registered again, and a reservation that races with a deletion.
use cakemaster.Base.{
  ℕ, Bool, true, false, Option, none, some, List, [], ◌∷◌, ◌≡◌, refl, Result, ok, err, is_some,
}
use cakemaster.Tenant.Registry.Words.{tenant_version, registered_state}
use cakemaster.Tenant.Registry.Defs.{
  TenantId, TenantRegistry, ResolvedTenant, TenantAdminError, TenantObjectError,
  invalid_tenant_handle,
}
use cakemaster.Tenant.Registry.Calls.{resolve, validate, delete}
use cakemaster.Tenant.Registry.History.{
  RegistryCall, upserting, refreshing, registry_run, deleted_handle_refused,
}
use cakemaster.Tenant.Registry.Admission.{
  Admission, AdmissionStep, adding, looking, giving_back, closing, inspecting, reviving, publishing,
  changing_effective, admission_run, new_admission,
}
use cakemaster.Tenant.Registry.Fit.{AdmissionInv}
use cakemaster.Tenant.Registry.Fencing.{admission_run-Inv}

abbrev no_tenants : TenantRegistry
no_tenants = record {
  manager_id = 1;
  single = false;
  directory = [];
  next_namespace = 1;
  capacity_generation = 0;
  reclaim_state = 0;
}

abbrev registered : TenantRegistry
registered =
    registry_run no_tenants (upserting (1000, 1) "a" 600 ∷ upserting (1000, 1) "b" 600 ∷ [])

abbrev handle : ResolvedTenant
handle = record { manager_id = 1; namespace = 1; version = 4; entry = some "a" }

abbrev or_none : Result TenantAdminError TenantRegistry → TenantRegistry
or_none (ok r) = r
or_none (err e) = no_tenants

abbrev is_done : Result TenantAdminError TenantRegistry → Bool
is_done (ok r) = true
is_done (err e) = false

is_done-ok : (x : Result TenantAdminError TenantRegistry) → is_done x ≡ true → x ≡ ok (or_none x)
is_done-ok (ok r) h = refl
is_done-ok (err e) h = absurd cc

abbrev grown : List RegistryCall
grown = refreshing 2 2000 2 ∷ []

abbrev deleted : Result TenantAdminError TenantRegistry
deleted = delete (2000, 2) (registry_run registered grown) "a"

abbrev again : List RegistryCall
again = upserting (2000, 2) "a" 300 ∷ []

computed :
    (resolve registered "a" ≡ ok handle) × (is_done deleted ≡ true) × (registered.single ≡ false)
unfolding resolve registry_run cakemaster.Tenant.Registry.Calls.upsert cakemaster.Base.Table.get
    cakemaster.Base.Table.insert cakemaster.Tenant.Registry.Words.tenant_state tenant_version
    cakemaster.Tenant.Shares.Defs.distribute_effective_quota cakemaster.Tenant.Account.set_effective
    delete cakemaster.Tenant.Registry.Defs.refresh_capacity
computed = (refl, refl, refl)

deleted_handle_refused_example :
    validate (registry_run (or_none deleted) again) handle ≡ err invalid_tenant_handle
deleted_handle_refused_example =
    deleted_handle_refused registered (or_none deleted) "a" handle grown again 2000 2 computed.2
      computed.0 (is_done-ok deleted computed.1)

-- The first reservation is granted and given back; the second one looks after the deletion has begun.
abbrev race : List AdmissionStep
race =
    publishing
    ∷ changing_effective 100
    ∷ adding 40 (tenant_version 1 registered_state)
    ∷ looking 0
    ∷ adding 60 (tenant_version 1 registered_state)
    ∷ giving_back 0
    ∷ closing
    ∷ looking 0
    ∷ inspecting
    ∷ []

abbrev or_new : Option Admission → Admission
or_new (some a) = a
or_new none = new_admission 100

or_new-some : (x : Option Admission) → is_some x ≡ true → x ≡ some (or_new x)
or_new-some (some a) h = refl
or_new-some none h = absurd cc

race_runs : is_some (admission_run (new_admission 100) race) ≡ true
unfolding admission_run cakemaster.Tenant.Registry.Admission.publish_version
    cakemaster.Tenant.Registry.Admission.add_reservation
    cakemaster.Tenant.Registry.Words.tenant_state tenant_version
    cakemaster.Tenant.Account.reserve_demand cakemaster.Tenant.Account.set_effective
    cakemaster.Tenant.Registry.Admission.take_at cakemaster.Tenant.Registry.Admission.look
    cakemaster.Tenant.Registry.Admission.start_delete
    cakemaster.Tenant.Registry.Admission.finish_delete
    cakemaster.Tenant.Registry.Words.with_tenant_state cakemaster.Tenant.Account.release_reserved
race_runs = refl

admission_run-Inv_example : AdmissionInv (or_new (admission_run (new_admission 100) race))
admission_run-Inv_example =
    admission_run-Inv 100 race (or_new (admission_run (new_admission 100) race))
      (or_new-some (admission_run (new_admission 100) race) race_runs)
