-- ===== src/Tenant/Registry/Admission.antt =====
-- src/object/tenant/quota.rs and registry.rs: reservations of one tenant race with its administration.
-- A reservation adds to the demand and then looks at the version, two steps: `reserve_demand` counts as one,
-- and so does `set_effective`; Tenant/Reserving opens both into their atomic operations. The resize of a
-- reservation is no step. `delete` closes the
-- version, looks at the demand, and removes or reopens; `upsert` closes under the next generation and
-- publishes. The administration holds a mutex, so that one such call is under way at a time.
use cakemaster.Base.{
  ℕ, zero, suc, ◌+◌, ◌&&◌, Option, none, some, List, [], ◌∷◌, if◌then◌else◌, eqb, leb, ok, err,
}
use cakemaster.Tenant.Account.{
  QuotaAccount, new_account, reserve_demand, release_reserved, set_effective,
}
use cakemaster.Tenant.Registry.Words.{
  registered_state, closing_state, removed_state, max_generation, tenant_version, tenant_generation,
  tenant_state, with_tenant_state,
}

-- What the mutex's holder is doing; the words are the ones that it has still to store.
pub data Administration : Type 0 where
  idle : Administration
  deleting activating : ℕ → Administration

-- The entry, with the reservations between their two steps, each with the version of its handle, and
-- the granted ones.
pub record Admission : Type 0 where
  pub version : ℕ
  pub memory : QuotaAccount
  pub administration : Administration
  pub checking : List (ℕ × ℕ)
  pub granted : List ℕ

pub data AdmissionStep : Type 0 where
  adding : ℕ → ℕ → AdmissionStep
  looking giving_back : ℕ → AdmissionStep
  closing inspecting reviving publishing : AdmissionStep
  changing_effective : ℕ → AdmissionStep

-- The n-th element, and the others.
unfoldable pub take_at {ℓ} : {A : Type ℓ} → ℕ → List A → Option (A × List A)
take_at n [] = none
take_at zero (x ∷ xs) = some (x, xs)
take_at (suc n) (x ∷ xs) = elim (take_at n xs) [ none ↦ none | some (y, ys) ↦ some (y, x ∷ ys) ]

-- `reserve_demand`, by a handle, which has the version of a registered tenant.
unfoldable pub add_reservation : Admission → ℕ → ℕ → Option Admission
add_reservation a bytes expected =
    if eqb (tenant_state expected) registered_state
    then elim (reserve_demand a.memory bytes) [
      | err e ↦ some a
      | ok memory ↦ some (record a { memory = memory; checking = (bytes, expected) ∷ a.checking })
    ]
    else none

-- The look at the version in `reserve_checked`.
unfoldable pub look : Admission → ℕ × ℕ → List (ℕ × ℕ) → Admission
look a (bytes, expected) rest =
    if eqb a.version expected
    then record a { checking = rest; granted = bytes ∷ a.granted }
    else record a { checking = rest; memory = release_reserved a.memory bytes }

unfoldable pub start_delete : Administration → Admission → Option Admission
start_delete idle a =
    if eqb (tenant_state a.version) registered_state
    then some (record a {
      version = with_tenant_state a.version closing_state;
      administration = deleting a.version;
    })
    else none
start_delete (deleting v) a = none
start_delete (activating v) a = none

unfoldable pub finish_delete : Administration → Admission → Option Admission
finish_delete (deleting registered) a =
    if eqb a.memory.demand 0
    then some
        (record a { version = with_tenant_state registered removed_state; administration = idle })
    else some (record a { version = registered; administration = idle })
finish_delete idle a = none
finish_delete (activating v) a = none

unfoldable pub start_revival : Administration → Admission → Option Admission
start_revival idle a =
    let generation = tenant_generation a.version + 1 in
    if eqb (tenant_state a.version) removed_state
      && eqb a.memory.demand 0
      && leb generation max_generation
    then some (record a {
      version = tenant_version generation closing_state;
      administration = activating (tenant_version generation registered_state);
    })
    else none
start_revival (deleting v) a = none
start_revival (activating v) a = none

unfoldable pub publish_version : Administration → Admission → Option Admission
publish_version (activating v) a = some (record a { version = v; administration = idle })
publish_version idle a = none
publish_version (deleting v) a = none

-- None where the step cannot be taken.
unfoldable pub admission_step : Admission → AdmissionStep → Option Admission
admission_step a (adding bytes expected) = add_reservation a bytes expected
admission_step a (looking n) = elim (take_at n a.checking) [
  | none ↦ none
  | some (x, rest) ↦ some (look a x rest)
]
admission_step a (giving_back n) = elim (take_at n a.granted) [
  | none ↦ none
  | some (bytes, rest) ↦
      some (record a { memory = release_reserved a.memory bytes; granted = rest })
]
admission_step a closing = start_delete a.administration a
admission_step a inspecting = finish_delete a.administration a
admission_step a reviving = start_revival a.administration a
admission_step a publishing = publish_version a.administration a
admission_step a (changing_effective bytes) =
    some (record a { memory = set_effective a.memory bytes })

unfoldable pub admission_run : Admission → List AdmissionStep → Option Admission
unfolding admission_step
admission_run a [] = some a
admission_run a (c ∷ cs) = elim (admission_step a c) [ none ↦ none | some b ↦ admission_run b cs ]

-- A tenant that is being inserted.
abbrev pub new_admission : ℕ → Admission
new_admission requested = record {
  version = tenant_version 1 closing_state;
  memory = new_account requested;
  administration = activating (tenant_version 1 registered_state);
  checking = [];
  granted = [];
}
