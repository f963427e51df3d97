-- ===== src/Tenant/Account.antt =====
-- src/object/tenant/quota.rs: the counters of one resource class of a tenant. Each function is what
-- one call does while no other thread touches the account.
use cakemaster.Base.{
  ℕ, ◌-◌, some, none, if◌then◌else◌, eqb, ltb, Result, ok, err, checked_add, wrapping_add,
}

pub record QuotaAccount : Type 0 where
  pub policy_epoch : ℕ
  pub requested : ℕ
  pub effective : ℕ
  pub demand : ℕ
  pub used : ℕ
  pub retiring : ℕ

-- `TenantQuotaExceeded`, with what was asked for and what stood against it.
pub record QuotaExceeded : Type 0 where
  pub requested_bytes : ℕ
  pub demand_bytes : ℕ
  pub effective_bytes : ℕ

abbrev pub new_account : ℕ → QuotaAccount
new_account requested = record {
  policy_epoch = 0;
  requested = requested;
  effective = 0;
  demand = 0;
  used = 0;
  retiring = 0;
}

-- `atomic_saturating_sub`: the subtraction of ℕ stops at 0 as the source's does.
abbrev pub saturating_sub : ℕ → ℕ → ℕ
saturating_sub a b = a - b

unfoldable pub set_effective : QuotaAccount → ℕ → QuotaAccount
set_effective a effective = record a {
  policy_epoch = wrapping_add (wrapping_add a.policy_epoch 1) 1;
  effective = effective;
}

unfoldable pub reserve_demand : QuotaAccount → ℕ → Result QuotaExceeded QuotaAccount
reserve_demand a bytes =
    let refused : QuotaExceeded = record {
      requested_bytes = bytes;
      demand_bytes = a.demand;
      effective_bytes = a.effective;
    } in
    elim (checked_add a.demand bytes) [
      | none ↦ err refused
      | some next ↦ if ltb a.effective next then err refused else ok (record a { demand = next })
    ]

unfoldable pub release_reserved : QuotaAccount → ℕ → QuotaAccount
release_reserved a bytes = record a { demand = saturating_sub a.demand bytes }

-- `QuotaReservationGuard::resize`, from the `held` bytes to `bytes`.
unfoldable pub resize : QuotaAccount → ℕ → ℕ → Result QuotaExceeded QuotaAccount
unfolding reserve_demand
resize a held bytes =
    if eqb bytes held
    then ok a
    else if ltb bytes held
    then ok (record a { demand = saturating_sub a.demand (held - bytes) })
    else reserve_demand a (bytes - held)

-- The phases of a `TenantQuotaCharge`. Each operation of a charge gives the account and the phase that
-- it stores; the phase of a fresh charge is `reserved`.
pub data ChargePhase : Type 0 where
  reserved committed retiring released : ChargePhase

unfoldable pub commit : QuotaAccount → ℕ → QuotaAccount × ChargePhase
commit a bytes = (record a { used = wrapping_add a.used bytes }, committed)

unfoldable pub abort : QuotaAccount → ℕ → QuotaAccount × ChargePhase
unfolding release_reserved
abort a bytes = (release_reserved a bytes, released)

unfoldable pub mark_retiring : QuotaAccount → ℕ → QuotaAccount × ChargePhase
mark_retiring a bytes =
    (record a { retiring = wrapping_add a.retiring bytes }, ChargePhase.retiring)

unfoldable pub release_committed_partial : QuotaAccount → ℕ → QuotaAccount
release_committed_partial a bytes = record a {
  used = saturating_sub a.used bytes;
  demand = saturating_sub a.demand bytes;
}

-- What `TenantQuotaCharge::release` gives back, by the phase that the charge was in.
abbrev given_back : ChargePhase → QuotaAccount → ℕ → QuotaAccount
given_back reserved a bytes = record a { demand = saturating_sub a.demand bytes }
given_back committed a bytes = record a {
  used = saturating_sub a.used bytes;
  demand = saturating_sub a.demand bytes;
}
given_back ChargePhase.retiring a bytes = record a {
  used = saturating_sub a.used bytes;
  retiring = saturating_sub a.retiring bytes;
  demand = saturating_sub a.demand bytes;
}
given_back released a bytes = a

unfoldable pub release : ChargePhase → QuotaAccount → ℕ → QuotaAccount × ChargePhase
release phase a bytes = (given_back phase a bytes, released)
