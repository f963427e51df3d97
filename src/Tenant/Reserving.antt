-- ===== src/Tenant/Reserving.antt =====
-- src/object/tenant/quota.rs: `QuotaAccount::reserve_demand` while other threads use the account. Each
-- atomic operation is a step: those of the reservation, those of one administrator at a time in
-- `set_effective`, and the changes that others make to the demand.
pub mod Laws
mod Examples
use cakemaster.Base.{
  ℕ, ◌%◌, Bool, true, false, not, ◌&&◌, Option, none, some, List, [], ◌∷◌, if◌then◌else◌, eqb, ltb,
  checked_add, wrapping_add,
}
use cakemaster.Tenant.Account.{QuotaAccount, QuotaExceeded, saturating_sub}

-- Where the loop stands, with its locals. `undoing` is before the subtraction that takes an addition back.
pub data Reserver : Type 0 where
  starting granted undoing : Reserver
  epoch_read added : ℕ → Reserver
  effective_read : ℕ → ℕ → Reserver
  trying : ℕ → ℕ → ℕ → Reserver
  refused : QuotaExceeded → Reserver

-- `set_effective` between its three operations.
pub data Administrator : Type 0 where
  idle stored : Administrator
  changing : ℕ → Administrator

pub record Contention : Type 0 where
  pub account : QuotaAccount
  pub reserver : Reserver
  pub administrator : Administrator

abbrev pub exceeded : ℕ → ℕ → ℕ → QuotaExceeded
exceeded bytes demand effective = record {
  requested_bytes = bytes;
  demand_bytes = demand;
  effective_bytes = effective;
}

-- The exchange, once the sum is known. `spurious` is a failure of the weak exchange without a cause.
abbrev pub exchange : QuotaAccount → ℕ → ℕ → ℕ → ℕ → Bool → QuotaAccount × Reserver
exchange a epoch effective demand next spurious =
    if eqb a.demand demand && not spurious
    then (record a { demand = next }, added epoch)
    else (a, trying epoch effective a.demand)

abbrev pub attempt : ℕ → QuotaAccount → ℕ → ℕ → ℕ → Bool → QuotaAccount × Reserver
attempt bytes a epoch effective demand spurious = elim (checked_add demand bytes) [
  | none ↦ (a, refused (exceeded bytes demand effective))
  | some next ↦
      if ltb effective next
      then (a, refused (exceeded bytes demand effective))
      else exchange a epoch effective demand next spurious
]

-- The next atomic operation of the reservation of `bytes`.
unfoldable pub reserver_step : ℕ → QuotaAccount → Reserver → Bool → QuotaAccount × Reserver
reserver_step bytes a starting spurious =
    (a, if eqb (a.policy_epoch % 2) 0 then epoch_read a.policy_epoch else starting)
reserver_step bytes a (epoch_read epoch) spurious = (a, effective_read epoch a.effective)
reserver_step bytes a (effective_read epoch effective) spurious =
    (a, trying epoch effective a.demand)
reserver_step bytes a (trying epoch effective demand) spurious =
    attempt bytes a epoch effective demand spurious
reserver_step bytes a (added epoch) spurious =
    (a, if eqb a.policy_epoch epoch then granted else undoing)
reserver_step bytes a undoing spurious =
    (record a { demand = saturating_sub a.demand bytes }, starting)
reserver_step bytes a granted spurious = (a, granted)
reserver_step bytes a (refused e) spurious = (a, refused e)

-- What another thread does: a call of `set_effective` begins, it goes on with its next operation, or the
-- demand is changed.
pub data Interference : Type 0 where
  policy_begins other_demand : ℕ → Interference
  policy_goes_on : Interference

abbrev next_epoch : QuotaAccount → QuotaAccount
next_epoch a = record a { policy_epoch = wrapping_add a.policy_epoch 1 }

unfoldable pub set_effective_step : QuotaAccount → Administrator → QuotaAccount × Administrator
set_effective_step a idle = (a, idle)
set_effective_step a (changing effective) = (record a { effective = effective }, stored)
set_effective_step a stored = (next_epoch a, idle)

-- One administrator at a time holds the registry's mutex.
unfoldable pub begin_policy : QuotaAccount → Administrator → ℕ → QuotaAccount × Administrator
begin_policy a idle effective = (next_epoch a, changing effective)
begin_policy a stored effective = (a, stored)
begin_policy a (changing other) effective = (a, changing other)

unfoldable pub interfere : Interference → Contention → Contention
unfolding set_effective_step begin_policy
interfere (policy_begins effective) w =
    let begun = begin_policy w.account w.administrator effective in
    record w { account = begun.0; administrator = begun.1 }
interfere policy_goes_on w =
    let gone_on = set_effective_step w.account w.administrator in
    record w { account = gone_on.0; administrator = gone_on.1 }
interfere (other_demand demand) w = record w { account = record w.account { demand = demand } }

unfoldable pub own_step : ℕ → Bool → Contention → Contention
unfolding reserver_step
own_step bytes spurious w =
    let stepped = reserver_step bytes w.account w.reserver spurious in
    record w { account = stepped.0; reserver = stepped.1 }

pub data ContentionStep : Type 0 where
  own : Bool → ContentionStep
  others : Interference → ContentionStep

unfoldable pub contention_step : ℕ → ContentionStep → Contention → Contention
unfolding own_step interfere
contention_step bytes (own spurious) w = own_step bytes spurious w
contention_step bytes (others i) w = interfere i w

unfoldable pub contend : ℕ → List ContentionStep → Contention → Contention
unfolding contention_step
contend bytes [] w = w
contend bytes (x ∷ xs) w = contend bytes xs (contention_step bytes x w)

unfoldable pub interfere_all : List Interference → Contention → Contention
unfolding interfere
interfere_all [] w = w
interfere_all (i ∷ is) w = interfere_all is (interfere i w)

abbrev pub call_reserve : QuotaAccount → Contention
call_reserve a = record { account = a; reserver = starting; administrator = idle }
