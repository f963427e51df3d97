-- ===== src/Tenant/Reserving/Examples.antt =====
-- A reservation that waits for a policy change and loses an exchange, and one that is alone.
use cakemaster.Base.{true, false, List, [], ◌∷◌, ◌≡◌, refl, arith, ok}
use cakemaster.Tenant.Account.{QuotaAccount, reserve_demand}
use cakemaster.Tenant.Reserving.{
  granted, added, trying, Contention, reserver_step, Interference, policy_begins, other_demand,
  policy_goes_on, set_effective_step, begin_policy, interfere, own_step, ContentionStep, own,
  others, contention_step, contend, interfere_all, call_reserve,
}
use cakemaster.Tenant.Reserving.Laws.{granted_atomically, Answered, undisturbed, reserve_alone}

abbrev account : QuotaAccount
account = record {
  policy_epoch = 0;
  requested = 1000;
  effective = 600;
  demand = 100;
  used = 50;
  retiring = 0;
}

-- The quota is raised, then the demand changes between its load and the exchange.
abbrev before : List ContentionStep
before =
    others (policy_begins 1000)
    ∷ own false
    ∷ others policy_goes_on
    ∷ others policy_goes_on
    ∷ own false
    ∷ own false
    ∷ own false
    ∷ others (other_demand 500)
    ∷ own false
    ∷ []

abbrev between : List Interference
between = other_demand 900 ∷ other_demand 800 ∷ []

abbrev at_exchange : Contention
at_exchange = contend 300 before (call_reserve account)

ran :
    (at_exchange.reserver ≡ trying 2 1000 500)
    × ((own_step 300 false at_exchange).reserver ≡ added 2)
    × ((own_step 300 true (interfere_all between (own_step 300 false at_exchange))).reserver
        ≡ granted)
unfolding contend contention_step own_step reserver_step interfere interfere_all set_effective_step
    begin_policy
ran = (refl, refl, refl)

granted_atomically_example :
    reserve_demand at_exchange.account 300 ≡ ok (own_step 300 false at_exchange).account
granted_atomically_example =
    granted_atomically 300 account before between 2 1000 500 false true refl (omega arith) ran.0
      ran.1 ran.2

reserve_alone_example :
    Answered account
      (reserve_demand account 700)
      (contend 700 (undisturbed 2) (call_reserve account))
reserve_alone_example = reserve_alone 700 2 account refl
