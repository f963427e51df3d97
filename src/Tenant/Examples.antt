-- ===== src/Tenant/Examples.antt =====
-- Three tenants that share a capacity smaller than their requests, and the life of a charge.
use cakemaster.Base.{List, [], ◌∷◌, ◌≡◌, refl, arith, ok}
use cakemaster.Tenant.Account.{QuotaAccount, new_account, reserve_demand, release_reserved, resize}
use cakemaster.Tenant.Charges.{charge_gives_back}
use cakemaster.Tenant.Shares.Defs.{distribute_effective_quota}
use cakemaster.Tenant.Shares.Laws.{total_effective, FairSplit, distribute_total, distribute_fair}

abbrev accounts : List QuotaAccount
accounts = new_account 5 ∷ new_account 3 ∷ new_account 4 ∷ []

distribute_total_example : total_effective (distribute_effective_quota accounts 10) ≡ 10
distribute_total_example = distribute_total accounts 10 (omega arith)

distribute_fair_example : FairSplit 10 12 accounts (distribute_effective_quota accounts 10)
distribute_fair_example = distribute_fair accounts 10 (omega arith) (omega arith)

abbrev account : QuotaAccount
account = record (new_account 100) { effective = 100; demand = 40; used = 30 }

granted : reserve_demand account 60 ≡ ok (record account { demand = 100 })
unfolding reserve_demand
granted = refl

resized : resize (record account { demand = 100 }) 60 50 ≡ ok (record account { demand = 90 })
unfolding resize
resized = refl

charge_gives_back_example : release_reserved (record account { demand = 90 }) 50 ≡ account
charge_gives_back_example =
    (charge_gives_back account (record account { demand = 100 }) (record account { demand = 90 }) 60
      50 20 granted resized (omega arith) (omega arith) (omega arith)).2
