-- ===== src/Tenant/Shares/Defs.antt =====
-- `distribute_effective_quota` over the accounts of the tenants, in the order of their IDs. The
-- products and the total are u128 in the source, and cannot overflow there.
use cakemaster.Base.{
  ℕ, suc, ◌+◌, ◌-◌, ◌*◌, ◌/◌, ◌%◌, List, [], ◌∷◌, if◌then◌else◌, eqb, ltb, leb, saturating_add,
}
use cakemaster.Tenant.Account.{QuotaAccount, set_effective}

abbrev pub total_requested : List QuotaAccount → ℕ
total_requested [] = 0
total_requested (a ∷ as') = a.requested + total_requested as'

-- The rounded-down share, with its `as u64` cast.
abbrev pub share : ℕ → ℕ → ℕ → ℕ
share capacity total requested = requested * capacity / total % 18446744073709551616

-- The pairs `(requested, share)` of the first loop.
unfoldable pub shares : ℕ → ℕ → List QuotaAccount → List (ℕ × ℕ)
shares capacity total [] = []
shares capacity total (a ∷ as') =
    (a.requested, share capacity total a.requested) ∷ shares capacity total as'

-- `assigned`, summed up from `acc`.
unfoldable pub assigned : ℕ → List (ℕ × ℕ) → ℕ
assigned acc [] = acc
assigned acc ((r, s) ∷ ps) = assigned (saturating_add acc s) ps

-- The second loop: one more byte for each share below its request, until the remainder is used up.
unfoldable pub hand_out : ℕ → List (ℕ × ℕ) → List (ℕ × ℕ)
hand_out remainder [] = []
hand_out remainder ((r, s) ∷ ps) =
    let more = (r, suc s) ∷ hand_out (remainder - 1) ps in
    let same = (r, s) ∷ hand_out remainder ps in
    if eqb remainder 0 then (r, s) ∷ ps else if ltb s r then more else same

-- The last loop, over both lists at once.
unfoldable pub assign : List QuotaAccount → List (ℕ × ℕ) → List QuotaAccount
assign [] ps = []
assign (a ∷ as') [] = a ∷ as'
assign (a ∷ as') ((r, s) ∷ ps) = set_effective a s ∷ assign as' ps

unfoldable pub assign_requested : List QuotaAccount → List QuotaAccount
assign_requested [] = []
assign_requested (a ∷ as') = set_effective a a.requested ∷ assign_requested as'

unfoldable pub distribute_effective_quota : List QuotaAccount → ℕ → List QuotaAccount
unfolding shares assigned hand_out assign assign_requested
distribute_effective_quota accounts capacity =
    let total = total_requested accounts in
    if leb total capacity
    then assign_requested accounts
    else (let effective = shares capacity total accounts in
        assign accounts (hand_out (capacity - assigned 0 effective) effective))
