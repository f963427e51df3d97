-- ===== src/Tenant/Shares/Laws.antt =====
-- `distribute_effective_quota`: the shares add up to the capacity, and each one is fair.
use cakemaster.Base.{
  ℕ, ◌+◌, ◌-◌, ◌*◌, ◌≤◌, ◌<◌, List, [], ◌∷◌, if◌then◌else◌, eqb, ltb, leb, ap, ◌≡◌, refl, ◌∙◌,
  arith, IsU64, u64_max, min, Bool-cases, inl, inr, false,
}
use cakemaster.Tenant.Account.{QuotaAccount, set_effective}
use cakemaster.Tenant.Shares.Defs.{
  total_requested, share, shares, assigned, hand_out, assign, assign_requested,
  distribute_effective_quota,
}
use cakemaster.Tenant.Shares.Arithmetic.{le_of_mul, share-eq, share-le, share_bounds}

abbrev pub total_effective : List QuotaAccount → ℕ
total_effective [] = 0
total_effective (a ∷ as') = a.effective + total_effective as'

abbrev sum_shares : List (ℕ × ℕ) → ℕ
sum_shares [] = 0
sum_shares ((r, s) ∷ ps) = s + sum_shares ps

-- How many shares are below their requests.
abbrev room : List (ℕ × ℕ) → ℕ
room [] = 0
room ((r, s) ∷ ps) = (if ltb s r then 1 else 0) + room ps

assigned_lem :
    (acc : ℕ) (ps : List (ℕ × ℕ))
    → acc + sum_shares ps ≤ u64_max
    → assigned acc ps ≡ acc + sum_shares ps
unfolding assigned
assigned_lem acc [] h = omega arith
assigned_lem acc ((r, s) ∷ ps) h = elim (Bool-cases (leb (acc + s) u64_max)) [
  | inl e ↦ rw e (assigned_lem (acc + s) ps (omega (arith, h)) ∙ omega arith)
  | inr e ↦ ground (arith, e)
]

sum_shares-hand_out :
    (m : ℕ) (ps : List (ℕ × ℕ)) → m ≤ room ps → sum_shares (hand_out m ps) ≡ sum_shares ps + m
unfolding hand_out
sum_shares-hand_out m [] h = omega (arith, h)
sum_shares-hand_out m ((r, s) ∷ ps) h =
    ground (arith, sum_shares-hand_out (m - 1) ps, sum_shares-hand_out m ps)

module _ (c t : ℕ) (scarce : c < t) (word : IsU64 c) where
  shares_bounds :
      (as' : List QuotaAccount)
      → total_requested as' ≤ t
      → (t * sum_shares (shares c t as') ≤ total_requested as' * c)
        × (total_requested as' * c ≤ t * (sum_shares (shares c t as') + room (shares c t as')))
  unfolding shares
  shares_bounds [] h = (omega arith, omega arith)
  shares_bounds (a ∷ as') h =
      let ih = shares_bounds as' (omega (arith, h)) in
      let part : a.requested ≤ t = omega (arith, h) in
      let one = share_bounds c t a.requested scarce part in
      rw (share-eq c t a.requested scarce part word)
        (grind (arith, ih.0, one.0), grind (arith, ih.1, one.1))

  -- The rounded shares stay within the capacity, and one byte for each share below its request makes
  -- up for the rounding.
  within : (as' : List QuotaAccount) → total_requested as' ≡ t → sum_shares (shares c t as') ≤ c
  within as' e =
      le_of_mul t (sum_shares (shares c t as')) c (omega arith)
        (grind (arith, (shares_bounds as' (omega (arith, e))).0))

  enough_room :
      (as' : List QuotaAccount)
      → total_requested as' ≡ t
      → c ≤ sum_shares (shares c t as') + room (shares c t as')
  enough_room as' e =
      le_of_mul t c (sum_shares (shares c t as') + room (shares c t as')) (omega arith)
        (grind (arith, (shares_bounds as' (omega (arith, e))).1))

  split_total :
      (as' : List QuotaAccount)
      → total_requested as' ≡ t
      → sum_shares (hand_out (c - assigned 0 (shares c t as')) (shares c t as')) ≡ c
  split_total as' e =
      let low = within as' e in
      let high = enough_room as' e in
      let sum = assigned_lem 0 (shares c t as') (omega (arith, low, word)) in
      rw sum (
        sum_shares-hand_out (c - (0 + sum_shares (shares c t as'))) (shares c t as')
          (omega (arith, high))
        ∙ omega (arith, low))

-- What an account gets: no more than it requested, its rounded-down share or one byte more, and no
-- other change than the policy epoch.
abbrev pub GetsShare : ℕ → ℕ → QuotaAccount → QuotaAccount → Type 0
GetsShare c t a b =
    (share c t a.requested ≤ b.effective)
    × (b.effective ≤ share c t a.requested + 1)
    × (b.effective ≤ a.requested)
    × (b.requested ≡ a.requested)
    × (b.demand ≡ a.demand)
    × (b.used ≡ a.used)
    × (b.retiring ≡ a.retiring)

abbrev pub FairSplit : ℕ → ℕ → List QuotaAccount → List QuotaAccount → Type 0
FairSplit c t [] [] = Unit
FairSplit c t [] (b ∷ bs) = ⊥
FairSplit c t (a ∷ as') [] = ⊥
FairSplit c t (a ∷ as') (b ∷ bs) = GetsShare c t a b × FairSplit c t as' bs

-- The pairs that `assign` takes, with the shares of the accounts raised by at most one.
abbrev Raised : ℕ → ℕ → List QuotaAccount → List (ℕ × ℕ) → Type 0
Raised c t [] [] = Unit
Raised c t [] (p ∷ ps) = ⊥
Raised c t (a ∷ as') [] = ⊥
Raised c t (a ∷ as') ((r, s) ∷ ps) =
    ((share c t a.requested ≤ s) × (s ≤ share c t a.requested + 1) × (s ≤ a.requested))
    × Raised c t as' ps

abbrev Small : ℕ → ℕ → List QuotaAccount → Type 0
Small c t [] = Unit
Small c t (a ∷ as') = (share c t a.requested ≤ a.requested) × Small c t as'

shares-Raised :
    (c t : ℕ) (as' : List QuotaAccount) → Small c t as' → Raised c t as' (shares c t as')
unfolding shares
shares-Raised c t [] h = tt
shares-Raised c t (a ∷ as') h = ((omega arith, omega arith, h.0), shares-Raised c t as' h.1)

hand_out-Raised :
    (c t m : ℕ) (as' : List QuotaAccount)
    → Small c t as'
    → Raised c t as' (hand_out m (shares c t as'))
unfolding shares hand_out
hand_out-Raised c t m [] h = tt
hand_out-Raised c t m (a ∷ as') h =
    let same = shares-Raised c t as' h.1 in
    let next = hand_out-Raised c t (m - 1) as' h.1 in
    let keep = hand_out-Raised c t m as' h.1 in
    elim (Bool-cases (eqb m 0)) [
      | inl e ↦ rw e ((omega arith, omega arith, h.0), same)
      | inr e ↦ elim (Bool-cases (ltb (share c t a.requested) a.requested)) [
        | inl f ↦ rw (e, f) ((omega arith, omega arith, ground (arith, f)), next)
        | inr f ↦ rw (e, f) ((omega arith, omega arith, h.0), keep)
      ]
    ]

assign-FairSplit :
    (c t : ℕ) (as' : List QuotaAccount) (ps : List (ℕ × ℕ))
    → Raised c t as' ps
    → FairSplit c t as' (assign as' ps)
unfolding assign set_effective
assign-FairSplit c t [] [] h = tt
assign-FairSplit c t [] (p ∷ ps) h = absurd h
assign-FairSplit c t (a ∷ as') [] h = absurd h
assign-FairSplit c t (a ∷ as') ((r, s) ∷ ps) h =
    ((h.0.0, h.0.1, h.0.2, refl, refl, refl, refl), assign-FairSplit c t as' ps h.1)

total_effective-assign :
    (c t : ℕ) (as' : List QuotaAccount) (ps : List (ℕ × ℕ))
    → Raised c t as' ps
    → total_effective (assign as' ps) ≡ sum_shares ps
unfolding assign set_effective
total_effective-assign c t [] [] h = refl
total_effective-assign c t [] (p ∷ ps) h = absurd h
total_effective-assign c t (a ∷ as') [] h = absurd h
total_effective-assign c t (a ∷ as') ((r, s) ∷ ps) h =
    ap (λ n. s + n) (total_effective-assign c t as' ps h.1)

total_effective-assign_requested :
    (as' : List QuotaAccount) → total_effective (assign_requested as') ≡ total_requested as'
unfolding assign_requested set_effective
total_effective-assign_requested [] = refl
total_effective-assign_requested (a ∷ as') =
    ap (λ n. a.requested + n) (total_effective-assign_requested as')

shares-Small :
    (c t : ℕ) (scarce : c < t) (word : IsU64 c) (as' : List QuotaAccount)
    → total_requested as' ≤ t
    → Small c t as'
shares-Small c t scarce word [] h = tt
shares-Small c t scarce word (a ∷ as') h =
    let part : a.requested ≤ t = omega (arith, h) in
    (
      rw (share-eq c t a.requested scarce part word) (share-le c t a.requested scarce part),
      shares-Small c t scarce word as' (omega (arith, h)),
    )

-- The effective quotas of all accounts add up to the smaller one of the capacity and the total of
-- the requests: no byte of the capacity is lost to rounding, and none is handed out twice.
pub distribute_total :
    (accounts : List QuotaAccount) (capacity : ℕ)
    → IsU64 capacity
    → total_effective (distribute_effective_quota accounts capacity)
      ≡ min capacity (total_requested accounts)
unfolding distribute_effective_quota
distribute_total accounts c word = elim (Bool-cases (leb (total_requested accounts) c)) [
  | inl e ↦ rw e (total_effective-assign_requested accounts ∙ ground (arith, e))
  | inr e ↦ rw e (
      let t = total_requested accounts in
      let scarce : c < t = ground (arith, e) in
      let raised =
        hand_out-Raised c t (c - assigned 0 (shares c t accounts)) accounts
          (shares-Small c t scarce word accounts (omega arith)) in
      total_effective-assign c t accounts _ raised
      ∙ split_total c t scarce word accounts refl
      ∙ ground (arith, scarce))
]

-- When the requests exceed the capacity, each account's effective quota is its share of the
-- capacity, rounded down, or one byte more, and never more than it requested; the requests and the
-- counters of demand, use and retirement stay.
pub distribute_fair :
    (accounts : List QuotaAccount) (capacity : ℕ)
    → IsU64 capacity
    → capacity < total_requested accounts
    → FairSplit capacity
        (total_requested accounts)
        accounts
        (distribute_effective_quota accounts capacity)
unfolding distribute_effective_quota
distribute_fair accounts c word scarce =
    let t = total_requested accounts in
    let over : leb t c ≡ false = ground (arith, scarce) in
    rw over (
      assign-FairSplit c t accounts _ (
        hand_out-Raised c t (c - assigned 0 (shares c t accounts)) accounts
          (shares-Small c t scarce word accounts (omega arith))))
