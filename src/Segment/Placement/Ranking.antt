-- ===== src/Segment/Placement/Ranking.antt =====
-- `FreeCapacityPolicy::order`: the eligible candidates, in the order of its four keys.
use cakemaster.Base.{
  ◌∙◌, ◌≤◌, ◌<◌, true, List, [], ◌∷◌, ◌≡◌, ◌↔◌, inl, inr, refl, sym, ap, subst, arith, Bool-cases,
  ◌==◌,
}
use cakemaster.Base.Lists.{All, In}
use cakemaster.Identity.{Uuid, uuid_eq}
use cakemaster.Segment.Types.{SegmentState, accepting, quiesced, removed}
use cakemaster.Segment.Entry.{is_accepting}
use cakemaster.Segment.Placement.Defs.{PlacementRequest, is_member}
use cakemaster.Segment.Placement.Policy.{
  Observed, RankedCandidate, ranked, is_eligible, eligible, compare_ranked, is_greater,
  insert_ranked, sort_ranked,
}
-- What two comparisons say of the third.
use cakemaster.Segment.Placement.Compare.{HasCapacity}
use cakemaster.Segment.Placement.Order.{Ascending, sort_ranked-Sorted, Sorted-Ascending}

insert_ranked-In :
    (c x : RankedCandidate) (ds : List RankedCandidate) → In x (insert_ranked c ds) ↔ In x (c ∷ ds)
unfolding insert_ranked
insert_ranked-In c x [] = ((λ h. h), (λ h. h))
insert_ranked-In c x (d ∷ ds) = elim (Bool-cases (is_greater (compare_ranked c d))) [
  | inr q ↦ rw q ((λ h. h), (λ h. h))
  | inl q ↦ let rest = insert_ranked-In c x ds in rw q ((λ h. to rest h), (λ h. from rest h))
]
  where
    to :
        (In x (insert_ranked c ds) ↔ In x (c ∷ ds))
        → In x (d ∷ insert_ranked c ds)
        → In x (c ∷ d ∷ ds)
    to rest (inl e) = inr (inl e)
    to rest (inr h) = elim (rest.0 h) [ inl e ↦ inl e | inr k ↦ inr (inr k) ]

    from :
        (In x (insert_ranked c ds) ↔ In x (c ∷ ds))
        → In x (c ∷ d ∷ ds)
        → In x (d ∷ insert_ranked c ds)
    from rest (inl e) = inr (rest.1 (inl e))
    from rest (inr (inl e)) = inl e
    from rest (inr (inr h)) = inr (rest.1 (inr h))

sort_ranked-In : (x : RankedCandidate) (cs : List RankedCandidate) → In x (sort_ranked cs) ↔ In x cs
unfolding sort_ranked
sort_ranked-In x [] = ((λ h. h), (λ h. h))
sort_ranked-In x (c ∷ cs) = (
  (λ h. to ((insert_ranked-In c x (sort_ranked cs)).0 h) (sort_ranked-In x cs)),
  (λ h. (insert_ranked-In c x (sort_ranked cs)).1 (from h (sort_ranked-In x cs))),
)
  where
    to : In x (c ∷ sort_ranked cs) → (In x (sort_ranked cs) ↔ In x cs) → In x (c ∷ cs)
    to (inl e) rest = inl e
    to (inr h) rest = inr (rest.0 h)

    from : In x (c ∷ cs) → (In x (sort_ranked cs) ↔ In x cs) → In x (c ∷ sort_ranked cs)
    from (inl e) rest = inl e
    from (inr h) rest = inr (rest.1 h)

is_member_iff : (x : Uuid) (xs : List Uuid) → (is_member x xs ≡ true) ↔ In x xs
unfolding is_member
is_member_iff x [] = ((λ h. absurd cc), (λ h. absurd h))
is_member_iff x (y ∷ ys) = (to (is_member_iff x ys), from (is_member_iff x ys))
  where
    to : ((is_member x ys ≡ true) ↔ In x ys) → is_member x (y ∷ ys) ≡ true → In x (y ∷ ys)
    to rest h = elim (Bool-cases (y == x)) [
      | inl q ↦ inl ((uuid_eq.equal_iff y x).0 q)
      | inr q ↦ inr (rest.0 (ground (arith, q, h)))
    ]

    from : ((is_member x ys ≡ true) ↔ In x ys) → In x (y ∷ ys) → is_member x (y ∷ ys) ≡ true
    from rest (inl e) = ground (arith, (uuid_eq.equal_iff y x).1 e)
    from rest (inr h) = ground (arith, rest.1 h)

-- The candidate can take the replica: it accepts reservations, has the bytes free, and is not excluded.
abbrev pub CanTake : PlacementRequest → Observed → Type 0
CanTake request x =
    (x.1.state ≡ accepting)
    × (request.allocation.bytes ≤ x.1.space.available_bytes)
    × ¬ In x.0.spec.identity.id request.constraints.excluded_segments

-- The candidates of the snapshot that can take a replica, each with its rank.
abbrev pub Chosen : PlacementRequest → List Observed → RankedCandidate → Type 0
Chosen request observed r =
    (x : Observed) × In x observed × (r ≡ ranked request x) × CanTake request x

accepting_of : (s : SegmentState) → is_accepting s ≡ true → s ≡ accepting
accepting_of accepting h = refl
accepting_of quiesced h = absurd cc
accepting_of removed h = absurd cc

CanTake-iff :
    (request : PlacementRequest) (x : Observed) → (is_eligible request x ≡ true) ↔ CanTake request x
unfolding is_eligible
CanTake-iff request (c, stats) = (to, from)
  where
    to : is_eligible request (c, stats) ≡ true → CanTake request (c, stats)
    to h = (
      accepting_of stats.state (ground (arith, h)),
      ground (arith, h),
      (λ i.
          ground (
            arith,
            h,
            (is_member_iff c.spec.identity.id request.constraints.excluded_segments).1 i,
          )),
    )

    from : CanTake request (c, stats) → is_eligible request (c, stats) ≡ true
    from h =
        elim (Bool-cases (is_member c.spec.identity.id request.constraints.excluded_segments)) [
          | inl q ↦
              absurd
                (h.2 ((is_member_iff c.spec.identity.id request.constraints.excluded_segments).0 q))
          | inr q ↦ ground (arith, q, h.0, h.1)
        ]

eligible_iff :
    (request : PlacementRequest) (xs : List Observed) (r : RankedCandidate)
    → In r (eligible request xs) ↔ Chosen request xs r
unfolding eligible
eligible_iff request [] r = ((λ h. absurd h), (λ h. absurd h.1))
eligible_iff request (x ∷ xs) r = (to (eligible_iff request xs r), from (eligible_iff request xs r))
  where
    further : Chosen request xs r → Chosen request (x ∷ xs) r
    further (y, i, e, can) = (y, inr i, e, can)

    to :
        (In r (eligible request xs) ↔ Chosen request xs r)
        → In r (eligible request (x ∷ xs))
        → Chosen request (x ∷ xs) r
    to rest h = elim (Bool-cases (is_eligible request x)) [
      | inl q ↦ taken (rw q at h) q rest
      | inr q ↦ further (rest.0 (rw q at h))
    ]
      where
        taken :
            In r (ranked request x ∷ eligible request xs)
            → is_eligible request x ≡ true
            → (In r (eligible request xs) ↔ Chosen request xs r)
            → Chosen request (x ∷ xs) r
        taken (inl e) q rest = (x, inl refl, sym e, (CanTake-iff request x).0 q)
        taken (inr h) q rest = further (rest.0 h)

    from :
        (In r (eligible request xs) ↔ Chosen request xs r)
        → Chosen request (x ∷ xs) r
        → In r (eligible request (x ∷ xs))
    from rest (y, inl same, e, can) =
        let q : is_eligible request x ≡ true =
          (CanTake-iff request x).1 (subst (CanTake request) (sym same) can) in
        rw q (inl (ap (ranked request) same ∙ sym e))
    from rest (y, inr i, e, can) = elim (Bool-cases (is_eligible request x)) [
      | inl q ↦ rw q (inr (rest.1 (y, i, e, can)))
      | inr q ↦ rw q (rest.1 (y, i, e, can))
    ]

eligible-HasCapacity :
    (request : PlacementRequest) (xs : List Observed)
    → All (λ x. 0 < x.1.space.capacity_bytes) xs
    → All HasCapacity (eligible request xs)
unfolding eligible
eligible-HasCapacity request [] h = tt
eligible-HasCapacity request (x ∷ xs) h = elim (Bool-cases (is_eligible request x)) [
  | inl q ↦ rw q (h.0, eligible-HasCapacity request xs h.1)
  | inr q ↦ rw q (eligible-HasCapacity request xs h.1)
]

-- Where every candidate of the snapshot has a capacity: the ranking, of which the policy by free
-- capacity returns the candidates, has exactly the candidates that accept reservations, have the
-- bytes free and are not excluded, and each of them comes before all that follow it, by the four
-- keys: its place among the preferred names, its share of free space, its largest free region and
-- its id.
pub sort_ranked-Ascending :
    (request : PlacementRequest) (observed : List Observed)
    → All (λ x. 0 < x.1.space.capacity_bytes) observed
    → Ascending (sort_ranked (eligible request observed))
      × ((r : RankedCandidate)
          → In r (sort_ranked (eligible request observed)) ↔ Chosen request observed r)
sort_ranked-Ascending request observed h = (
  Sorted-Ascending (sort_ranked (eligible request observed))
      (sort_ranked-Sorted (eligible request observed) (eligible-HasCapacity request observed h)),
  λ r.
      let a = sort_ranked-In r (eligible request observed) in
      let b = eligible_iff request observed r in ((λ i. b.0 (a.0 i)), (λ i. a.1 (b.1 i))),
)
