-- ===== src/Segment/Placement/Order.antt =====
-- The sort by `compare_ranked`.
use Prim.Native.Nat.{compare, Ordering}
use cakemaster.Base.{
  ℕ, ltb, ltb→lt, ◌*◌, ◌≤◌, ◌<◌, false, List, [], ◌∷◌, ◌≡◌, ◌⊎◌, inl, inr, arith, Bool-cases,
}
use cakemaster.Base.Lists.{All, All-mono}
use cakemaster.Identity.{Uuid, uuid_eq}
use cakemaster.Segment.Placement.Policy.{
  RankedCandidate, then_with, compare_ranked, is_greater, insert_ranked, sort_ranked,
}
-- What two comparisons say of the third.
use cakemaster.Segment.Placement.Compare.{
  HasCapacity, NotAfter, NotAfter-of_greater, NotAfter-trans,
}

abbrev pub IdLe : Uuid → Uuid → Type 0
IdLe a b = (a.high < b.high) ⊎ ((a.high ≡ b.high) × (a.low ≤ b.low))

-- The order by preference, then by the greater share of free space, then by the greater free region,
-- then by the id.
abbrev pub Before : RankedCandidate → RankedCandidate → Type 0
Before l r =
    let L = l.stats.space in
    let R = r.stats.space in
    (l.preference < r.preference)
    ⊎ ((l.preference ≡ r.preference)
        × ((R.available_bytes * L.capacity_bytes < L.available_bytes * R.capacity_bytes)
            ⊎ ((R.available_bytes * L.capacity_bytes ≡ L.available_bytes * R.capacity_bytes)
                × ((R.largest_free_region_bytes < L.largest_free_region_bytes)
                    ⊎ ((R.largest_free_region_bytes ≡ L.largest_free_region_bytes)
                        × IdLe l.candidate.spec.identity.id r.candidate.spec.identity.id)))))

then_with-cases :
    {X : Type 0} (a b : ℕ) (o : Ordering)
    → (is_greater o ≡ false → X)
    → is_greater (then_with (compare a b) o) ≡ false
    → (a < b) ⊎ ((a ≡ b) × X)
then_with-cases a b o f h = elim (Bool-cases (ltb a b)) [
  | inl less ↦ inl (ltb→lt a b less)
  | inr more ↦ let same : a ≡ b = ground (arith, more, h) in inr (same, f (ground (arith, same, h)))
]

NotAfter-Before : (l r : RankedCandidate) → NotAfter l r → Before l r
unfolding compare_ranked
NotAfter-Before l r =
    let L = l.stats.space in
    let R = r.stats.space in
    let a = l.candidate.spec.identity.id in
    let b = r.candidate.spec.identity.id in
    then_with-cases l.preference r.preference _ (
      then_with-cases (R.available_bytes * L.capacity_bytes) (L.available_bytes * R.capacity_bytes)
        _
        (then_with-cases R.largest_free_region_bytes L.largest_free_region_bytes _
          (then_with-cases a.high b.high _ (λ h. ground arith))))

-- Every earlier candidate comes before every later one.
abbrev pub Ascending : List RankedCandidate → Type 0
Ascending [] = Unit
Ascending (x ∷ xs) = All (Before x) xs × Ascending xs

abbrev pub Sorted : List RankedCandidate → Type 0
Sorted [] = Unit
Sorted (x ∷ xs) = All (NotAfter x) xs × Sorted xs

All-insert :
    (P : RankedCandidate → Type 0) (c : RankedCandidate) (ds : List RankedCandidate)
    → P c
    → All P ds
    → All P (insert_ranked c ds)
unfolding insert_ranked
All-insert P c [] p h = (p, tt)
All-insert P c (d ∷ ds) p h = elim (Bool-cases (is_greater (compare_ranked c d))) [
  | inl q ↦ rw q (h.0, All-insert P c ds p h.1)
  | inr q ↦ rw q (p, h)
]

NotAfter-All :
    (c d : RankedCandidate) (ds : List RankedCandidate)
    → NotAfter c d
    → HasCapacity c
    → HasCapacity d
    → All HasCapacity ds
    → All (NotAfter d) ds
    → All (NotAfter c) ds
NotAfter-All c d [] q hc hd hs h = tt
NotAfter-All c d (e ∷ es) q hc hd hs h =
    (NotAfter-trans c d e hc hd hs.0 q h.0, NotAfter-All c d es q hc hd hs.1 h.1)

insert_ranked-Sorted :
    (c : RankedCandidate) (ds : List RankedCandidate)
    → HasCapacity c
    → All HasCapacity ds
    → Sorted ds
    → Sorted (insert_ranked c ds)
unfolding insert_ranked
insert_ranked-Sorted c [] hc hs h = (tt, tt)
insert_ranked-Sorted c (d ∷ ds) hc hs h = elim (Bool-cases (is_greater (compare_ranked c d))) [
  | inl q ↦ rw q (
    All-insert (NotAfter d) c ds (NotAfter-of_greater c d q) h.0,
    insert_ranked-Sorted c ds hc hs.1 h.1,
  )
  | inr q ↦ rw q ((q, NotAfter-All c d ds q hc hs.0 hs.1 h.0), h)
]

sort_ranked-All :
    (P : RankedCandidate → Type 0) (cs : List RankedCandidate) → All P cs → All P (sort_ranked cs)
unfolding sort_ranked
sort_ranked-All P [] h = tt
sort_ranked-All P (c ∷ cs) h = All-insert P c (sort_ranked cs) h.0 (sort_ranked-All P cs h.1)

pub sort_ranked-Sorted : (cs : List RankedCandidate) → All HasCapacity cs → Sorted (sort_ranked cs)
unfolding sort_ranked
sort_ranked-Sorted [] h = tt
sort_ranked-Sorted (c ∷ cs) h =
    insert_ranked-Sorted c (sort_ranked cs) h.0 (sort_ranked-All HasCapacity cs h.1)
      (sort_ranked-Sorted cs h.1)

pub Sorted-Ascending : (cs : List RankedCandidate) → Sorted cs → Ascending cs
Sorted-Ascending [] h = tt
Sorted-Ascending (c ∷ cs) h = (All-mono (NotAfter-Before c) cs h.0, Sorted-Ascending cs h.1)
