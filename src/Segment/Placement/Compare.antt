-- ===== src/Segment/Placement/Compare.antt =====
-- The comparison of candidates is transitive, among those that have a capacity.
use Prim.Native.Nat.{compare, Ordering}
use native.Mathlib.Nat.{mul-lt-mul_of_pos_right}
use cakemaster.Base.{
  ℕ, ltb, ltb→lt, ◌∙◌, ◌*◌, ◌<◌, true, false, ◌≡◌, inl, inr, refl, sym, ap, subst, arith,
  Bool-cases,
}
use cakemaster.Identity.{Uuid, uuid_eq}
use cakemaster.Segment.Stats.{SegmentSpaceStats}
use cakemaster.Segment.Placement.Policy.{
  RankedCandidate, then_with, compare_ids, compare_shares, compare_ranked, is_greater,
}

-- What two comparisons say of the third.
abbrev pub Chain : Ordering → Ordering → Ordering → Type 0
Chain Ordering.lt Ordering.lt r = r ≡ Ordering.lt
Chain Ordering.lt Ordering.eq r = r ≡ Ordering.lt
Chain Ordering.eq Ordering.lt r = r ≡ Ordering.lt
Chain Ordering.eq Ordering.eq r = r ≡ Ordering.eq
Chain Ordering.gt q r = Unit
Chain Ordering.lt Ordering.gt r = Unit
Chain Ordering.eq Ordering.gt r = Unit

lt-Chain : (q : Ordering) → Chain Ordering.lt q Ordering.lt
lt-Chain Ordering.lt = refl
lt-Chain Ordering.eq = refl
lt-Chain Ordering.gt = tt

gt-Chain : (p r : Ordering) → Chain p Ordering.gt r
gt-Chain Ordering.lt r = tt
gt-Chain Ordering.eq r = tt
gt-Chain Ordering.gt r = tt

pub Chain-swap : (p q r : Ordering) → Chain p q r → Chain q p r
Chain-swap Ordering.lt Ordering.lt r h = h
Chain-swap Ordering.lt Ordering.eq r h = h
Chain-swap Ordering.lt Ordering.gt r h = tt
Chain-swap Ordering.eq Ordering.lt r h = h
Chain-swap Ordering.eq Ordering.eq r h = h
Chain-swap Ordering.eq Ordering.gt r h = tt
Chain-swap Ordering.gt q r h = gt-Chain q r

then_with-Chain :
    (p q r p' q' r' : Ordering)
    → Chain p q r
    → Chain p' q' r'
    → Chain (then_with p p') (then_with q q') (then_with r r')
then_with-Chain Ordering.lt Ordering.lt r p' q' r' h k =
    subst (λ o. Chain Ordering.lt Ordering.lt (then_with o r')) (sym h) refl
then_with-Chain Ordering.lt Ordering.gt r p' q' r' h k = tt
then_with-Chain Ordering.lt Ordering.eq r p' q' r' h k =
    subst (λ o. Chain Ordering.lt q' (then_with o r')) (sym h) (lt-Chain q')
then_with-Chain Ordering.eq Ordering.lt r p' q' r' h k =
    subst (λ o. Chain p' Ordering.lt (then_with o r')) (sym h)
      (Chain-swap Ordering.lt p' Ordering.lt (lt-Chain p'))
then_with-Chain Ordering.eq Ordering.eq r p' q' r' h k =
    subst (λ o. Chain p' q' (then_with o r')) (sym h) k
then_with-Chain Ordering.eq Ordering.gt r p' q' r' h k = gt-Chain p' (then_with r r')
then_with-Chain Ordering.gt q r p' q' r' h k = tt

pub compare-Chain : (a b c : ℕ) → Chain (compare a b) (compare b c) (compare a c)
compare-Chain a b c = ground arith

compare-lt : {a b : ℕ} → a < b → compare a b ≡ Ordering.lt
compare-lt h = ground arith

compare-gt : {a b : ℕ} → b < a → compare a b ≡ Ordering.gt
compare-gt h = ground arith

compare-eq : {a b : ℕ} → a ≡ b → compare a b ≡ Ordering.eq
compare-eq h = ground arith

compare-scale : (m n k : ℕ) → 0 < k → compare (m * k) (n * k) ≡ compare m n
compare-scale m n k h = elim (Bool-cases (ltb m n)) [
  | inl less ↦
      let below = ltb→lt m n less in
      compare-lt (mul-lt-mul_of_pos_right below h) ∙ sym (compare-lt below)
  | inr more ↦ elim (Bool-cases (ltb n m)) [
    | inl less ↦
        let below = ltb→lt n m less in
        compare-gt (mul-lt-mul_of_pos_right below h) ∙ sym (compare-gt below)
    | inr same ↦
        let equal : m ≡ n = ground (arith, more, same) in
        compare-eq (ap (λ t. t * k) equal) ∙ sym (compare-eq equal)
  ]
]

Chain-resp : {p q r p' q' r' : Ordering} → p ≡ p' → q ≡ q' → r ≡ r' → Chain p q r → Chain p' q' r'
Chain-resp {q} {r} {p'} {q'} x y z h =
    subst (λ o. Chain p' q' o) z (subst (λ o. Chain p' o r) y (subst (λ o. Chain o q r) x h))

-- The shares a/x, b/y and c/z of three capacities that are not 0.
shares-Chain :
    (a b c x y z : ℕ)
    → 0 < x
    → 0 < y
    → 0 < z
    → Chain (compare (b * x) (a * y)) (compare (c * y) (b * z)) (compare (c * x) (a * z))
shares-Chain a b c x y z hx hy hz =
    let e : b * z * x ≡ b * x * z = grind arith in
    let f : c * y * x ≡ c * x * y = grind arith in
    let g : a * y * z ≡ a * z * y = grind arith in
    Chain-swap (compare (c * y) (b * z)) (compare (b * x) (a * y)) (compare (c * x) (a * z)) (
      Chain-resp (compare-scale (c * y) (b * z) x hx)
        (ap (λ t. compare t (a * y * z)) e ∙ compare-scale (b * x) (a * y) z hz)
        (ap (λ t. compare t (a * y * z)) f
          ∙ ap (λ t. compare (c * x * y) t) g
          ∙ compare-scale (c * x) (a * z) y hy)
        (compare-Chain (c * y * x) (b * z * x) (a * y * z)))

ids-Chain : (a b c : Uuid) → Chain (compare_ids a b) (compare_ids b c) (compare_ids a c)
ids-Chain a b c =
    then_with-Chain (compare a.high b.high) (compare b.high c.high) (compare a.high c.high)
      (compare a.low b.low) (compare b.low c.low) (compare a.low c.low)
      (compare-Chain a.high b.high c.high) (compare-Chain a.low b.low c.low)

abbrev pub HasCapacity : RankedCandidate → Type 0
HasCapacity r = 0 < r.stats.space.capacity_bytes

pub ranked-Chain :
    (a b c : RankedCandidate)
    → HasCapacity a
    → HasCapacity b
    → HasCapacity c
    → Chain (compare_ranked a b) (compare_ranked b c) (compare_ranked a c)
unfolding compare_ranked
ranked-Chain a b c ha hb hc =
    let A = a.stats.space in
    let B = b.stats.space in
    let C = c.stats.space in
    let free = λ (x y : SegmentSpaceStats).
      compare y.largest_free_region_bytes x.largest_free_region_bytes in
    let id = λ (x y : RankedCandidate).
      compare_ids x.candidate.spec.identity.id y.candidate.spec.identity.id in
    let low = λ (x y : RankedCandidate). then_with (free x.stats.space y.stats.space) (id x y) in
    let share = λ (x y : RankedCandidate). then_with (compare_shares x.stats y.stats) (low x y) in
    then_with-Chain (compare a.preference b.preference) (compare b.preference c.preference)
      (compare a.preference c.preference) (share a b) (share b c) (share a c)
      (compare-Chain a.preference b.preference c.preference)
      (then_with-Chain (compare_shares a.stats b.stats) (compare_shares b.stats c.stats)
        (compare_shares a.stats c.stats) (low a b) (low b c) (low a c)
        (shares-Chain A.available_bytes B.available_bytes C.available_bytes A.capacity_bytes
          B.capacity_bytes C.capacity_bytes ha hb hc)
        (then_with-Chain (free A B) (free B C) (free A C) (id a b) (id b c) (id a c)
          (Chain-swap (free B C) (free A B) (free A C) (
            compare-Chain C.largest_free_region_bytes B.largest_free_region_bytes
              A.largest_free_region_bytes))
          (ids-Chain a.candidate.spec.identity.id b.candidate.spec.identity.id
            c.candidate.spec.identity.id)))

abbrev flip : Ordering → Ordering
flip Ordering.lt = Ordering.gt
flip Ordering.eq = Ordering.eq
flip Ordering.gt = Ordering.lt

flip-then_with :
    (p q p' q' : Ordering) → p' ≡ flip p → q' ≡ flip q → then_with p' q' ≡ flip (then_with p q)
flip-then_with Ordering.lt q p' q' h k = ap (λ o. then_with o q') h
flip-then_with Ordering.gt q p' q' h k = ap (λ o. then_with o q') h
flip-then_with Ordering.eq q p' q' h k = ap (λ o. then_with o q') h ∙ k

compare-flip : (a b : ℕ) → compare b a ≡ flip (compare a b)
compare-flip a b = ground arith

ranked-flip : (l r : RankedCandidate) → compare_ranked r l ≡ flip (compare_ranked l r)
unfolding compare_ranked
ranked-flip l r =
    let L = l.stats.space in
    let R = r.stats.space in
    let a = l.candidate.spec.identity.id in
    let b = r.candidate.spec.identity.id in
    let ids =
      flip-then_with (compare a.high b.high) (compare a.low b.low) (compare b.high a.high)
        (compare b.low a.low) (compare-flip a.high b.high) (compare-flip a.low b.low) in
    let free =
      flip-then_with (compare R.largest_free_region_bytes L.largest_free_region_bytes)
        (compare_ids a b) (compare L.largest_free_region_bytes R.largest_free_region_bytes)
        (compare_ids b a) (compare-flip R.largest_free_region_bytes L.largest_free_region_bytes)
        ids in
    let share =
      flip-then_with (compare_shares l.stats r.stats) _ (compare_shares r.stats l.stats) _
        (compare-flip (R.available_bytes * L.capacity_bytes) (L.available_bytes * R.capacity_bytes))
        free in
    flip-then_with (compare l.preference r.preference) _ (compare r.preference l.preference) _
      (compare-flip l.preference r.preference) share

-- The comparison that the sort makes.
abbrev pub NotAfter : RankedCandidate → RankedCandidate → Type 0
NotAfter l r = is_greater (compare_ranked l r) ≡ false

is_greater-flip : (p : Ordering) → is_greater p ≡ true → is_greater (flip p) ≡ false
is_greater-flip Ordering.gt h = refl
is_greater-flip Ordering.lt h = absurd cc
is_greater-flip Ordering.eq h = refl

pub NotAfter-of_greater :
    (l r : RankedCandidate) → is_greater (compare_ranked l r) ≡ true → NotAfter r l
NotAfter-of_greater l r h = ap is_greater (ranked-flip l r) ∙ is_greater-flip (compare_ranked l r) h

Chain-not_greater :
    (p q r : Ordering)
    → Chain p q r
    → is_greater p ≡ false
    → is_greater q ≡ false
    → is_greater r ≡ false
Chain-not_greater Ordering.lt Ordering.lt r h x y = ap is_greater h
Chain-not_greater Ordering.lt Ordering.eq r h x y = ap is_greater h
Chain-not_greater Ordering.eq Ordering.lt r h x y = ap is_greater h
Chain-not_greater Ordering.eq Ordering.eq r h x y = ap is_greater h
Chain-not_greater Ordering.gt q r h x y = absurd cc
Chain-not_greater Ordering.lt Ordering.gt r h x y = absurd cc
Chain-not_greater Ordering.eq Ordering.gt r h x y = absurd cc

pub NotAfter-trans :
    (a b c : RankedCandidate)
    → HasCapacity a
    → HasCapacity b
    → HasCapacity c
    → NotAfter a b
    → NotAfter b c
    → NotAfter a c
NotAfter-trans a b c ha hb hc =
    Chain-not_greater (compare_ranked a b) (compare_ranked b c) (compare_ranked a c)
      (ranked-Chain a b c ha hb hc)
