-- ===== src/Segment/Placement/Policy.antt =====
-- src/segment/placement.rs: the snapshot of the candidates, and `FreeCapacityPolicy::order`.
use Prim.Native.Nat.{compare, Ordering}
use Prim.Native.String.{String}
use cakemaster.Base.{
  ℕ, ◌+◌, ◌*◌, Bool, true, false, not, ◌&&◌, none, some, List, [], ◌∷◌, map, if◌then◌else◌, leb,
  nat_eq, ◌==◌,
}
use cakemaster.Base.Table.{get}
use cakemaster.Identity.{Uuid, uuid_eq, string_eq}
use cakemaster.Segment.Allocator.{OffsetAllocator}
use cakemaster.Segment.Entry.{is_accepting}
use cakemaster.Segment.Stats.{SegmentStats, entry_stats}
use cakemaster.Segment.Pool.Defs.{SegmentPool}
use cakemaster.Segment.Placement.Defs.{Candidate, PlacementRequest, is_member}

-- A candidate of the snapshot and what its `stats` answers.
abbrev pub Observed : Type 0
Observed = Candidate × SegmentStats

-- `snapshot_for`, with the statistics of each candidate.
unfoldable pub observe : (o : OffsetAllocator) → SegmentPool o → List ℕ → List Observed
observe o s [] = []
observe o s (p ∷ ps) =
    let rest = observe o s ps in
    elim (get p s.catalog.entries) [
      | none ↦ rest
      | some e ↦
          (
            record { handle = record { pool_id = s.pool_id; entry = p }; spec = e.spec },
            entry_stats o e,
          )
          ∷ rest
    ]

abbrev pub snapshot : (o : OffsetAllocator) → SegmentPool o → List Observed
snapshot o s = observe o s s.catalog.direct

-- The trait `PlacementPolicy`.
pub record PlacementPolicy : Type 0 where
  pub order : List Observed → PlacementRequest → List Candidate

pub record RankedCandidate : Type 0 where
  pub candidate : Candidate
  pub stats : SegmentStats
  pub preference : ℕ

abbrev pub usize_max : ℕ
usize_max = 18446744073709551615

-- `position`, from the index `n`.
unfoldable pub position_from : ℕ → List String → String → ℕ
position_from n [] name = usize_max
position_from n (x ∷ xs) name =
    let rest = position_from (n + 1) xs name in if x == name then n else rest

abbrev pub preference_rank : PlacementRequest → Candidate → ℕ
preference_rank request c = position_from 0 request.constraints.preferred_names c.spec.identity.name

unfoldable pub is_eligible : PlacementRequest → Observed → Bool
is_eligible request (c, stats) =
    is_accepting stats.state
    && leb request.allocation.bytes stats.space.available_bytes
    && not (is_member c.spec.identity.id request.constraints.excluded_segments)

abbrev pub ranked : PlacementRequest → Observed → RankedCandidate
ranked request (c, stats) = record {
  candidate = c;
  stats = stats;
  preference = preference_rank request c;
}

unfoldable pub eligible : PlacementRequest → List Observed → List RankedCandidate
eligible request [] = []
eligible request (x ∷ xs) =
    let rest = eligible request xs in
    if is_eligible request x then ranked request x ∷ rest else rest

-- `Ordering::then_with`.
abbrev pub then_with : Ordering → Ordering → Ordering
then_with Ordering.lt next = Ordering.lt
then_with Ordering.gt next = Ordering.gt
then_with Ordering.eq next = next

-- The derived `cmp` of a segment id.
abbrev pub compare_ids : Uuid → Uuid → Ordering
compare_ids a b = then_with (compare a.high b.high) (compare a.low b.low)

-- The greater share of free space first; the products are u128 and do not overflow.
abbrev pub compare_shares : SegmentStats → SegmentStats → Ordering
compare_shares l r =
    compare (r.space.available_bytes * l.space.capacity_bytes)
      (l.space.available_bytes * r.space.capacity_bytes)

unfoldable pub compare_ranked : RankedCandidate → RankedCandidate → Ordering
compare_ranked l r = then_with (compare l.preference r.preference) (
    then_with (compare_shares l.stats r.stats) (
      then_with
        (compare r.stats.space.largest_free_region_bytes l.stats.space.largest_free_region_bytes)
        (compare_ids l.candidate.spec.identity.id r.candidate.spec.identity.id)))

abbrev pub is_greater : Ordering → Bool
is_greater Ordering.gt = true
is_greater Ordering.lt = false
is_greater Ordering.eq = false

-- `sort_unstable_by`.
unfoldable pub insert_ranked : RankedCandidate → List RankedCandidate → List RankedCandidate
insert_ranked c [] = c ∷ []
insert_ranked c (d ∷ ds) =
    let rest = insert_ranked c ds in
    if is_greater (compare_ranked c d) then d ∷ rest else c ∷ d ∷ ds

unfoldable pub sort_ranked : List RankedCandidate → List RankedCandidate
unfolding insert_ranked
sort_ranked [] = []
sort_ranked (c ∷ cs) = insert_ranked c (sort_ranked cs)

abbrev candidate_of : RankedCandidate → Candidate
candidate_of r = r.candidate

abbrev pub free_capacity : List Observed → PlacementRequest → List Candidate
free_capacity observed request = map candidate_of (sort_ranked (eligible request observed))

abbrev pub free_capacity_policy : PlacementPolicy
free_capacity_policy = record { order = free_capacity }
