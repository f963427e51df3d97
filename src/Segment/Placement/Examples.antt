-- ===== src/Segment/Placement/Examples.antt =====
-- Placements on a pool of three segments of two owners.
use cakemaster.Base.{
  ℕ, ◌+◌, ◌<◌, Option, none, some, List, [], ◌∷◌, ◌≡◌, ◌↔◌, refl, arith, Bool, true, eqb,
  if◌then◌else◌, is_some, Result, ok, err,
}
use cakemaster.Base.Lists.{In, length, All}
use cakemaster.Segment.Examples.{bump, uuid, spec_at, start, or_start}
use cakemaster.Segment.Pool.Defs.{SegmentPool}
use cakemaster.Segment.Pool.History.{PoolCommand, attaching, quiescing, pool_run}
use cakemaster.Segment.Placement.Defs.{
  PlacementRequest, placement_request, replica_policy, across, by_owner, PlacementError, zero_size,
}
use cakemaster.Segment.Placement.Policy.{
  RankedCandidate, snapshot, free_capacity_policy, eligible, sort_ranked,
}
use cakemaster.Segment.Placement.Loop.{Placed, Outcome, reserve_replicas}
use cakemaster.Segment.Placement.Spread.{Known, Spread, reserve_replicas-Spread}
use cakemaster.Segment.Placement.Accounts.{leases, held}
use cakemaster.Segment.Placement.Leases.{placed_in, reserve_replicas-leases}
use cakemaster.Segment.Placement.Order.{Ascending}
use cakemaster.Segment.Placement.Ranking.{Chosen, sort_ranked-Ascending}

abbrev pool : SegmentPool bump
pool = or_start (
    pool_run bump start (
      attaching (spec_at 1 7 4096)
      ∷ attaching (spec_at 2 7 8192)
      ∷ attaching (spec_at 3 8 4096)
      ∷ []))

-- Two replicas of 100 bytes on different segments.
abbrev two : PlacementRequest
two = placement_request (record { bytes = 100 }) (replica_policy 2)

-- Three replicas with different owners, of which there are two.
abbrev three : PlacementRequest
three = placement_request (record { bytes = 100 }) (across (replica_policy 3) by_owner)

-- Segment 2 is quiesced after the snapshot.
abbrev meanwhile : ℕ → List (PoolCommand bump)
meanwhile n = if eqb n 1 then quiescing (uuid 7) (uuid 2) ∷ [] else []

abbrev outcome_pool : Outcome bump → SegmentPool bump
outcome_pool (some (t, r)) = t
outcome_pool none = start

abbrev answer : Outcome bump → Result PlacementError (List (Placed bump))
answer (some (t, r)) = r
answer none = err zero_size

outcome_lem : (x : Outcome bump) → is_some x ≡ true → x ≡ some (outcome_pool x, answer x)
outcome_lem (some (t, r)) h = refl
outcome_lem none h = absurd cc

abbrev first_outcome : Outcome bump
first_outcome = reserve_replicas bump meanwhile free_capacity_policy pool two

abbrev second_outcome : Outcome bump
second_outcome = reserve_replicas bump (λ n. []) free_capacity_policy pool three

computed :
    (is_some first_outcome ≡ true)
    × (is_some second_outcome ≡ true)
    × (length (placed_in bump (answer first_outcome)) ≡ 2)
    × (length (snapshot bump pool) ≡ 3)
unfolding cakemaster.Base.Table.get cakemaster.Base.Table.insert
    cakemaster.Segment.Transport.parse_protocol cakemaster.Segment.Allocator.find_shift
    cakemaster.Segment.Allocator.new_allocator cakemaster.Segment.Allocator.may_satisfy
    cakemaster.Segment.Allocator.allocate_after_precheck
    cakemaster.Segment.Allocator.release_allocation cakemaster.Segment.Entry.new_segment_entry
    cakemaster.Segment.Entry.reserve_entry cakemaster.Segment.Entry.drop_reservation
    cakemaster.Segment.Entry.quiesce_entry cakemaster.Segment.Catalog.Defs.accepting_entries
    cakemaster.Segment.Catalog.Defs.insert_sorted cakemaster.Segment.Catalog.Defs.sort_by_id
    cakemaster.Segment.Catalog.Defs.pointers cakemaster.Segment.Catalog.Defs.same_entries
    cakemaster.Segment.Catalog.Defs.quiesce_segment cakemaster.Segment.Catalog.Attach.attach_segment
    cakemaster.Segment.Pool.Defs.validate_spec cakemaster.Segment.Pool.Defs.attach
    cakemaster.Segment.Pool.Defs.quiesce cakemaster.Segment.Pool.Defs.reserve_on
    cakemaster.Segment.Pool.Defs.release_reservation cakemaster.Segment.Pool.History.pool_run
    reserve_replicas sort_ranked eligible cakemaster.Segment.Placement.Policy.observe
    cakemaster.Segment.Placement.Policy.is_eligible
    cakemaster.Segment.Placement.Policy.compare_ranked
    cakemaster.Segment.Placement.Policy.position_from cakemaster.Segment.Placement.Defs.is_member
computed = (refl, refl, refl, refl)

known : Known bump (free_capacity_policy.order (snapshot bump pool) two) pool
unfolding cakemaster.Base.Table.get cakemaster.Base.Table.insert
    cakemaster.Segment.Transport.parse_protocol cakemaster.Segment.Allocator.find_shift
    cakemaster.Segment.Allocator.new_allocator cakemaster.Segment.Allocator.may_satisfy
    cakemaster.Segment.Allocator.allocate_after_precheck
    cakemaster.Segment.Allocator.release_allocation cakemaster.Segment.Entry.new_segment_entry
    cakemaster.Segment.Entry.reserve_entry cakemaster.Segment.Entry.drop_reservation
    cakemaster.Segment.Entry.quiesce_entry cakemaster.Segment.Catalog.Defs.accepting_entries
    cakemaster.Segment.Catalog.Defs.insert_sorted cakemaster.Segment.Catalog.Defs.sort_by_id
    cakemaster.Segment.Catalog.Defs.pointers cakemaster.Segment.Catalog.Defs.same_entries
    cakemaster.Segment.Catalog.Defs.quiesce_segment cakemaster.Segment.Catalog.Attach.attach_segment
    cakemaster.Segment.Pool.Defs.validate_spec cakemaster.Segment.Pool.Defs.attach
    cakemaster.Segment.Pool.Defs.quiesce cakemaster.Segment.Pool.Defs.reserve_on
    cakemaster.Segment.Pool.Defs.release_reservation cakemaster.Segment.Pool.History.pool_run
    sort_ranked eligible cakemaster.Segment.Placement.Policy.observe
    cakemaster.Segment.Placement.Policy.is_eligible
    cakemaster.Segment.Placement.Policy.compare_ranked
    cakemaster.Segment.Placement.Policy.position_from cakemaster.Segment.Placement.Defs.is_member
known = (
  (omega arith, (_, refl, refl)),
  ((omega arith, (_, refl, refl)), ((omega arith, (_, refl, refl)), tt)),
)

reserve_replicas-Spread_example :
    Spread bump two (free_capacity_policy.order (snapshot bump pool) two) (answer first_outcome)
reserve_replicas-Spread_example =
    reserve_replicas-Spread bump meanwhile free_capacity_policy pool (outcome_pool first_outcome)
      two (answer first_outcome) known (outcome_lem first_outcome computed.0)

reserve_replicas-leases_example :
    leases bump (outcome_pool second_outcome) 0
    ≡ leases bump pool 0 + held bump 0 (placed_in bump (answer second_outcome))
reserve_replicas-leases_example =
    reserve_replicas-leases bump free_capacity_policy pool (outcome_pool second_outcome) three
      (answer second_outcome) 0 (outcome_lem second_outcome computed.1)

capacities : All (λ x. 0 < x.1.space.capacity_bytes) (snapshot bump pool)
unfolding cakemaster.Segment.Placement.Policy.observe pool_run cakemaster.Segment.Pool.Defs.attach
    cakemaster.Segment.Pool.Defs.validate_spec cakemaster.Segment.Transport.parse_protocol
    cakemaster.Segment.Catalog.Attach.attach_segment cakemaster.Base.Table.get
    cakemaster.Segment.Catalog.Defs.same_entries cakemaster.Segment.Catalog.Defs.pointers
    cakemaster.Segment.Catalog.Defs.sort_by_id cakemaster.Segment.Catalog.Defs.accepting_entries
    cakemaster.Base.Table.insert cakemaster.Segment.Entry.new_segment_entry
    cakemaster.Segment.Catalog.Defs.insert_sorted cakemaster.Segment.Allocator.new_allocator
    cakemaster.Segment.Allocator.find_shift
capacities = omega arith

sort_ranked-Ascending_example :
    Ascending (sort_ranked (eligible two (snapshot bump pool)))
    × ((r : RankedCandidate)
        → In r (sort_ranked (eligible two (snapshot bump pool)))
          ↔ Chosen two (snapshot bump pool) r)
sort_ranked-Ascending_example = sort_ranked-Ascending two (snapshot bump pool) capacities
