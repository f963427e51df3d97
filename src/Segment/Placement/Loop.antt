-- ===== src/Segment/Placement/Loop.antt =====
-- src/segment/placement.rs: `ReplicaAllocator::reserve`. Between two reservations other threads may
-- call the pool: `others n` is what they do before the reservation that leaves n candidates.
use cakemaster.Base.{
  ℕ, Bool, true, false, Option, none, some, List, [], ◌∷◌, ◌++◌, if◌then◌else◌, eqb, Result, ok,
  err,
}
use cakemaster.Base.Lists.{length}
use cakemaster.Segment.Types.{ReserveError, not_accepting, out_of_space}
use cakemaster.Segment.Allocator.{OffsetAllocator}
use cakemaster.Segment.Entry.{Reservation}
use cakemaster.Segment.Pool.Defs.{SegmentPool, reserve, release_reservation}
use cakemaster.Segment.Pool.History.{PoolCommand, pool_run}
use cakemaster.Segment.Placement.Defs.{
  PlacementRequest, all_or_nothing, best_effort, Candidate, DomainKey, domain_key, key_eq,
  is_member, PlacementError, zero_size, zero_replicas, insufficient_replicas, reserve_failed,
}
use cakemaster.Segment.Placement.Policy.{PlacementPolicy, snapshot}

module _ (o : OffsetAllocator) where
  -- A reservation, with the number of the incarnation that its `segment_lease` is of.
  pub record Placed : Type 0 where
    pub attachment : ℕ
    pub reservation : Reservation o

  -- The variables of the loop; `domains` is a set.
  pub record LoopState : Type 0 where
    pub pool : SegmentPool o
    pub domains : List DomainKey
    pub placed : List Placed

  abbrev pub Outcome : Type 0
  Outcome = Option (SegmentPool o × Result PlacementError (List Placed))

  -- The drop of a vector of reservations.
  unfoldable pub drop_all : SegmentPool o → List Placed → Option (SegmentPool o)
  drop_all s [] = some s
  drop_all s (x ∷ xs) = elim (release_reservation o s x.attachment x.reservation) [
    | none ↦ none
    | some s' ↦ drop_all s' xs
  ]

  unfoldable pub give_back : LoopState → PlacementError → Outcome
  unfolding drop_all
  give_back a e = elim (drop_all a.pool a.placed) [ none ↦ none | some s ↦ some (s, err e) ]

  -- The candidates are used up.
  unfoldable pub finish : PlacementRequest → LoopState → Outcome
  unfolding give_back
  finish request a = elim request.fulfillment [
    | best_effort ↦ some (a.pool, ok a.placed)
    | all_or_nothing ↦ give_back a (insufficient_replicas request.replicas.count (length a.placed))
  ]

  abbrev pub key_of : PlacementRequest → Candidate → DomainKey
  key_of request c = domain_key c request.replicas.failure_domain

  unfoldable pub placed_on :
      PlacementRequest → LoopState → Candidate → SegmentPool o → Reservation o → LoopState
  placed_on request a c s reservation = record {
    pool = s;
    domains = a.domains ++ key_of request c ∷ [];
    placed = a.placed ++ record { attachment = c.handle.entry; reservation = reservation } ∷ [];
  }

  abbrev pub is_full : PlacementRequest → LoopState → Bool
  is_full request a = eqb (length a.placed) request.replicas.count

  -- What follows a reservation; `continue` is the rest of the loop.
  unfoldable pub after_reserve :
      PlacementRequest
      → LoopState
      → Candidate
      → (LoopState → Outcome)
      → SegmentPool o × Result ReserveError (Reservation o)
      → Outcome
  unfolding placed_on give_back
  after_reserve request a c continue (s, ok r) =
      let b = placed_on request a c s r in
      elim (is_full request b) [ true ↦ some (b.pool, ok b.placed) | false ↦ continue b ]
  after_reserve request a c continue (s, err (not_accepting id)) = continue (record a { pool = s })
  after_reserve request a c continue (s, err (out_of_space id)) = continue (record a { pool = s })
  after_reserve request a c continue (s, err e) =
      give_back (record a { pool = s }) (reserve_failed e)

  unfoldable pub reserve_loop :
      (ℕ → List (PoolCommand o)) → PlacementRequest → List Candidate → LoopState → Outcome
  unfolding finish after_reserve
  reserve_loop others request [] a = finish request a
  reserve_loop others request (c ∷ cs) a = elim (is_member (key_of request c) a.domains) [
    | true ↦ reserve_loop others request cs a
    | false ↦ elim (pool_run o a.pool (others (length cs))) [
      | none ↦ none
      | some s ↦ elim (reserve o s c.handle request.allocation.bytes) [
        | none ↦ none
        | some r ↦
            after_reserve request (record a { pool = s }) c (reserve_loop others request cs) r
      ]
    ]
  ]

  unfoldable pub reserve_replicas :
      (ℕ → List (PoolCommand o)) → PlacementPolicy → SegmentPool o → PlacementRequest → Outcome
  unfolding reserve_loop
  reserve_replicas others policy s request =
      if eqb request.allocation.bytes 0
      then some (s, err zero_size)
      else if eqb request.replicas.count 0
      then some (s, err zero_replicas)
      else reserve_loop others request (policy.order (snapshot o s) request)
          (record { pool = s; domains = []; placed = [] })
