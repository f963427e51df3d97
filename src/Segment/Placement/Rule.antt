-- ===== src/Segment/Placement/Rule.antt =====
-- The rule for the loop of `ReplicaAllocator::reserve`: what each step keeps holds where it ends.
use cakemaster.Base.{
  ℕ, true, false, some, List, [], ◌∷◌, ◌≡◌, ◌⊎◌, inl, inr, refl, subst, arith, Result, ok, err,
  Bool-cases, Option-cases,
}
use cakemaster.Base.Lists.{length, All}
use cakemaster.Segment.Types.{
  ReserveError, zero_bytes, foreign_candidate, unknown_segment, not_accepting, out_of_space,
  overflowed_address,
}
use cakemaster.Segment.Allocator.{OffsetAllocator}
use cakemaster.Segment.Entry.{Reservation}
use cakemaster.Segment.Pool.Defs.{SegmentPool, reserve}
use cakemaster.Segment.Pool.History.{PoolCommand, pool_run}
use cakemaster.Segment.Placement.Defs.{
  PlacementRequest, FulfillmentPolicy, all_or_nothing, best_effort, Candidate, key_eq, is_member,
  PlacementError, zero_size, zero_replicas, insufficient_replicas, reserve_failed,
}
use cakemaster.Segment.Placement.Loop.{
  Placed, LoopState, Outcome, drop_all, give_back, finish, key_of, placed_on, is_full,
  after_reserve, reserve_loop,
}

module _ (o : OffsetAllocator) (request : PlacementRequest) where
  -- The errors of the pool that end a call: not those of a snapshot that is out of date.
  abbrev pub IsFatal : ReserveError → Type 0
  IsFatal (not_accepting id) = ⊥
  IsFatal (out_of_space id) = ⊥
  IsFatal _ = Unit

  -- Why a call fails in the state `b`.
  abbrev pub Cause : LoopState o → PlacementError → Type 0
  Cause b zero_size = ⊥
  Cause b zero_replicas = ⊥
  Cause b (insufficient_replicas requested allocated) =
      (requested ≡ request.replicas.count)
      × (allocated ≡ length b.placed)
      × (request.fulfillment ≡ all_or_nothing)
  Cause b (reserve_failed e) = IsFatal e

  -- The state in which the loop ends, of which P holds while it goes on and Q after a reservation.
  abbrev pub Final :
      (P Q : LoopState o → Type 0)
      → SegmentPool o
      → Result PlacementError (List (Placed o))
      → Type 0
  Final P Q t (ok placed) =
      (b : LoopState o) × (t ≡ b.pool)
      × (placed ≡ b.placed)
      × ((Q b × (is_full o request b ≡ true)) ⊎ (P b × (request.fulfillment ≡ best_effort)))
  Final P Q t (err e) = (b : LoopState o) × P b × (drop_all o b.pool b.placed ≡ some t) × Cause b e

  module _ (P Q : LoopState o → Type 0) (C : Candidate → Type 0)
      (may : List (PoolCommand o) → Type 0)
      (moved : (a : LoopState o) (s : SegmentPool o) (calls : List (PoolCommand o))
        → may calls
        → P a
        → pool_run o a.pool calls ≡ some s
        → P (record a { pool = s }))
      (refused : (a : LoopState o) (c : Candidate) (s : SegmentPool o) (e : ReserveError)
        → P a
        → reserve o a.pool c.handle request.allocation.bytes ≡ some (s, err e)
        → P (record a { pool = s }))
      (reserved : (a : LoopState o) (c : Candidate) (s : SegmentPool o) (r : Reservation o)
        → C c
        → P a
        → is_member (key_of o request c) a.domains ≡ false
        → reserve o a.pool c.handle request.allocation.bytes ≡ some (s, ok r)
        → Q (placed_on o request a c s r))
      (resumed : (b : LoopState o) → Q b → is_full o request b ≡ false → P b) where
    give_back-Final :
        (b : LoopState o) (e : PlacementError) (t : SegmentPool o)
        (r : Result PlacementError (List (Placed o)))
        → P b
        → Cause b e
        → give_back o b e ≡ some (t, r)
        → Final P Q t r
    unfolding give_back
    give_back-Final b e t (ok placed) p cause h = elim (Option-cases (drop_all o b.pool b.placed)) [
      | inl q ↦ absurd (ground (arith, q, h))
      | inr (s, q) ↦ absurd (ground (arith, q, h))
    ]
    give_back-Final b e t (err e') p cause h = elim (Option-cases (drop_all o b.pool b.placed)) [
      | inl q ↦ absurd (ground (arith, q, h))
      | inr (s, q) ↦
          let same : e ≡ e' = ground (arith, q, h) in
          let pool : s ≡ t = ground (arith, q, h) in
          (b, p, ground (arith, q, pool), subst (Cause b) same cause)
    ]

    finish-Final :
        (b : LoopState o) (t : SegmentPool o) (r : Result PlacementError (List (Placed o)))
        → P b
        → (f : FulfillmentPolicy) → request.fulfillment ≡ f
        → finish o request b ≡ some (t, r)
        → Final P Q t r
    unfolding finish
    finish-Final b t (ok placed) p best_effort e h =
        (b, ground (arith, e, h), ground (arith, e, h), inr (p, e))
    finish-Final b t (err e') p best_effort e h = absurd (ground (arith, e, h))
    finish-Final b t r p all_or_nothing e h =
        give_back-Final b (insufficient_replicas request.replicas.count (length b.placed)) t r p
          (refl, refl, e) (ground (arith, e, h))

    after_reserve-Final :
        (a : LoopState o) (c : Candidate) (continue : LoopState o → Outcome o) (s : SegmentPool o)
        (x : Result ReserveError (Reservation o)) (t : SegmentPool o)
        (r : Result PlacementError (List (Placed o)))
        → C c
        → P a
        → is_member (key_of o request c) a.domains ≡ false
        → reserve o a.pool c.handle request.allocation.bytes ≡ some (s, x)
        → ((b : LoopState o) → P b → continue b ≡ some (t, r) → Final P Q t r)
        → after_reserve o request a c continue (s, x) ≡ some (t, r)
        → Final P Q t r
    unfolding after_reserve
    after_reserve-Final a c continue s (ok x) t r k p new done go h =
        let q = reserved a c s x k p new done in
        elim (Bool-cases (is_full o request (placed_on o request a c s x))) [
          | inl full ↦ full_case r (ground (arith, full, h)) q full
          | inr more ↦
              go (placed_on o request a c s x) (resumed (placed_on o request a c s x) q more)
                (ground (arith, more, h))
        ]
      where
        full_case :
            (r : Result PlacementError (List (Placed o)))
            → ◌≡◌ {A = Outcome o}
                (some ((placed_on o request a c s x).pool, ok (placed_on o request a c s x).placed))
                (some (t, r))
            → Q (placed_on o request a c s x)
            → is_full o request (placed_on o request a c s x) ≡ true
            → Final P Q t r
        full_case (ok placed) g q full =
            (placed_on o request a c s x, ground (arith, g), ground (arith, g), inl (q, full))
        full_case (err e) g q full = absurd (ground (arith, g))
    after_reserve-Final a c continue s (err (not_accepting id)) t r k p new done go h =
        go (record a { pool = s }) (refused a c s (not_accepting id) p done) h
    after_reserve-Final a c continue s (err (out_of_space id)) t r k p new done go h =
        go (record a { pool = s }) (refused a c s (out_of_space id) p done) h
    after_reserve-Final a c continue s (err zero_bytes) t r k p new done go h =
        give_back-Final (record a { pool = s }) (reserve_failed zero_bytes) t r
          (refused a c s zero_bytes p done) tt h
    after_reserve-Final a c continue s (err foreign_candidate) t r k p new done go h =
        give_back-Final (record a { pool = s }) (reserve_failed foreign_candidate) t r
          (refused a c s foreign_candidate p done) tt h
    after_reserve-Final a c continue s (err (unknown_segment id)) t r k p new done go h =
        give_back-Final (record a { pool = s }) (reserve_failed (unknown_segment id)) t r
          (refused a c s (unknown_segment id) p done) tt h
    after_reserve-Final a c continue s (err (overflowed_address id)) t r k p new done go h =
        give_back-Final (record a { pool = s }) (reserve_failed (overflowed_address id)) t r
          (refused a c s (overflowed_address id) p done) tt h

    pub reserve_loop-Final :
        (others : ℕ → List (PoolCommand o)) (cs : List Candidate) (a : LoopState o)
        (t : SegmentPool o) (r : Result PlacementError (List (Placed o)))
        → ((n : ℕ) → may (others n))
        → All C cs
        → P a
        → reserve_loop o others request cs a ≡ some (t, r)
        → Final P Q t r
    unfolding reserve_loop
    reserve_loop-Final others [] a t r m k p h = finish-Final a t r p request.fulfillment refl h
    reserve_loop-Final others (c ∷ cs) a t r m k p h =
        elim (Bool-cases (is_member (key_of o request c) a.domains)) [
          | inl used ↦ reserve_loop-Final others cs a t r m k.1 p (ground (arith, used, h))
          | inr new ↦ elim (Option-cases (pool_run o a.pool (others (length cs)))) [
            | inl q ↦ absurd (ground (arith, new, q, h))
            | inr (s, q) ↦ elim (Option-cases (reserve o s c.handle request.allocation.bytes)) [
              | inl z ↦ absurd (ground (arith, new, q, z, h))
              | inr ((u, x), z) ↦
                  after_reserve-Final (record a { pool = s }) c (reserve_loop o others request cs) u
                    x t r k.0 (moved a s (others (length cs)) (m (length cs)) p q) new z
                    (λ b p' h'. reserve_loop-Final others cs b t r m k.1 p' h')
                    (ground (arith, new, q, z, h))
            ]
          ]
        ]
