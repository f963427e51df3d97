-- ===== src/Segment/Placement/Leases.antt =====
-- The leases of an attachment over a placement: a failed call gives back all that it took.
use cakemaster.Base.{
  ℕ, ◌+◌, some, List, [], ◌∷◌, ◌≡◌, inl, inr, refl, sym, ap, ◌∙◌, subst, arith, Result, ok, err,
  Bool-cases, eqb, nat_eq,
}
use mathlib.Core.Option.{some_inj}
use cakemaster.Base.Lists.{All}
use cakemaster.Segment.Allocator.{OffsetAllocator}
use cakemaster.Segment.Pool.Defs.{SegmentPool}
use cakemaster.Segment.Pool.History.{pool_run}
use cakemaster.Segment.Placement.Defs.{PlacementRequest, Candidate, key_eq, PlacementError}
use cakemaster.Segment.Placement.Policy.{PlacementPolicy, snapshot}
use cakemaster.Segment.Placement.Loop.{Placed, LoopState, placed_on, reserve_replicas, reserve_loop}
use cakemaster.Segment.Placement.Rule.{Final, reserve_loop-Final}
use cakemaster.Segment.Placement.Accounts.{
  leases, held, held-append, reserve-leases, drop_all-leases,
}

module _ (o : OffsetAllocator) where
  abbrev pub placed_in : Result PlacementError (List (Placed o)) → List (Placed o)
  placed_in (ok placed) = placed
  placed_in (err e) = []

  module _ (request : PlacementRequest) (before : SegmentPool o) where
    abbrev Balanced : LoopState o → Type 0
    Balanced a = (p : ℕ) → leases o a.pool p ≡ leases o before p + held o p a.placed

    balance_of :
        (t : SegmentPool o) (r : Result PlacementError (List (Placed o))) (p : ℕ)
        → Final o request Balanced Balanced t r
        → leases o t p ≡ leases o before p + held o p (placed_in r)
    balance_of t (ok placed) p (b, pool, e, inl (even, full)) =
        ap (λ (u : SegmentPool o). leases o u p) pool
        ∙ even p
        ∙ ap (λ l. leases o before p + held o p l) (sym e)
    balance_of t (ok placed) p (b, pool, e, inr (even, best)) =
        ap (λ (u : SegmentPool o). leases o u p) pool
        ∙ even p
        ∙ ap (λ l. leases o before p + held o p l) (sym e)
    balance_of t (err e) p (b, even, drops, cause) =
        omega (arith, drop_all-leases o b.placed b.pool t p drops, even p)

    loop-Balanced :
        (cs : List Candidate) (t : SegmentPool o) (r : Result PlacementError (List (Placed o)))
        (p : ℕ)
        → reserve_loop o (λ n. []) request cs (record { pool = before; domains = []; placed = [] })
          ≡ some (t, r)
        → leases o t p ≡ leases o before p + held o p (placed_in r)
    unfolding placed_on pool_run
    loop-Balanced cs t r p h = balance_of t r p (
        reserve_loop-Final o request Balanced Balanced (λ c. Unit {0}) (λ calls. calls ≡ [])
          (λ a u calls quiet even ran q.
            ap (λ (x : SegmentPool o). leases o x q)
              (sym (some_inj.0 (subst (λ l. pool_run o a.pool l ≡ some u) quiet ran)))
            ∙ even q)
          (λ a c u e even done q. ground (
            arith,
            even q,
            reserve-leases o a.pool u c.handle request.allocation.bytes (err e) q done,
          ))
          (λ a c u x k even new done q. omega (
            arith,
            even q,
            reserve-leases o a.pool u c.handle request.allocation.bytes (ok x) q done,
            held-append o q a.placed (record { attachment = c.handle.entry; reservation = x } ∷ []),
          ))
          (λ b even more. even) (λ n. []) cs (record { pool = before; domains = []; placed = [] }) t
          r (λ n. refl) (All-Unit cs) (λ q. omega arith) h)
      where
        All-Unit : (cs : List Candidate) → All (λ c. Unit {0}) cs
        All-Unit [] = tt
        All-Unit (c ∷ cs) = (tt, All-Unit cs)

  -- While no other thread calls the pool, and whatever the policy is: a placement takes one lease of
  -- an attachment for each replica that it returns on it, and no other. In particular a call that
  -- fails leaves the leases of every attachment as they were.
  pub reserve_replicas-leases :
      (policy : PlacementPolicy) (s t : SegmentPool o) (request : PlacementRequest)
      (r : Result PlacementError (List (Placed o))) (p : ℕ)
      → reserve_replicas o (λ n. []) policy s request ≡ some (t, r)
      → leases o t p ≡ leases o s p + held o p (placed_in r)
  unfolding reserve_replicas
  reserve_replicas-leases policy s t request r p h =
      elim (Bool-cases (eqb request.allocation.bytes 0)) [
        | inl q ↦ refused (ground (arith, q, h)) (ground (arith, q, h))
        | inr q ↦ elim (Bool-cases (eqb request.replicas.count 0)) [
          | inl z ↦ refused (ground (arith, q, z, h)) (ground (arith, q, z, h))
          | inr z ↦
              loop-Balanced request s (policy.order (snapshot o s) request) t r p
                (ground (arith, q, z, h))
        ]
      ]
    where
      refused : t ≡ s → placed_in r ≡ [] → leases o t p ≡ leases o s p + held o p (placed_in r)
      refused same empty =
          ap (λ (u : SegmentPool o). leases o u p) same ∙ omega (arith, ap (held o p) empty)
