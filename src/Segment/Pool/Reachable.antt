-- ===== src/Segment/Pool/Reachable.antt =====
-- What holds after every history of calls: the invariant, and the specification of an incarnation.
use cakemaster.Base.{ℕ, some, ◌≡◌, sym, subst, arith, nat_eq, List}
use cakemaster.Base.Table.{get}
use cakemaster.Identity.{uuid_eq}
use cakemaster.Segment.Types.{SegmentSpec}
use cakemaster.Segment.Allocator.{OffsetAllocator}
use cakemaster.Segment.Catalog.Defs.{Catalog, empty_catalog, put_entry}
use cakemaster.Segment.Pool.Defs.{SegmentPool, new_pool}
use cakemaster.Segment.Pool.History.{PoolCommand, pool_run}
use cakemaster.Segment.Invariant.Defs.{CatalogInv}
use cakemaster.Segment.Invariant.Updates.{update-Inv}
use cakemaster.Segment.Invariant.Operations.{
  quiesce_segment-Inv, reactivate_segment-Inv, reactivate_many-Inv,
}
use cakemaster.Segment.Invariant.Removal.{remove_segment-Inv, invalidate_owners-Inv}
use cakemaster.Segment.Invariant.Attach.{attach_segment-Inv}
use cakemaster.Segment.Invariant.Specs.{
  SpecAt, put-SpecIn, quiesce_segment-SpecAt, reactivate_segment-SpecAt, reactivate_many-SpecAt,
  remove_segment-SpecAt, invalidate_owners-SpecAt, attach_segment-SpecAt,
}
use cakemaster.Segment.Pool.Calls.{Preserved, pool_run-keeps}

module _ (o : OffsetAllocator) where
  abbrev pub PoolInv : SegmentPool o → Type 0
  PoolInv s = CatalogInv o s.catalog

  CatalogInv-Preserved : Preserved o (CatalogInv o)
  unfolding put_entry
  CatalogInv-Preserved = record {
    put_kept = λ c p e e' there kept inv.
        update-Inv o c.entries p e e' there kept c.segments c.next_entry inv;
    quiesce_kept = quiesce_segment-Inv o;
    reactivate_kept = reactivate_segment-Inv o;
    reactivate_many_kept = reactivate_many-Inv o;
    remove_kept = remove_segment-Inv o;
    invalidate_kept = invalidate_owners-Inv o;
    attach_kept = attach_segment-Inv o;
  }

  -- Every history of calls that starts in a state with the invariant and does not panic ends in one:
  -- each mounted segment has its own live incarnation, with a range that ends below 2^64; each
  -- incarnation in the store that is not mounted is dead; and no two mounted segments of one owner
  -- and one transport have an address in common.
  pub pool_run-PoolInv :
      (cs : List (PoolCommand o)) (s t : SegmentPool o)
      → PoolInv s
      → pool_run o s cs ≡ some t
      → PoolInv t
  pool_run-PoolInv = pool_run-keeps o (CatalogInv o) CatalogInv-Preserved

  pub empty-PoolInv :
      (pool_id max_nodes : ℕ) (s : SegmentPool o)
      → new_pool o pool_id max_nodes ≡ some s
      → PoolInv s
  unfolding new_pool get
  empty-PoolInv pool_id max_nodes s h =
      let same : s.catalog ≡ empty_catalog o = ground (arith, h) in
      subst (λ (x : Catalog o). CatalogInv o x) (sym same)
        (record {
          mounted = λ id p q. absurd cc;
          fresh = λ p e q. absurd cc;
          detached = λ p e q. absurd cc;
          separate = λ p q e f a b c d g. absurd cc;
        })

module _ (o : OffsetAllocator) (p : ℕ) (spec : SegmentSpec) where
  -- The incarnation `p` is in the pool's store, with this specification.
  abbrev pub HasSpec : SegmentPool o → Type 0
  HasSpec s = SpecAt o p spec s.catalog

  pub SpecAt-Preserved : Preserved o (SpecAt o p spec)
  unfolding put_entry
  SpecAt-Preserved = record {
    put_kept = λ c q e e' there kept h.
        put-SpecIn o p spec c.entries c.next_entry q e e' there kept.same_spec h;
    quiesce_kept = quiesce_segment-SpecAt o p spec;
    reactivate_kept = reactivate_segment-SpecAt o p spec;
    reactivate_many_kept = reactivate_many-SpecAt o p spec;
    remove_kept = remove_segment-SpecAt o p spec;
    invalidate_kept = invalidate_owners-SpecAt o p spec;
    attach_kept = attach_segment-SpecAt o p spec;
  }
