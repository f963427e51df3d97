-- ===== src/Segment/Pool/Reserving.antt =====
-- What `SegmentPool::reserve` and the drop of a reservation do, taken apart.
use cakemaster.Base.{
  ℕ, some, ◌≡◌, ◌⊎◌, inl, inr, arith, nat_eq, eqb, Bool-cases, Option-cases, subst, Result, err,
}
use cakemaster.Base.Table.{get}
use cakemaster.Segment.Types.{ReserveError, foreign_candidate}
use cakemaster.Segment.Allocator.{OffsetAllocator}
use cakemaster.Segment.Entry.{SegmentEntry, Reservation, reserve_entry, drop_reservation}
use cakemaster.Segment.Catalog.Defs.{put_entry}
use cakemaster.Segment.Pool.Defs.{SegmentPool, SegmentHandle, reserve, release_reservation}
use cakemaster.Segment.Invariant.Reserve.{Answered, reserve_entry-Answered}

module _ (o : OffsetAllocator) where
  -- The candidate is of another pool, or its entry has answered.
  pub reserve_inv :
      (s t : SegmentPool o) (c : SegmentHandle) (bytes : ℕ)
      (r : Result ReserveError (Reservation o))
      → reserve o s c bytes ≡ some (t, r)
      → ((t ≡ s) × (r ≡ err foreign_candidate))
        ⊎ ((e : SegmentEntry o) × (e' : SegmentEntry o) × (get c.entry s.catalog.entries ≡ some e)
            × (t ≡ record s { catalog = put_entry o s.catalog c.entry e' })
            × Answered o e bytes e' r)
  unfolding reserve
  reserve_inv s t c bytes r h = elim (Bool-cases (eqb c.pool_id s.pool_id)) [
    | inr q ↦ inl (ground (arith, q, h), ground (arith, q, h))
    | inl q ↦ elim (Option-cases (get c.entry s.catalog.entries)) [
      | inl z ↦ absurd (ground (arith, q, z, h))
      | inr (e, z) ↦ elim (Option-cases (reserve_entry o e bytes)) [
        | inl w ↦ absurd (ground (arith, q, z, w, h))
        | inr ((e', x), w) ↦
            let same : x ≡ r = ground (arith, q, z, w, h) in
            inr (
              e,
              e',
              z,
              ground (arith, q, z, w, h),
              subst (Answered o e bytes e') same (reserve_entry-Answered o e e' bytes x w),
            )
      ]
    ]
  ]

  pub release_inv :
      (s t : SegmentPool o) (p : ℕ) (r : Reservation o)
      → release_reservation o s p r ≡ some t
      → (e : SegmentEntry o) × (e' : SegmentEntry o) × (get p s.catalog.entries ≡ some e)
        × (drop_reservation o e r ≡ some e')
        × (t ≡ record s { catalog = put_entry o s.catalog p e' })
  unfolding release_reservation
  release_inv s t p r h = elim (Option-cases (get p s.catalog.entries)) [
    | inl z ↦ absurd (ground (arith, z, h))
    | inr (e, z) ↦ elim (Option-cases (drop_reservation o e r)) [
      | inl w ↦ absurd (ground (arith, z, w, h))
      | inr (e', w) ↦ (e, e', z, w, ground (arith, z, w, h))
    ]
  ]
