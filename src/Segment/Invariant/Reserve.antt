-- ===== src/Segment/Invariant/Reserve.antt =====
-- What reserving and releasing do to an entry: they change the allocator and the lease count.
use cakemaster.Base.{
  ℕ, ◌+◌, ◌-◌, Option, none, some, ◌≡◌, inl, inr, refl, sym, ◌∙◌, subst, arith, eqb, Bool-cases,
  Option-cases, Result, ok, err, checked_add,
}
use mathlib.Core.Option.{some_inj}
use cakemaster.Segment.Types.{
  SegmentSpec, ReserveError, zero_bytes, out_of_space, not_accepting, overflowed_address,
}
use cakemaster.Segment.Allocator.{
  OffsetAllocator, ByteAllocator, AllocationHandle, may_satisfy, allocate_after_precheck,
  release_allocation,
}
use cakemaster.Segment.Entry.{
  SegmentEntry, Reservation, reserve_entry, drop_reservation, place, is_accepting,
}
use cakemaster.Segment.Invariant.Defs.{Kept}

module _ (o : OffsetAllocator) where
  abbrev Same : SegmentEntry o → SegmentEntry o → Type 0
  Same e e' = (e'.spec ≡ e.spec) × (e'.state ≡ e.state) × (e'.live ≡ e.live)

  Same-Kept : (e e' : SegmentEntry o) → Same e e' → Kept o e e'
  Same-Kept e e' h = record {
    same_spec = h.0;
    still_live = λ x. (h.2 ∙ x.0, λ q. x.1 (sym h.1 ∙ q));
    still_dead = λ x. (h.2 ∙ x.0, h.1 ∙ x.1);
  }

  -- The leases that an answer takes.
  abbrev pub granted : Result ReserveError (Reservation o) → ℕ
  granted (ok r) = 1
  granted (err e) = 0

  -- A reservation that is granted has the size that was asked for, and is of the segment that was asked.
  abbrev pub IsFor : SegmentSpec → ℕ → Result ReserveError (Reservation o) → Type 0
  IsFor spec bytes (ok r) = (r.reserved_region.size ≡ bytes) × (r.segment ≡ spec)
  IsFor spec bytes (err e) = Unit

  abbrev pub Answered :
      SegmentEntry o → ℕ → SegmentEntry o → Result ReserveError (Reservation o) → Type 0
  Answered e bytes e' r =
      Same e e' × (e'.active_leases ≡ e.active_leases + granted r) × IsFor e.spec bytes r

  settled :
      (e e' f : SegmentEntry o) (bytes : ℕ) (r x : Result ReserveError (Reservation o))
      → Answered e bytes f x
      → ◌≡◌ {A = Option (SegmentEntry o × Result ReserveError (Reservation o))}
          (some (f, x))
          (some (e', r))
      → Answered e bytes e' r
  settled e e' f bytes r x a h =
      subst (λ (p : SegmentEntry o × Result ReserveError (Reservation o)). Answered e bytes p.0 p.1)
        (some_inj.0 h) a

  place-Answered :
      (e e' : SegmentEntry o) (bytes : ℕ) (x : ByteAllocator o × Option (AllocationHandle o))
      (r : Result ReserveError (Reservation o))
      → place o e bytes x ≡ some (e', r)
      → Answered e bytes e' r
  unfolding place
  place-Answered e e' bytes (a, none) r h =
      settled e e' (record e { allocator = a }) bytes r (err (out_of_space e.spec.identity.id))
        ((refl, refl, refl), omega arith, tt) h
  place-Answered e e' bytes (a, some handle) r h =
      elim (Option-cases (checked_add e.spec.region.base handle.handle_offset)) [
        | inl q ↦ elim (Option-cases (release_allocation o a handle)) [
          | inl z ↦ absurd (ground (arith, q, z, h))
          | inr (f, z) ↦
              settled e e' (record e { allocator = f }) bytes r
                (err (overflowed_address e.spec.identity.id)) ((refl, refl, refl), omega arith, tt)
                (ground (arith, q, z, h))
        ]
        | inr (address, q) ↦
            let reservation : Reservation o = record {
              handle = handle;
              segment = e.spec;
              reserved_region = record { base = address; size = bytes };
            } in
            settled e e' (record e { allocator = a; active_leases = e.active_leases + 1 }) bytes r
              (ok reservation) ((refl, refl, refl), refl, (refl, refl)) (ground (arith, q, h))
      ]

  pub reserve_entry-Answered :
      (e e' : SegmentEntry o) (bytes : ℕ) (r : Result ReserveError (Reservation o))
      → reserve_entry o e bytes ≡ some (e', r)
      → Answered e bytes e' r
  unfolding reserve_entry
  reserve_entry-Answered e e' bytes r h =
      let refused = λ (x : ReserveError).
        settled e e' e bytes r (err x) ((refl, refl, refl), omega arith, tt) in
      elim (Bool-cases (eqb bytes 0)) [
        | inl q ↦ refused zero_bytes (ground (arith, q, h))
        | inr q ↦ elim (Bool-cases (may_satisfy o e.allocator bytes)) [
          | inr z ↦ refused (out_of_space e.spec.identity.id) (ground (arith, q, z, h))
          | inl z ↦ elim (Bool-cases (is_accepting e.state)) [
            | inr w ↦ refused (not_accepting e.spec.identity.id) (ground (arith, q, z, w, h))
            | inl w ↦
                place-Answered e e' bytes (allocate_after_precheck o e.allocator bytes) r
                  (ground (arith, q, z, w, h))
          ]
        ]
      ]

  -- The lease goes back.
  pub drop_reservation-Dropped :
      (e e' : SegmentEntry o) (r : Reservation o)
      → drop_reservation o e r ≡ some e'
      → Same e e' × (e'.active_leases ≡ e.active_leases - 1)
  unfolding drop_reservation
  drop_reservation-Dropped e e' r h =
      elim (Option-cases (release_allocation o e.allocator r.handle)) [
        | inl z ↦ absurd (ground (arith, z, h))
        | inr (f, z) ↦
            let same : record e { allocator = f; active_leases = e.active_leases - 1 } ≡ e' =
              ground (arith, z, h) in
            subst (λ (x : SegmentEntry o). Same e x × (x.active_leases ≡ e.active_leases - 1)) same
              ((refl, refl, refl), refl)
      ]

  pub Answered-Kept :
      (e e' : SegmentEntry o) (bytes : ℕ) (r : Result ReserveError (Reservation o))
      → Answered e bytes e' r
      → Kept o e e'
  Answered-Kept e e' bytes r a = Same-Kept e e' a.0

  pub drop_reservation-Kept :
      (e e' : SegmentEntry o) (r : Reservation o) → drop_reservation o e r ≡ some e' → Kept o e e'
  drop_reservation-Kept e e' r h = Same-Kept e e' (drop_reservation-Dropped e e' r h).0
