-- ===== src/Segment/Pool/Calls.antt =====
-- What the operations of the catalog keep is kept by every call on the pool: src/segment/pool.rs.
use cakemaster.Base.{
  ℕ, Option, none, some, ◌≡◌, inl, inr, refl, sym, subst, arith, nat_eq, eqb, Bool-cases,
  Option-cases, Result-cases, Result, ok, err, ok_inj, bind_ok, List, [], ◌∷◌,
}
use mathlib.Core.Option.{some_inj}
use cakemaster.Base.Table.{get}
use cakemaster.Identity.{SegmentId, ClientId, uuid_eq}
use cakemaster.Segment.Types.{SegmentSpec, AttachError, SegmentStateError, ReserveError}
use cakemaster.Segment.Allocator.{OffsetAllocator}
use cakemaster.Segment.Entry.{SegmentEntry, Reservation}
use cakemaster.Segment.Catalog.Defs.{
  Catalog, put_entry, quiesce_segment, reactivate_segment, reactivate_many,
}
use cakemaster.Segment.Catalog.Attach.{AttachOutcome, attached, already_attached, attach_segment}
use cakemaster.Segment.Catalog.Remove.{remove_segment, invalidate_owners}
use cakemaster.Segment.Pool.Defs.{
  SegmentPool, SegmentHandle, attach, attach_quiesced, attached_pool, quiesce_new, quiesce,
  reactivate, reactivate_batch, remove, publish, invalidated, invalidate_pool_owners, reserve,
  reserve_on, release_reservation, validate_spec,
}
use cakemaster.Segment.Pool.History.{
  after_attach, after_change, PoolCommand, attaching, attaching_quiesced, quiescing, reactivating,
  removing, reactivating_many, invalidating, reserving, reserving_on, dropping, first_of, pool_step,
  pool_run,
}
use cakemaster.Segment.Invariant.Reserve.{Answered-Kept, drop_reservation-Kept}
use cakemaster.Segment.Pool.Reserving.{reserve_inv, release_inv}
use cakemaster.Segment.Invariant.Defs.{Kept}

module _ (o : OffsetAllocator) where
  -- What the operations of the catalog keep.
  pub record Preserved (Q : Catalog o → Type 0) : Type 0 where
    pub put_kept :
        (c : Catalog o) (p : ℕ) (e e' : SegmentEntry o)
        → get p c.entries ≡ some e
        → Kept o e e'
        → Q c
        → Q (put_entry o c p e')
    pub quiesce_kept :
        (c c' : Catalog o) (owner : ClientId) (id : SegmentId)
        → Q c
        → quiesce_segment o c owner id ≡ ok c'
        → Q c'
    pub reactivate_kept :
        (c c' : Catalog o) (owner : ClientId) (id : SegmentId)
        → Q c
        → reactivate_segment o c owner id ≡ ok c'
        → Q c'
    pub reactivate_many_kept :
        (c c' : Catalog o) (owner : ClientId) (ids : List SegmentId)
        → Q c
        → reactivate_many o c owner ids ≡ ok c'
        → Q c'
    pub remove_kept :
        (c c' : Catalog o) (owner : ClientId) (id : SegmentId)
        → Q c
        → remove_segment o c owner id ≡ ok c'
        → Q c'
    pub invalidate_kept :
        (owners : List ClientId) (c : Catalog o) (r : Catalog o × ℕ)
        → Q c
        → invalidate_owners o c owners ≡ some r
        → Q r.0
    pub attach_kept :
        (c c' : Catalog o) (spec : SegmentSpec) (max_nodes : ℕ) (a : AttachOutcome)
        → Q c
        → attach_segment o c spec max_nodes ≡ some (ok (a, c'))
        → Q c'

module _ (o : OffsetAllocator) (Q : Catalog o → Type 0) (laws : Preserved o Q) where
  abbrev Holds : SegmentPool o → Type 0
  Holds s = Q s.catalog

  after_change-keeps :
      (s s' : SegmentPool o) (r : Result SegmentStateError (SegmentPool o))
      → Holds s
      → ((t : SegmentPool o) → r ≡ ok t → Holds t)
      → after_change o s r ≡ some s'
      → Holds s'
  unfolding after_change
  after_change-keeps s s' (ok t) inv f h = subst Holds (some_inj.0 h) (f t refl)
  after_change-keeps s s' (err e) inv f h = subst Holds (some_inj.0 h) inv

  after_attach-keeps :
      (s s' : SegmentPool o) (r : Option (Result AttachError (AttachOutcome × SegmentPool o)))
      → Holds s
      → ((a : AttachOutcome) (t : SegmentPool o) → r ≡ some (ok (a, t)) → Holds t)
      → after_attach o s r ≡ some s'
      → Holds s'
  unfolding after_attach
  after_attach-keeps s s' none inv f h = absurd cc
  after_attach-keeps s s' (some (ok (a, t))) inv f h = subst Holds (some_inj.0 h) (f a t refl)
  after_attach-keeps s s' (some (err e)) inv f h = subst Holds (some_inj.0 h) inv

  quiesce-keeps :
      (s t : SegmentPool o) (owner : ClientId) (id : SegmentId)
      → Holds s
      → quiesce o s owner id ≡ ok t
      → Holds t
  unfolding quiesce publish
  quiesce-keeps s t owner id inv h =
      let r = bind_ok (quiesce_segment o s.catalog owner id) _ h in
      subst Holds (ok_inj r.2) (laws.quiesce_kept s.catalog r.0 owner id inv r.1)

  reactivate-keeps :
      (s t : SegmentPool o) (owner : ClientId) (id : SegmentId)
      → Holds s
      → reactivate o s owner id ≡ ok t
      → Holds t
  unfolding reactivate publish
  reactivate-keeps s t owner id inv h =
      let r = bind_ok (reactivate_segment o s.catalog owner id) _ h in
      subst Holds (ok_inj r.2) (laws.reactivate_kept s.catalog r.0 owner id inv r.1)

  reactivate_batch-keeps :
      (s t : SegmentPool o) (owner : ClientId) (ids : List SegmentId)
      → Holds s
      → reactivate_batch o s owner ids ≡ ok t
      → Holds t
  unfolding reactivate_batch publish
  reactivate_batch-keeps s t owner [] inv h = subst Holds (ok_inj h) inv
  reactivate_batch-keeps s t owner (id ∷ ids) inv h =
      let r = bind_ok (reactivate_many o s.catalog owner (id ∷ ids)) _ h in
      subst Holds (ok_inj r.2) (laws.reactivate_many_kept s.catalog r.0 owner (id ∷ ids) inv r.1)

  remove-keeps :
      (s t : SegmentPool o) (owner : ClientId) (id : SegmentId)
      → Holds s
      → remove o s owner id ≡ ok t
      → Holds t
  unfolding remove publish invalidated
  remove-keeps s t owner id inv h =
      let r = bind_ok (remove_segment o s.catalog owner id) _ h in
      subst Holds (ok_inj r.2) (laws.remove_kept s.catalog r.0 owner id inv r.1)

  attach-keeps :
      (s t : SegmentPool o) (spec : SegmentSpec) (a : AttachOutcome)
      → Holds s
      → attach o s spec ≡ some (ok (a, t))
      → Holds t
  unfolding attach attached_pool publish
  attach-keeps s t spec a inv h = elim (Result-cases (validate_spec spec)) [
    | inl (e, q) ↦ absurd (ground (arith, q, h))
    | inr (u, q) ↦ elim (Option-cases (attach_segment o s.catalog spec s.max_allocator_nodes)) [
      | inl z ↦ absurd (ground (arith, q, z, h))
      | inr (err e, z) ↦ absurd (ground (arith, q, z, h))
      | inr (ok (b, c), z) ↦
          let same : t.catalog ≡ c = ground (arith, q, z, h) in
          subst Q (sym same) (laws.attach_kept s.catalog c spec s.max_allocator_nodes b inv z)
    ]
  ]

  quiesce_new-keeps :
      (owner : ClientId) (id : SegmentId) (a b : AttachOutcome × Catalog o)
      → Q a.1
      → quiesce_new o owner id a ≡ some b
      → Q b.1
  unfolding quiesce_new
  quiesce_new-keeps owner id (attached p, c) b inv h =
      elim (Result-cases (quiesce_segment o c owner id)) [
        | inl (e, q) ↦ absurd (ground (arith, q, h))
        | inr (d, q) ↦
            let same : b.1 ≡ d = ground (arith, q, h) in
            subst Q (sym same) (laws.quiesce_kept c d owner id inv q)
      ]
  quiesce_new-keeps owner id (already_attached p, c) b inv h =
      subst (λ (x : AttachOutcome × Catalog o). Q x.1) (some_inj.0 h) inv

  attach_quiesced-keeps :
      (s t : SegmentPool o) (spec : SegmentSpec) (a : AttachOutcome)
      → Holds s
      → attach_quiesced o s spec ≡ some (ok (a, t))
      → Holds t
  unfolding attach_quiesced attached_pool publish
  attach_quiesced-keeps s t spec a inv h = elim (Result-cases (validate_spec spec)) [
    | inl (e, q) ↦ absurd (ground (arith, q, h))
    | inr (u, q) ↦ elim (Option-cases (attach_segment o s.catalog spec s.max_allocator_nodes)) [
      | inl z ↦ absurd (ground (arith, q, z, h))
      | inr (err e, z) ↦ absurd (ground (arith, q, z, h))
      | inr (ok (b, c), z) ↦
          elim (Option-cases (quiesce_new o spec.identity.owner spec.identity.id (b, c))) [
            | inl w ↦ absurd (ground (arith, q, z, w, h))
            | inr (d, w) ↦
                let same : t.catalog ≡ d.1 = ground (arith, q, z, w, h) in
                subst Q (sym same) (
                  quiesce_new-keeps spec.identity.owner spec.identity.id (b, c) d
                    (laws.attach_kept s.catalog c spec s.max_allocator_nodes b inv z) w)
          ]
    ]
  ]

  invalidate_pool_owners-keeps :
      (s t : SegmentPool o) (owners : List ClientId) (n : ℕ)
      → Holds s
      → invalidate_pool_owners o s owners ≡ some (t, n)
      → Holds t
  unfolding invalidate_pool_owners publish invalidated
  invalidate_pool_owners-keeps s t owners n inv h =
      elim (Option-cases (invalidate_owners o s.catalog owners)) [
        | inl q ↦ absurd (ground (arith, q, h))
        | inr (r, q) ↦
            let same : t.catalog ≡ r.0 = elim (Bool-cases (eqb r.1 0)) [
              | inl z ↦ ground (arith, q, z, h)
              | inr z ↦ ground (arith, q, z, h)
            ] in
            subst Q (sym same) (laws.invalidate_kept owners s.catalog r inv q)
      ]

  pub reserve-keeps :
      (s t : SegmentPool o) (candidate : SegmentHandle) (bytes : ℕ)
      (r : Result ReserveError (Reservation o))
      → Holds s
      → reserve o s candidate bytes ≡ some (t, r)
      → Holds t
  unfolding put_entry
  reserve-keeps s t candidate bytes r inv h = elim (reserve_inv o s t candidate bytes r h) [
    | inl (same, foreign) ↦ subst Holds (sym same) inv
    | inr (e, e', z, same, answer) ↦
        subst Holds (sym same)
          (laws.put_kept s.catalog candidate.entry e e' z (Answered-Kept o e e' bytes r answer) inv)
  ]

  reserve_on-keeps :
      (s t : SegmentPool o) (id : SegmentId) (bytes : ℕ) (r : Result ReserveError (Reservation o))
      → Holds s
      → reserve_on o s id bytes ≡ some (t, r)
      → Holds t
  unfolding reserve_on
  reserve_on-keeps s t id bytes r inv h = elim (Bool-cases (eqb bytes 0)) [
    | inl q ↦ let same : t ≡ s = ground (arith, q, h) in subst Holds (sym same) inv
    | inr q ↦ elim (Option-cases (get id s.catalog.segments)) [
      | inl z ↦ let same : t ≡ s = ground (arith, q, z, h) in subst Holds (sym same) inv
      | inr (p, z) ↦
          reserve-keeps s t (record { pool_id = s.pool_id; entry = p }) bytes r inv
            (ground (arith, q, z, h))
    ]
  ]

  release_reservation-keeps :
      (s t : SegmentPool o) (p : ℕ) (r : Reservation o)
      → Holds s
      → release_reservation o s p r ≡ some t
      → Holds t
  unfolding put_entry
  release_reservation-keeps s t p r inv h =
      let (e, e', z, w, same) = release_inv o s t p r h in
      subst Holds (sym same)
        (laws.put_kept s.catalog p e e' z (drop_reservation-Kept o e e' r w) inv)

  first_of-keeps {ℓ} :
      {A : Type ℓ} (r : Option (SegmentPool o × A)) (t : SegmentPool o)
      → ((u : SegmentPool o) (a : A) → r ≡ some (u, a) → Holds u)
      → first_of o r ≡ some t
      → Holds t
  unfolding first_of
  first_of-keeps none t f h = absurd cc
  first_of-keeps (some (u, a)) t f h = subst Holds (some_inj.0 h) (f u a refl)

  pool_step-keeps :
      (s t : SegmentPool o) (c : PoolCommand o) → Holds s → pool_step o s c ≡ some t → Holds t
  unfolding pool_step
  pool_step-keeps s t (attaching spec) inv h =
      after_attach-keeps s t (attach o s spec) inv (λ a u q. attach-keeps s u spec a inv q) h
  pool_step-keeps s t (attaching_quiesced spec) inv h =
      after_attach-keeps s t (attach_quiesced o s spec) inv
        (λ a u q. attach_quiesced-keeps s u spec a inv q) h
  pool_step-keeps s t (quiescing owner id) inv h =
      after_change-keeps s t (quiesce o s owner id) inv (λ u q. quiesce-keeps s u owner id inv q) h
  pool_step-keeps s t (reactivating owner id) inv h =
      after_change-keeps s t (reactivate o s owner id) inv
        (λ u q. reactivate-keeps s u owner id inv q) h
  pool_step-keeps s t (removing owner id) inv h =
      after_change-keeps s t (remove o s owner id) inv (λ u q. remove-keeps s u owner id inv q) h
  pool_step-keeps s t (reactivating_many owner ids) inv h =
      after_change-keeps s t (reactivate_batch o s owner ids) inv
        (λ u q. reactivate_batch-keeps s u owner ids inv q) h
  pool_step-keeps s t (invalidating owners) inv h =
      first_of-keeps (invalidate_pool_owners o s owners) t
        (λ u n q. invalidate_pool_owners-keeps s u owners n inv q) h
  pool_step-keeps s t (reserving candidate bytes) inv h =
      first_of-keeps (reserve o s candidate bytes) t
        (λ u r q. reserve-keeps s u candidate bytes r inv q) h
  pool_step-keeps s t (reserving_on id bytes) inv h =
      first_of-keeps (reserve_on o s id bytes) t (λ u r q. reserve_on-keeps s u id bytes r inv q) h
  pool_step-keeps s t (dropping p reservation) inv h =
      release_reservation-keeps s t p reservation inv h

  -- A history of calls keeps it.
  pub pool_run-keeps :
      (cs : List (PoolCommand o)) (s t : SegmentPool o)
      → Holds s
      → pool_run o s cs ≡ some t
      → Holds t
  unfolding pool_run
  pool_run-keeps [] s t inv h = subst Holds (some_inj.0 h) inv
  pool_run-keeps (c ∷ cs) s t inv h = elim (Option-cases (pool_step o s c)) [
    | inl q ↦ absurd (ground (arith, q, h))
    | inr (u, q) ↦ pool_run-keeps cs u t (pool_step-keeps s u c inv q) (ground (arith, q, h))
  ]
