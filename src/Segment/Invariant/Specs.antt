-- ===== src/Segment/Invariant/Specs.antt =====
-- The specification of an incarnation never changes: src/segment/pool.rs and pool/catalog.rs.
use cakemaster.Base.{
  ℕ, ◌<◌, none, some, List, [], ◌∷◌, ◌≡◌, ◌∙◌, inl, inr, refl, sym, ap, subst, arith, nat_eq, eqb,
  eqb_iff, Bool-cases, Option-cases, ok, ok_inj, bind_ok,
}
use mathlib.Core.Option.{some_inj}
use cakemaster.Base.Table.{Table, get, insert, get-insert_self, get-insert_other}
use cakemaster.Identity.{SegmentId, ClientId, uuid_eq}
use cakemaster.Segment.Types.{SegmentSpec}
use cakemaster.Segment.Allocator.{OffsetAllocator, new_allocator}
use cakemaster.Segment.Entry.{
  SegmentEntry, new_segment_entry, quiesce_entry, reactivate_entry, prepare_remove,
  invalidate_entry,
}
use cakemaster.Segment.Catalog.Defs.{
  Catalog, rebuild_indexes, same_entries, pointers, sort_by_id, accepting_entries, owned_entry,
  put_entry, quiesce_segment, reactivate_segment, reactivate_all, reactivate_many, owned_entries,
}
use cakemaster.Segment.Catalog.Attach.{
  AttachOutcome, mount, attach_new, attach_known, attach_segment, find_overlap,
}
use cakemaster.Segment.Types.{region_end, spec_beq}
use cakemaster.Segment.Catalog.Remove.{
  detach, remove_segment, killed, without_owner, invalidate_segments, invalidate_each,
  invalidate_owners,
}
use cakemaster.Segment.Invariant.Operations.{
  owned_entry_lem, quiesce_entry-Kept, reactivate_entry-Kept,
}
use cakemaster.Segment.Invariant.Removal.{state_cases}

module _ (o : OffsetAllocator) (p : ℕ) (spec : SegmentSpec) where
  -- The incarnation `p` is in the store, with this specification.
  abbrev pub SpecIn : Table ℕ (SegmentEntry o) → ℕ → Type 0
  SpecIn m n = (p < n) × ((e : SegmentEntry o) × (get p m ≡ some e) × (e.spec ≡ spec))

  abbrev pub SpecAt : Catalog o → Type 0
  SpecAt c = SpecIn c.entries c.next_entry

  pub put-SpecIn :
      (m : Table ℕ (SegmentEntry o)) (n q : ℕ) (e e' : SegmentEntry o)
      → get q m ≡ some e
      → e'.spec ≡ e.spec
      → SpecIn m n
      → SpecIn (insert q e' m) n
  put-SpecIn m n q e e' here same (below, (f, there, is)) = elim (Bool-cases (eqb p q)) [
    | inl mine ↦
        let at : p ≡ q = (eqb_iff p q).0 mine in
        let found : f ≡ e = some_inj.0 (sym there ∙ ap (λ x. get x m) at ∙ here) in
        (
          below,
          (
            e',
            ap (λ x. get x (insert q e' m)) at ∙ get-insert_self q e' m,
            same ∙ sym (ap (λ (x : SegmentEntry o). x.spec) found) ∙ is,
          ),
        )
    | inr other ↦ (below, (f, get-insert_other q p e' m (ground (arith, other)) ∙ there, is))
  ]

  rebuild_indexes-SpecAt : (c : Catalog o) → SpecAt c → SpecAt (rebuild_indexes o c)
  unfolding rebuild_indexes
  rebuild_indexes-SpecAt c h =
      elim (Bool-cases (
        same_entries o (pointers o (sort_by_id o (accepting_entries o c.entries c.segments)))
          c.direct)) [ inl e ↦ rw e h | inr e ↦ rw e h ]

  pub quiesce_segment-SpecAt :
      (c c' : Catalog o) (owner : ClientId) (id : SegmentId)
      → SpecAt c
      → quiesce_segment o c owner id ≡ ok c'
      → SpecAt c'
  unfolding quiesce_segment put_entry
  quiesce_segment-SpecAt c c' owner id h done =
      let r = bind_ok (owned_entry o c owner id) _ done in
      let e = r.0.1 in
      let own = owned_entry_lem o c owner id r.0.0 e r.1 in
      subst SpecAt (ok_inj r.2) (
        rebuild_indexes-SpecAt (put_entry o c r.0.0 (quiesce_entry o e)) (
          put-SpecIn c.entries c.next_entry r.0.0 e (quiesce_entry o e) own.1
            (quiesce_entry-Kept o e).same_spec h))

  pub reactivate_segment-SpecAt :
      (c c' : Catalog o) (owner : ClientId) (id : SegmentId)
      → SpecAt c
      → reactivate_segment o c owner id ≡ ok c'
      → SpecAt c'
  unfolding reactivate_segment put_entry
  reactivate_segment-SpecAt c c' owner id h done =
      let r = bind_ok (owned_entry o c owner id) _ done in
      let e = r.0.1 in
      let own = owned_entry_lem o c owner id r.0.0 e r.1 in
      subst SpecAt (ok_inj r.2) (
        rebuild_indexes-SpecAt (put_entry o c r.0.0 (reactivate_entry o e)) (
          put-SpecIn c.entries c.next_entry r.0.0 e (reactivate_entry o e) own.1
            (reactivate_entry-Kept o e).same_spec h))

  reactivate_all-SpecIn :
      (m : Table ℕ (SegmentEntry o)) (n : ℕ) (ps : List ℕ)
      → SpecIn m n
      → SpecIn (reactivate_all o m ps) n
  unfolding reactivate_all
  reactivate_all-SpecIn m n [] h = h
  reactivate_all-SpecIn m n (q ∷ qs) h = elim (Option-cases (get q m)) [
    | inl gone ↦ rw (gone, reactivate_all) (reactivate_all-SpecIn m n qs h)
    | inr (e, there) ↦
        rw (there, reactivate_all)
          (reactivate_all-SpecIn (insert q (reactivate_entry o e) m) n qs (
            put-SpecIn m n q e (reactivate_entry o e) there (reactivate_entry-Kept o e).same_spec
              h))
  ]

  pub reactivate_many-SpecAt :
      (c c' : Catalog o) (owner : ClientId) (ids : List SegmentId)
      → SpecAt c
      → reactivate_many o c owner ids ≡ ok c'
      → SpecAt c'
  unfolding reactivate_many
  reactivate_many-SpecAt c c' owner ids h done =
      let r = bind_ok (owned_entries o c owner ids) _ done in
      subst SpecAt (ok_inj r.2) (
        rebuild_indexes-SpecAt (record c { entries = reactivate_all o c.entries r.0 })
          (reactivate_all-SpecIn c.entries c.next_entry r.0 h))

  prepare_remove-spec : (e e' : SegmentEntry o) → prepare_remove o e ≡ ok e' → e'.spec ≡ e.spec
  unfolding prepare_remove
  prepare_remove-spec e e' done = elim (state_cases e.state) [
    | inl q ↦ absurd (ground (arith, q, done))
    | inr (inl q) ↦ ground (arith, q, done)
    | inr (inr q) ↦ ground (arith, q, done)
  ]

  pub remove_segment-SpecAt :
      (c c' : Catalog o) (owner : ClientId) (id : SegmentId)
      → SpecAt c
      → remove_segment o c owner id ≡ ok c'
      → SpecAt c'
  unfolding remove_segment detach
  remove_segment-SpecAt c c' owner id h done =
      let r = bind_ok (owned_entry o c owner id) _ done in
      let q = r.0.0 in
      let e = r.0.1 in
      let own = owned_entry_lem o c owner id q e r.1 in
      let t = bind_ok (prepare_remove o e) _ r.2 in
      subst SpecAt (ok_inj t.2) (
        rebuild_indexes-SpecAt _
          (put-SpecIn c.entries c.next_entry q e t.0 own.1 (prepare_remove-spec e t.0 t.1) h))

  invalidate_segments-SpecAt :
      (ids : List SegmentId) (c : Catalog o) (r : Catalog o × ℕ)
      → SpecAt c
      → invalidate_segments o c ids ≡ some r
      → SpecAt r.0
  unfolding killed invalidate_segments invalidate_entry
  invalidate_segments-SpecAt [] c r h done =
      subst (λ (x : Catalog o × ℕ). SpecAt x.0) (some_inj.0 done) h
  invalidate_segments-SpecAt (id ∷ ids) c r h done = elim (Option-cases (get id c.segments)) [
    | inl q ↦ absurd (ground (arith, q, done))
    | inr (n, q) ↦ elim (Option-cases (get n c.entries)) [
      | inl f ↦ absurd (ground (arith, q, f, done))
      | inr (e, f) ↦
          let next = killed o c id n e in
          elim (Option-cases (invalidate_segments o next ids)) [
            | inl g ↦ absurd (ground (arith, q, f, g, done))
            | inr (t, g) ↦
                let same : r.0 ≡ t.0 = ground (arith, q, f, g, done) in
                subst SpecAt (sym same) (
                  invalidate_segments-SpecAt ids next t
                    (put-SpecIn c.entries c.next_entry n e (invalidate_entry o e) f refl h) g)
          ]
    ]
  ]

  without_owner-SpecAt :
      (c : Catalog o) (owner : ClientId) → SpecAt c → SpecAt (without_owner o c owner)
  unfolding without_owner
  without_owner-SpecAt c owner h = h

  invalidate_each-SpecAt :
      (owners : List ClientId) (c : Catalog o) (r : Catalog o × ℕ)
      → SpecAt c
      → invalidate_each o c owners ≡ some r
      → SpecAt r.0
  unfolding invalidate_each
  invalidate_each-SpecAt [] c r h done =
      subst (λ (x : Catalog o × ℕ). SpecAt x.0) (some_inj.0 done) h
  invalidate_each-SpecAt (owner ∷ owners) c r h done =
      elim (Option-cases (get owner c.segments_by_owner)) [
        | inl q ↦ invalidate_each-SpecAt owners c r h (ground (arith, q, done))
        | inr (ids, q) ↦
            let next = without_owner o c owner in
            elim (Option-cases (invalidate_segments o next ids)) [
              | inl f ↦ absurd (ground (arith, q, f, done))
              | inr (t, f) ↦ elim (Option-cases (invalidate_each o t.0 owners)) [
                | inl g ↦ absurd (ground (arith, q, f, g, done))
                | inr (u, g) ↦
                    let same : r.0 ≡ u.0 = ground (arith, q, f, g, done) in
                    subst SpecAt (sym same) (
                      invalidate_each-SpecAt owners t.0 u
                        (invalidate_segments-SpecAt ids next t (without_owner-SpecAt c owner h) f)
                        g)
              ]
            ]
      ]

  pub invalidate_owners-SpecAt :
      (owners : List ClientId) (c : Catalog o) (r : Catalog o × ℕ)
      → SpecAt c
      → invalidate_owners o c owners ≡ some r
      → SpecAt r.0
  unfolding invalidate_owners
  invalidate_owners-SpecAt owners c r h done = elim (Option-cases (invalidate_each o c owners)) [
    | inl q ↦ absurd (ground (arith, q, done))
    | inr (t, q) ↦
        let after = invalidate_each-SpecAt owners c t h q in
        elim (Bool-cases (eqb t.1 0)) [
          | inl z ↦
              let same : r ≡ t = ground (arith, q, z, done) in
              subst (λ (x : Catalog o × ℕ). SpecAt x.0) (sym same) after
          | inr z ↦
              let same : r.0 ≡ rebuild_indexes o t.0 = ground (arith, q, z, done) in
              subst SpecAt (sym same) (rebuild_indexes-SpecAt t.0 after)
        ]
  ]

  mount-SpecAt : (c : Catalog o) (new : SegmentSpec) (n : ℕ) → SpecAt c → SpecAt (mount o c new n)
  unfolding mount
  mount-SpecAt c new n (below, (f, there, is)) = rebuild_indexes-SpecAt _ (
    omega (arith, below),
    (
      f,
      get-insert_other c.next_entry p (new_segment_entry o new (new_allocator o new.region.size n))
            c.entries (λ same. omega (arith, below, same))
          ∙ there,
      is,
    ),
  )

  pub attach_segment-SpecAt :
      (c c' : Catalog o) (new : SegmentSpec) (n : ℕ) (a : AttachOutcome)
      → SpecAt c
      → attach_segment o c new n ≡ some (ok (a, c'))
      → SpecAt c'
  unfolding attach_segment attach_new attach_known
  attach_segment-SpecAt c c' new n a h done = elim (Option-cases (get new.identity.id c.segments)) [
    | inr (q, known) ↦ elim (Option-cases (get q c.entries)) [
      | inl z ↦ absurd (ground (arith, known, z, done))
      | inr (e, z) ↦ elim (Bool-cases (spec_beq e.spec new)) [
        | inl same ↦
            let unchanged : c ≡ c' = ground (arith, known, z, same, done) in
            subst SpecAt unchanged h
        | inr differs ↦ absurd (ground (arith, known, z, differs, done))
      ]
    ]
    | inl unknown ↦ elim (Option-cases (region_end new.region)) [
      | inl q ↦ absurd (ground (arith, unknown, q, done))
      | inr (end, q) ↦ elim (Option-cases (find_overlap o new end c.entries c.segments)) [
        | inl z ↦ absurd (ground (arith, unknown, q, z, done))
        | inr (some other, z) ↦ absurd (ground (arith, unknown, q, z, done))
        | inr (none, z) ↦
            let mounted : mount o c new n ≡ c' = ground (arith, unknown, q, z, done) in
            subst SpecAt mounted (mount-SpecAt c new n h)
      ]
    ]
  ]
