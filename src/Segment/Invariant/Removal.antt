-- ===== src/Segment/Invariant/Removal.antt =====
-- Removing a segment and invalidating owners keep the invariant.
use cakemaster.Base.{
  ℕ, some, ◌≡◌, ◌⊎◌, inl, inr, refl, sym, ◌∙◌, subst, arith, nat_eq, eqb, Bool-cases, Option-cases,
  ok, ok_inj, bind_ok, List, [], ◌∷◌,
}
use mathlib.Core.Option.{some_inj}
use cakemaster.Base.Table.{get, insert, remove}
use cakemaster.Identity.{SegmentId, ClientId, uuid_eq}
use cakemaster.Segment.Types.{SegmentState, accepting, quiesced, removed}
use cakemaster.Segment.Allocator.{OffsetAllocator}
use cakemaster.Segment.Entry.{SegmentEntry, prepare_remove, invalidate_entry}
use cakemaster.Segment.Catalog.Defs.{Catalog, rebuild_indexes, owned_entry}
use cakemaster.Segment.Catalog.Remove.{
  remove_segment, detach, remove_owner_segment, killed, without_owner, invalidate_segments,
  invalidate_each, invalidate_owners,
}
use cakemaster.Segment.Invariant.Defs.{IsLive, IsDead, CatalogInv}
use cakemaster.Segment.Invariant.Detach.{detach-Inv}
use cakemaster.Segment.Invariant.Operations.{rebuild_indexes-Inv, owned_entry_lem}

pub state_cases : (s : SegmentState) → (s ≡ accepting) ⊎ (s ≡ quiesced) ⊎ (s ≡ removed)
state_cases accepting = inl refl
state_cases quiesced = inr (inl refl)
state_cases removed = inr (inr refl)

module _ (o : OffsetAllocator) where
  -- A mounted entry that may be removed was quiesced, and is dead afterwards.
  pub prepare_remove_lem :
      (e e' : SegmentEntry o)
      → IsLive o e
      → prepare_remove o e ≡ ok e'
      → (e'.spec ≡ e.spec) × IsDead o e' × (e.state ≡ quiesced)
  unfolding prepare_remove
  prepare_remove_lem e e' live h = elim (state_cases e.state) [
    | inl q ↦ absurd (ground (arith, q, h))
    | inr (inl q) ↦ (ground (arith, q, h), (ground (arith, q, h), ground (arith, q, h)), q)
    | inr (inr q) ↦ absurd (live.1 q)
  ]

  pub remove_segment-Inv :
      (c c' : Catalog o) (owner : ClientId) (id : SegmentId)
      → CatalogInv o c
      → remove_segment o c owner id ≡ ok c'
      → CatalogInv o c'
  unfolding remove_segment detach
  remove_segment-Inv c c' owner id inv h =
      let r = bind_ok (owned_entry o c owner id) _ h in
      let p = r.0.0 in
      let e = r.0.1 in
      let own = owned_entry_lem o c owner id p e r.1 in
      let t = bind_ok (prepare_remove o e) _ r.2 in
      let old = inv.mounted id p own.0 in
      let live : IsLive o e =
        subst (λ (x : SegmentEntry o). IsLive o x) (some_inj.0 (sym old.1 ∙ own.1)) old.3 in
      let gone = prepare_remove_lem e t.0 live t.1 in
      subst (λ (x : Catalog o). CatalogInv o x) (ok_inj t.2)
        (rebuild_indexes-Inv o
          (record c {
            entries = insert p t.0 c.entries;
            segments = remove id c.segments;
            segments_by_owner = remove_owner_segment owner id c.segments_by_owner;
          })
          (detach-Inv o c.entries c.segments c.next_entry inv id p e t.0 own.0 own.1 gone.0 gone.1))

  invalidate_segments-Inv :
      (ids : List SegmentId) (c : Catalog o) (r : Catalog o × ℕ)
      → CatalogInv o c
      → invalidate_segments o c ids ≡ some r
      → CatalogInv o r.0
  unfolding killed invalidate_segments invalidate_entry
  invalidate_segments-Inv [] c r inv h =
      subst (λ (x : Catalog o × ℕ). CatalogInv o x.0) (some_inj.0 h) inv
  invalidate_segments-Inv (id ∷ ids) c r inv h = elim (Option-cases (get id c.segments)) [
    | inl q ↦ absurd (ground (arith, q, h))
    | inr (p, q) ↦ elim (Option-cases (get p c.entries)) [
      | inl f ↦ absurd (ground (arith, q, f, h))
      | inr (e, f) ↦
          let next = killed o c id p e in
          elim (Option-cases (invalidate_segments o next ids)) [
            | inl g ↦ absurd (ground (arith, q, f, g, h))
            | inr (t, g) ↦
                let same : r.0 ≡ t.0 = ground (arith, q, f, g, h) in
                subst (λ (x : Catalog o). CatalogInv o x) (sym same)
                  (invalidate_segments-Inv ids next t
                    (detach-Inv o c.entries c.segments c.next_entry inv id p e
                      (invalidate_entry o e) q f refl (refl, refl))
                    g)
          ]
    ]
  ]

  without_owner-Inv :
      (c : Catalog o) (owner : ClientId) → CatalogInv o c → CatalogInv o (without_owner o c owner)
  unfolding without_owner
  without_owner-Inv c owner inv = inv

  invalidate_each-Inv :
      (owners : List ClientId) (c : Catalog o) (r : Catalog o × ℕ)
      → CatalogInv o c
      → invalidate_each o c owners ≡ some r
      → CatalogInv o r.0
  unfolding invalidate_each
  invalidate_each-Inv [] c r inv h =
      subst (λ (x : Catalog o × ℕ). CatalogInv o x.0) (some_inj.0 h) inv
  invalidate_each-Inv (owner ∷ owners) c r inv h =
      elim (Option-cases (get owner c.segments_by_owner)) [
        | inl q ↦ invalidate_each-Inv owners c r inv (ground (arith, q, h))
        | inr (ids, q) ↦
            let next = without_owner o c owner in
            elim (Option-cases (invalidate_segments o next ids)) [
              | inl f ↦ absurd (ground (arith, q, f, h))
              | inr (t, f) ↦ elim (Option-cases (invalidate_each o t.0 owners)) [
                | inl g ↦ absurd (ground (arith, q, f, g, h))
                | inr (u, g) ↦
                    let same : r.0 ≡ u.0 = ground (arith, q, f, g, h) in
                    subst (λ (x : Catalog o). CatalogInv o x) (sym same)
                      (invalidate_each-Inv owners t.0 u
                        (invalidate_segments-Inv ids next t (without_owner-Inv c owner inv) f) g)
              ]
            ]
      ]

  pub invalidate_owners-Inv :
      (owners : List ClientId) (c : Catalog o) (r : Catalog o × ℕ)
      → CatalogInv o c
      → invalidate_owners o c owners ≡ some r
      → CatalogInv o r.0
  unfolding invalidate_owners
  invalidate_owners-Inv owners c r inv h = elim (Option-cases (invalidate_each o c owners)) [
    | inl q ↦ absurd (ground (arith, q, h))
    | inr (t, q) ↦
        let after = invalidate_each-Inv owners c t inv q in
        elim (Bool-cases (eqb t.1 0)) [
          | inl z ↦
              let same : r ≡ t = ground (arith, q, z, h) in
              subst (λ (x : Catalog o × ℕ). CatalogInv o x.0) (sym same) after
          | inr z ↦
              let same : r.0 ≡ rebuild_indexes o t.0 = ground (arith, q, z, h) in
              subst (λ (x : Catalog o). CatalogInv o x) (sym same) (rebuild_indexes-Inv o t.0 after)
        ]
  ]
