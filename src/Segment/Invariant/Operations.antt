-- ===== src/Segment/Invariant/Operations.antt =====
-- The operations on mounted segments keep the invariant.
use cakemaster.Base.{
  ℕ, some, ◌≡◌, ◌≢◌, inl, inr, refl, subst, arith, nat_eq, Bool-cases, Option-cases, ok, ok_inj,
  bind_ok, List, [], ◌∷◌,
}
use cakemaster.Base.Table.{Table, get, insert}
use cakemaster.Identity.{SegmentId, ClientId, uuid_eq}
use cakemaster.Segment.Types.{SegmentState, accepting, quiesced, removed}
use cakemaster.Segment.Allocator.{OffsetAllocator}
use cakemaster.Segment.Entry.{
  SegmentEntry, is_accepting, quiesce_entry, reactivate_entry, reactivated,
}
use cakemaster.Segment.Catalog.Defs.{
  Catalog, rebuild_indexes, same_entries, pointers, sort_by_id, accepting_entries, owned_entry,
  owned_entries, put_entry, quiesce_segment, reactivate_segment, reactivate_all, reactivate_many,
}
use cakemaster.Segment.Invariant.Defs.{Inv, CatalogInv, Kept}
use cakemaster.Segment.Invariant.Updates.{update-Inv}

module _ (o : OffsetAllocator) where
  pub rebuild_indexes-Inv : (c : Catalog o) → CatalogInv o c → CatalogInv o (rebuild_indexes o c)
  unfolding rebuild_indexes
  rebuild_indexes-Inv c h =
      elim (Bool-cases (
        same_entries o (pointers o (sort_by_id o (accepting_entries o c.entries c.segments)))
          c.direct)) [ inl e ↦ rw e h | inr e ↦ rw e h ]

  pub owned_entry_lem :
      (c : Catalog o) (owner : ClientId) (id : SegmentId) (p : ℕ) (e : SegmentEntry o)
      → owned_entry o c owner id ≡ ok (p, e)
      → (get id c.segments ≡ some p) × (get p c.entries ≡ some e)
  unfolding owned_entry
  owned_entry_lem c owner id p e h = ground arith

  pub quiesce_entry-Kept : (e : SegmentEntry o) → Kept o e (quiesce_entry o e)
  unfolding quiesce_entry
  quiesce_entry-Kept e = elim (Bool-cases (is_accepting e.state)) [
    | inl h ↦ rw h (record {
      same_spec = refl;
      still_live = λ x. (x.0, λ q. cc);
      still_dead = λ x. (x.0, ground (arith, h, x.1));
    })
    | inr h ↦ rw h (record { same_spec = refl; still_live = λ x. x; still_dead = λ x. x })
  ]

  reactivated_live : (s : SegmentState) → s ≢ removed → reactivated o s ≢ removed
  unfolding reactivated
  reactivated_live accepting h = λ q. cc
  reactivated_live quiesced h = λ q. cc
  reactivated_live removed h = h

  reactivated_dead : (s : SegmentState) → s ≡ removed → reactivated o s ≡ removed
  unfolding reactivated
  reactivated_dead accepting h = absurd cc
  reactivated_dead quiesced h = absurd cc
  reactivated_dead removed h = refl

  pub reactivate_entry-Kept : (e : SegmentEntry o) → Kept o e (reactivate_entry o e)
  unfolding reactivate_entry
  reactivate_entry-Kept e = record {
    same_spec = refl;
    still_live = λ x. (x.0, reactivated_live e.state x.1);
    still_dead = λ x. (x.0, reactivated_dead e.state x.1);
  }

  pub quiesce_segment-Inv :
      (c c' : Catalog o) (owner : ClientId) (id : SegmentId)
      → CatalogInv o c
      → quiesce_segment o c owner id ≡ ok c'
      → CatalogInv o c'
  unfolding quiesce_segment put_entry
  quiesce_segment-Inv c c' owner id inv h =
      let r = bind_ok (owned_entry o c owner id) _ h in
      let p = r.0.0 in
      let e = r.0.1 in
      let own = owned_entry_lem c owner id p e r.1 in
      subst (λ (x : Catalog o). CatalogInv o x) (ok_inj r.2)
        (rebuild_indexes-Inv (put_entry o c p (quiesce_entry o e)) (
          update-Inv o c.entries p e (quiesce_entry o e) own.1 (quiesce_entry-Kept e) c.segments
            c.next_entry inv))

  pub reactivate_segment-Inv :
      (c c' : Catalog o) (owner : ClientId) (id : SegmentId)
      → CatalogInv o c
      → reactivate_segment o c owner id ≡ ok c'
      → CatalogInv o c'
  unfolding reactivate_segment put_entry
  reactivate_segment-Inv c c' owner id inv h =
      let r = bind_ok (owned_entry o c owner id) _ h in
      let p = r.0.0 in
      let e = r.0.1 in
      let own = owned_entry_lem c owner id p e r.1 in
      subst (λ (x : Catalog o). CatalogInv o x) (ok_inj r.2)
        (rebuild_indexes-Inv (put_entry o c p (reactivate_entry o e)) (
          update-Inv o c.entries p e (reactivate_entry o e) own.1 (reactivate_entry-Kept e)
            c.segments c.next_entry inv))

  reactivate_all-Inv :
      (m : Table ℕ (SegmentEntry o)) (s : Table SegmentId ℕ) (n : ℕ) (ps : List ℕ)
      → Inv o m s n
      → Inv o (reactivate_all o m ps) s n
  unfolding reactivate_all
  reactivate_all-Inv m s n [] inv = inv
  reactivate_all-Inv m s n (p ∷ ps) inv = elim (Option-cases (get p m)) [
    | inl q ↦ rw (q, reactivate_all) (reactivate_all-Inv m s n ps inv)
    | inr r ↦
        rw (r.1, reactivate_all)
          (reactivate_all-Inv (insert p (reactivate_entry o r.0) m) s n ps
            (update-Inv o m p r.0 (reactivate_entry o r.0) r.1 (reactivate_entry-Kept r.0) s n inv))
  ]

  pub reactivate_many-Inv :
      (c c' : Catalog o) (owner : ClientId) (ids : List SegmentId)
      → CatalogInv o c
      → reactivate_many o c owner ids ≡ ok c'
      → CatalogInv o c'
  unfolding reactivate_many
  reactivate_many-Inv c c' owner ids inv h =
      let r = bind_ok (owned_entries o c owner ids) _ h in
      subst (λ (x : Catalog o). CatalogInv o x) (ok_inj r.2)
        (rebuild_indexes-Inv (record c { entries = reactivate_all o c.entries r.0 })
          (reactivate_all-Inv c.entries c.segments c.next_entry r.0 inv))
