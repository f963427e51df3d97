-- ===== src/Segment/Fencing.antt =====
-- What a removal leaves behind, and what a dead incarnation still answers.
use cakemaster.Base.{
  ℕ, false, none, some, ◌≡◌, ◌≢◌, inl, inr, refl, sym, ap, ◌∙◌, subst, arith, nat_eq, eqb,
  Bool-cases, Option-cases, ◌==◌, ok, ok_inj, bind_ok,
}
use mathlib.Core.Option.{some_inj}
use cakemaster.Base.Table.{get, insert, remove, get-insert_self, get-remove}
use cakemaster.Identity.{SegmentId, ClientId, uuid_eq, uuid_beq_iff}
use cakemaster.Segment.Types.{quiesced}
use cakemaster.Segment.Allocator.{OffsetAllocator, may_satisfy}
use cakemaster.Segment.Entry.{
  SegmentEntry, Reservation, is_accepting, prepare_remove, reserve_entry,
}
use cakemaster.Segment.Catalog.Defs.{
  Catalog, rebuild_indexes, same_entries, pointers, sort_by_id, accepting_entries, owned_entry,
}
use cakemaster.Segment.Catalog.Remove.{remove_segment, detach, remove_owner_segment}
use cakemaster.Segment.Invariant.Defs.{IsLive, IsDead, CatalogInv}
use cakemaster.Segment.Invariant.Operations.{owned_entry_lem}
use cakemaster.Segment.Invariant.Removal.{prepare_remove_lem}

module _ (o : OffsetAllocator) where
  -- A dead incarnation grants no reservation, whatever its allocator has free.
  pub dead_refuses :
      (e e' : SegmentEntry o) (bytes : ℕ) (r : Reservation o)
      → IsDead o e
      → reserve_entry o e bytes ≢ some (e', ok r)
  unfolding reserve_entry
  dead_refuses e e' bytes r dead h =
      let closed : is_accepting e.state ≡ false = ap is_accepting dead.1 in
      elim (Bool-cases (eqb bytes 0)) [
        | inl q ↦ ground (arith, q, h)
        | inr q ↦ elim (Bool-cases (may_satisfy o e.allocator bytes)) [
          | inl z ↦ ground (arith, q, z, closed, h)
          | inr z ↦ ground (arith, q, z, h)
        ]
      ]

  rebuild_indexes_frame :
      (c : Catalog o)
      → ((rebuild_indexes o c).entries ≡ c.entries) × ((rebuild_indexes o c).segments ≡ c.segments)
  unfolding rebuild_indexes
  rebuild_indexes_frame c =
      elim (Bool-cases (
        same_entries o (pointers o (sort_by_id o (accepting_entries o c.entries c.segments)))
          c.direct)) [ inl e ↦ rw e (refl, refl) | inr e ↦ rw e (refl, refl) ]

  owned_entry_owner :
      (c : Catalog o) (owner : ClientId) (id : SegmentId) (p : ℕ) (e : SegmentEntry o)
      → owned_entry o c owner id ≡ ok (p, e)
      → e.spec.identity.owner ≡ owner
  unfolding owned_entry
  owned_entry_owner c owner id p e h = elim (Option-cases (get id c.segments)) [
    | inl q ↦ absurd (ground (arith, q, h))
    | inr (p', q) ↦ elim (Option-cases (get p' c.entries)) [
      | inl z ↦ absurd (ground (arith, q, z, h))
      | inr (e', z) ↦ elim (Bool-cases (e'.spec.identity.owner == owner)) [
        | inr other ↦ absurd (ground (arith, q, z, other, h))
        | inl mine ↦
            let found : (p', e') ≡ (p, e) = ground (arith, q, z, mine, h) in
            ap (λ (x : ℕ × SegmentEntry o). x.1.spec.identity.owner) (sym found)
            ∙ (uuid_beq_iff e'.spec.identity.owner owner).0 mine
      ]
    ]
  ]

  -- A removal that succeeds takes the segment off the table, was asked for by the segment's owner after
  -- quiescing, and leaves the incarnation dead in the store, where the handles and leases still see it.
  pub remove_segment_fences :
      (c c' : Catalog o) (owner : ClientId) (id : SegmentId) (p : ℕ) (e : SegmentEntry o)
      → CatalogInv o c
      → get id c.segments ≡ some p
      → get p c.entries ≡ some e
      → remove_segment o c owner id ≡ ok c'
      → (get id c'.segments ≡ none)
        × (e.spec.identity.owner ≡ owner)
        × (e.state ≡ quiesced)
        × ((f : SegmentEntry o) × (get p c'.entries ≡ some f) × IsDead o f × (f.spec ≡ e.spec))
  unfolding remove_segment detach
  remove_segment_fences c c' owner id p e inv here at h =
      let r = bind_ok (owned_entry o c owner id) _ h in
      let q = r.0.0 in
      let g = r.0.1 in
      let own = owned_entry_lem o c owner id q g r.1 in
      let t = bind_ok (prepare_remove o g) _ r.2 in
      let same_p : q ≡ p = some_inj.0 (sym own.0 ∙ here) in
      let same_e : g ≡ e = some_inj.0 (sym own.1 ∙ ap (λ (x : ℕ). get x c.entries) same_p ∙ at) in
      let old = inv.mounted id q own.0 in
      let live : IsLive o g =
        subst (λ (x : SegmentEntry o). IsLive o x) (some_inj.0 (sym old.1 ∙ own.1)) old.3 in
      let gone = prepare_remove_lem o g t.0 live t.1 in
      let next : Catalog o = record c {
        entries = insert q t.0 c.entries;
        segments = remove id c.segments;
        segments_by_owner = remove_owner_segment owner id c.segments_by_owner;
      } in
      let frame = rebuild_indexes_frame next in
      let done : rebuild_indexes o next ≡ c' = ok_inj t.2 in
      (
        ap (λ (x : Catalog o). get id x.segments) (sym done)
            ∙ ap (λ x. get id x) frame.1
            ∙ get-remove id id c.segments
            ∙ rw ((uuid_beq_iff id id).1 refl) refl,
        ap (λ (x : SegmentEntry o). x.spec.identity.owner) (sym same_e)
            ∙ owned_entry_owner c owner id q g r.1,
        ap (λ (x : SegmentEntry o). x.state) (sym same_e) ∙ gone.2,
        (
          t.0,
          ap (λ (x : Catalog o). get p x.entries) (sym done)
              ∙ ap (λ x. get p x) frame.0
              ∙ ap (λ (x : ℕ). get p (insert x t.0 c.entries)) same_p
              ∙ get-insert_self p t.0 c.entries,
          gone.1,
          gone.0 ∙ ap (λ (x : SegmentEntry o). x.spec) same_e,
        ),
      )
