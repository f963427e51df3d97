-- ===== src/Segment/Invariant/Attach.antt =====
-- Attaching a segment keeps the invariant: the overlap scan finds every conflicting range.
use cakemaster.Base.{
  ℕ, suc, ◌+◌, ◌≤◌, Bool, true, false, none, some, ◌≡◌, ◌&&◌, inl, inr, refl, sym, subst, arith,
  nat_eq, ltb, u64_max, Bool-cases, Option-cases, ok, [], ◌∷◌, ◌==◌,
}
use cakemaster.Base.Table.{Table, get, insert}
use cakemaster.Identity.{SegmentId, uuid_eq, uuid_beq_iff, string_eq}
use cakemaster.Segment.Types.{
  SegmentSpec, MemoryRegion, TransportEndpoint, region_end, transport_beq, protocol_beq_refl,
  spec_beq, removed, accepting,
}
use cakemaster.Segment.Allocator.{OffsetAllocator, new_allocator}
use cakemaster.Segment.Entry.{SegmentEntry, new_segment_entry}
use cakemaster.Segment.Catalog.Defs.{Catalog}
use cakemaster.Segment.Catalog.Attach.{
  AttachOutcome, overlaps, index_owner, find_overlap, mount, attach_new, attach_known,
  attach_segment,
}
use cakemaster.Segment.Invariant.Defs.{Separate, HasEnd, CatalogInv}
use cakemaster.Segment.Invariant.Mount.{mount-Inv}
use cakemaster.Segment.Invariant.Operations.{rebuild_indexes-Inv}

pub transport_beq_refl : (a : TransportEndpoint) → transport_beq a a ≡ true
transport_beq_refl a =
    rw (protocol_beq_refl a.protocol, (string_eq.equal_iff a.endpoint a.endpoint).1 refl) refl

region_end_lem :
    (r : MemoryRegion) (end : ℕ)
    → region_end r ≡ some end
    → (end ≡ r.base + r.size) × (end ≤ u64_max)
region_end_lem r end h = ground arith

accepting_ne_removed : accepting ≡ removed → ⊥
accepting_ne_removed q = cc

has_end : (spec : SegmentSpec) (end : ℕ) → region_end spec.region ≡ some end → HasEnd spec
has_end spec end h = let a = region_end_lem spec.region end h in omega (arith, a.0, a.1)

last_false : (a b c d : Bool) → a ≡ true → b ≡ true → (a && b && c && d) ≡ false → (c && d) ≡ false
last_false a b c d p q h = ground (arith, p, q, h)

-- The scan's test is complete.
overlaps_lem :
    (spec f : SegmentSpec) (end x : ℕ)
    → region_end spec.region ≡ some end
    → region_end f.region ≡ some x
    → overlaps spec end f x ≡ false
    → Separate spec f
overlaps_lem spec f end x he hx h owner transport =
    let same : transport_beq f.transport spec.transport ≡ true =
      subst (λ t. transport_beq f.transport t ≡ true) (sym transport)
        (transport_beq_refl f.transport) in
    let mine : (f.identity.owner == spec.identity.owner) ≡ true =
      (uuid_beq_iff f.identity.owner spec.identity.owner).1 (sym owner) in
    let a = region_end_lem spec.region end he in
    let b = region_end_lem f.region x hx in
    let apart : (ltb spec.region.base x && ltb f.region.base end) ≡ false =
      last_false _ _ _ _ mine same h in
    ground (arith, apart, a.0, b.0)

module _ (o : OffsetAllocator) where
  find_overlap_lem :
      (spec : SegmentSpec) (end : ℕ) (m : Table ℕ (SegmentEntry o)) (s : Table SegmentId ℕ)
      → region_end spec.region ≡ some end
      → find_overlap o spec end m s ≡ some none
      → (id : SegmentId) (q : ℕ) (f : SegmentEntry o) → get id s ≡ some q
      → get q m ≡ some f
      → Separate spec f.spec
  unfolding find_overlap get
  find_overlap_lem spec end m [] he h id q f hs hm = absurd (ground (arith, hs))
  find_overlap_lem spec end m ((j, p) ∷ s) he h id q f hs hm =
      let rest = find_overlap_lem spec end m s he in
      elim (Option-cases (get p m)) [
        | inl z ↦ rest (ground (arith, z, h)) id q f (ground (arith, z, hs, hm)) hm
        | inr (e, z) ↦ elim (Option-cases (region_end e.spec.region)) [
          | inl w ↦ absurd (ground (arith, z, w, h))
          | inr (x, w) ↦ elim (Bool-cases (overlaps spec end e.spec x)) [
            | inl v ↦ absurd (ground (arith, z, w, v, h))
            | inr v ↦ elim (Bool-cases (j == id)) [
              | inl hit ↦
                  let same : f ≡ e = ground (arith, hit, hs, hm, z) in
                  subst (λ (y : SegmentEntry o). Separate spec y.spec) (sym same)
                    (overlaps_lem spec e.spec end x he w v)
              | inr miss ↦ rest (ground (arith, z, w, v, h)) id q f (ground (arith, miss, hs)) hm
            ]
          ]
        ]
      ]

  mount_lem :
      (c : Catalog o) (spec : SegmentSpec) (end max_nodes : ℕ)
      → CatalogInv o c
      → region_end spec.region ≡ some end
      → find_overlap o spec end c.entries c.segments ≡ some none
      → get spec.identity.id c.segments ≡ none
      → CatalogInv o (mount o c spec max_nodes)
  unfolding mount new_segment_entry
  mount_lem c spec end max_nodes inv he h free =
      let e = new_segment_entry o spec (new_allocator o spec.region.size max_nodes) in
      rebuild_indexes-Inv o
        (record c {
          entries = insert c.next_entry e c.entries;
          next_entry = suc c.next_entry;
          segments = insert spec.identity.id c.next_entry c.segments;
          segments_by_owner = index_owner spec.identity.owner spec.identity.id c.segments_by_owner;
        })
        (mount-Inv o c.entries c.segments c.next_entry inv e free
          (refl, λ q. absurd (accepting_ne_removed q)) (has_end spec end he)
          (λ q f h' at.
            find_overlap_lem spec end c.entries c.segments he h f.spec.identity.id q f h' at))

  pub attach_segment-Inv :
      (c c' : Catalog o) (spec : SegmentSpec) (max_nodes : ℕ) (r : AttachOutcome)
      → CatalogInv o c
      → attach_segment o c spec max_nodes ≡ some (ok (r, c'))
      → CatalogInv o c'
  unfolding attach_segment attach_new attach_known
  attach_segment-Inv c c' spec max_nodes r inv h =
      elim (Option-cases (get spec.identity.id c.segments)) [
        | inl free ↦ elim (Option-cases (region_end spec.region)) [
          | inl q ↦ absurd (ground (arith, free, q, h))
          | inr (end, q) ↦ elim (Option-cases (find_overlap o spec end c.entries c.segments)) [
            | inl z ↦ absurd (ground (arith, free, q, z, h))
            | inr (some id, z) ↦ absurd (ground (arith, free, q, z, h))
            | inr (none, z) ↦
                let same : c' ≡ mount o c spec max_nodes = ground (arith, free, q, z, h) in
                subst (λ (x : Catalog o). CatalogInv o x) (sym same)
                  (mount_lem c spec end max_nodes inv q z free)
          ]
        ]
        | inr (p, there) ↦ elim (Option-cases (get p c.entries)) [
          | inl z ↦ absurd (ground (arith, there, z, h))
          | inr (e, z) ↦ elim (Bool-cases (spec_beq e.spec spec)) [
            | inl v ↦
                let same : c' ≡ c = ground (arith, there, z, v, h) in
                subst (λ (x : Catalog o). CatalogInv o x) (sym same) inv
            | inr v ↦ absurd (ground (arith, there, z, v, h))
          ]
        ]
      ]
