-- ===== src/Segment/Catalog/Attach.antt =====
-- `Catalog::attach`.
use cakemaster.Base.{
  nat_eq, ℕ, suc, Bool, ◌&&◌, Option, none, some, List, [], ◌∷◌, if◌then◌else◌, ltb, Result, ok,
  err, ◌==◌,
}
use cakemaster.Base.Table.{Table, get, insert}
use cakemaster.Identity.{SegmentId, ClientId, uuid_eq}
use cakemaster.Segment.Types.{
  SegmentSpec, region_end, transport_beq, spec_beq, AttachError, address_overflow,
  conflicting_segment_id, overlapping_address_range,
}
use cakemaster.Segment.Allocator.{OffsetAllocator, new_allocator}
use cakemaster.Segment.Entry.{SegmentEntry, new_segment_entry}
use cakemaster.Segment.Catalog.Defs.{Catalog, rebuild_indexes}

-- The handle is the number of the attachment.
pub data AttachOutcome : Type 0 where
  attached already_attached : ℕ → AttachOutcome

-- Two ranges of one owner in one address space that have an address in common.
abbrev pub overlaps : SegmentSpec → ℕ → SegmentSpec → ℕ → Bool
overlaps spec end existing existing_end =
    existing.identity.owner == spec.identity.owner
    && transport_beq existing.transport spec.transport
    && ltb spec.region.base existing_end
    && ltb existing.region.base end

-- `HashSet::insert`.
unfoldable pub set_insert : SegmentId → List SegmentId → List SegmentId
set_insert id [] = id ∷ []
set_insert id (i ∷ ids) = if i == id then i ∷ ids else i ∷ set_insert id ids

unfoldable pub index_owner :
    ClientId → SegmentId → Table ClientId (List SegmentId) → Table ClientId (List SegmentId)
index_owner owner id m = elim (get owner m) [
  | none ↦ insert owner (id ∷ []) m
  | some ids ↦ insert owner (set_insert id ids) m
]

module _ (o : OffsetAllocator) where
  -- The first mounted segment that the range overlaps; the outer none is the panic on a mounted range
  -- that has no end.
  unfoldable pub find_overlap :
      SegmentSpec → ℕ → Table ℕ (SegmentEntry o) → Table SegmentId ℕ → Option (Option SegmentId)
  find_overlap spec end entries [] = some none
  find_overlap spec end entries ((id, p) ∷ segments) =
      let rest = find_overlap spec end entries segments in
      elim (get p entries) [
        | none ↦ rest
        | some e ↦ elim (region_end e.spec.region) [
          | none ↦ none
          | some existing_end ↦
              if overlaps spec end e.spec existing_end then some (some e.spec.identity.id) else rest
        ]
      ]

  -- The new entry, and its two indexes.
  unfoldable pub mount : Catalog o → SegmentSpec → ℕ → Catalog o
  unfolding rebuild_indexes
  mount c spec max_nodes = rebuild_indexes o (record c {
    entries =
        insert c.next_entry (new_segment_entry o spec (new_allocator o spec.region.size max_nodes))
          c.entries;
    next_entry = suc c.next_entry;
    segments = insert spec.identity.id c.next_entry c.segments;
    segments_by_owner = index_owner spec.identity.owner spec.identity.id c.segments_by_owner;
  })

  unfoldable pub attach_new :
      Catalog o → SegmentSpec → ℕ → Option (Result AttachError (AttachOutcome × Catalog o))
  unfolding find_overlap mount
  attach_new c spec max_nodes = elim (region_end spec.region) [
    | none ↦ some (err address_overflow)
    | some end ↦ elim (find_overlap spec end c.entries c.segments) [
      | none ↦ none
      | some (some id) ↦ some (err (overlapping_address_range id))
      | some none ↦ some (ok (attached c.next_entry, mount c spec max_nodes))
    ]
  ]

  unfoldable pub attach_known :
      Catalog o → SegmentSpec → ℕ → SegmentEntry o → Result AttachError (AttachOutcome × Catalog o)
  attach_known c spec p e =
      if spec_beq e.spec spec
      then ok (already_attached p, c)
      else err (conflicting_segment_id spec.identity.id)

  unfoldable pub attach_segment :
      Catalog o → SegmentSpec → ℕ → Option (Result AttachError (AttachOutcome × Catalog o))
  unfolding attach_new attach_known
  attach_segment c spec max_nodes = elim (get spec.identity.id c.segments) [
    | none ↦ attach_new c spec max_nodes
    | some p ↦ elim (get p c.entries) [ none ↦ none | some e ↦ some (attach_known c spec p e) ]
  ]
