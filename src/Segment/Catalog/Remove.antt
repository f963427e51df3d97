-- ===== src/Segment/Catalog/Remove.antt =====
-- `Catalog::remove` and `Catalog::invalidate_owners`.
use cakemaster.Base.{
  nat_eq, ℕ, suc, ◌+◌, Option, none, some, List, [], ◌∷◌, if◌then◌else◌, eqb, Result, ok, ◌>>=◌,
  ◌==◌,
}
use cakemaster.Base.Table.{Table, get, insert, remove}
use cakemaster.Identity.{SegmentId, ClientId, uuid_eq}
use cakemaster.Segment.Types.{SegmentStateError}
use cakemaster.Segment.Allocator.{OffsetAllocator}
use cakemaster.Segment.Entry.{SegmentEntry, prepare_remove, invalidate_entry}
use cakemaster.Segment.Catalog.Defs.{Catalog, rebuild_indexes, owned_entry}

-- `HashSet::remove`.
unfoldable pub set_remove : SegmentId → List SegmentId → List SegmentId
set_remove id [] = []
set_remove id (i ∷ ids) = if i == id then set_remove id ids else i ∷ set_remove id ids

-- An owner without segments leaves the index.
unfoldable pub keep_owner :
    ClientId → List SegmentId → Table ClientId (List SegmentId) → Table ClientId (List SegmentId)
keep_owner owner [] m = remove owner m
keep_owner owner (i ∷ ids) m = insert owner (i ∷ ids) m

unfoldable pub remove_owner_segment :
    ClientId → SegmentId → Table ClientId (List SegmentId) → Table ClientId (List SegmentId)
unfolding keep_owner
remove_owner_segment owner id m = elim (get owner m) [
  | none ↦ m
  | some ids ↦ keep_owner owner (set_remove id ids) m
]

module _ (o : OffsetAllocator) where
  unfoldable pub detach : Catalog o → ClientId → SegmentId → ℕ → SegmentEntry o → Catalog o
  unfolding rebuild_indexes remove_owner_segment
  detach c owner id p e = rebuild_indexes o (record c {
    entries = insert p e c.entries;
    segments = remove id c.segments;
    segments_by_owner = remove_owner_segment owner id c.segments_by_owner;
  })

  unfoldable pub remove_segment :
      Catalog o → ClientId → SegmentId → Result SegmentStateError (Catalog o)
  unfolding owned_entry prepare_remove detach
  remove_segment c owner id =
      owned_entry o c owner id
      >>= (λ found. prepare_remove o found.1 >>= (λ e. ok (detach c owner id found.0 e)))

  -- One segment taken off the table, and its incarnation killed.
  unfoldable pub killed : Catalog o → SegmentId → ℕ → SegmentEntry o → Catalog o
  unfolding invalidate_entry
  killed c id p e = record c {
    entries = insert p (invalidate_entry o e) c.entries;
    segments = remove id c.segments;
  }

  unfoldable pub without_owner : Catalog o → ClientId → Catalog o
  without_owner c owner = record c { segments_by_owner = remove owner c.segments_by_owner }

  -- The segments of one owner; none is the panic on an indexed segment that is not mounted.
  unfoldable pub invalidate_segments : Catalog o → List SegmentId → Option (Catalog o × ℕ)
  unfolding killed
  invalidate_segments c [] = some (c, 0)
  invalidate_segments c (id ∷ ids) = elim (get id c.segments) [
    | none ↦ none
    | some p ↦ elim (get p c.entries) [
      | none ↦ none
      | some e ↦ elim (invalidate_segments (killed c id p e) ids) [
        | none ↦ none
        | some r ↦ some (r.0, suc r.1)
      ]
    ]
  ]

  unfoldable pub invalidate_each : Catalog o → List ClientId → Option (Catalog o × ℕ)
  unfolding invalidate_segments without_owner
  invalidate_each c [] = some (c, 0)
  invalidate_each c (owner ∷ owners) = elim (get owner c.segments_by_owner) [
    | none ↦ invalidate_each c owners
    | some ids ↦ elim (invalidate_segments (without_owner c owner) ids) [
      | none ↦ none
      | some r ↦ elim (invalidate_each r.0 owners) [ none ↦ none | some s ↦ some (s.0, r.1 + s.1) ]
    ]
  ]

  unfoldable pub invalidate_owners : Catalog o → List ClientId → Option (Catalog o × ℕ)
  unfolding invalidate_each rebuild_indexes
  invalidate_owners c owners = elim (invalidate_each c owners) [
    | none ↦ none
    | some r ↦ if eqb r.1 0 then some r else some (rebuild_indexes o r.0, r.1)
  ]
