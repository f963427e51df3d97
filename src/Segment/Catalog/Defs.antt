-- ===== src/Segment/Catalog/Defs.antt =====
-- src/segment/pool/catalog.rs: the state, the index of accepting segments, and the lookups.
use cakemaster.Base.{
  nat_eq, ℕ, Bool, true, false, ◌&&◌, none, some, List, [], ◌∷◌, if◌then◌else◌, eqb, wrapping_add,
  Result, ok, err, ◌>>=◌, ◌==◌,
}
use cakemaster.Base.Table.{Table, get, insert}
use cakemaster.Identity.{SegmentId, ClientId, uuid_eq, uuid_lt}
use cakemaster.Segment.Types.{SegmentStateError, not_found, owner_mismatch}
use cakemaster.Segment.Allocator.{OffsetAllocator}
use cakemaster.Segment.Entry.{SegmentEntry, is_accepting, quiesce_entry, reactivate_entry}

module _ (o : OffsetAllocator) where
  -- `Catalog` with its `CandidateIndexes`; `entries` and `next_entry` are the store of the `Arc`s.
  pub record Catalog : Type 0 where
    pub entries : Table ℕ (SegmentEntry o)
    pub next_entry : ℕ
    pub segments : Table SegmentId ℕ
    pub segments_by_owner : Table ClientId (List SegmentId)
    pub direct_generation : ℕ
    pub direct : List ℕ

  abbrev pub empty_catalog : Catalog
  empty_catalog = record {
    entries = [];
    next_entry = 0;
    segments = [];
    segments_by_owner = [];
    direct_generation = 0;
    direct = [];
  }

  -- The accepting ones among the mounted segments, each with its id.
  unfoldable pub accepting_entries :
      Table ℕ (SegmentEntry o) → Table SegmentId ℕ → List (SegmentId × ℕ)
  accepting_entries entries [] = []
  accepting_entries entries ((id, p) ∷ segments) =
      let rest = accepting_entries entries segments in
      elim (get p entries) [
        | none ↦ rest
        | some e ↦ if is_accepting e.state then (e.spec.identity.id, p) ∷ rest else rest
      ]

  -- `sort_unstable_by_key` on the ids.
  unfoldable pub insert_sorted : SegmentId × ℕ → List (SegmentId × ℕ) → List (SegmentId × ℕ)
  insert_sorted c [] = c ∷ []
  insert_sorted c (d ∷ ds) = if uuid_lt d.0 c.0 then d ∷ insert_sorted c ds else c ∷ d ∷ ds

  unfoldable pub sort_by_id : List (SegmentId × ℕ) → List (SegmentId × ℕ)
  sort_by_id [] = []
  sort_by_id (c ∷ cs) = insert_sorted c (sort_by_id cs)

  unfoldable pub pointers : List (SegmentId × ℕ) → List ℕ
  pointers [] = []
  pointers (c ∷ cs) = c.1 ∷ pointers cs

  -- The comparison by `Arc::ptr_eq`, with the lengths.
  unfoldable pub same_entries : List ℕ → List ℕ → Bool
  same_entries [] [] = true
  same_entries (p ∷ ps) (q ∷ qs) = eqb p q && same_entries ps qs
  same_entries _ _ = false

  unfoldable pub rebuild_indexes : Catalog → Catalog
  rebuild_indexes c =
      let direct = pointers (sort_by_id (accepting_entries c.entries c.segments)) in
      if same_entries direct c.direct
      then c
      else record c { direct = direct; direct_generation = wrapping_add c.direct_generation 1 }

  unfoldable pub owned_entry :
      Catalog → ClientId → SegmentId → Result SegmentStateError (ℕ × SegmentEntry o)
  owned_entry c owner id = elim (get id c.segments) [
    | none ↦ err (not_found id)
    | some p ↦ elim (get p c.entries) [
      | none ↦ err (not_found id)
      | some e ↦
          if e.spec.identity.owner == owner
          then ok (p, e)
          else err (owner_mismatch id e.spec.identity.owner owner)
    ]
  ]

  unfoldable pub put_entry : Catalog → ℕ → SegmentEntry o → Catalog
  put_entry c p e = record c { entries = insert p e c.entries }

  unfoldable pub quiesce_segment : Catalog → ClientId → SegmentId → Result SegmentStateError Catalog
  unfolding rebuild_indexes owned_entry put_entry
  quiesce_segment c owner id =
      owned_entry c owner id
      >>= (λ found. ok (rebuild_indexes (put_entry c found.0 (quiesce_entry o found.1))))

  unfoldable pub reactivate_segment :
      Catalog → ClientId → SegmentId → Result SegmentStateError Catalog
  unfolding rebuild_indexes owned_entry put_entry
  reactivate_segment c owner id =
      owned_entry c owner id
      >>= (λ found. ok (rebuild_indexes (put_entry c found.0 (reactivate_entry o found.1))))

  -- The entries of the whole batch, before any of them changes.
  unfoldable pub owned_entries :
      Catalog → ClientId → List SegmentId → Result SegmentStateError (List ℕ)
  owned_entries c owner [] = ok []
  owned_entries c owner (id ∷ ids) =
      owned_entry c owner id
      >>= (λ found. owned_entries c owner ids >>= (λ rest. ok (found.0 ∷ rest)))

  unfoldable pub reactivate_all : Table ℕ (SegmentEntry o) → List ℕ → Table ℕ (SegmentEntry o)
  reactivate_all entries [] = entries
  reactivate_all entries (p ∷ ps) = elim (get p entries) [
    | none ↦ reactivate_all entries ps
    | some e ↦ reactivate_all (insert p (reactivate_entry o e) entries) ps
  ]

  unfoldable pub reactivate_many :
      Catalog → ClientId → List SegmentId → Result SegmentStateError Catalog
  unfolding rebuild_indexes owned_entries reactivate_all
  reactivate_many c owner ids =
      owned_entries c owner ids
      >>= (λ ps. ok (rebuild_indexes (record c { entries = reactivate_all c.entries ps })))
