-- ===== src/Segment/Invariant/Defs.antt =====
-- The invariant of the catalog, over the store of entries and the table of mounted segments.
use cakemaster.Base.{ℕ, ◌+◌, ◌≤◌, ◌<◌, true, false, some, ◌≡◌, ◌≢◌, ◌⊎◌, nat_eq, u64_max}
use cakemaster.Base.Table.{Table, get}
use cakemaster.Identity.{SegmentId, uuid_eq}
use cakemaster.Segment.Types.{SegmentSpec, removed}
use cakemaster.Segment.Allocator.{OffsetAllocator}
use cakemaster.Segment.Entry.{SegmentEntry}
use cakemaster.Segment.Catalog.Defs.{Catalog}

-- Two specifications of one owner and one transport have no address in common.
abbrev pub Separate : SegmentSpec → SegmentSpec → Type 0
Separate a b =
    a.identity.owner ≡ b.identity.owner
    → a.transport ≡ b.transport
    → (a.region.base + a.region.size ≤ b.region.base)
      ⊎ (b.region.base + b.region.size ≤ a.region.base)

abbrev pub HasEnd : SegmentSpec → Type 0
HasEnd a = a.region.base + a.region.size ≤ u64_max

module _ (o : OffsetAllocator) where
  abbrev pub IsLive : SegmentEntry o → Type 0
  IsLive e = (e.live ≡ true) × (e.state ≢ removed)

  -- A detached incarnation: its leases are void, and it never accepts again.
  abbrev pub IsDead : SegmentEntry o → Type 0
  IsDead e = (e.live ≡ false) × (e.state ≡ removed)

  abbrev pub IsMounted : Table ℕ (SegmentEntry o) → SegmentId → ℕ → Type 0
  IsMounted m id p =
      (e : SegmentEntry o) × (get p m ≡ some e)
      × (e.spec.identity.id ≡ id)
      × IsLive e
      × HasEnd e.spec

  pub record Inv (m : Table ℕ (SegmentEntry o)) (s : Table SegmentId ℕ) (n : ℕ) : Type 0 where
    pub mounted : (id : SegmentId) (p : ℕ) → get id s ≡ some p → IsMounted m id p
    pub fresh : (p : ℕ) (e : SegmentEntry o) → get p m ≡ some e → p < n
    pub detached :
        (p : ℕ) (e : SegmentEntry o)
        → get p m ≡ some e
        → (get e.spec.identity.id s ≡ some p) ⊎ IsDead e
    pub separate :
        (p q : ℕ) (e f : SegmentEntry o)
        → get e.spec.identity.id s ≡ some p
        → get p m ≡ some e
        → get f.spec.identity.id s ≡ some q
        → get q m ≡ some f
        → p ≢ q
        → Separate e.spec f.spec

  abbrev pub CatalogInv : Catalog o → Type 0
  CatalogInv c = Inv c.entries c.segments c.next_entry

  -- A change of an entry that keeps its specification, and keeps it live or dead.
  pub record Kept (e e' : SegmentEntry o) : Type 0 where
    pub same_spec : e'.spec ≡ e.spec
    pub still_live : IsLive e → IsLive e'
    pub still_dead : IsDead e → IsDead e'
