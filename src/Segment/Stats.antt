-- ===== src/Segment/Stats.antt =====
-- src/segment/stats.rs, with the functions that fill it in: `ByteAllocator::stats`, `SegmentEntry::stats`
-- and `Catalog::space_for`.
use cakemaster.Base.{ℕ, none, some, [], ◌∷◌, nat_eq, saturating_add, max}
use cakemaster.Base.Table.{Table, get}
use cakemaster.Identity.{SegmentId}
use cakemaster.Segment.Types.{SegmentState}
use cakemaster.Segment.Allocator.{OffsetAllocator, ByteAllocator, shift_left}
use cakemaster.Segment.Entry.{SegmentEntry}
use cakemaster.Segment.Catalog.Defs.{Catalog}

pub record SegmentSpaceStats : Type 0 where
  pub capacity_bytes : ℕ
  pub used_bytes : ℕ
  pub available_bytes : ℕ
  pub largest_free_region_bytes : ℕ

-- `SegmentStats`, with the one field of `SegmentUsageStats`.
pub record SegmentStats : Type 0 where
  pub space : SegmentSpaceStats
  pub active_allocations : ℕ
  pub state : SegmentState

pub record ReplicaClassSpaceStats : Type 0 where
  pub generation : ℕ
  pub class_space : SegmentSpaceStats

module _ (o : OffsetAllocator) where
  abbrev pub space_stats : ByteAllocator o → SegmentSpaceStats
  space_stats a = record {
    capacity_bytes = a.managed_capacity;
    used_bytes = a.used_bytes;
    available_bytes = shift_left (o.total_free_space a.inner) a.quantum_shift;
    largest_free_region_bytes = shift_left (o.largest_free_region a.inner) a.quantum_shift;
  }

  abbrev pub entry_stats : SegmentEntry o → SegmentStats
  entry_stats e = record {
    space = space_stats e.allocator;
    active_allocations = e.active_leases;
    state = e.state;
  }

  unfoldable pub add_space : SegmentSpaceStats → SegmentSpaceStats → SegmentSpaceStats
  add_space total x = record {
    capacity_bytes = saturating_add total.capacity_bytes x.capacity_bytes;
    used_bytes = saturating_add total.used_bytes x.used_bytes;
    available_bytes = saturating_add total.available_bytes x.available_bytes;
    largest_free_region_bytes = max total.largest_free_region_bytes x.largest_free_region_bytes;
  }

  -- The mounted segments, the quiesced ones too.
  unfoldable pub sum_space :
      Table ℕ (SegmentEntry o) → Table SegmentId ℕ → SegmentSpaceStats → SegmentSpaceStats
  unfolding add_space
  sum_space entries [] total = total
  sum_space entries ((id, p) ∷ segments) total = elim (get p entries) [
    | none ↦ sum_space entries segments total
    | some e ↦ sum_space entries segments (add_space total (space_stats e.allocator))
  ]

  unfoldable pub space_for : Catalog o → ReplicaClassSpaceStats
  unfolding sum_space
  space_for c = record {
    generation = c.direct_generation;
    class_space = sum_space c.entries c.segments (record {
      capacity_bytes = 0;
      used_bytes = 0;
      available_bytes = 0;
      largest_free_region_bytes = 0;
    });
  }
