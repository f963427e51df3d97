-- ===== src/Segment/Examples.antt =====
-- Runs of a small pool, over an allocator that hands out its units one after another.
use cakemaster.Base.Table.{get}
use cakemaster.Segment.Types.{quiesced, SegmentStateError}
use cakemaster.Segment.Transport.{parse_protocol, parse_protocol-as_str}
use cakemaster.Segment.Allocator.{new_allocator, quantum_shift_of, units_of, u32_max}
use cakemaster.Segment.Entry.{SegmentEntry, Reservation, new_segment_entry, reserve_entry}
use cakemaster.Segment.Catalog.Defs.{Catalog}
use cakemaster.Segment.Catalog.Remove.{remove_segment}
use cakemaster.Segment.Invariant.Defs.{IsDead}
use cakemaster.Segment.Fencing.{remove_segment_fences}
use cakemaster.Segment.Quantum.{quantum_shift_of_lem}
use cakemaster.Identity.{uuid_eq}
use cakemaster.Base.{ok, err, Result, Bool, false, nat_eq, ◌≢◌, ◌⊎◌, ◌≤◌, ◌<◌, ◌*◌, ◌/◌, ◌^◌, arith}
use cakemaster.Base.{
  ℕ, ◌+◌, ◌-◌, Option, none, some, List, [], ◌∷◌, if◌then◌else◌, leb, ltb, ◌≡◌, refl, is_some, true,
}
use cakemaster.Identity.{Uuid}
use cakemaster.Segment.Types.{SegmentSpec, tcp}
use cakemaster.Segment.Allocator.{OffsetAllocator, ByteAllocator, AllocationHandle}
use cakemaster.Segment.Batch.{release_many, release_each, Agree}
use cakemaster.Segment.Batch.Laws.{release_many-Agree}
use cakemaster.Segment.Pool.Defs.{SegmentPool, new_pool}
use cakemaster.Segment.Pool.History.{
  PoolCommand, attaching, attaching_quiesced, quiescing, reactivating, removing, invalidating,
  reserving_on, pool_run,
}
use cakemaster.Segment.Pool.Reachable.{PoolInv, pool_run-PoolInv, empty-PoolInv}

-- The next free unit and the number of units; what is freed is not handed out again.
abbrev pub bump : OffsetAllocator
bump = record {
  Allocator = ℕ × ℕ;
  Allocation = ℕ × ℕ;
  offset = λ a. a.0;
  with_max_allocs = λ units nodes. (0, units);
  allocate = λ n s. if leb (s.0 + n) s.1 then ((s.0 + n, s.1), some (s.0, n)) else (s, none);
  allocation_size = λ a s. a.1;
  free = λ a s. s;
  total_free_space = λ s. s.1 - s.0;
  largest_free_region = λ s. s.1 - s.0;
}

abbrev pub uuid : ℕ → Uuid
uuid n = record { high = 0; low = n }

abbrev pub spec_at : ℕ → ℕ → ℕ → SegmentSpec
spec_at id owner base = record {
  identity = record { id = uuid id; owner = uuid owner; name = "segment"; host_id = "host" };
  region = record { base = base; size = 4096 };
  transport = record { protocol = tcp; endpoint = "10.0.0.1:7000" };
}

abbrev history : List (PoolCommand bump)
history =
    attaching (spec_at 1 7 4096)
    ∷ attaching (spec_at 2 7 8192)
    ∷ attaching_quiesced (spec_at 3 8 4096)
    ∷ reserving_on (uuid 1) 100
    ∷ quiescing (uuid 7) (uuid 1)
    ∷ removing (uuid 7) (uuid 1)
    ∷ reactivating (uuid 8) (uuid 3)
    ∷ invalidating (uuid 7 ∷ [])
    ∷ []

abbrev pub start : SegmentPool bump
start = record {
  pool_id = 1;
  max_allocator_nodes = 1024;
  catalog = record {
    entries = [];
    next_entry = 0;
    segments = [];
    segments_by_owner = [];
    direct_generation = 0;
    direct = [];
  };
  direct_capacity_epoch = 0;
  invalidation_epoch = 0;
}

start-new_pool : new_pool bump 1 1024 ≡ some start
unfolding new_pool
start-new_pool = refl

abbrev pub or_start : Option (SegmentPool bump) → SegmentPool bump
or_start (some t) = t
or_start none = start

-- The pool after the history.
abbrev final : SegmentPool bump
final = or_start (pool_run bump start history)

some-or_start : (r : Option (SegmentPool bump)) → is_some r ≡ true → r ≡ some (or_start r)
some-or_start (some t) h = refl
some-or_start none h = absurd cc

-- The catalog in which segment 1 of owner 7 is quiesced, and its entry.
abbrev quiesced_pool : SegmentPool bump
quiesced_pool =
    or_start (pool_run bump start (attaching (spec_at 1 7 4096) ∷ quiescing (uuid 7) (uuid 1) ∷ []))

abbrev after_removal : Catalog bump
after_removal = elim (remove_segment bump quiesced_pool.catalog (uuid 7) (uuid 1)) [
  | ok c ↦ c
  | err _ ↦ start.catalog
]

abbrev is_ok : Result SegmentStateError (Catalog bump) → Bool
is_ok (ok c) = true
is_ok (err e) = false

ok_or_start :
    (r : Result SegmentStateError (Catalog bump))
    → is_ok r ≡ true
    → r ≡ ok (elim r [ ok c ↦ c | err _ ↦ start.catalog ])
ok_or_start (ok c) h = refl
ok_or_start (err e) h = absurd cc

abbrev the_entry : SegmentEntry bump
the_entry = elim (get 0 quiesced_pool.catalog.entries) [
  | some e ↦ e
  | none ↦ new_segment_entry bump (spec_at 1 7 4096) (new_allocator bump 4096 1024)
]

-- What the runs compute.
computed :
    (is_some (pool_run bump start history) ≡ true)
    × (is_some
          (pool_run bump start (attaching (spec_at 1 7 4096) ∷ quiescing (uuid 7) (uuid 1) ∷ []))
        ≡ true)
    × (is_ok (remove_segment bump quiesced_pool.catalog (uuid 7) (uuid 1)) ≡ true)
    × (get 0 quiesced_pool.catalog.entries ≡ some the_entry)
    × (get (uuid 1) quiesced_pool.catalog.segments ≡ some 0)
unfolding cakemaster.Base.Table.get cakemaster.Base.Table.insert cakemaster.Base.Table.remove
    cakemaster.Segment.Transport.parse_protocol cakemaster.Segment.Allocator.find_shift
    cakemaster.Segment.Allocator.new_allocator cakemaster.Segment.Allocator.may_satisfy
    cakemaster.Segment.Allocator.allocate_after_precheck cakemaster.Segment.Entry.new_segment_entry
    cakemaster.Segment.Entry.reserve_entry cakemaster.Segment.Entry.quiesce_entry
    cakemaster.Segment.Entry.reactivate_entry cakemaster.Segment.Catalog.Defs.accepting_entries
    cakemaster.Segment.Catalog.Defs.insert_sorted cakemaster.Segment.Catalog.Defs.sort_by_id
    cakemaster.Segment.Catalog.Defs.pointers cakemaster.Segment.Catalog.Defs.same_entries
    cakemaster.Segment.Catalog.Defs.quiesce_segment
    cakemaster.Segment.Catalog.Defs.reactivate_segment cakemaster.Segment.Catalog.Attach.set_insert
    cakemaster.Segment.Catalog.Attach.index_owner cakemaster.Segment.Catalog.Attach.attach_segment
    cakemaster.Segment.Catalog.Remove.set_remove cakemaster.Segment.Catalog.Remove.remove_segment
    cakemaster.Segment.Catalog.Remove.invalidate_owners cakemaster.Segment.Pool.Defs.validate_spec
    cakemaster.Segment.Pool.Defs.attach cakemaster.Segment.Pool.Defs.attach_quiesced
    cakemaster.Segment.Pool.Defs.quiesce cakemaster.Segment.Pool.Defs.reactivate
    cakemaster.Segment.Pool.Defs.remove cakemaster.Segment.Pool.Defs.invalidate_pool_owners
    cakemaster.Segment.Pool.Defs.reserve_on cakemaster.Segment.Pool.History.pool_run
computed = (refl, refl, refl, refl, refl)

pool_run-PoolInv_example : PoolInv bump final
pool_run-PoolInv_example =
    pool_run-PoolInv bump history start final (empty-PoolInv bump 1 1024 start start-new_pool)
      (some-or_start (pool_run bump start history) computed.0)

quiesced-PoolInv : PoolInv bump quiesced_pool
quiesced-PoolInv =
    pool_run-PoolInv bump (attaching (spec_at 1 7 4096) ∷ quiescing (uuid 7) (uuid 1) ∷ []) start
      quiesced_pool (empty-PoolInv bump 1 1024 start start-new_pool) (some-or_start _ computed.1)

remove_segment_fences_example :
    (get (uuid 1) after_removal.segments ≡ none)
    × (the_entry.spec.identity.owner ≡ uuid 7)
    × (the_entry.state ≡ quiesced)
    × ((f : SegmentEntry bump) × (get 0 after_removal.entries ≡ some f)
        × IsDead bump f
        × (f.spec ≡ the_entry.spec))
remove_segment_fences_example =
    remove_segment_fences bump quiesced_pool.catalog after_removal (uuid 7) (uuid 1) 0 the_entry
      quiesced-PoolInv computed.4 computed.3 (ok_or_start _ computed.2)

quantum_shift_of_lem_example :
    (17179869184 / 2 ^ quantum_shift_of 17179869184 ≤ u32_max)
    × ((quantum_shift_of 17179869184 ≡ 0)
        ⊎ (u32_max < 17179869184 / 2 ^ (quantum_shift_of 17179869184 - 1)))
quantum_shift_of_lem_example = quantum_shift_of_lem 17179869184 (omega arith)

-- Two allocations of an allocator, which are given back together.
abbrev handle_of : ℕ → ℕ → AllocationHandle bump
handle_of at bytes = record {
  allocation = (at, bytes);
  handle_offset = at;
  requested_bytes = bytes;
  reserved_bytes = bytes;
}

abbrev busy_allocator : ByteAllocator bump
busy_allocator = record (new_allocator bump 4096 1024) { used_bytes = 300; live_allocations = 2 }

release_many-Agree_example :
    Agree bump
      (release_many bump busy_allocator (handle_of 0 100 ∷ handle_of 100 200 ∷ []))
      (release_each bump busy_allocator (handle_of 0 100 ∷ handle_of 100 200 ∷ []))
release_many-Agree_example =
    release_many-Agree bump busy_allocator (handle_of 0 100 ∷ handle_of 100 200 ∷ []) (omega arith)
