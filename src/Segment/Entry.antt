-- ===== src/Segment/Entry.antt =====
-- src/segment/pool/entry.rs and lifetime.rs: one mounted segment incarnation, under its state lock.
-- The flag `live` is the state that the leases of the incarnation share.
use cakemaster.Base.{
  ℕ, ◌+◌, ◌-◌, Bool, true, false, not, Option, none, some, if◌then◌else◌, eqb, checked_add, Result,
  ok, err,
}
use cakemaster.Segment.Types.{
  MemoryRegion, SegmentSpec, SegmentState, accepting, quiesced, removed, SegmentStateError,
  still_accepting, ReserveError, zero_bytes, out_of_space, not_accepting, overflowed_address,
}
use cakemaster.Segment.Allocator.{
  OffsetAllocator, ByteAllocator, AllocationHandle, may_satisfy, allocate_after_precheck,
  release_allocation,
}

-- `SegmentState::is_accepting`.
abbrev pub is_accepting : SegmentState → Bool
is_accepting accepting = true
is_accepting quiesced = false
is_accepting removed = false

module _ (o : OffsetAllocator) where
  pub record SegmentEntry : Type 0 where
    pub spec : SegmentSpec
    pub state : SegmentState
    pub allocator : ByteAllocator o
    pub live : Bool
    pub active_leases : ℕ

  -- The field `segment_lease` is the number of the incarnation, which stands beside a reservation where
  -- one is kept (Placement/Loop).
  pub record Reservation : Type 0 where
    pub handle : AllocationHandle o
    pub segment : SegmentSpec
    pub reserved_region : MemoryRegion

  unfoldable pub new_segment_entry : SegmentSpec → ByteAllocator o → SegmentEntry
  new_segment_entry spec allocator = record {
    spec = spec;
    state = accepting;
    allocator = allocator;
    live = true;
    active_leases = 0;
  }

  -- The allocation is kept when its address is below the end of u64. Otherwise the handle is dropped,
  -- which gives the range back to the allocator.
  unfoldable pub place :
      SegmentEntry
      → ℕ
      → ByteAllocator o × Option (AllocationHandle o)
      → Option (SegmentEntry × Result ReserveError Reservation)
  place e bytes (allocator, none) =
      some (record e { allocator = allocator }, err (out_of_space e.spec.identity.id))
  place e bytes (allocator, some handle) =
      elim (checked_add e.spec.region.base handle.handle_offset) [
        | none ↦ elim (release_allocation o allocator handle) [
          | none ↦ none
          | some freed ↦
              some (record e { allocator = freed }, err (overflowed_address e.spec.identity.id))
        ]
        | some address ↦
            (let reservation : Reservation = record {
              handle = handle;
              segment = e.spec;
              reserved_region = record { base = address; size = bytes };
            } in
              some (
                record e { allocator = allocator; active_leases = e.active_leases + 1 },
                ok reservation,
              ))
      ]

  -- `SegmentEntry::reserve`; none is a panic of the allocator's accounting.
  unfoldable pub reserve_entry :
      SegmentEntry → ℕ → Option (SegmentEntry × Result ReserveError Reservation)
  unfolding place
  reserve_entry e bytes =
      let id = e.spec.identity.id in
      if eqb bytes 0
      then some (e, err zero_bytes)
      else if not (may_satisfy o e.allocator bytes)
      then some (e, err (out_of_space id))
      else if not (is_accepting e.state)
      then some (e, err (not_accepting id))
      else place e bytes (allocate_after_precheck o e.allocator bytes)

  -- A reservation is dropped: the allocation goes back, and so does the lease.
  unfoldable pub drop_reservation : SegmentEntry → Reservation → Option SegmentEntry
  drop_reservation e reservation = elim (release_allocation o e.allocator reservation.handle) [
    | none ↦ none
    | some freed ↦ some (record e { allocator = freed; active_leases = e.active_leases - 1 })
  ]

  unfoldable pub quiesce_entry : SegmentEntry → SegmentEntry
  quiesce_entry e = if is_accepting e.state then record e { state = quiesced } else e

  unfoldable pub reactivated : SegmentState → SegmentState
  reactivated accepting = accepting
  reactivated quiesced = accepting
  reactivated removed = removed

  unfoldable pub reactivate_entry : SegmentEntry → SegmentEntry
  unfolding reactivated
  reactivate_entry e = record e { state = reactivated e.state }

  unfoldable pub prepare_remove : SegmentEntry → Result SegmentStateError SegmentEntry
  prepare_remove e = elim e.state [
    | accepting ↦ err (still_accepting e.spec.identity.id)
    | quiesced ↦ ok (record e { live = false; state = removed })
    | removed ↦ ok e
  ]

  unfoldable pub invalidate_entry : SegmentEntry → SegmentEntry
  invalidate_entry e = record e { live = false; state = removed }
