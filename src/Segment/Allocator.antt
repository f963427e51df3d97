-- ===== src/Segment/Allocator.antt =====
-- src/segment/offset_allocator.rs: the byte allocator around the crate `offset-allocator`, whose
-- operations are the fields of `OffsetAllocator`.
use cakemaster.Base.{
  ℕ, zero, suc, ◌+◌, ◌-◌, ◌*◌, ◌/◌, ◌%◌, ◌^◌, Bool, ◌&&◌, not, Option, none, some, if◌then◌else◌,
  ltb, leb, eqb, wrapping_add,
}

pub record OffsetAllocator : Type 1 where
  pub Allocator : Type 0
  pub Allocation : Type 0
  pub offset : Allocation → ℕ
  pub with_max_allocs : ℕ → ℕ → Allocator
  pub allocate : ℕ → Allocator → Allocator × Option Allocation
  pub allocation_size : Allocation → Allocator → ℕ
  pub free : Allocation → Allocator → Allocator
  pub total_free_space : Allocator → ℕ
  pub largest_free_region : Allocator → ℕ

abbrev pub u32_max : ℕ
u32_max = 4294967295

-- `<<` on u64, which drops the bits above the word.
abbrev pub shift_left : ℕ → ℕ → ℕ
shift_left n shift = n * 2 ^ shift % 18446744073709551616

-- The loop that looks for the quantum, on fuel.
unfoldable pub find_shift : ℕ → ℕ → ℕ → ℕ
find_shift zero capacity shift = shift
find_shift (suc fuel) capacity shift =
    let next = find_shift fuel capacity (suc shift) in
    if ltb u32_max (capacity / 2 ^ shift) then next else shift

abbrev pub quantum_shift_of : ℕ → ℕ
quantum_shift_of capacity = find_shift 32 capacity 0

-- `allocation_units`, rounded up to whole quanta.
abbrev pub units_of : ℕ → ℕ → ℕ
units_of requested quantum = requested / quantum + (if eqb (requested % quantum) 0 then 0 else 1)

module _ (o : OffsetAllocator) where
  pub record ByteAllocator : Type 0 where
    pub inner : o.Allocator
    pub used_bytes : ℕ
    pub live_allocations : ℕ
    pub quantum_shift : ℕ
    pub managed_capacity : ℕ
    pub largest_free_region_hint : ℕ

  pub record AllocationHandle : Type 0 where
    pub allocation : o.Allocation
    pub handle_offset : ℕ
    pub requested_bytes : ℕ
    pub reserved_bytes : ℕ

  unfoldable pub new_allocator : ℕ → ℕ → ByteAllocator
  new_allocator capacity max_allocator_nodes =
      let shift = quantum_shift_of capacity in
      let capacity_units = capacity / 2 ^ shift % 4294967296 in
      let inner = o.with_max_allocs capacity_units max_allocator_nodes in
      record {
        inner = inner;
        used_bytes = 0;
        live_allocations = 0;
        quantum_shift = shift;
        managed_capacity = shift_left capacity_units shift;
        largest_free_region_hint = shift_left (o.largest_free_region inner) shift;
      }

  unfoldable pub may_satisfy : ByteAllocator → ℕ → Bool
  may_satisfy a requested =
      not (eqb requested 0)
      && leb requested a.managed_capacity
      && leb requested a.largest_free_region_hint

  unfoldable pub refresh_largest_free_region : ByteAllocator → ByteAllocator
  refresh_largest_free_region a = record a {
    largest_free_region_hint = shift_left (o.largest_free_region a.inner) a.quantum_shift;
  }

  -- What the crate answered: the state it left and the allocation.
  unfoldable pub take_allocation :
      ByteAllocator
      → ℕ
      → o.Allocator × Option o.Allocation
      → ByteAllocator × Option AllocationHandle
  unfolding refresh_largest_free_region
  take_allocation a requested (inner, none) =
      (refresh_largest_free_region (record a { inner = inner }), none)
  take_allocation a requested (inner, some allocation) =
      let reserved = shift_left (o.allocation_size allocation inner) a.quantum_shift in
      let handle : AllocationHandle = record {
        allocation = allocation;
        handle_offset = shift_left (o.offset allocation) a.quantum_shift;
        requested_bytes = requested;
        reserved_bytes = reserved;
      } in
      (
        record a {
          inner = inner;
          used_bytes = wrapping_add a.used_bytes reserved;
          live_allocations = wrapping_add a.live_allocations 1;
        },
        some handle,
      )

  unfoldable pub allocate_after_precheck :
      ByteAllocator → ℕ → ByteAllocator × Option AllocationHandle
  unfolding take_allocation
  allocate_after_precheck a requested =
      let units = units_of requested (2 ^ a.quantum_shift) in
      if leb units u32_max
      then take_allocation a requested (o.allocate units a.inner)
      else (a, none)

  -- `SharedAllocator::release`; none is the panic of unbalanced counters.
  unfoldable pub release_allocation : ByteAllocator → AllocationHandle → Option ByteAllocator
  unfolding refresh_largest_free_region
  release_allocation a handle =
      let freed : ByteAllocator = record a {
        inner = o.free handle.allocation a.inner;
        used_bytes = a.used_bytes - handle.reserved_bytes;
        live_allocations = a.live_allocations - 1;
      } in
      if ltb a.live_allocations 1
      then none
      else if ltb a.used_bytes handle.reserved_bytes
      then none
      else if ltb a.largest_free_region_hint a.managed_capacity
      then some (refresh_largest_free_region freed)
      else some freed
