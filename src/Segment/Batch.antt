-- ===== src/Segment/Batch.antt =====
-- src/segment/offset_allocator.rs: the release of many allocations of one allocator under one lock, and
-- what it has in common with the release of one after the other.
pub mod Laws
use cakemaster.Base.{
  ℕ, zero, suc, ◌+◌, ◌-◌, ◌≤◌, ◌<◌, ◌⊎◌, Bool, true, false, not, ◌&&◌, Option, none, some, List, [],
  ◌∷◌, ◌≡◌, refl, sym, ap, ◌∙◌, subst, arith, inl, inr, if◌then◌else◌, ltb, eqb, wrapping_add,
  u64_max, Bool-cases, Option-cases,
}
use native.Mathlib.Nat.{mod-eq_of_lt}
use cakemaster.Base.Lists.{length, sum_by}
use cakemaster.Segment.Allocator.{
  OffsetAllocator, ByteAllocator, AllocationHandle, release_allocation, refresh_largest_free_region,
}

module _ (o : OffsetAllocator) where
  -- `state.inner.free` for each of them.
  unfoldable pub free_all : List (AllocationHandle o) → o.Allocator → o.Allocator
  free_all [] inner = inner
  free_all (h ∷ hs) inner = free_all hs (o.free h.allocation inner)

  -- `released_bytes`, from `acc`.
  unfoldable pub released_bytes : ℕ → List (AllocationHandle o) → ℕ
  released_bytes acc [] = acc
  released_bytes acc (h ∷ hs) = released_bytes (wrapping_add acc h.reserved_bytes) hs

  -- What is left when `count` allocations with `bytes` are gone; none is a panic.
  unfoldable pub settle_release : ByteAllocator o → o.Allocator → ℕ → ℕ → Option (ByteAllocator o)
  unfolding refresh_largest_free_region
  settle_release a inner count bytes =
      let freed : ByteAllocator o = record a {
        inner = inner;
        used_bytes = a.used_bytes - bytes;
        live_allocations = a.live_allocations - count;
      } in
      if ltb a.live_allocations count
      then none
      else if ltb a.used_bytes bytes
      then none
      else if not (eqb count 0) && ltb a.largest_free_region_hint a.managed_capacity
      then some (refresh_largest_free_region o freed)
      else some freed

  -- `SharedAllocator::release_many`.
  unfoldable pub release_many :
      ByteAllocator o → List (AllocationHandle o) → Option (ByteAllocator o)
  unfolding free_all released_bytes settle_release
  release_many a handles =
      settle_release a (free_all handles a.inner) (length handles) (released_bytes 0 handles)

  -- The drops of the handles, one after the other.
  unfoldable pub release_each :
      ByteAllocator o → List (AllocationHandle o) → Option (ByteAllocator o)
  release_each a [] = some a
  release_each a (h ∷ hs) = elim (release_allocation o a h) [
    | none ↦ none
    | some b ↦ release_each b hs
  ]

  -- Both panic, or both end with the same allocator and the same accounting; the hint may differ, as
  -- the batch refreshes it once.
  abbrev pub Agree : Option (ByteAllocator o) → Option (ByteAllocator o) → Type 0
  Agree none none = Unit
  Agree (some a) (some b) =
      (a.inner ≡ b.inner)
      × (a.used_bytes ≡ b.used_bytes)
      × (a.live_allocations ≡ b.live_allocations)
      × (a.quantum_shift ≡ b.quantum_shift)
      × (a.managed_capacity ≡ b.managed_capacity)
  Agree none (some b) = ⊥
  Agree (some a) none = ⊥
