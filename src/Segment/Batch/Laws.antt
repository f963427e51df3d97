-- ===== src/Segment/Batch/Laws.antt =====
-- A batch and the single drops of its handles agree.
use cakemaster.Base.{
  ℕ, suc, ◌+◌, ◌-◌, ◌≤◌, ◌<◌, ◌⊎◌, not, ◌&&◌, Option, none, some, List, [], ◌∷◌, ◌≡◌, refl, sym, ap,
  ◌∙◌, subst, arith, inl, inr, ltb, eqb, wrapping_add, u64_max, Bool-cases, Option-cases,
}
use native.Mathlib.Nat.{mod-eq_of_lt}
use cakemaster.Base.Lists.{length, sum_by}
use cakemaster.Segment.Allocator.{
  OffsetAllocator, ByteAllocator, AllocationHandle, release_allocation, refresh_largest_free_region,
}
use cakemaster.Segment.Batch.{
  free_all, released_bytes, settle_release, release_many, release_each, Agree,
}

module _ (o : OffsetAllocator) where
  -- Where the sums stay within u64, they are sums.
  abbrev pub bytes_of : List (AllocationHandle o) → ℕ
  bytes_of = sum_by (λ (h : AllocationHandle o). h.reserved_bytes)

  released_bytes-bytes_of :
      (acc : ℕ) (hs : List (AllocationHandle o))
      → acc + bytes_of hs ≤ u64_max
      → released_bytes o acc hs ≡ acc + bytes_of hs
  unfolding released_bytes
  released_bytes-bytes_of acc [] h = omega arith
  released_bytes-bytes_of acc (x ∷ xs) h =
      let same : wrapping_add acc x.reserved_bytes ≡ acc + x.reserved_bytes =
        mod-eq_of_lt (omega (arith, h)) in
      let rest = released_bytes-bytes_of (acc + x.reserved_bytes) xs (omega (arith, h)) in
      ap (λ n. released_bytes o n xs) same ∙ rest ∙ omega arith

  record Left (a : ByteAllocator o) (inner : o.Allocator) (count bytes : ℕ) (b : ByteAllocator o)
      : Type 0 where
    allocator : b.inner ≡ inner
    used : b.used_bytes ≡ a.used_bytes - bytes
    live : b.live_allocations ≡ a.live_allocations - count
    shift : b.quantum_shift ≡ a.quantum_shift
    managed : b.managed_capacity ≡ a.managed_capacity

  -- The release panics exactly where it would take more than there is.
  abbrev Spec : ByteAllocator o → o.Allocator → ℕ → ℕ → Option (ByteAllocator o) → Type 0
  Spec a inner count bytes none = (a.live_allocations < count) ⊎ (a.used_bytes < bytes)
  Spec a inner count bytes (some b) =
      (count ≤ a.live_allocations) × (bytes ≤ a.used_bytes) × Left a inner count bytes b

  settle_release-Spec :
      (a : ByteAllocator o) (inner : o.Allocator) (count bytes : ℕ)
      → Spec a inner count bytes (settle_release o a inner count bytes)
  unfolding settle_release refresh_largest_free_region
  settle_release-Spec a inner count bytes = elim (Bool-cases (ltb a.live_allocations count)) [
    | inl q ↦ rw q (inl (ground (arith, q)))
    | inr q ↦ elim (Bool-cases (ltb a.used_bytes bytes)) [
      | inl z ↦ rw (q, z) (inr (ground (arith, z)))
      | inr z ↦
          elim (Bool-cases
            (not (eqb count 0) && ltb a.largest_free_region_hint a.managed_capacity)) [
              | inl w ↦
                  rw (q, z, w)
                    (
                      ground (arith, q),
                      ground (arith, z),
                      record {
                        allocator = refl;
                        used = refl;
                        live = refl;
                        shift = refl;
                        managed = refl;
                      },
                    )
              | inr w ↦
                  rw (q, z, w)
                    (
                      ground (arith, q),
                      ground (arith, z),
                      record {
                        allocator = refl;
                        used = refl;
                        live = refl;
                        shift = refl;
                        managed = refl;
                      },
                    )
            ]
    ]
  ]

  release_allocation-Spec :
      (a : ByteAllocator o) (h : AllocationHandle o)
      → Spec a (o.free h.allocation a.inner) 1 h.reserved_bytes (release_allocation o a h)
  unfolding settle_release release_allocation refresh_largest_free_region
  release_allocation-Spec a h =
      subst (Spec a (o.free h.allocation a.inner) 1 h.reserved_bytes) refl
        (settle_release-Spec a (o.free h.allocation a.inner) 1 h.reserved_bytes)

  Spec-next :
      (a b : ByteAllocator o) (h : AllocationHandle o) (inner : o.Allocator) (count bytes : ℕ)
      (x : Option (ByteAllocator o))
      → 1 ≤ a.live_allocations
      → h.reserved_bytes ≤ a.used_bytes
      → Left a (o.free h.allocation a.inner) 1 h.reserved_bytes b
      → Spec b inner count bytes x
      → Spec a inner (suc count) (h.reserved_bytes + bytes) x
  Spec-next a b h inner count bytes none one fits l (inl less) =
      inl (omega (arith, less, one, l.live))
  Spec-next a b h inner count bytes none one fits l (inr less) =
      inr (omega (arith, less, fits, l.used))
  Spec-next a b h inner count bytes (some c) one fits l (m, n, k) = (
    omega (arith, m, one, l.live),
    omega (arith, n, fits, l.used),
    record {
      allocator = k.allocator;
      used = omega (arith, k.used, l.used);
      live = omega (arith, k.live, l.live);
      shift = k.shift ∙ l.shift;
      managed = k.managed ∙ l.managed;
    },
  )

  release_each-Spec :
      (hs : List (AllocationHandle o)) (a : ByteAllocator o)
      → Spec a (free_all o hs a.inner) (length hs) (bytes_of hs) (release_each o a hs)
  unfolding free_all release_each
  release_each-Spec [] a = (
    omega arith,
    omega arith,
    record {
      allocator = refl;
      used = omega arith;
      live = omega arith;
      shift = refl;
      managed = refl;
    },
  )
  release_each-Spec (h ∷ hs) a =
      let first = release_allocation-Spec a h in
      let inner = free_all o hs (o.free h.allocation a.inner) in
      let bytes = h.reserved_bytes + bytes_of hs in
      elim (Option-cases (release_allocation o a h)) [
        | inl q ↦
            let panics : none ≡ release_each o a (h ∷ hs) = ground (arith, q) in
            subst (Spec a inner (suc (length hs)) bytes) panics
              (early (subst (Spec a (o.free h.allocation a.inner) 1 h.reserved_bytes) q first))
        | inr (b, q) ↦
            let goes : release_each o b hs ≡ release_each o a (h ∷ hs) = ground (arith, q) in
            let (one, fits, l) =
              subst (Spec a (o.free h.allocation a.inner) 1 h.reserved_bytes) q first in
            subst (Spec a inner (suc (length hs)) bytes) goes (
              Spec-next a b h inner (length hs) (bytes_of hs) (release_each o b hs) one fits l (
                subst
                  (λ i. Spec b (free_all o hs i) (length hs) (bytes_of hs) (release_each o b hs))
                  l.allocator (release_each-Spec hs b)))
      ]
    where
      early :
          (a.live_allocations < 1) ⊎ (a.used_bytes < h.reserved_bytes)
          → (a.live_allocations < suc (length hs)) ⊎ (a.used_bytes < h.reserved_bytes + bytes_of hs)
      early (inl less) = inl (omega arith)
      early (inr less) = inr (omega arith)

  Spec-Agree :
      (a : ByteAllocator o) (inner : o.Allocator) (count bytes : ℕ) (x y : Option (ByteAllocator o))
      → Spec a inner count bytes x
      → Spec a inner count bytes y
      → Agree o x y
  Spec-Agree a inner count bytes none none h k = tt
  Spec-Agree a inner count bytes none (some c) (inl less) k = absurd (omega (arith, less, k.0))
  Spec-Agree a inner count bytes none (some c) (inr less) k = absurd (omega (arith, less, k.1))
  Spec-Agree a inner count bytes (some b) none h (inl less) = absurd (omega (arith, less, h.0))
  Spec-Agree a inner count bytes (some b) none h (inr less) = absurd (omega (arith, less, h.1))
  Spec-Agree a inner count bytes (some b) (some c) (_, _, h) (_, _, k) = (
    h.allocator ∙ sym k.allocator,
    h.used ∙ sym k.used,
    h.live ∙ sym k.live,
    h.shift ∙ sym k.shift,
    h.managed ∙ sym k.managed,
  )

  -- Where the bytes to release add up within u64: the batch panics exactly where the drops of the
  -- handles one after the other do, and else leaves the same allocator and the same accounting.
  pub release_many-Agree :
      (a : ByteAllocator o) (handles : List (AllocationHandle o))
      → bytes_of handles ≤ u64_max
      → Agree o (release_many o a handles) (release_each o a handles)
  unfolding release_many
  release_many-Agree a handles h =
      let inner = free_all o handles a.inner in
      let count = length handles in
      Spec-Agree a inner count (bytes_of handles) (release_many o a handles)
        (release_each o a handles)
        (subst
          (λ n. Spec a inner count n (settle_release o a inner count (released_bytes o 0 handles)))
          (released_bytes-bytes_of 0 handles (omega (arith, h)) ∙ omega arith)
          (settle_release-Spec a inner count (released_bytes o 0 handles)))
        (release_each-Spec handles a)
