-- ===== src/Segment/Quantum.antt =====
-- src/segment/offset_allocator.rs: the quantum fits the capacity into 32 bits, and a request is rounded
-- up by less than one quantum.
use native.Mathlib.Nat.{div-add-mod, mod-lt}
use cakemaster.Base.{
  subst, eqb_iff, ltb→lt, ℕ, zero, suc, ◌+◌, ◌-◌, ◌*◌, ◌/◌, ◌%◌, ◌^◌, ◌≤◌, ◌<◌, ◌≡◌, ◌⊎◌, inl, inr,
  refl, arith, ltb, eqb, Bool-cases, IsU64,
}
use cakemaster.Segment.Allocator.{u32_max, find_shift, quantum_shift_of, units_of}

find_shift_fits :
    (fuel capacity shift : ℕ)
    → capacity / 2 ^ (shift + fuel) ≤ u32_max
    → capacity / 2 ^ find_shift fuel capacity shift ≤ u32_max
unfolding find_shift
find_shift_fits zero capacity shift h = subst (λ n. capacity / 2 ^ n ≤ u32_max) (omega arith) h
find_shift_fits (suc fuel) capacity shift h =
    elim (Bool-cases (ltb u32_max (capacity / 2 ^ shift))) [
      | inl e ↦ rw e (
          find_shift_fits fuel capacity (suc shift)
            (subst (λ n. capacity / 2 ^ n ≤ u32_max) (omega arith) h))
      | inr e ↦ rw e (ground (arith, e))
    ]

pred : (n : ℕ) → n ≡ suc n - 1
pred n = omega arith

find_shift_least :
    (fuel capacity shift : ℕ)
    → (find_shift fuel capacity shift ≡ shift)
      ⊎ (u32_max < capacity / 2 ^ (find_shift fuel capacity shift - 1))
unfolding find_shift
find_shift_least zero capacity shift = inl refl
find_shift_least (suc fuel) capacity shift =
    elim (Bool-cases (ltb u32_max (capacity / 2 ^ shift))) [
      | inl e ↦ rw e (elim (find_shift_least fuel capacity (suc shift)) [
        | inl same ↦ rw same (
            inr (
              subst (λ n. u32_max < capacity / 2 ^ n) (pred shift)
                (ltb→lt u32_max (capacity / 2 ^ shift) e)))
        | inr more ↦ inr more
      ])
      | inr e ↦ rw e (inl refl)
    ]

top : (capacity : ℕ) → IsU64 capacity → capacity / 4294967296 ≤ u32_max
top capacity word = omega arith

-- For every u64 capacity the loop of at most 32 rounds ends at a shift with which the capacity takes
-- at most 2^32 - 1 units, and no smaller shift does: the shift is 0, or the one below it is too small.
pub quantum_shift_of_lem :
    (capacity : ℕ)
    → IsU64 capacity
    → (capacity / 2 ^ quantum_shift_of capacity ≤ u32_max)
      × ((quantum_shift_of capacity ≡ 0)
          ⊎ (u32_max < capacity / 2 ^ (quantum_shift_of capacity - 1)))
quantum_shift_of_lem capacity word =
    (find_shift_fits 32 capacity 0 (top capacity word), find_shift_least 32 capacity 0)

-- The units of a request cover it, with less than one quantum to spare.
pub units_of_lem :
    (requested quantum : ℕ)
    → 0 < quantum
    → (requested ≤ units_of requested quantum * quantum)
      × (units_of requested quantum * quantum < requested + quantum)
units_of_lem requested quantum pos =
    let parts = div-add-mod requested quantum in
    let rest = mod-lt requested pos in
    elim (Bool-cases (eqb (requested % quantum) 0)) [
      | inl e ↦
          (let none_left : requested % quantum ≡ 0 = (eqb_iff (requested % quantum) 0).0 e in
            rw e (grind (arith, parts, none_left), grind (arith, parts, none_left)))
      | inr e ↦
          (let some_left : 0 < requested % quantum = ground (arith, e) in
            rw e (grind (arith, parts, rest), grind (arith, parts, some_left)))
    ]
