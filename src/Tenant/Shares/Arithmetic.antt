-- ===== src/Tenant/Shares/Arithmetic.antt =====
-- One share: rounding down loses less than a byte and stays below the request.
use native.Mathlib.Nat.{div-add-mod, mod-lt, mod-eq_of_lt}
use cakemaster.Base.{
  Bool-cases, false, ℕ, zero, suc, ◌+◌, ◌*◌, ◌/◌, ◌%◌, ◌≤◌, ◌<◌, ◌≡◌, arith, ltb, if◌then◌else◌,
  u64_max, inl, inr,
}
use cakemaster.Tenant.Shares.Defs.{share}

pub le_of_mul : (t a b : ℕ) → 0 < t → t * a ≤ t * b → a ≤ b
le_of_mul t a b pos h = grind arith

pub lt_of_mul : (t a b : ℕ) → t * a < t * b → a < b
lt_of_mul t a b h = grind arith

mul-le : (a b c d : ℕ) → a ≤ c → b ≤ d → a * b ≤ c * d
mul-le zero b c d h k = omega arith
mul-le (suc a) b zero d h k = omega (arith, h)
mul-le (suc a) b (suc c) d h k = grind (arith, mul-le a b c d (omega (arith, h)) k)

product_le : (r c t q : ℕ) → c ≤ t → r ≤ q → r * c ≤ t * (q + 0)
product_le r c t q h k = grind (arith, mul-le r c q t k h)

module _ (c t r : ℕ) (scarce : c < t) (part : r ≤ t) where
  quotient-le : r * c / t ≤ c
  quotient-le = le_of_mul t (r * c / t) c (omega arith) (grind (arith, div-add-mod (r * c) t))

  pub share-eq : c ≤ u64_max → share c t r ≡ r * c / t
  share-eq h = mod-eq_of_lt (omega (arith, quotient-le))

  pub share-lt : 0 < r → r * c / t < r
  share-lt pos = lt_of_mul t (r * c / t) r (grind (arith, div-add-mod (r * c) t))

  product_mod : t * (r * c / t) + r * c % t ≡ r * c
  product_mod = grind (arith, div-add-mod (r * c) t)

  rest-lt : r * c % t < t
  rest-lt = mod-lt (r * c) (omega arith)

  request-le : ltb (r * c / t) r ≡ false → r ≤ r * c / t
  request-le e = ground arith

  at_request : r ≤ r * c / t → r * c ≤ t * (r * c / t + 0)
  at_request h = product_le r c t (r * c / t) (omega arith) h

  -- The share times the total is at most the exact product, and one more byte makes up for the rest.
  pub share_bounds :
      (t * (r * c / t) ≤ r * c) × (r * c ≤ t * (r * c / t + (if ltb (r * c / t) r then 1 else 0)))
  share_bounds = elim (Bool-cases (ltb (r * c / t) r)) [
    | inl e ↦ rw e (grind (arith, product_mod), grind (arith, product_mod, rest-lt))
    | inr e ↦ rw e (grind (arith, product_mod), at_request (request-le e))
  ]

  pub share-le : r * c / t ≤ r
  share-le =
      le_of_mul t (r * c / t) r (omega arith)
        (grind (arith, product_mod, product_le r c t r (omega arith) (omega arith)))
