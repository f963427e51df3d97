-- ===== src/Tenant/Charges.antt =====
-- The life of a charge gives back exactly what it took.
use cakemaster.Base.{
  eqb, ℕ, ◌+◌, ◌-◌, ◌≤◌, ◌%◌, ◌≡◌, refl, arith, u64_max, ok, wrapping_add, leb, ltb, Bool-cases,
  inl, inr,
}
use native.Mathlib.Nat.{mod-eq_of_lt}
use cakemaster.Tenant.Account.{
  QuotaAccount, reserved, reserve_demand, release_reserved, commit, abort, mark_retiring, release,
  resize, release_committed_partial,
}

add_sub : (a b : ℕ) → a + b ≤ u64_max → wrapping_add a b - b ≡ a
add_sub a b h =
    let same : (a + b) % 18446744073709551616 ≡ a + b = mod-eq_of_lt (omega (arith, h)) in
    omega (arith, same)

pub reserve_demand_lem :
    (a b : QuotaAccount) (bytes : ℕ)
    → reserve_demand a bytes ≡ ok b
    → (b ≡ record a { demand = a.demand + bytes }) × (a.demand + bytes ≤ a.effective)
unfolding reserve_demand
reserve_demand_lem a b bytes h = elim (Bool-cases (leb (a.demand + bytes) u64_max)) [
  | inr e ↦ absurd (ground (arith, e, h))
  | inl e ↦ elim (Bool-cases (ltb a.effective (a.demand + bytes))) [
    | inl f ↦ absurd (ground (arith, e, f, h))
    | inr f ↦ (ground (arith, e, f, h), ground (arith, f))
  ]
]

-- A resize that succeeds leaves the account as if the new size had been reserved.
resize_lem :
    (a b c : QuotaAccount) (bytes resized : ℕ)
    → b ≡ record a { demand = a.demand + bytes }
    → resize b bytes resized ≡ ok c
    → c ≡ record a { demand = a.demand + resized }
unfolding resize
resize_lem a b c bytes resized h done = elim (Bool-cases (eqb resized bytes)) [
  | inl q ↦ ground (arith, q, h, done)
  | inr q ↦ elim (Bool-cases (ltb resized bytes)) [
    | inl less ↦
        let d : a.demand + bytes - (bytes - resized) ≡ a.demand + resized = ground (arith, less) in
        ground (arith, q, less, h, done, d)
    | inr more ↦
        let grown : reserve_demand b (resized - bytes) ≡ ok c = ground (arith, q, more, done) in
        let d : a.demand + bytes + (resized - bytes) ≡ a.demand + resized = ground (arith, more) in
        ground (arith, (reserve_demand_lem b c (resized - bytes) grown).0, h, d)
  ]
]

-- A reservation that is granted keeps the demand within the effective quota, and each of these ways in
-- which it can end gives the account back as it was: given up as it was granted, or after a resize; its
-- charge aborted, and released once more; released before the commit; released after the commit in the
-- phase that the commit stored, the whole or after a part was released already; released in the phase
-- that the mark as retiring stored; as long as the bytes used and retiring stay within u64.
pub charge_gives_back :
    (a b c : QuotaAccount) (bytes resized part : ℕ)
    → reserve_demand a bytes ≡ ok b
    → resize b bytes resized ≡ ok c
    → part ≤ bytes
    → a.used + bytes ≤ u64_max
    → a.retiring + bytes ≤ u64_max
    → let charged = commit b bytes in
      let marked = mark_retiring charged.0 bytes in
      let aborted = abort b bytes in
      (b.demand ≤ b.effective)
      × (release_reserved b bytes ≡ a)
      × (release_reserved c resized ≡ a)
      × (aborted.0 ≡ a)
      × ((release aborted.1 aborted.0 bytes).0 ≡ a)
      × ((release reserved b bytes).0 ≡ a)
      × ((release charged.1 charged.0 bytes).0 ≡ a)
      × ((release charged.1 (release_committed_partial charged.0 part) (bytes - part)).0 ≡ a)
      × ((release marked.1 marked.0 bytes).0 ≡ a)
unfolding release_reserved abort release commit mark_retiring release_committed_partial
charge_gives_back a b c bytes resized part h size within used retired =
    let r = reserve_demand_lem a b bytes h in
    let z = resize_lem a b c bytes resized r.0 size in
    let d : a.demand + bytes - bytes ≡ a.demand = omega arith in
    let dz : a.demand + resized - resized ≡ a.demand = omega arith in
    let dp : a.demand + bytes - part - (bytes - part) ≡ a.demand = omega (arith, within) in
    let u = add_sub a.used bytes used in
    let up : wrapping_add a.used bytes - part - (bytes - part) ≡ a.used =
      omega (arith, within, u) in
    let t = add_sub a.retiring bytes retired in
    rw r.0 (
      r.1,
      rw d refl,
      rw (z, dz) refl,
      rw d refl,
      rw d refl,
      rw d refl,
      rw (d, u) refl,
      rw (dp, up) refl,
      rw (d, u, t) refl,
    )
