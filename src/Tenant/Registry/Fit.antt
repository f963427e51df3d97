-- ===== src/Tenant/Registry/Fit.antt =====
-- What holds between the words, the demand and the reservations of a tenant.
use cakemaster.Base.{
  ℕ, zero, suc, ◌+◌, ◌≤◌, some, List, [], ◌∷◌, ◌⊎◌, ◌≡◌, ap, subst, inl, inr, arith, Option-cases,
}
use cakemaster.Base.Lists.{All, sum_by}
use cakemaster.Tenant.Registry.Words.{registered_state, closing_state, removed_state, tenant_state}
use cakemaster.Tenant.Registry.Admission.{
  Administration, idle, deleting, activating, Admission, take_at,
}

abbrev pub sum : List ℕ → ℕ
sum = sum_by (λ n. n)

abbrev pub in_check : List (ℕ × ℕ) → ℕ
in_check = sum_by (λ x. x.0)

-- The words fit what the administration does; no byte is granted of a tenant that is removed, or that
-- is being registered again.
abbrev pub WordsFit : Administration → ℕ → ℕ → Type 0
WordsFit idle version granted =
    (tenant_state version ≡ registered_state)
    ⊎ ((tenant_state version ≡ removed_state) × (granted ≡ 0))
WordsFit (deleting v) version granted =
    (tenant_state version ≡ closing_state) × (tenant_state v ≡ registered_state)
WordsFit (activating v) version granted =
    (tenant_state version ≡ closing_state) × (tenant_state v ≡ registered_state) × (granted ≡ 0)

pub record AdmissionInv (a : Admission) : Type 0 where
  pub balance : a.memory.demand ≡ in_check a.checking + sum a.granted
  pub handles : All (λ x. tenant_state x.1 ≡ registered_state) a.checking
  pub words : WordsFit a.administration a.version (sum a.granted)

pub take_at-sum :
    {A : Type 0} (f : A → ℕ) (n : ℕ) (xs : List A) (x : A) (rest : List A)
    → take_at n xs ≡ some (x, rest)
    → sum_by f xs ≡ f x + sum_by f rest
unfolding take_at
take_at-sum f n [] x rest h = absurd cc
take_at-sum f zero (y ∷ ys) x rest h =
    let first : y ≡ x = ground (arith, h) in
    let others : ys ≡ rest = ground (arith, h) in omega (arith, ap f first, ap (sum_by f) others)
take_at-sum f (suc n) (y ∷ ys) x rest h = elim (Option-cases (take_at n ys)) [
  | inl q ↦ absurd (ground (arith, q, h))
  | inr ((z, zs), q) ↦
      let first : z ≡ x = ground (arith, q, h) in
      let others : y ∷ zs ≡ rest = ground (arith, q, h) in
      omega (arith, take_at-sum f n ys z zs q, ap f first, ap (sum_by f) others)
]

pub take_at-All :
    {A : Type 0} (P : A → Type 0) (n : ℕ) (xs : List A) (x : A) (rest : List A)
    → All P xs
    → take_at n xs ≡ some (x, rest)
    → P x × All P rest
unfolding take_at
take_at-All P n [] x rest all h = absurd cc
take_at-All P zero (y ∷ ys) x rest all h =
    let first : y ≡ x = ground (arith, h) in
    let others : ys ≡ rest = ground (arith, h) in (subst P first all.0, subst (All P) others all.1)
take_at-All P (suc n) (y ∷ ys) x rest all h = elim (Option-cases (take_at n ys)) [
  | inl q ↦ absurd (ground (arith, q, h))
  | inr ((z, zs), q) ↦
      let first : z ≡ x = ground (arith, q, h) in
      let others : y ∷ zs ≡ rest = ground (arith, q, h) in
      let r = take_at-All P n ys z zs all.1 q in
      (subst P first r.0, subst (All P) others (all.0, r.1))
]

pub WordsFit-less :
    (w : Administration) (version g g' : ℕ) → g' ≤ g → WordsFit w version g → WordsFit w version g'
WordsFit-less idle version g g' h (inl r) = inl r
WordsFit-less idle version g g' h (inr (r, z)) = inr (r, omega arith)
WordsFit-less (deleting v) version g g' h k = k
WordsFit-less (activating v) version g g' h (c, r, z) = (c, r, omega arith)

-- While the version is that of a registered tenant, anything may be granted.
pub WordsFit-registered :
    (w : Administration) (version g g' : ℕ)
    → tenant_state version ≡ registered_state
    → WordsFit w version g
    → WordsFit w version g'
WordsFit-registered idle version g g' r h = inl r
WordsFit-registered (deleting v) version g g' r h = absurd (omega (arith, h.0, r))
WordsFit-registered (activating v) version g g' r h = absurd (omega (arith, h.0, r))
