-- ===== src/Object/Leases.antt =====
-- The lease loop, whatever other threads write between its reads.
use cakemaster.Base.{
  ℕ, ◌≤◌, ◌<◌, Option, none, some, List, [], ◌∷◌, ◌≡◌, ◌⊎◌, inl, inr, refl, subst, arith, ltb,
  saturating_add, Bool-cases,
}
use cakemaster.Base.Lists.{In}
use cakemaster.Object.Access.{acquire_loop, acquire_lease}

-- Either one of the words that were read is late enough, and it is returned with nothing stored, or what
-- is stored and returned is the desired deadline, and the first word that was read was too early.
abbrev pub LeaseOutcome : ℕ → ℕ → ℕ → List ℕ → ℕ × Option ℕ → Type 0
LeaseOutcome refresh_at desired current observed (deadline, stored) =
    (refresh_at ≤ deadline)
    × (((stored ≡ none) × In deadline (current ∷ observed))
        ⊎ ((stored ≡ some desired) × (deadline ≡ desired) × (current < refresh_at)))

-- A round that lost its exchange, with what the later rounds come to.
again :
    (current seen : ℕ) (observed : List ℕ) (refresh_at desired : ℕ) (r : ℕ × Option ℕ)
    → current < refresh_at
    → LeaseOutcome refresh_at desired seen observed r
    → LeaseOutcome refresh_at desired current (seen ∷ observed) r
again current seen observed refresh_at desired (deadline, stored) early
      (late, inl (unstored, found)) =
    (late, inl (unstored, inr found))
again current seen observed refresh_at desired (deadline, stored) early (late, inr (new, same, _)) =
    (late, inr (new, same, early))

acquire_loop_lem :
    (refresh_at desired current : ℕ) (observed : List ℕ)
    → refresh_at ≤ desired
    → LeaseOutcome refresh_at desired current observed
        (acquire_loop refresh_at desired current observed)
unfolding acquire_loop
acquire_loop_lem refresh_at desired current [] h =
    let Fine = LeaseOutcome refresh_at desired current [] in
    elim (Bool-cases (ltb current refresh_at)) [
      | inl e ↦
          let stores : (desired, some desired) ≡ acquire_loop refresh_at desired current [] =
            ground (arith, e) in
          subst Fine stores (h, inr (refl, refl, ground (arith, e)))
      | inr e ↦
          let keeps : (current, none) ≡ acquire_loop refresh_at desired current [] =
            ground (arith, e) in
          subst Fine keeps (ground (arith, e), inl (refl, inl refl))
    ]
acquire_loop_lem refresh_at desired current (seen ∷ observed) h =
    let Fine = LeaseOutcome refresh_at desired current (seen ∷ observed) in
    let all = acquire_loop refresh_at desired current (seen ∷ observed) in
    let rest = acquire_loop refresh_at desired seen observed in
    elim (Bool-cases (ltb current refresh_at)) [
      | inl e ↦
          let goes_on : rest ≡ all = rw e refl in
          subst Fine goes_on (
            again current seen observed refresh_at desired rest (ground (arith, e))
              (acquire_loop_lem refresh_at desired seen observed h))
      | inr e ↦
          let keeps : (current, none) ≡ all = rw e refl in
          subst Fine keeps (ground (arith, e), inl (refl, inl refl))
    ]

-- With a refresh time within the time to live, a reader gets a lease that lasts at least to the refresh
-- time from now, whatever other threads write to the word while it tries: either that deadline is one it
-- read in the word, and it stores nothing, or it found the word too early, stores the full time to live
-- from now, and returns that.
pub acquire_lease-LeaseOutcome :
    (now ttl refresh current : ℕ) (observed : List ℕ)
    → refresh ≤ ttl
    → LeaseOutcome
        (saturating_add now refresh)
        (saturating_add now ttl)
        current
        observed
        (acquire_lease now ttl refresh current observed)
unfolding acquire_lease
acquire_lease-LeaseOutcome now ttl refresh current observed h =
    acquire_loop_lem (saturating_add now refresh) (saturating_add now ttl) current observed
      (ground (arith, h))
