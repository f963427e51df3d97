-- ===== src/Object/Ledger/Ownership.antt =====
-- A version is in one place: staged, live or retired.
use cakemaster.Base.{
  ℕ, suc, ◌+◌, ◌≤◌, some, List, ◌≡◌, inl, inr, refl, arith, eqb, if◌then◌else◌, Bool-cases, subst,
  ap,
}
use cakemaster.Object.Access.{ObjectCatalogConfig}
use cakemaster.Object.Catalog.Defs.{Version, Catalog, new_catalog}
use cakemaster.Object.Ledger.Defs.{
  Books, books, totals, Move, Step, stay, claim, unclaim, stage, stage_lost, publish, replace,
  abort, retire, prune, reclaim,
}
use cakemaster.Object.Ledger.History.{CatalogCall, catalog_run, catalog_run-keeps, new-Numbered}

-- Weighs the versions at one address.
abbrev pub at_address : ℕ → Version → ℕ
at_address a v = if eqb v.address a then 1 else 0

abbrev pub places : ℕ → Books → ℕ
places a b =
    (totals (at_address a) b).staged
    + (totals (at_address a) b).live
    + (totals (at_address a) b).retired

abbrev pub Owned : Books → Type 0
Owned b = (a : ℕ) → (places a b ≤ 1) × (b.next_address ≤ a → places a b ≡ 0)

-- A move that stages nothing finds no version.
moved-Owned :
    (b b' : Books)
    → ((a : ℕ) → places a b' ≤ places a b)
    → b'.next_address ≡ b.next_address
    → Owned b
    → Owned b'
moved-Owned b b' less same own a = (
  omega (arith, less a, (own a).0),
  λ fresh. omega (arith, less a, (own a).1 (subst (λ n. n ≤ a) same fresh)),
)

-- A staged version is the only one at the next address.
staged-Owned :
    (b b' : Books) (v : Version)
    → ((a : ℕ) → places a b' ≡ places a b + at_address a v)
    → v.address ≡ b.next_address
    → b'.next_address ≡ suc b.next_address
    → Owned b
    → Owned b'
staged-Owned b b' v more is same own a = elim (Bool-cases (eqb v.address a)) [
  | inl here ↦
      let fresh = (own a).1 (ground (arith, here, is)) in
      (ground (arith, more a, here, fresh), λ late. absurd (ground (arith, here, is, same, late)))
  | inr other ↦ (
    ground (arith, more a, other, (own a).0),
    λ late. ground (arith, more a, other, (own a).1 (omega (arith, same, late))),
  )
]

Step-Owned : (b b' : Books) (m : Move) → Step b m b' → Owned b → Owned b'
Step-Owned b b' stay step =
    moved-Owned b b' (λ a. omega (arith, step.balanced (at_address a))) step.addressed
Step-Owned b b' claim step =
    moved-Owned b b' (λ a. omega (arith, step.balanced (at_address a))) step.addressed
Step-Owned b b' unclaim step =
    moved-Owned b b' (λ a. omega (arith, step.balanced (at_address a))) step.addressed
Step-Owned b b' (publish v) step =
    moved-Owned b b' (λ a. omega (arith, step.balanced (at_address a))) step.addressed
Step-Owned b b' (replace v old) step =
    moved-Owned b b' (λ a. omega (arith, step.balanced (at_address a))) step.addressed
Step-Owned b b' (abort v) step =
    moved-Owned b b' (λ a. omega (arith, step.balanced (at_address a))) step.addressed
Step-Owned b b' (retire v) step =
    moved-Owned b b' (λ a. omega (arith, step.balanced (at_address a))) step.addressed
Step-Owned b b' (reclaim v) step =
    moved-Owned b b' (λ a. omega (arith, step.balanced (at_address a))) step.addressed
Step-Owned b b' (prune gone old v) step =
    let weigh : (a : ℕ) → at_address a v ≡ at_address a old =
      λ a. ap (λ x. if eqb x a then 1 else 0) step.addressed.1.0 in
    moved-Owned b b' (λ a. omega (arith, step.balanced (at_address a), weigh a)) step.addressed.0
Step-Owned b b' (stage v) step =
    staged-Owned b b' v (λ a. omega (arith, step.balanced (at_address a))) step.addressed.0
      step.addressed.1
Step-Owned b b' (stage_lost v) step =
    staged-Owned b b' v (λ a. omega (arith, step.balanced (at_address a))) step.addressed.0
      step.addressed.1

-- Whatever calls a new catalog gets, in any order and until one panics, each version that was ever staged
-- is in at most one place: in one staged transaction, in one slot as its committed version, or once in
-- the queue of retired versions. No address is there that was not given out.
pub catalog_run-Owned :
    (id : ℕ) (config : ObjectCatalogConfig) (cs : List CatalogCall) {s : Catalog}
    → catalog_run cs (new_catalog id config) ≡ some s
    → Owned (books s)
catalog_run-Owned id config cs done =
    catalog_run-keeps Owned Step-Owned cs (new_catalog id config) (new-Numbered id config)
      (λ a. (omega arith, λ _. refl)) done
