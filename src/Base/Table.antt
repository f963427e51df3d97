-- ===== src/Base/Table.antt =====
-- A `HashMap` as an association list with one entry for each key.
use Prim.Native.Nat.{ℕ, ◌+◌, ◌≤◌}
use mathlib.Core.Path.{◌≡◌, refl, sym}
use mathlib.Core.Logic.{◌⊎◌, ◌≢◌, inl, inr}
use mathlib.Core.Bool.{Bool, true, false}
use mathlib.Core.Option.{Option, none, some}
use mathlib.Core.List.{List, [], ◌∷◌}
use native.Mathlib.Omega.{arith}
use cakemaster.Base.Tests.{if◌then◌else◌, Eq, ◌==◌, Bool-cases}
use cakemaster.Base.Lists.{length, sum_by}

abbrev pub Table {ℓ κ} : Type ℓ → Type κ → Type (ℓ ⊔ κ)
Table K V = List (K × V)

module _ {ℓ κ} {K : Type ℓ} {V : Type κ} ⦃e : Eq K⦄ where
  unfoldable pub get : K → Table K V → Option V
  get k [] = none
  get k ((j, v) ∷ m) = if j == k then some v else get k m

  unfoldable pub insert : K → V → Table K V → Table K V
  insert k v [] = (k, v) ∷ []
  insert k v ((j, w) ∷ m) = if j == k then (k, v) ∷ m else (j, w) ∷ insert k v m

  unfoldable pub remove : K → Table K V → Table K V
  remove k [] = []
  remove k ((j, v) ∷ m) = if j == k then remove k m else (j, v) ∷ remove k m

  pub get-insert :
      (k j : K) (v : V) (m : Table K V)
      → get j (insert k v m) ≡ (if k == j then some v else get j m)
  unfolding get insert
  get-insert k j v [] = refl
  get-insert k j v ((i, w) ∷ m) =
      ground (arith, e.equal_iff k j, e.equal_iff i k, e.equal_iff i j, get-insert k j v m)

  pub get-remove :
      (k j : K) (m : Table K V) → get j (remove k m) ≡ (if k == j then none else get j m)
  unfolding get remove
  get-remove k j [] = ground arith
  get-remove k j ((i, w) ∷ m) =
      ground (arith, e.equal_iff k j, e.equal_iff i k, e.equal_iff i j, get-remove k j m)

  pub length-insert_le : (k : K) (v : V) (m : Table K V) → length (insert k v m) ≤ length m + 1
  unfolding insert
  length-insert_le k v [] = omega arith
  length-insert_le k v ((i, w) ∷ m) = ground (arith, length-insert_le k v m)

  -- A key that is there keeps the number of entries.
  pub length-insert_present :
      (k : K) (v : V) (m : Table K V) {w : V} → get k m ≡ some w → length (insert k v m) ≡ length m
  unfolding get insert
  length-insert_present k v [] h = cc
  length-insert_present k v ((i, u) ∷ m) {w} h = ground (arith, length-insert_present k v m {w = w})

  pub length-remove_le : (k : K) (m : Table K V) → length (remove k m) ≤ length m
  unfolding remove
  length-remove_le k [] = omega arith
  length-remove_le k ((i, u) ∷ m) = ground (arith, length-remove_le k m)

  get-insert_cases :
      (k j : K) (v : V) (m : Table K V) (b : Bool) {w : V}
      → (k == j) ≡ b
      → get j (insert k v m) ≡ some w
      → ((j ≡ k) × (w ≡ v)) ⊎ ((j ≢ k) × (get j m ≡ some w))
  get-insert_cases k j v m true hit h =
      inl (sym ((e.equal_iff k j).0 hit), ground (arith, get-insert k j v m))
  get-insert_cases k j v m false miss h =
      inr ((λ q. ground (arith, (e.equal_iff k j).1 (sym q))), ground (arith, get-insert k j v m))

  -- What is found after an insertion is the new value, or was there under another key.
  pub insert_cases :
      (k j : K) (v : V) (m : Table K V) {w : V}
      → get j (insert k v m) ≡ some w
      → ((j ≡ k) × (w ≡ v)) ⊎ ((j ≢ k) × (get j m ≡ some w))
  insert_cases k j v m h = get-insert_cases k j v m (k == j) refl h

  get-remove_cases :
      (k j : K) (m : Table K V) (b : Bool) {w : V}
      → (k == j) ≡ b
      → get j (remove k m) ≡ some w
      → (j ≢ k) × (get j m ≡ some w)
  get-remove_cases k j m true hit h = absurd (ground (arith, get-remove k j m))
  get-remove_cases k j m false miss h =
      ((λ q. ground (arith, (e.equal_iff k j).1 (sym q))), ground (arith, get-remove k j m))

  pub remove_cases :
      (k j : K) (m : Table K V) {w : V} → get j (remove k m) ≡ some w → (j ≢ k) × (get j m ≡ some w)
  remove_cases k j m h = get-remove_cases k j m (k == j) refl h

  pub get-insert_self : (k : K) (v : V) (m : Table K V) → get k (insert k v m) ≡ some v
  get-insert_self k v m = rw (get-insert k k v m, (e.equal_iff k k).1 refl)

  pub insert-insert : (k : K) (v w : V) (m : Table K V) → insert k v (insert k w m) ≡ insert k v m
  unfolding insert
  insert-insert k v w [] = ground (arith, e.equal_iff k k)
  insert-insert k v w ((i, u) ∷ m) =
      ground (arith, e.equal_iff k k, e.equal_iff i k, insert-insert k v w m)

  pub get-insert_other : (k j : K) (v : V) (m : Table K V) → j ≢ k → get j (insert k v m) ≡ get j m
  get-insert_other k j v m ne = ground (arith, get-insert k j v m, e.equal_iff k j)

  pub get-remove_other : (k j : K) (m : Table K V) → j ≢ k → get j (remove k m) ≡ get j m
  get-remove_other k j m ne = ground (arith, get-remove k j m, e.equal_iff k j)

  abbrev pub sum_values : (V → ℕ) → Table K V → ℕ
  sum_values f m = sum_by (λ entry. f entry.1) m

  pub sum_values-get_le :
      (f : V → ℕ) (k : K) (m : Table K V) {v : V} → get k m ≡ some v → f v ≤ sum_values f m
  unfolding get
  sum_values-get_le f k [] h = cc
  sum_values-get_le f k ((i, u) ∷ m) {v} h = elim (Bool-cases (i == k)) [
    | inl hit ↦ ground (arith, h, hit)
    | inr miss ↦ omega (arith, sum_values-get_le f k m {v = v} (ground (arith, h, miss)))
  ]

  pub sum_values-insert_fresh :
      (f : V → ℕ) (k : K) (v : V) (m : Table K V)
      → get k m ≡ none
      → sum_values f (insert k v m) ≡ sum_values f m + f v
  unfolding get insert
  sum_values-insert_fresh f k v [] h = omega arith
  sum_values-insert_fresh f k v ((i, u) ∷ m) h = ground (arith, sum_values-insert_fresh f k v m)

  present_here :
      (f : V → ℕ) (k : K) (v : V) (i : K) (u : V) (m : Table K V) {w : V}
      → (i == k) ≡ true
      → get k ((i, u) ∷ m) ≡ some w
      → sum_values f (insert k v ((i, u) ∷ m)) + f w ≡ sum_values f ((i, u) ∷ m) + f v
  unfolding get insert
  present_here f k v i u m {w} hit h = rw hit (ground (arith, hit, h))

  present_later :
      (k i : K) (u : V) (m : Table K V) {w : V}
      → (i == k) ≡ false
      → get k ((i, u) ∷ m) ≡ some w
      → get k m ≡ some w
  unfolding get
  present_later k i u m miss h = ground (arith, miss, h)

  pub sum_values-insert_present :
      (f : V → ℕ) (k : K) (v : V) (m : Table K V) {w : V}
      → get k m ≡ some w
      → sum_values f (insert k v m) + f w ≡ sum_values f m + f v
  unfolding get insert
  sum_values-insert_present f k v [] h = cc
  sum_values-insert_present f k v ((i, u) ∷ m) {w} h = elim (Bool-cases (i == k)) [
    | inl hit ↦ present_here f k v i u m hit h
    | inr miss ↦
        rw miss
          (omega (arith, sum_values-insert_present f k v m {w = w} (present_later k i u m miss h)))
  ]
