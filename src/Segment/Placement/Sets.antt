-- ===== src/Segment/Placement/Sets.antt =====
-- A vector without repetitions, and the set of its elements.
use cakemaster.Base.{
  false, List, [], ◌∷◌, ◌++◌, ◌≡◌, ◌≢◌, inl, inr, refl, sym, subst, arith, Bool-cases, Eq, ◌==◌,
  nat_eq,
}
use cakemaster.Base.Lists.{All, All-append, In}
use cakemaster.Segment.Placement.Defs.{key_eq, is_member}

-- No two elements are equal.
abbrev pub Distinct {ℓ} : {A : Type ℓ} → List A → Type ℓ
Distinct [] = Unit
Distinct (x ∷ xs) = All (λ y. y ≢ x) xs × Distinct xs

module _ {A : Type 0} where
  pub Distinct-append_one :
      (x : A) (xs : List A) → Distinct xs → All (λ y. x ≢ y) xs → Distinct (xs ++ x ∷ [])
  Distinct-append_one x [] d n = (tt, tt)
  Distinct-append_one x (y ∷ ys) d n =
      (All-append (λ z. z ≢ y) ys (x ∷ []) d.0 (n.0, tt), Distinct-append_one x ys d.1 n.1)

  pub All-In : (xs ys : List A) → ((x : A) → In x xs → In x ys) → All (λ x. In x ys) xs
  All-In [] ys f = tt
  All-In (x ∷ xs) ys f = (f x (inl refl), All-In xs ys (λ y h. f y (inr h)))

  pub All-at : (P : A → Type 0) (x : A) (xs : List A) → All P xs → In x xs → P x
  All-at P x [] h found = absurd found
  All-at P x (y ∷ ys) h (inl same) = subst P same h.0
  All-at P x (y ∷ ys) h (inr later) = All-at P x ys h.1 later

  pub is_member-All :
      ⦃e : Eq A⦄ (x : A) (xs : List A) → is_member x xs ≡ false → All (λ y. x ≢ y) xs
  unfolding is_member
  is_member-All x [] h = tt
  is_member-All ⦃e⦄ x (y ∷ ys) h = elim (Bool-cases (y == x)) [
    | inl q ↦ absurd (ground (arith, q, h))
    | inr q ↦ (
      (λ same. absurd (ground (arith, q, (e.equal_iff y x).1 (sym same)))),
      is_member-All ⦃e = e⦄ x ys (ground (arith, q, h)),
    )
  ]
