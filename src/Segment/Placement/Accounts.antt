-- ===== src/Segment/Placement/Accounts.antt =====
-- What reserving and releasing do to the leases of an attachment.
use cakemaster.Base.{
  ℕ, ◌+◌, ◌-◌, true, false, Option, none, some, List, [], ◌∷◌, ◌++◌, ◌≡◌, inl, inr, sym, ap, ◌∙◌,
  subst, arith, Result, Bool-cases, Option-cases, eqb, eqb_iff, nat_eq, if◌then◌else◌,
}
use mathlib.Core.Option.{some_inj}
use cakemaster.Base.Table.{get, get-insert}
use cakemaster.Segment.Types.{ReserveError}
use cakemaster.Segment.Allocator.{OffsetAllocator}
use cakemaster.Segment.Entry.{SegmentEntry, Reservation}
use cakemaster.Segment.Invariant.Reserve.{granted, drop_reservation-Dropped}
use cakemaster.Segment.Pool.Reserving.{reserve_inv, release_inv}
use cakemaster.Segment.Catalog.Defs.{put_entry}
use cakemaster.Segment.Pool.Defs.{SegmentPool, SegmentHandle, reserve, release_reservation}
use cakemaster.Segment.Placement.Defs.{key_eq}
use cakemaster.Segment.Placement.Loop.{Placed, drop_all}

module _ (o : OffsetAllocator) where
  abbrev pub entry_leases : Option (SegmentEntry o) → ℕ
  entry_leases none = 0
  entry_leases (some e) = e.active_leases

  -- The active leases of the attachment p.
  abbrev pub leases : SegmentPool o → ℕ → ℕ
  leases s p = entry_leases (get p s.catalog.entries)

  put_entry-leases :
      (s : SegmentPool o) (p q : ℕ) (e : SegmentEntry o)
      → leases (record s { catalog = put_entry o s.catalog p e }) q
        ≡ (if eqb p q then e.active_leases else leases s q)
  unfolding put_entry
  put_entry-leases s p q e = elim (Bool-cases (eqb p q)) [
    | inl same ↦ ground (arith, get-insert p q e s.catalog.entries, same)
    | inr other ↦ ground (arith, get-insert p q e s.catalog.entries, other)
  ]

  -- The attachment at p, of which the leases become n.
  put_entry_at :
      (s : SegmentPool o) (p q n k : ℕ) (e e' : SegmentEntry o)
      → get p s.catalog.entries ≡ some e
      → e'.active_leases ≡ n
      → (eqb p q ≡ true → e.active_leases ≡ leases s q → n ≡ k)
      → (eqb p q ≡ false → leases s q ≡ k)
      → leases (record s { catalog = put_entry o s.catalog p e' }) q ≡ k
  put_entry_at s p q n k e e' found new here there = elim (Bool-cases (eqb p q)) [
    | inl same ↦
        let now : e.active_leases ≡ leases s q =
          subst (λ (x : ℕ). e.active_leases ≡ leases s x) ((eqb_iff p q).0 same)
            (sym (ap entry_leases found)) in
        ground (arith, put_entry-leases s p q e', same, new, here same now)
    | inr other ↦ ground (arith, put_entry-leases s p q e', other, there other)
  ]

  abbrev pub one_at : ℕ → ℕ → ℕ → ℕ
  one_at p q n = if eqb p q then n else 0

  pub reserve-leases :
      (s t : SegmentPool o) (c : SegmentHandle) (bytes : ℕ)
      (r : Result ReserveError (Reservation o)) (p : ℕ)
      → reserve o s c bytes ≡ some (t, r)
      → leases t p ≡ leases s p + one_at c.entry p (granted o r)
  reserve-leases s t c bytes r p h = elim (reserve_inv o s t c bytes r h) [
    | inl (same, foreign) ↦
        ap (λ (u : SegmentPool o). leases u p) same ∙ ground (arith, ap (granted o) foreign)
    | inr (e, e', z, same, answer) ↦
        ap (λ (u : SegmentPool o). leases u p) same
        ∙ put_entry_at s c.entry p (e.active_leases + granted o r)
            (leases s p + one_at c.entry p (granted o r)) e e' z answer.1
            (λ here now. ground (arith, here, now)) (λ there. ground (arith, there))
  ]

  release-leases :
      (s t : SegmentPool o) (p q : ℕ) (r : Reservation o)
      → release_reservation o s p r ≡ some t
      → leases t q ≡ leases s q - one_at p q 1
  release-leases s t p q r h =
      let (e, e', z, w, same) = release_inv o s t p r h in
      ap (λ (u : SegmentPool o). leases u q) same
      ∙ put_entry_at s p q (e.active_leases - 1) (leases s q - one_at p q 1) e e' z
          (drop_reservation-Dropped o e e' r w).1 (λ here now. ground (arith, here, now))
          (λ there. ground (arith, there))

  -- How many of the reservations are on the attachment p.
  abbrev pub held : ℕ → List (Placed o) → ℕ
  held p [] = 0
  held p (x ∷ xs) = one_at x.attachment p 1 + held p xs

  pub held-append : (p : ℕ) (xs ys : List (Placed o)) → held p (xs ++ ys) ≡ held p xs + held p ys
  held-append p [] ys = omega arith
  held-append p (x ∷ xs) ys = ground (arith, held-append p xs ys)

  pub drop_all-leases :
      (xs : List (Placed o)) (s t : SegmentPool o) (p : ℕ)
      → drop_all o s xs ≡ some t
      → leases t p ≡ leases s p - held p xs
  unfolding drop_all
  drop_all-leases [] s t p h =
      ap (λ (u : SegmentPool o). leases u p) (sym (some_inj.0 h)) ∙ omega arith
  drop_all-leases (x ∷ xs) s t p h =
      elim (Option-cases (release_reservation o s x.attachment x.reservation)) [
        | inl q ↦ absurd (ground (arith, q, h))
        | inr (u, q) ↦ omega (
          arith,
          drop_all-leases xs u t p (ground (arith, q, h)),
          release-leases s u x.attachment p x.reservation q,
        )
      ]
