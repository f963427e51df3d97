-- ===== src/Segment/Invariant/Updates.antt =====
-- The three ways in which an operation changes the store and the table keep the invariant.
use mathlib.Core.Option.{some_inj}
use cakemaster.Base.{
  ℕ, ◌<◌, some, ◌≡◌, ◌≢◌, ◌⊎◌, inl, inr, refl, sym, ap, ◌∙◌, subst, nat_eq, eqb_iff, Bool-cases,
  ◌==◌,
}
use cakemaster.Base.Table.{Table, get, insert, insert_cases, get-insert}
use cakemaster.Identity.{SegmentId, uuid_eq}
use cakemaster.Segment.Types.{SegmentSpec}
use cakemaster.Segment.Allocator.{OffsetAllocator}
use cakemaster.Segment.Entry.{SegmentEntry}
use cakemaster.Segment.Invariant.Defs.{Separate, HasEnd, IsDead, IsMounted, Inv, Kept}

module _ (o : OffsetAllocator) where
  Kept-refl : (e : SegmentEntry o) → Kept o e e
  Kept-refl e = record { same_spec = refl; still_live = λ x. x; still_dead = λ x. x }

  Kept-subst : (a b c d : SegmentEntry o) → a ≡ c → b ≡ d → Kept o c d → Kept o a b
  Kept-subst a b c d p q k =
      subst (λ (x : SegmentEntry o). Kept o x b) (sym p)
        (subst (λ (x : SegmentEntry o). Kept o c x) (sym q) k)

module _ (o : OffsetAllocator) (m : Table ℕ (SegmentEntry o)) (p : ℕ) (e e' : SegmentEntry o)
    (at : get p m ≡ some e) (kept : Kept o e e') where
  -- What is found after the update was there with the same specification.
  found :
      (q : ℕ) (f : SegmentEntry o)
      → get q (insert p e' m) ≡ some f
      → (g : SegmentEntry o) × (get q m ≡ some g) × Kept o g f
  found q f h = elim (insert_cases p q e' m h) [
    | inl r ↦ (e, ap (λ (x : ℕ). get x m) r.0 ∙ at, Kept-subst o e f e e' refl r.1 kept)
    | inr r ↦ (f, r.1, Kept-refl o f)
  ]

  -- What was there is found after the update.
  still_found :
      (q : ℕ) (g : SegmentEntry o)
      → get q m ≡ some g
      → (f : SegmentEntry o) × (get q (insert p e' m) ≡ some f) × Kept o g f
  still_found q g h = elim (Bool-cases (p == q)) [
    | inl hit ↦ (
      e',
      get-insert p q e' m ∙ rw hit refl,
      Kept-subst o g e' e e'
          (some_inj.0 (sym h ∙ ap (λ (x : ℕ). get x m) (sym ((eqb_iff p q).0 hit)) ∙ at)) refl kept,
    )
    | inr miss ↦ (g, get-insert p q e' m ∙ rw miss h, Kept-refl o g)
  ]

  module _ (s : Table SegmentId ℕ) (n : ℕ) (inv : Inv o m s n) where
    update-IsMounted :
        (id : SegmentId) (q : ℕ) → get id s ≡ some q → IsMounted o (insert p e' m) id q
    update-IsMounted id q h =
        let old = inv.mounted id q h in
        let new = still_found q old.0 old.1 in
        let k : Kept o old.0 new.0 = new.2 in
        (
          new.0,
          new.1,
          ap (λ (x : SegmentSpec). x.identity.id) k.same_spec ∙ old.2,
          k.still_live old.3,
          subst HasEnd (sym k.same_spec) old.4,
        )

    update_detached :
        (q : ℕ) (f : SegmentEntry o)
        → get q (insert p e' m) ≡ some f
        → (get f.spec.identity.id s ≡ some q) ⊎ IsDead o f
    update_detached q f h =
        let old = found q f h in
        let k : Kept o old.0 f = old.2 in
        elim (inv.detached q old.0 old.1) [
          | inl there ↦ inl (ap (λ (x : SegmentSpec). get x.identity.id s) k.same_spec ∙ there)
          | inr dead ↦ inr (k.still_dead dead)
        ]

    update-Separate :
        (q r : ℕ) (f g : SegmentEntry o)
        → get f.spec.identity.id s ≡ some q
        → get q (insert p e' m) ≡ some f
        → get g.spec.identity.id s ≡ some r
        → get r (insert p e' m) ≡ some g
        → q ≢ r
        → Separate f.spec g.spec
    update-Separate q r f g hq at_q hr at_r ne =
        let a = found q f at_q in
        let b = found r g at_r in
        let ka : Kept o a.0 f = a.2 in
        let kb : Kept o b.0 g = b.2 in
        let there_a = ap (λ (x : SegmentSpec). get x.identity.id s) (sym ka.same_spec) ∙ hq in
        let there_b = ap (λ (x : SegmentSpec). get x.identity.id s) (sym kb.same_spec) ∙ hr in
        subst (λ (x : SegmentSpec). Separate x g.spec) (sym ka.same_spec)
          (subst (λ (x : SegmentSpec). Separate (a.0).spec x) (sym kb.same_spec)
            (inv.separate q r a.0 b.0 there_a a.1 there_b b.1 ne))

    update_fresh : (q : ℕ) (f : SegmentEntry o) → get q (insert p e' m) ≡ some f → q < n
    update_fresh q f h = let old = found q f h in inv.fresh q old.0 old.1

    pub update-Inv : Inv o (insert p e' m) s n
    update-Inv = record {
      mounted = update-IsMounted;
      fresh = update_fresh;
      detached = update_detached;
      separate = update-Separate;
    }
