-- ===== src/Segment/Invariant/Detach.antt =====
-- Taking a segment off the table and killing its incarnation keeps the invariant.
use mathlib.Core.Option.{some_inj}
use cakemaster.Base.{ℕ, ◌<◌, some, ◌≡◌, ◌≢◌, ◌⊎◌, inl, inr, sym, ap, ◌∙◌, subst, nat_eq}
use cakemaster.Base.Table.{
  Table, get, insert, remove, insert_cases, remove_cases, get-insert_other, get-remove_other,
}
use cakemaster.Identity.{SegmentId, uuid_eq}
use cakemaster.Segment.Types.{SegmentSpec}
use cakemaster.Segment.Allocator.{OffsetAllocator}
use cakemaster.Segment.Entry.{SegmentEntry}
use cakemaster.Segment.Invariant.Defs.{Separate, IsDead, IsMounted, Inv}

module _ (o : OffsetAllocator) (m : Table ℕ (SegmentEntry o)) (s : Table SegmentId ℕ) (n : ℕ)
    (inv : Inv o m s n) where
  -- A mounted entry has the id that it is mounted under.
  pub mounted_id :
      (id : SegmentId) (p : ℕ) (e : SegmentEntry o)
      → get id s ≡ some p
      → get p m ≡ some e
      → e.spec.identity.id ≡ id
  mounted_id id p e h at =
      let found = inv.mounted id p h in
      let same : found.0 ≡ e = some_inj.0 (sym found.1 ∙ at) in
      ap (λ (x : SegmentEntry o). x.spec.identity.id) (sym same) ∙ found.2

  module _ (id : SegmentId) (p : ℕ) (e e' : SegmentEntry o) (here : get id s ≡ some p)
      (at : get p m ≡ some e) (spec : e'.spec ≡ e.spec) (dead : IsDead o e') where
    detach-IsMounted :
        (j : SegmentId) (q : ℕ) → get j (remove id s) ≡ some q → IsMounted o (insert p e' m) j q
    detach-IsMounted j q h =
        let old = remove_cases id j s h in
        let found = inv.mounted j q old.1 in
        let other : q ≢ p = λ same. old.0 (
          sym found.2
          ∙ mounted_id id p found.0 here (ap (λ (x : ℕ). get x m) (sym same) ∙ found.1)) in
        (found.0, get-insert_other p q e' m other ∙ found.1, found.2, found.3, found.4)

    detach_fresh : (q : ℕ) (f : SegmentEntry o) → get q (insert p e' m) ≡ some f → q < n
    detach_fresh q f h = elim (insert_cases p q e' m h) [
      | inl r ↦ subst (λ (x : ℕ). x < n) (sym r.0) (inv.fresh p e at)
      | inr r ↦ inv.fresh q f r.1
    ]

    detach_detached :
        (q : ℕ) (f : SegmentEntry o)
        → get q (insert p e' m) ≡ some f
        → (get f.spec.identity.id (remove id s) ≡ some q) ⊎ IsDead o f
    detach_detached q f h = elim (insert_cases p q e' m h) [
      | inl r ↦ inr (subst (λ (x : SegmentEntry o). IsDead o x) (sym r.1) dead)
      | inr r ↦ elim (inv.detached q f r.1) [
        | inl there ↦ inl (
            get-remove_other id f.spec.identity.id s
              (λ same. r.0 (some_inj.0 (sym there ∙ ap (λ (x : SegmentId). get x s) same ∙ here)))
            ∙ there)
        | inr gone ↦ inr gone
      ]
    ]

    -- What is still mounted was there before.
    still :
        (q : ℕ) (f : SegmentEntry o)
        → get f.spec.identity.id (remove id s) ≡ some q
        → get q (insert p e' m) ≡ some f
        → (get f.spec.identity.id s ≡ some q) × (get q m ≡ some f)
    still q f h at_q =
        let old = remove_cases id f.spec.identity.id s h in
        elim (insert_cases p q e' m at_q) [
          | inl r ↦ absurd (
              old.0 (
                ap (λ (x : SegmentEntry o). x.spec.identity.id) r.1
                ∙ ap (λ (x : SegmentSpec). x.identity.id) spec
                ∙ mounted_id id p e here at))
          | inr r ↦ (old.1, r.1)
        ]

    detach-Separate :
        (q r : ℕ) (f g : SegmentEntry o)
        → get f.spec.identity.id (remove id s) ≡ some q
        → get q (insert p e' m) ≡ some f
        → get g.spec.identity.id (remove id s) ≡ some r
        → get r (insert p e' m) ≡ some g
        → q ≢ r
        → Separate f.spec g.spec
    detach-Separate q r f g hq at_q hr at_r ne =
        let a = still q f hq at_q in
        let b = still r g hr at_r in inv.separate q r f g a.0 a.1 b.0 b.1 ne

    pub detach-Inv : Inv o (insert p e' m) (remove id s) n
    detach-Inv = record {
      mounted = detach-IsMounted;
      fresh = detach_fresh;
      detached = detach_detached;
      separate = detach-Separate;
    }
