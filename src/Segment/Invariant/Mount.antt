-- ===== src/Segment/Invariant/Mount.antt =====
-- A new incarnation under a free id keeps the invariant, when its range is separate.
use cakemaster.Base.{
  ℕ, suc, ◌<◌, none, some, ◌≡◌, ◌≢◌, ◌⊎◌, inl, inr, sym, ap, ◌∙◌, subst, arith, nat_eq,
}
use cakemaster.Base.Table.{Table, get, insert, insert_cases, get-insert_other, get-insert_self}
use cakemaster.Identity.{SegmentId, uuid_eq}
use cakemaster.Segment.Types.{SegmentSpec}
use cakemaster.Segment.Allocator.{OffsetAllocator}
use cakemaster.Segment.Entry.{SegmentEntry}
use cakemaster.Segment.Invariant.Defs.{Separate, HasEnd, IsLive, IsDead, IsMounted, Inv}

Separate-sym : (a b : SegmentSpec) → Separate a b → Separate b a
Separate-sym a b h owner transport = elim (h (sym owner) (sym transport)) [
  | inl x ↦ inr x
  | inr x ↦ inl x
]

some-ne-none : (q : ℕ) → some q ≡ none → ⊥
some-ne-none q p = cc

module _ (o : OffsetAllocator) (m : Table ℕ (SegmentEntry o)) (s : Table SegmentId ℕ) (n : ℕ)
    (inv : Inv o m s n) (e : SegmentEntry o) (free : get e.spec.identity.id s ≡ none)
    (live : IsLive o e) (end : HasEnd e.spec)
    (apart : (q : ℕ) (f : SegmentEntry o)
      → get f.spec.identity.id s ≡ some q
      → get q m ≡ some f
      → Separate e.spec f.spec) where
  not_free : (id : SegmentId) (q : ℕ) → get id s ≡ some q → id ≢ e.spec.identity.id
  not_free id q h same = some-ne-none q (sym h ∙ ap (λ (x : SegmentId). get x s) same ∙ free)

  older : (q : ℕ) (f : SegmentEntry o) → get q m ≡ some f → get q (insert n e m) ≡ some f
  older q f h = get-insert_other n q e m (λ same. omega (arith, same, inv.fresh q f h)) ∙ h

  mount-IsMounted :
      (j : SegmentId) (q : ℕ)
      → get j (insert e.spec.identity.id n s) ≡ some q
      → IsMounted o (insert n e m) j q
  mount-IsMounted j q h = elim (insert_cases e.spec.identity.id j n s h) [
    | inl r ↦
        (e, ap (λ (x : ℕ). get x (insert n e m)) r.1 ∙ get-insert_self n e m, sym r.0, live, end)
    | inr r ↦ (let old = inv.mounted j q r.1 in (old.0, older q old.0 old.1, old.2, old.3, old.4))
  ]

  mount_fresh : (q : ℕ) (f : SegmentEntry o) → get q (insert n e m) ≡ some f → q < suc n
  mount_fresh q f h = elim (insert_cases n q e m h) [
    | inl r ↦ omega (arith, r.0)
    | inr r ↦ omega (arith, inv.fresh q f r.1)
  ]

  mount_detached :
      (q : ℕ) (f : SegmentEntry o)
      → get q (insert n e m) ≡ some f
      → (get f.spec.identity.id (insert e.spec.identity.id n s) ≡ some q) ⊎ IsDead o f
  mount_detached q f h = elim (insert_cases n q e m h) [
    | inl r ↦ inl (
        ap (λ (x : SegmentEntry o). get x.spec.identity.id (insert e.spec.identity.id n s)) r.1
        ∙ get-insert_self e.spec.identity.id n s
        ∙ ap some (sym r.0))
    | inr r ↦ elim (inv.detached q f r.1) [
      | inl there ↦
          inl (
            get-insert_other e.spec.identity.id f.spec.identity.id n s (not_free _ q there) ∙ there)
      | inr gone ↦ inr gone
    ]
  ]

  -- What is mounted now is the new incarnation, or was there before.
  newer :
      (q : ℕ) (f : SegmentEntry o)
      → get f.spec.identity.id (insert e.spec.identity.id n s) ≡ some q
      → get q (insert n e m) ≡ some f
      → ((q ≡ n) × (f ≡ e)) ⊎ ((get f.spec.identity.id s ≡ some q) × (get q m ≡ some f))
  newer q f h at = elim (insert_cases n q e m at) [
    | inl r ↦ inl r
    | inr r ↦ elim (insert_cases e.spec.identity.id f.spec.identity.id n s h) [
      | inl t ↦ absurd (r.0 t.1)
      | inr t ↦ inr (t.1, r.1)
    ]
  ]

  mount-Separate :
      (q r : ℕ) (f g : SegmentEntry o)
      → get f.spec.identity.id (insert e.spec.identity.id n s) ≡ some q
      → get q (insert n e m) ≡ some f
      → get g.spec.identity.id (insert e.spec.identity.id n s) ≡ some r
      → get r (insert n e m) ≡ some g
      → q ≢ r
      → Separate f.spec g.spec
  mount-Separate q r f g hq at_q hr at_r ne = elim (newer q f hq at_q) [
    | inl a ↦ elim (newer r g hr at_r) [
      | inl b ↦ absurd (ne (a.0 ∙ sym b.0))
      | inr b ↦ subst (λ (x : SegmentEntry o). Separate x.spec g.spec) (sym a.1) (apart r g b.0 b.1)
    ]
    | inr a ↦ elim (newer r g hr at_r) [
      | inl b ↦
          subst (λ (x : SegmentEntry o). Separate f.spec x.spec) (sym b.1)
            (Separate-sym e.spec f.spec (apart q f a.0 a.1))
      | inr b ↦ inv.separate q r f g a.0 a.1 b.0 b.1 ne
    ]
  ]

  pub mount-Inv : Inv o (insert n e m) (insert e.spec.identity.id n s) (suc n)
  mount-Inv = record {
    mounted = mount-IsMounted;
    fresh = mount_fresh;
    detached = mount_detached;
    separate = mount-Separate;
  }
