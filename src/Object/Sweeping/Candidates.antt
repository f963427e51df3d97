-- ===== src/Object/Sweeping/Candidates.antt =====
-- What one round of the liveness sweep does to the slots and the queues: src/object/catalog/collector.rs.
use cakemaster.Base.{
  ℕ, ◌≤◌, Bool, true, false, not, some, [], ◌∷◌, ◌++◌, ◌≡◌, ◌⊎◌, inl, inr, refl, sym, ◌∙◌, ap,
  arith, eqb, eqb_iff, is_some, Bool-cases, Option-cases, subst, nat_eq,
}
use mathlib.Core.Option.{some_inj}
use cakemaster.Base.Lists.{length}
use cakemaster.Base.Table.{insert}
use cakemaster.Object.Replicas.{
  ReplicaSet, every_live, all_live, prune_invalidated, partition_by_liveness, prune_all_live,
  prune_mixed, live_part, stale_part,
}
use cakemaster.Object.Catalog.Defs.{Published, Slot, Catalog, GcCandidate, put_slot, upgrade}
use cakemaster.Object.Catalog.Queues.{queue_of}
use cakemaster.Object.Catalog.Write.{enqueue_if_empty}
use cakemaster.Object.Catalog.Collect.{emptied_slot, put_retired, retire_published, push_candidate}
use cakemaster.Object.Catalog.Sweep.{pruned_slot, put_pruned, sweep_published, sweep_candidate}
use cakemaster.Object.Ledger.Sweep.{prune-cases}

length-live_part : (live : ℕ → Bool) (rs : ReplicaSet) → length (live_part live rs) ≤ length rs
length-live_part live [] = omega arith
length-live_part live (r ∷ rs) = ground (arith, length-live_part live rs)

whole-every_live :
    (live : ℕ → Bool) (rs : ReplicaSet)
    → length (live_part live rs) ≡ length rs
    → every_live live rs ≡ true
whole-every_live live [] h = refl
whole-every_live live (r ∷ rs) h = elim (Bool-cases (live r.incarnation)) [
  | inl lives ↦ ground (arith, h, lives, whole-every_live live rs)
  | inr dead ↦ absurd (ground (arith, h, dead, length-live_part live rs))
]

live_part-every_live :
    (live : ℕ → Bool) (rs : ReplicaSet) → every_live live (live_part live rs) ≡ true
live_part-every_live live [] = refl
live_part-every_live live (r ∷ rs) = elim (Bool-cases (live r.incarnation)) [
  | inl lives ↦ rw (lives, lives) (live_part-every_live live rs)
  | inr dead ↦ rw dead (live_part-every_live live rs)
]

-- A set that has members and only live ones.
every-all_live :
    (live : ℕ → Bool) (rs : ReplicaSet)
    → every_live live rs ≡ true
    → eqb (length rs) 0 ≡ false
    → all_live live rs ≡ true
every-all_live live [] every full = absurd (ground (arith, full))
every-all_live live (r ∷ rs) every full = ground (arith, every)

-- The pruning answers that all are live where they are, and leaves live ones only.
whole-all_live :
    (live : ℕ → Bool) (rs : ReplicaSet)
    → prune_invalidated live rs ≡ prune_all_live
    → all_live live rs ≡ true
unfolding prune_invalidated partition_by_liveness
whole-all_live live rs h = elim (Bool-cases (all_live live rs)) [
  | inl whole ↦ whole
  | inr short ↦
      let count = length (live_part live rs) in
      elim (Bool-cases (eqb count 0)) [
        | inl empty ↦ absurd (ground (arith, h, short, empty))
        | inr rest ↦ elim (Bool-cases (eqb count (length rs))) [
          | inr mixed ↦ absurd (ground (arith, h, short, rest, mixed))
          | inl full ↦
              let same = (eqb_iff count (length rs)).0 full in
              every-all_live live rs (whole-every_live live rs same)
                (subst (λ n. eqb n 0 ≡ false) same rest)
        ]
      ]
]

mixed-all_live :
    (live : ℕ → Bool) (rs : ReplicaSet)
    → prune_invalidated live rs ≡ prune_mixed (stale_part live rs)
    → all_live live (live_part live rs) ≡ true
unfolding prune_invalidated partition_by_liveness
mixed-all_live live rs h =
    every-all_live live (live_part live rs) (live_part-every_live live rs) (ground (arith, h))

-- What a candidate stands for is live, or another write of its object is on its way.
abbrev pub Settled : (ℕ → Bool) → Catalog → GcCandidate → Type 0
Settled live s c =
    (slot : Slot) (p : Published)
    → upgrade s c.slot ≡ some slot
    → slot.committed ≡ some p
    → p.version.address ≡ c.version
    → (all_live live p.version.replicas ≡ true) ⊎ (is_some slot.active ≡ true)

module _ (live : ℕ → Bool) (now : ℕ) where
  -- A slot in which everything that is published is live.
  abbrev pub Clean : Slot → Type 0
  Clean slot = (p : Published) → slot.committed ≡ some p → all_live live p.version.replicas ≡ true

  -- What one round does to the slots and the queues.
  abbrev pub Slots : Catalog → Catalog → GcCandidate → Type 0
  Slots s t c =
      ((t.slots ≡ s.slots) × Settled live s c)
      ⊎ ((slot : Slot) × (t.slots ≡ insert c.slot slot s.slots) × Clean slot)

  abbrev pub Queues : Bool → Catalog → Catalog → GcCandidate → Type 0
  Queues b s t c =
      ((queue_of b t ≡ queue_of b s) ⊎ (queue_of b t ≡ queue_of b s ++ (c ∷ [])))
      × (queue_of (not b) t ≡ queue_of (not b) s)
      × (t.young_remaining ≡ s.young_remaining)
      × (t.protected_remaining ≡ s.protected_remaining)

  push-Queues :
      (b : Bool) (s t : Catalog) (c : GcCandidate)
      → t.young ≡ s.young
      → t.protected ≡ s.protected
      → t.young_remaining ≡ s.young_remaining
      → t.protected_remaining ≡ s.protected_remaining
      → Queues b s (push_candidate b c t) c
  push-Queues true s t c young protected first second =
      (inr (ap (λ q. q ++ (c ∷ [])) protected), young, first, second)
  push-Queues false s t c young protected first second =
      (inr (ap (λ q. q ++ (c ∷ [])) young), protected, first, second)

  same-Queues :
      (b : Bool) (s t : Catalog) (c : GcCandidate)
      → t.young ≡ s.young
      → t.protected ≡ s.protected
      → t.young_remaining ≡ s.young_remaining
      → t.protected_remaining ≡ s.protected_remaining
      → Queues b s t c
  same-Queues true s t c young protected first second = (inl protected, young, first, second)
  same-Queues false s t c young protected first second = (inl young, protected, first, second)

  slots-push : (b : Bool) (c : GcCandidate) (t : Catalog) → (push_candidate b c t).slots ≡ t.slots
  slots-push true c t = refl
  slots-push false c t = refl

  sweep_published-Queues :
      (s : Catalog) (c : GcCandidate) (b : Bool) (slot : Slot) (p : Published)
      → Queues b s (sweep_published s live c b slot p now) c
  unfolding sweep_published retire_published put_retired enqueue_if_empty put_pruned put_slot
  sweep_published-Queues s c b slot p = elim (prune-cases live p.version.replicas) [
    | inl (inl whole) ↦ rw (whole, sweep_published) (push-Queues b s s c refl refl refl refl)
    | inl (inr dead) ↦ elim (Bool-cases (is_some slot.active)) [
      | inl busy ↦ rw (dead, sweep_published, busy) (push-Queues b s s c refl refl refl refl)
      | inr idle ↦
          rw (dead, sweep_published, idle)
            (same-Queues b s (retire_published s c.slot slot p.version now) c refl refl refl refl)
    ]
    | inr mixed ↦
        let gone = stale_part live p.version.replicas in
        rw (mixed, sweep_published)
          (push-Queues b s (put_pruned s live gone c.slot slot p) c refl refl refl refl)
  ]

  -- The slot that a candidate stands for, and its version.
  found-Settled :
      (s : Catalog) (c : GcCandidate) (slot : Slot) (p : Published)
      → upgrade s c.slot ≡ some slot
      → slot.committed ≡ some p
      → (all_live live p.version.replicas ≡ true) ⊎ (is_some slot.active ≡ true)
      → Settled live s c
  found-Settled s c slot p there full fine other q there' full' _ =
      let one : slot ≡ other = some_inj.0 (sym there ∙ there') in
      let two : p ≡ q = some_inj.0 (sym full ∙ ap (λ x. x.committed) one ∙ full') in
      elim fine [
        | inl whole ↦ inl (subst (λ x. all_live live x.version.replicas ≡ true) two whole)
        | inr busy ↦ inr (subst (λ x. is_some x.active ≡ true) one busy)
      ]

  sweep_published-Slots :
      (s : Catalog) (c : GcCandidate) (b : Bool) (slot : Slot) (p : Published)
      → upgrade s c.slot ≡ some slot
      → slot.committed ≡ some p
      → Slots s (sweep_published s live c b slot p now) c
  unfolding sweep_published retire_published put_retired enqueue_if_empty put_pruned put_slot
  sweep_published-Slots s c b slot p there full = elim (prune-cases live p.version.replicas) [
    | inl (inl whole) ↦
        rw (whole, sweep_published)
          (inl (
            slots-push b c s,
            found-Settled s c slot p there full
                (inl (whole-all_live live p.version.replicas whole)),
          ))
    | inl (inr dead) ↦ elim (Bool-cases (is_some slot.active)) [
      | inl busy ↦
          rw (dead, sweep_published, busy)
            (inl (slots-push b c s, found-Settled s c slot p there full (inr busy)))
      | inr idle ↦
          rw (dead, sweep_published, idle)
            (inr (emptied_slot slot, refl, λ q held. absurd (ground (arith, held))))
    ]
    | inr mixed ↦
        let gone = stale_part live p.version.replicas in
        let t = put_pruned s live gone c.slot slot p in
        rw (mixed, sweep_published)
          (inr (
            pruned_slot live gone slot p,
            slots-push b c t,
            λ q held.
                subst (λ x. all_live live x.version.replicas ≡ true) (some_inj.0 held)
                  (mixed-all_live live p.version.replicas mixed),
          ))
  ]

  pub sweep_candidate-Queues :
      (s : Catalog) (c : GcCandidate) (b : Bool) → Queues b s (sweep_candidate s live c b now) c
  unfolding sweep_candidate
  sweep_candidate-Queues s c b = elim (Option-cases (upgrade s c.slot)) [
    | inl gone ↦ rw (gone, sweep_candidate) (same-Queues b s s c refl refl refl refl)
    | inr (slot, there) ↦ elim (Option-cases slot.committed) [
      | inl empty ↦ rw (there, sweep_candidate, empty) (same-Queues b s s c refl refl refl refl)
      | inr (p, full) ↦ elim (Bool-cases (eqb p.version.address c.version)) [
        | inr other ↦
            rw (there, sweep_candidate, full, other) (same-Queues b s s c refl refl refl refl)
        | inl mine ↦ rw (there, sweep_candidate, full, mine) (sweep_published-Queues s c b slot p)
      ]
    ]
  ]

  pub sweep_candidate-Slots :
      (s : Catalog) (c : GcCandidate) (b : Bool) → Slots s (sweep_candidate s live c b now) c
  unfolding sweep_candidate
  sweep_candidate-Slots s c b = elim (Option-cases (upgrade s c.slot)) [
    | inl gone ↦
        let same : sweep_candidate s live c b now ≡ s = ground (arith, gone) in
        inl (ap (λ x. x.slots) same, λ slot p there full is. absurd (ground (arith, gone, there)))
    | inr (slot, there) ↦ elim (Option-cases slot.committed) [
      | inl empty ↦
          let same : sweep_candidate s live c b now ≡ s = ground (arith, there, empty) in
          inl (
            ap (λ x. x.slots) same,
            λ x p there' full is.
                let one : slot ≡ x = some_inj.0 (sym there ∙ there') in
                absurd (ground (arith, empty, full, ap (λ y. y.committed) one)),
          )
      | inr (p, full) ↦ elim (Bool-cases (eqb p.version.address c.version)) [
        | inr other ↦
            let same : sweep_candidate s live c b now ≡ s = ground (arith, there, full, other) in
            inl (
              ap (λ x. x.slots) same,
              λ x q there' full' is.
                  let one : slot ≡ x = some_inj.0 (sym there ∙ there') in
                  let two : p ≡ q = some_inj.0 (sym full ∙ ap (λ y. y.committed) one ∙ full') in
                  absurd (ground (arith, other, is, ap (λ y. y.version.address) two)),
            )
        | inl mine ↦
            let same : sweep_published s live c b slot p now ≡ sweep_candidate s live c b now =
              ground (arith, there, full, mine) in
            subst (λ t. Slots s t c) same (sweep_published-Slots s c b slot p there full)
      ]
    ]
  ]
