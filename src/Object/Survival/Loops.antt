-- ===== src/Object/Survival/Loops.antt =====
-- The loops of the collector and a version that is pinned or leased: src/object/catalog/collector.rs.
use cakemaster.Base.{
  ℕ, zero, suc, ◌-◌, Bool, true, false, Option, some, List, ◌≡◌, inl, inr, refl, sym, ◌∙◌, ap,
  arith, eqb, is_some, Bool-cases, Option-cases, List-cases, subst, nat_eq, min,
}
use mathlib.Core.Option.{some_inj}
use cakemaster.Base.Table.{get}
use cakemaster.Object.Replicas.{
  all_live, prune_invalidated, prune_all_stale, prune_mixed, stale_part,
}
use cakemaster.Object.Catalog.Defs.{
  Version, Published, Slot, Catalog, GcCandidate, put_slot, upgrade,
}
use cakemaster.Object.Catalog.Queues.{queue_of, with_queue, remaining_of, with_remaining}
use cakemaster.Object.Catalog.Write.{enqueue_if_empty}
use cakemaster.Object.Catalog.Collect.{
  emptied_slot, put_retired, retire_published, expire_candidate, expire_pending, reclaim_one,
  reclaim, clean_candidate, clean_empty_slots, expire_soft_pin_candidate, expire_soft_pins,
}
use cakemaster.Object.Catalog.Sweep.{
  pruned_slot, put_pruned, sweep_published, sweep_candidate, sweep_queue,
  retire_invalidated_published,
}
use cakemaster.Object.Catalog.Scoped.{
  Debts, classify_scoped_candidate, evict_scoped_candidate, ScopedState, all_paid,
  evict_scoped_queue,
}
use cakemaster.Object.Ledger.Write.{get-upgrade}
use cakemaster.Object.Ledger.Sweep.{classified, prune-cases}
use cakemaster.Object.Eviction.{Keeps, Keeps-slots, Keeps-push, evict_candidate-Keeps}
use cakemaster.Object.Survival.{
  Holds, Keeps-put_other, expire_soft_pin_candidate-Keeps, expire_candidate-Keeps,
  clean_candidate-Keeps, reclaim_one-Keeps,
}

module _ (now k : ℕ) (v : Version) where
  pub expire_soft_pins-Keeps :
      (n : ℕ) (s : Catalog) → Keeps now k v s → Keeps now k v (expire_soft_pins n s now)
  unfolding expire_soft_pins
  expire_soft_pins-Keeps zero s keeps = keeps
  expire_soft_pins-Keeps (suc n) s keeps = elim (List-cases s.soft_pins) [
    | inl empty ↦ rw (empty, expire_soft_pins) keeps
    | inr (c, rest, queue) ↦
        let taken : Catalog = record s { soft_pins = rest } in
        rw (queue, expire_soft_pins)
          (expire_soft_pins-Keeps n (expire_soft_pin_candidate taken c now)
            (expire_soft_pin_candidate-Keeps now k v taken c keeps))
  ]

  pub expire_pending-Keeps :
      (n : ℕ) (s : Catalog) (live held : ℕ → Bool)
      → Keeps now k v s
      → Keeps now k v (expire_pending n s live held now)
  unfolding expire_pending
  expire_pending-Keeps zero s live held keeps = keeps
  expire_pending-Keeps (suc n) s live held keeps = elim (List-cases s.pending_candidates) [
    | inl empty ↦ rw (empty, expire_pending) keeps
    | inr (c, rest, queue) ↦
        let taken : Catalog = record s { pending_candidates = rest } in
        rw (queue, expire_pending)
          (expire_pending-Keeps n (expire_candidate taken live held c now) live held
            (expire_candidate-Keeps now k v taken live held c keeps))
  ]

  pub reclaim-Keeps :
      (n : ℕ) (s : Catalog) (unique : ℕ → Bool)
      → Keeps now k v s
      → Keeps now k v (reclaim n s now unique)
  unfolding reclaim
  reclaim-Keeps zero s unique keeps = keeps
  reclaim-Keeps (suc n) s unique keeps = elim (List-cases s.retired) [
    | inl empty ↦ rw (empty, reclaim) keeps
    | inr (r, rest, queue) ↦
        let taken : Catalog = record s { retired = rest } in
        rw (queue, reclaim)
          (reclaim-Keeps n (reclaim_one taken r now (unique r.version.address)) unique
            (reclaim_one-Keeps now k v taken r (unique r.version.address) keeps))
  ]

  pub clean_empty_slots-Keeps :
      (n : ℕ) (s : Catalog) → Keeps now k v s → Keeps now k v (clean_empty_slots n s now)
  unfolding clean_empty_slots
  clean_empty_slots-Keeps zero s keeps = keeps
  clean_empty_slots-Keeps (suc n) s keeps = elim (List-cases s.empty_slots) [
    | inl empty ↦ rw (empty, clean_empty_slots) keeps
    | inr (c, rest, queue) ↦
        let taken : Catalog = record s { empty_slots = rest } in
        rw (queue, clean_empty_slots)
          (clean_empty_slots-Keeps n (clean_candidate taken c now)
            (clean_candidate-Keeps now k v taken c keeps))
  ]

  Keeps-with_queue :
      (b : Bool) (q : List GcCandidate) (s : Catalog)
      → Keeps now k v s
      → Keeps now k v (with_queue b q s)
  Keeps-with_queue true q s keeps = keeps
  Keeps-with_queue false q s keeps = keeps

  Keeps-with_remaining :
      (b : Bool) (n : ℕ) (s : Catalog) → Keeps now k v s → Keeps now k v (with_remaining b n s)
  Keeps-with_remaining true n s keeps = keeps
  Keeps-with_remaining false n s keeps = keeps

  slots-retire_published :
      (s : Catalog) (j : ℕ) (slot : Slot) (old : Version)
      → (retire_published s j slot old now).slots ≡ (put_slot s j (emptied_slot slot)).slots
  unfolding retire_published put_retired enqueue_if_empty
  slots-retire_published s j slot old = refl

  -- The sweep finds every replica of the version live, and takes away other versions only.
  module _ (live : ℕ → Bool) (alive : all_live live v.replicas ≡ true) where
    other_version :
        (slot : Slot) (p : Published)
        → slot.committed ≡ some p
        → (all_live live p.version.replicas ≡ true → ⊥)
        → Holds now k v slot
        → ⊥
    other_version slot p full dead (q, held, is, _) =
        let one : q ≡ p = some_inj.0 (sym held ∙ full) in
        dead (subst (λ x. all_live live x.replicas ≡ true) (sym is ∙ ap (λ x. x.version) one) alive)

    dead-stale :
        (p : Published)
        → prune_invalidated live p.version.replicas ≡ prune_all_stale
        → all_live live p.version.replicas ≡ true
        → ⊥
    unfolding prune_invalidated
    dead-stale p dead whole = absurd (ground (arith, dead, whole))

    dead-mixed :
        (p : Published)
        → prune_invalidated live p.version.replicas
          ≡ prune_mixed (stale_part live p.version.replicas)
        → all_live live p.version.replicas ≡ true
        → ⊥
    unfolding prune_invalidated
    dead-mixed p mixed whole = absurd (ground (arith, mixed, whole))

    sweep_published-Keeps :
        (s : Catalog) (c : GcCandidate) (b : Bool) (slot : Slot) (p : Published)
        → get c.slot s.slots ≡ some slot
        → slot.committed ≡ some p
        → Keeps now k v s
        → Keeps now k v (sweep_published s live c b slot p now)
    unfolding sweep_published put_pruned
    sweep_published-Keeps s c b slot p here full keeps =
        let gone = stale_part live p.version.replicas in
        elim (prune-cases live p.version.replicas) [
          | inl (inl whole) ↦ rw (whole, sweep_published) (Keeps-push now k v s c b keeps)
          | inl (inr dead) ↦ elim (Bool-cases (is_some slot.active)) [
            | inl busy ↦ rw (dead, sweep_published, busy) (Keeps-push now k v s c b keeps)
            | inr idle ↦
                let empty = emptied_slot slot in
                rw (dead, sweep_published, idle)
                  (Keeps-slots now k v (put_slot s c.slot empty)
                    (retire_published s c.slot slot p.version now)
                    (slots-retire_published s c.slot slot p.version)
                    (Keeps-put_other now k v s c.slot slot empty here
                      (other_version slot p full (dead-stale p dead)) keeps))
          ]
          | inr mixed ↦
              let t = put_pruned s live gone c.slot slot p in
              let slot' = pruned_slot live gone slot p in
              rw (mixed, sweep_published)
                (Keeps-push now k v t c b (
                  Keeps-slots now k v (put_slot s c.slot slot') t refl (
                    Keeps-put_other now k v s c.slot slot slot' here
                      (other_version slot p full (dead-mixed p mixed)) keeps)))
        ]

    sweep_candidate-Keeps :
        (s : Catalog) (c : GcCandidate) (b : Bool)
        → Keeps now k v s
        → Keeps now k v (sweep_candidate s live c b now)
    unfolding sweep_candidate
    sweep_candidate-Keeps s c b keeps = elim (Option-cases (upgrade s c.slot)) [
      | inl gone ↦ rw (gone, sweep_candidate) keeps
      | inr (slot, there) ↦ elim (Option-cases slot.committed) [
        | inl empty ↦ rw (there, sweep_candidate, empty) keeps
        | inr (p, full) ↦ elim (Bool-cases (eqb p.version.address c.version)) [
          | inr other ↦ rw (there, sweep_candidate, full, other) keeps
          | inl mine ↦
              rw (there, sweep_candidate, full, mine)
                (sweep_published-Keeps s c b slot p (get-upgrade s c.slot there) full keeps)
        ]
      ]
    ]

    sweep_queue-Keeps :
        (n : ℕ) (s : Catalog) (b : Bool)
        → Keeps now k v s
        → Keeps now k v (sweep_queue n s live b now).0
    unfolding sweep_queue
    sweep_queue-Keeps zero s b keeps = keeps
    sweep_queue-Keeps (suc n) s b keeps = elim (List-cases (queue_of b s)) [
      | inl empty ↦ rw (empty, sweep_queue) (Keeps-with_remaining b 0 s keeps)
      | inr (c, rest, queue) ↦
          let popped = with_queue b rest s in
          let taken = with_remaining b (remaining_of b s - 1) popped in
          rw (queue, sweep_queue)
            (sweep_queue-Keeps n (sweep_candidate taken live c b now) b (
              sweep_candidate-Keeps taken c b (
                Keeps-with_remaining b (remaining_of b s - 1) popped
                  (Keeps-with_queue b rest s keeps))))
    ]

    pub retire_invalidated_published-Keeps :
        (s : Catalog) (budget : ℕ)
        → Keeps now k v s
        → Keeps now k v (retire_invalidated_published s live now budget).0
    unfolding retire_invalidated_published
    retire_invalidated_published-Keeps s budget keeps =
        let first = sweep_queue (min s.young_remaining budget) s live false now in
        sweep_queue-Keeps (min first.0.protected_remaining (budget - first.1)) first.0 true
          (sweep_queue-Keeps (min s.young_remaining budget) s false keeps)

  evict_scoped_candidate-Keeps :
      (s : Catalog) (debts : Debts) (c : GcCandidate) (b : Bool) (late : Option ℕ)
      → Keeps now k v s
      → Keeps now k v (evict_scoped_candidate s debts c b now late).0
  unfolding evict_scoped_candidate
  evict_scoped_candidate-Keeps s debts c b late keeps =
      elim (classified (classify_scoped_candidate s c debts)) [
        | inl gone ↦ rw (gone, evict_scoped_candidate) keeps
        | inr (inl other) ↦ rw (other, evict_scoped_candidate) (Keeps-push now k v s c b keeps)
        | inr (inr (w, is, mine)) ↦
            rw (mine, evict_scoped_candidate) (evict_candidate-Keeps now k v s c b late keeps)
      ]

  pub evict_scoped_queue-Keeps :
      (n : ℕ) (t : ScopedState) (b : Bool) (late : ℕ → Option ℕ)
      → Keeps now k v t.catalog
      → Keeps now k v (evict_scoped_queue n t b now late).catalog
  unfolding evict_scoped_queue
  evict_scoped_queue-Keeps zero t b late keeps = keeps
  evict_scoped_queue-Keeps (suc n) t b late keeps = elim (Bool-cases (all_paid t.debts)) [
    | inl paid ↦ rw paid keeps
    | inr owed ↦ elim (List-cases (queue_of b t.catalog)) [
      | inl empty ↦ rw (owed, empty, evict_scoped_queue) keeps
      | inr (c, rest, queue) ↦
          let popped = with_queue b rest t.catalog in
          let round = evict_scoped_candidate popped t.debts c b now (late c.version) in
          rw (owed, queue, evict_scoped_queue)
            (evict_scoped_queue-Keeps n
              (record { catalog = round.0; debts = round.1; scanned = suc t.scanned }) b late
              (evict_scoped_candidate-Keeps popped t.debts c b (late c.version)
                (Keeps-with_queue b rest t.catalog keeps)))
    ]
  ]
