-- ===== src/Object/Survival.antt =====
-- What a whole step of the collector spares: src/object/catalog/collector.rs.
pub mod Loops
pub mod Step
use cakemaster.Base.{
  ℕ, zero, suc, ◌<◌, ◌-◌, Bool, true, false, ◌&&◌, ◌||◌, Option, none, some, List, [], ◌∷◌, ◌≡◌,
  ◌≢◌, ◌⊎◌, inl, inr, refl, sym, ◌∙◌, ap, arith, eqb, eqb_iff, is_some, ltb, leb, Bool-cases,
  Option-cases, List-cases, subst, nat_eq, min,
}
use mathlib.Core.Option.{some_inj}
use cakemaster.Base.Lists.{length}
use cakemaster.Base.Table.{get, insert, remove, get-insert_self, get-insert_other}
use cakemaster.Object.Access.{AccessControl, expire_soft_pin}
use cakemaster.Object.Identity.{object_identity_eq}
use cakemaster.Object.Replicas.{
  ReplicaSet, all_live, prune_invalidated, partition_by_liveness, prune_all_live, prune_all_stale,
  prune_mixed, stale_part,
}
use cakemaster.Object.Watermark.Defs.{CollectBudget}
use cakemaster.Object.Catalog.Counters.{less_one}
use cakemaster.Object.Catalog.Defs.{
  Version, Published, Slot, ActiveTransaction, Catalog, GcCandidate, SoftPinCandidate,
  PendingCandidate, EmptySlotCandidate, RetiredObject, put_slot, upgrade, has_committed,
}
use cakemaster.Object.Catalog.Queues.{queue_of, with_queue, remaining_of, with_remaining}
use cakemaster.Object.Catalog.Write.{
  enqueue_if_empty, retire_aborted_pending, request_liveness_if, abort_staged, base_is_invalid,
}
use cakemaster.Object.Catalog.Collect.{
  with_access, emptied_slot, put_retired, retire_published, push_candidate, contains, abort_pending,
  expire_candidate, expire_pending, reclaim_one, reclaim, clean_candidate, clean_empty_slots,
  expire_soft_pin_candidate, expire_soft_pins, evict,
}
use cakemaster.Object.Catalog.Sweep.{
  begin_if_requested, sweep_is_incomplete, pruned_slot, put_pruned, sweep_published,
  sweep_candidate, sweep_queue, retire_invalidated_published,
}
use cakemaster.Object.Catalog.Scoped.{
  Debts, ReclaimTarget, classify_scoped_candidate, evict_scoped_candidate, ScopedState, all_paid,
  evict_scoped_queue, start_scoped, evict_scoped,
}
use cakemaster.Object.Catalog.Cycle.{
  Surroundings, scoped_targets, reclaim_rounds, reclaim_within, evict_both, sweep_and_evict,
  collect_rest, collect_step,
}
use cakemaster.Object.Ledger.Write.{get-upgrade, phase-cases}
use cakemaster.Object.Ledger.Sweep.{prune-cases, classified}
use cakemaster.Object.Eviction.{
  Shielded, Keeps, Keeps-slots, Keeps-push, evict_candidate-Keeps, evict-Keeps,
}

module _ (now k : ℕ) (v : Version) where
  -- The version in a slot, and shielded.
  abbrev Holds : Slot → Type 0
  Holds slot = (p : Published) × (slot.committed ≡ some p) × (p.version ≡ v) × Shielded now p.access

  -- A slot that holds the version still may change.
  Keeps-put :
      (s : Catalog) (j : ℕ) (slot slot' : Slot)
      → get j s.slots ≡ some slot
      → (Holds slot → Holds slot')
      → Keeps now k v s
      → Keeps now k v (put_slot s j slot')
  unfolding put_slot
  Keeps-put s j slot slot' there still (kept, q, here, full, is, shield) =
      elim (Bool-cases (eqb k j)) [
        | inr apart ↦
            let other : k ≢ j = λ same. absurd (ground (arith, same, apart)) in
            (kept, q, get-insert_other j k slot' s.slots other ∙ here, full, is, shield)
        | inl same ↦
            let e : k ≡ j = (eqb_iff k j).0 same in
            let one : kept ≡ slot =
              some_inj.0 (sym here ∙ subst (λ i. get i s.slots ≡ some slot) (sym e) there) in
            let (p, full', is', shield') = still (subst Holds one (q, full, is, shield)) in
            (
              slot',
              p,
              subst (λ i. get i (insert j slot' s.slots) ≡ some slot') (sym e)
                  (get-insert_self j slot' s.slots),
              full',
              is',
              shield',
            )
      ]

  -- A slot without the version may change in any way.
  Keeps-put_other :
      (s : Catalog) (j : ℕ) (slot slot' : Slot)
      → get j s.slots ≡ some slot
      → (Holds slot → ⊥)
      → Keeps now k v s
      → Keeps now k v (put_slot s j slot')
  Keeps-put_other s j slot slot' there bare = Keeps-put s j slot slot' there (λ h. absurd (bare h))

  expire_soft_pin-Shielded :
      (a : AccessControl) (deadline : ℕ)
      → Shielded now a
      → Shielded now (expire_soft_pin a deadline now).1
  unfolding expire_soft_pin
  expire_soft_pin-Shielded a deadline h = elim (Bool-cases (leb deadline now)) [
    | inr early ↦ rw early h
    | inl late ↦ elim (Bool-cases (eqb a.soft_pin_word deadline)) [
      | inl mine ↦ rw (late, mine) h
      | inr other ↦ rw (late, other) h
    ]
  ]

  expire_soft_pin_candidate-Keeps :
      (s : Catalog) (c : SoftPinCandidate)
      → Keeps now k v s
      → Keeps now k v (expire_soft_pin_candidate s c now)
  unfolding expire_soft_pin_candidate
  expire_soft_pin_candidate-Keeps s c keeps = elim (Option-cases (upgrade s c.candidate.slot)) [
    | inl gone ↦ rw (gone, expire_soft_pin_candidate) keeps
    | inr (slot, there) ↦ elim (Option-cases slot.committed) [
      | inl empty ↦ rw (there, expire_soft_pin_candidate, empty) keeps
      | inr (p, full) ↦ elim (Bool-cases (eqb p.version.address c.candidate.version)) [
        | inr other ↦ rw (there, expire_soft_pin_candidate, full, other) keeps
        | inl mine ↦ elim (Bool-cases (ltb now c.deadline)) [
          | inl early ↦ rw (there, expire_soft_pin_candidate, full, mine, early) keeps
          | inr late ↦
              let a = (expire_soft_pin p.access c.deadline now).1 in
              rw (there, expire_soft_pin_candidate, full, mine, late)
                (Keeps-put s c.candidate.slot slot (with_access slot p a)
                  (get-upgrade s c.candidate.slot there)
                  (λ (q, held, is, shield).
                    let one : q ≡ p = some_inj.0 (sym held ∙ full) in
                    (
                      record p { access = a },
                      refl,
                      subst (λ x. x.version ≡ v) one is,
                      expire_soft_pin-Shielded p.access c.deadline
                          (subst (λ x. Shielded now x.access) one shield),
                    ))
                  keeps)
        ]
      ]
    ]
  ]

  slots-abort_staged :
      (s : Catalog) (live : ℕ → Bool) (j : ℕ) (slot : Slot) (active : ActiveTransaction)
      (pending : Version)
      → (abort_staged s live j slot active pending now).slots
        ≡ (put_slot s j (record slot { active = none })).slots
  unfolding abort_staged request_liveness_if enqueue_if_empty retire_aborted_pending
  slots-abort_staged s live j slot active pending = elim (Bool-cases (has_committed slot)) [
    | inl full ↦ rw full refl
    | inr empty ↦ rw empty refl
  ]

  abort_pending-Keeps :
      (s : Catalog) (live : ℕ → Bool) (c : PendingCandidate)
      → Keeps now k v s
      → Keeps now k v (abort_pending s live c now).0
  unfolding abort_pending
  abort_pending-Keeps s live c keeps = elim (Option-cases (upgrade s c.slot)) [
    | inl gone ↦ rw (gone, abort_pending) keeps
    | inr (slot, there) ↦ elim (Option-cases slot.active) [
      | inl idle ↦ rw (there, abort_pending, idle) keeps
      | inr (active, busy) ↦ elim (phase-cases active.phase) [
        | inl early ↦ rw (there, abort_pending, busy, early) keeps
        | inr (pending, last) ↦
            elim (Bool-cases
              (eqb active.id c.transaction_id && eqb pending.address c.pending.address)) [
                | inr other ↦ rw (there, abort_pending, busy, last, other) keeps
                | inl mine ↦
                    let t = abort_staged s live c.slot slot active pending now in
                    let idle_slot : Slot = record slot { active = none } in
                    rw (there, abort_pending, busy, last, mine)
                      (Keeps-slots now k v (put_slot s c.slot idle_slot) t
                        (slots-abort_staged s live c.slot slot active pending)
                        (Keeps-put s c.slot slot idle_slot (get-upgrade s c.slot there) (λ h. h)
                          keeps))
              ]
      ]
    ]
  ]

  expire_candidate-Keeps :
      (s : Catalog) (live held : ℕ → Bool) (c : PendingCandidate)
      → Keeps now k v s
      → Keeps now k v (expire_candidate s live held c now)
  unfolding expire_candidate
  expire_candidate-Keeps s live held c keeps = elim (Bool-cases (held c.pending.address)) [
    | inr gone ↦ rw gone keeps
    | inl there ↦ elim (Bool-cases (contains c.pending.address s.published)) [
      | inl done ↦ rw (there, done) keeps
      | inr pending ↦ elim (Bool-cases (all_live live c.pending.replicas && ltb now c.deadline)) [
        | inl early ↦ rw (there, pending, early) keeps
        | inr late ↦ rw (there, pending, late) (abort_pending-Keeps s live c keeps)
      ]
    ]
  ]

  -- A slot that is cleaned away holds nothing.
  clean_candidate-Keeps :
      (s : Catalog) (c : EmptySlotCandidate)
      → Keeps now k v s
      → Keeps now k v (clean_candidate s c now)
  unfolding clean_candidate
  clean_candidate-Keeps s c keeps = elim (Bool-cases (ltb now c.deadline)) [
    | inl early ↦ rw early keeps
    | inr late ↦ elim (Option-cases (upgrade s c.slot)) [
      | inl gone ↦ rw (late, gone, clean_candidate) keeps
      | inr (slot, there) ↦ elim (Bool-cases (has_committed slot || is_some slot.active)) [
        | inl used ↦ rw (late, there, clean_candidate, used) keeps
        | inr idle ↦ elim (Option-cases (get c.identity s.index)) [
          | inl unknown ↦ rw (late, there, clean_candidate, idle, unknown) keeps
          | inr (j, found) ↦ elim (Bool-cases (eqb j c.slot)) [
            | inr other ↦ rw (late, there, clean_candidate, idle, found, other) keeps
            | inl mine ↦
                let dropped : Slot = record slot { dropped = true } in
                rw (late, there, clean_candidate, idle, found, mine)
                  (Keeps-slots now k v (put_slot s c.slot dropped)
                    (record (put_slot s c.slot dropped) {
                      index = remove c.identity s.index;
                      slot_count = less_one s.slot_count;
                    })
                    refl
                    (Keeps-put s c.slot slot dropped (get-upgrade s c.slot there) (λ h. h) keeps))
          ]
        ]
      ]
    ]
  ]

  reclaim_one-Keeps :
      (s : Catalog) (r : RetiredObject) (unique : Bool)
      → Keeps now k v s
      → Keeps now k v (reclaim_one s r now unique)
  unfolding reclaim_one
  reclaim_one-Keeps s r unique keeps = elim (Bool-cases (ltb now r.reclaim_after)) [
    | inl early ↦ rw early keeps
    | inr late ↦ elim (Bool-cases unique) [
      | inr shared ↦ rw (late, shared) keeps
      | inl sole ↦ rw (late, sole) keeps
    ]
  ]
