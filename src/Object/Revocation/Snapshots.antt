-- ===== src/Object/Revocation/Snapshots.antt =====
-- The staged writes that the queue of the collector knows, and an abort: src/object/catalog/collector.rs.
use cakemaster.Base.{
  ℕ, Bool, true, ◌&&◌, Option, none, some, List, [], ◌≡◌, inl, inr, refl, sym, ◌∙◌, ap, arith, eqb,
  eqb_iff, if◌then◌else◌, nat_eq, Bool-cases, Option-cases, subst,
}
use mathlib.Core.Option.{some_inj}
use cakemaster.Base.Table.{get, get-insert}
use cakemaster.Object.Identity.{WriteOwner, write_owner_eq}
use cakemaster.Object.Catalog.Defs.{
  Version, Slot, ActiveTransaction, staged, Catalog, PendingCandidate, put_slot, upgrade,
  has_committed,
}
use cakemaster.Object.Catalog.Write.{
  enqueue_if_empty, retire_aborted_pending, request_liveness_if, abort_staged,
}
use cakemaster.Object.Catalog.Collect.{abort_pending, contains}
use cakemaster.Object.Catalog.Revoke.{has_owner, pending_snapshot}
use cakemaster.Object.Ledger.Write.{get-upgrade, phase-cases}

-- What is left of a staged write when the sessions of the owners have ended.
abbrev pub surviving : List WriteOwner → Option WriteOwner → Option WriteOwner
surviving owners none = none
surviving owners (some o) = if has_owner o owners then none else some o

pub surviving-surviving :
    (owners : List WriteOwner) (o : Option WriteOwner)
    → surviving owners (surviving owners o) ≡ surviving owners o
surviving-surviving owners none = refl
surviving-surviving owners (some o) = elim (Bool-cases (has_owner o owners)) [
  | inl ended ↦ rw ended refl
  | inr lasts ↦ rw (lasts, lasts) refl
]

-- The staged writes are read from the slots and the published addresses.
pub snapshot-same :
    (s t : Catalog) (c : PendingCandidate)
    → t.slots ≡ s.slots
    → t.published ≡ s.published
    → pending_snapshot t c ≡ pending_snapshot s c
unfolding pending_snapshot
snapshot-same s t c slots published = rw (slots, published) refl

-- What an abort leaves of the catalog.
abort_staged-kept :
    (s : Catalog) (live : ℕ → Bool) (j : ℕ) (slot : Slot) (active : ActiveTransaction)
    (pending : Version) (now : ℕ)
    → ((abort_staged s live j slot active pending now).slots
        ≡ (put_slot s j (record slot { active = none })).slots)
      × ((abort_staged s live j slot active pending now).published ≡ s.published)
      × ((abort_staged s live j slot active pending now).pending_candidates ≡ s.pending_candidates)
unfolding abort_staged request_liveness_if enqueue_if_empty retire_aborted_pending put_slot
abort_staged-kept s live j slot active pending now = elim (Bool-cases (has_committed slot)) [
  | inl full ↦ rw full (refl, refl, refl)
  | inr empty ↦ rw empty (refl, refl, refl)
]

-- A slot that is there is there after its transaction was taken out.
upgrade-emptied :
    (s t : Catalog) (j i : ℕ) (slot : Slot)
    → upgrade s j ≡ some slot
    → t.slots ≡ (put_slot s j (record slot { active = none })).slots
    → upgrade t i ≡ (if eqb j i then some (record slot { active = none }) else upgrade s i)
unfolding put_slot
upgrade-emptied s t j i slot there slots =
    let there_before = get-upgrade s j there in
    let found = get-insert j i (record slot { active = none }) s.slots in
    ground (arith, there, there_before, found, ap (get i) slots)

-- A slot whose transaction was taken out has no staged write; the others are as they were.
snapshot-emptied :
    (s t : Catalog) (j : ℕ) (slot : Slot) (d : PendingCandidate)
    → upgrade s j ≡ some slot
    → t.slots ≡ (put_slot s j (record slot { active = none })).slots
    → t.published ≡ s.published
    → pending_snapshot t d ≡ (if eqb j d.slot then none else pending_snapshot s d)
unfolding pending_snapshot put_slot
snapshot-emptied s t j slot d there slots published =
    let found = upgrade-emptied s t j d.slot slot there slots in
    elim (Bool-cases (eqb j d.slot)) [
      | inl same ↦ rw published (ground (arith, found, same))
      | inr other ↦ rw published (ground (arith, found, other))
    ]

-- The staged write that a candidate is.
snapshot-inv :
    (s : Catalog) (c : PendingCandidate) {o : WriteOwner}
    → pending_snapshot s c ≡ some o
    → (slot : Slot) × (active : ActiveTransaction) × (pending : Version) × (upgrade s c.slot
        ≡ some slot)
      × (slot.active ≡ some active)
      × (active.phase ≡ staged pending)
      × ((eqb active.id c.transaction_id && eqb pending.address c.pending.address) ≡ true)
      × (active.owner ≡ o)
unfolding pending_snapshot
snapshot-inv s c found = elim (Bool-cases (contains c.pending.address s.published)) [
  | inl done ↦ absurd (ground (arith, found, done))
  | inr unpublished ↦ elim (Option-cases (upgrade s c.slot)) [
    | inl gone ↦ absurd (ground (arith, found, unpublished, gone))
    | inr (slot, there) ↦ elim (Option-cases slot.active) [
      | inl idle ↦ absurd (ground (arith, found, unpublished, there, idle))
      | inr (active, busy) ↦ elim (phase-cases active.phase) [
        | inl early ↦ absurd (ground (arith, found, unpublished, there, busy, early))
        | inr (pending, last) ↦
            elim (Bool-cases
              (eqb active.id c.transaction_id && eqb pending.address c.pending.address)) [
                | inr other ↦ absurd (ground (arith, found, unpublished, there, busy, last, other))
                | inl mine ↦ (
                  slot,
                  active,
                  pending,
                  there,
                  busy,
                  last,
                  mine,
                  ground (arith, found, unpublished, there, busy, last, mine),
                )
              ]
      ]
    ]
  ]
]

-- Two candidates of one slot are writes of one owner, where both are staged.
pub snapshot-one_owner :
    (s : Catalog) (c d : PendingCandidate) {o p : WriteOwner}
    → pending_snapshot s c ≡ some o
    → pending_snapshot s d ≡ some p
    → eqb c.slot d.slot ≡ true
    → p ≡ o
snapshot-one_owner s c d first second same =
    let (slot, active, _, there, busy, _, _, owner) = snapshot-inv s c first in
    let (slot', active', _, there', busy', _, _, owner') = snapshot-inv s d second in
    let e : c.slot ≡ d.slot = (eqb_iff c.slot d.slot).0 same in
    let one : slot' ≡ slot =
      some_inj.0 (sym there' ∙ subst (λ i. upgrade s i ≡ some slot) e there) in
    let two : active' ≡ active = some_inj.0 (sym busy' ∙ ap (λ x. x.active) one ∙ busy) in
    sym owner' ∙ ap (λ x. x.owner) two ∙ owner

-- The abort of a staged write takes away what is staged in its slot.
pub abort_pending-snapshot :
    (s : Catalog) (live : ℕ → Bool) (c d : PendingCandidate) (now : ℕ) {o : WriteOwner}
    → pending_snapshot s c ≡ some o
    → pending_snapshot (abort_pending s live c now).0 d
      ≡ (if eqb c.slot d.slot then none else pending_snapshot s d)
unfolding abort_pending
abort_pending-snapshot s live c d now found =
    let (slot, active, pending, there, busy, last, mine, _) = snapshot-inv s c found in
    let t = abort_staged s live c.slot slot active pending now in
    let kept = abort_staged-kept s live c.slot slot active pending now in
    let same : t ≡ (abort_pending s live c now).0 = ground (arith, there, busy, last, mine) in
    subst (λ u. pending_snapshot u d ≡ (if eqb c.slot d.slot then none else pending_snapshot s d))
      same (snapshot-emptied s t c.slot slot d there kept.0 kept.1)

pub abort_pending-queue :
    (s : Catalog) (live : ℕ → Bool) (c : PendingCandidate) (now : ℕ) {o : WriteOwner}
    → pending_snapshot s c ≡ some o
    → (abort_pending s live c now).0.pending_candidates ≡ s.pending_candidates
unfolding abort_pending
abort_pending-queue s live c now found =
    let (slot, active, pending, there, busy, last, mine, _) = snapshot-inv s c found in
    let t = abort_staged s live c.slot slot active pending now in
    let same : t ≡ (abort_pending s live c now).0 = ground (arith, there, busy, last, mine) in
    subst (λ u. u.pending_candidates ≡ s.pending_candidates) same
      (abort_staged-kept s live c.slot slot active pending now).2

pub surviving-nobody : (o : Option WriteOwner) → surviving [] o ≡ o
surviving-nobody none = refl
surviving-nobody (some o) = refl
