-- ===== src/Object/Removal.antt =====
-- What removal without force is refused for: src/object/catalog/collector.rs.
use cakemaster.Base.{
  ℕ, ◌≤◌, false, Option, none, some, ◌≡◌, inl, inr, sym, arith, Option-cases, ok, nat_eq,
}
use cakemaster.Base.Table.{get}
use cakemaster.Object.Identity.{ObjectIdentity, object_identity_eq}
use cakemaster.Object.Catalog.Defs.{Published, Slot, Catalog}
use cakemaster.Object.Catalog.Collect.{
  late_access, retire_published, remove_published, remove_with_force,
}

-- What a removal that succeeds has found: an idle slot with a version that has no hard pin and no lease,
-- also not the one that a reader took at the last moment.
abbrev pub Removable : Catalog → ℕ → Option ℕ → ℕ → Slot → Published → Type 0
Removable s now late k slot p =
    (get k s.slots ≡ some slot)
    × (slot.active ≡ none)
    × (slot.committed ≡ some p)
    × (p.access.hard_pinned ≡ false)
    × (p.access.lease_word ≤ now)
    × ((late_access late p.access).lease_word ≤ now)

remove_published-inv :
    (s s' : Catalog) (k : ℕ) (slot : Slot) (p : Published) (now : ℕ) (late : Option ℕ)
    → remove_published s k slot p now false late ≡ (ok tt, s')
    → (p.access.hard_pinned ≡ false)
      × (p.access.lease_word ≤ now)
      × ((late_access late p.access).lease_word ≤ now)
      × (retire_published s k slot p.version now ≡ s')
unfolding remove_published
remove_published-inv s s' k slot p now late done = ground (arith, done)

-- A removal without force succeeds only for an indexed object, in a slot with no write in progress, that
-- has no hard pin and no lease at the time, also none that a reader takes between the checks and the last
-- look; and all it does is to retire that version.
pub remove_with_force-Removable :
    (s s' : Catalog) (identity : ObjectIdentity) (now : ℕ) (late : Option ℕ)
    → remove_with_force s identity now false late ≡ (ok tt, s')
    → (k : ℕ) × (slot : Slot) × (p : Published) × (get identity s.index ≡ some k)
      × Removable s now late k slot p
      × (s' ≡ retire_published s k slot p.version now)
unfolding remove_with_force
remove_with_force-Removable s s' identity now late done =
    elim (Option-cases (get identity s.index)) [
      | inl unknown ↦ absurd (ground (arith, done, unknown))
      | inr (k, found) ↦ elim (Option-cases (get k s.slots)) [
        | inl gone ↦ absurd (ground (arith, done, found, gone))
        | inr (slot, here) ↦ elim (Option-cases slot.active) [
          | inr (active, busy) ↦ absurd (ground (arith, done, found, here, busy))
          | inl idle ↦ elim (Option-cases slot.committed) [
            | inl empty ↦ absurd (ground (arith, done, found, here, idle, empty))
            | inr (p, full) ↦
                let ran : remove_published s k slot p now false late ≡ (ok tt, s') =
                  ground (arith, done, found, here, idle, full) in
                let (hard, lease, last, same) = remove_published-inv s s' k slot p now late ran in
                (k, slot, p, found, (here, idle, full, hard, lease, last), sym same)
          ]
        ]
      ]
    ]
