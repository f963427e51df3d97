-- ===== src/Object/Eviction.antt =====
-- What the eviction of the collector spares: src/object/catalog/collector.rs.
use cakemaster.Base.{
  ℕ, zero, suc, ◌<◌, ◌-◌, Bool, true, false, ◌||◌, Option, none, some, ◌≡◌, ◌≢◌, ◌⊎◌, inl, inr,
  refl, sym, ◌∙◌, ap, arith, eqb, eqb_iff, is_some, Bool-cases, Option-cases, List-cases, subst,
  nat_eq, min,
}
use mathlib.Core.Option.{some_inj}
use cakemaster.Base.Lists.{length}
use cakemaster.Base.Table.{get, insert, get-insert_self, get-insert_other}
use cakemaster.Object.Access.{AccessControl, is_leased}
use cakemaster.Object.Catalog.Defs.{
  Version, Published, Slot, Catalog, GcCandidate, put_slot, upgrade,
}
use cakemaster.Object.Catalog.Write.{enqueue_if_empty}
use cakemaster.Object.Catalog.Collect.{
  with_access, emptied_slot, put_retired, retire_published, late_access, push_candidate, pinned,
  evict_published, evict_candidate, evict_queue, reclaim_target_is_covered, evict,
}
use cakemaster.Object.Ledger.Write.{get-upgrade}

-- A hard pin, or a lease that lasts.
abbrev pub Shielded : ℕ → AccessControl → Type 0
Shielded now a = (a.hard_pinned ≡ true) ⊎ (now < a.lease_word)

-- The version is published in the slot `k`, and shielded.
abbrev pub Keeps : ℕ → ℕ → Version → Catalog → Type 0
Keeps now k v s =
    (slot : Slot) × (p : Published) × (get k s.slots ≡ some slot)
    × (slot.committed ≡ some p)
    × (p.version ≡ v)
    × Shielded now p.access

module _ (now k : ℕ) (v : Version) where
  -- Only the slots are read.
  pub Keeps-slots : (s t : Catalog) → t.slots ≡ s.slots → Keeps now k v s → Keeps now k v t
  Keeps-slots s t same (slot, p, here, full, is, shield) =
      (slot, p, subst (λ m. get k m ≡ some slot) (sym same) here, full, is, shield)

  pub Keeps-push :
      (s : Catalog) (c : GcCandidate) (b : Bool)
      → Keeps now k v s
      → Keeps now k v (push_candidate b c s)
  Keeps-push s c true keeps = keeps
  Keeps-push s c false keeps = keeps

  -- Another slot may change.
  Keeps-other :
      (s : Catalog) (j : ℕ) (slot : Slot)
      → k ≢ j
      → Keeps now k v s
      → Keeps now k v (put_slot s j slot)
  unfolding put_slot
  Keeps-other s j slot apart (kept, p, here, full, is, shield) =
      (kept, p, get-insert_other j k slot s.slots apart ∙ here, full, is, shield)

  -- New cells that are as good.
  Keeps-with_access :
      (s : Catalog) (j : ℕ) (slot : Slot) (p : Published) (a : AccessControl)
      → get j s.slots ≡ some slot
      → slot.committed ≡ some p
      → (Shielded now p.access → Shielded now a)
      → Keeps now k v s
      → Keeps now k v (put_slot s j (with_access slot p a))
  unfolding put_slot
  Keeps-with_access s j slot p a there held still (kept, q, here, full, is, shield) =
      elim (Bool-cases (eqb k j)) [
        | inr apart ↦
            Keeps-other s j (with_access slot p a) (λ same. absurd (ground (arith, same, apart)))
              (kept, q, here, full, is, shield)
        | inl same ↦
            let e : k ≡ j = (eqb_iff k j).0 same in
            let one : kept ≡ slot =
              some_inj.0 (sym here ∙ subst (λ i. get i s.slots ≡ some slot) (sym e) there) in
            let two : q ≡ p = some_inj.0 (sym full ∙ ap (λ x. x.committed) one ∙ held) in
            (
              with_access slot p a,
              record p { access = a },
              subst
                  (λ i.
                    get i (insert j (with_access slot p a) s.slots) ≡ some (with_access slot p a))
                  (sym e) (get-insert_self j (with_access slot p a) s.slots),
              refl,
              subst (λ x. x.version ≡ v) two is,
              still (subst (λ x. Shielded now x.access) two shield),
            )
      ]

  -- Only an unshielded version is retired, so it is another.
  Keeps-retire :
      (s : Catalog) (j : ℕ) (slot : Slot) (p : Published)
      → get j s.slots ≡ some slot
      → slot.committed ≡ some p
      → (Shielded now p.access → ⊥)
      → Keeps now k v s
      → Keeps now k v (retire_published s j slot p.version now)
  unfolding retire_published put_retired put_slot enqueue_if_empty
  Keeps-retire s j slot p there held bare (kept, q, here, full, is, shield) =
      let apart : k ≢ j = λ e.
        let one : kept ≡ slot =
          some_inj.0 (sym here ∙ subst (λ i. get i s.slots ≡ some slot) (sym e) there) in
        let two : q ≡ p = some_inj.0 (sym full ∙ ap (λ x. x.committed) one ∙ held) in
        bare (subst (λ x. Shielded now x.access) two shield) in
      let kept_there = get-insert_other j k (emptied_slot slot) s.slots apart ∙ here in
      (kept, q, ground (arith, kept_there), full, is, shield)

  shield-lost :
      (a : AccessControl) (s : Catalog)
      → pinned s a now ≡ false
      → is_leased a now ≡ false
      → Shielded now a
      → ⊥
  shield-lost a s pin lease (inl hard) = ground (arith, pin, hard)
  shield-lost a s pin lease (inr late) = ground (arith, lease, late)

  aged-Shielded : (a : AccessControl) → Shielded now a → Shielded now (record a { recent = false })
  aged-Shielded a h = h

  -- A reader's deadline is written over a lease that has ended.
  late-Shielded :
      (late : Option ℕ) (a : AccessControl)
      → is_leased a now ≡ false
      → Shielded now a
      → Shielded now (record (late_access late (record a { recent = false })) { recent = false })
  late-Shielded none a over h = h
  late-Shielded (some deadline) a over (inl hard) = inl hard
  late-Shielded (some deadline) a over (inr lease) = absurd (ground (arith, over, lease))

  evict_published-Keeps :
      (s : Catalog) (c : GcCandidate) (b : Bool) (slot : Slot) (p : Published) (late : Option ℕ)
      → get c.slot s.slots ≡ some slot
      → slot.committed ≡ some p
      → Keeps now k v s
      → Keeps now k v (evict_published s c b slot p now late).0
  unfolding evict_published
  evict_published-Keeps s c b slot p late there held keeps =
      let aged : AccessControl = record p.access { recent = false } in
      let seen = late_access late aged in
      elim (Bool-cases (pinned s p.access now)) [
        | inl e1 ↦ rw e1 (Keeps-push s c b keeps)
        | inr e1 ↦ elim (Bool-cases (is_some slot.active)) [
          | inl e2 ↦ rw (e1, e2) (Keeps-push s c true keeps)
          | inr e2 ↦ elim (Bool-cases p.access.recent) [
            | inl e3 ↦
                rw (e1, e2, e3)
                  (Keeps-push (put_slot s c.slot (with_access slot p aged)) c true (
                    Keeps-with_access s c.slot slot p aged there held (aged-Shielded p.access)
                      keeps))
            | inr e3 ↦ elim (Bool-cases (is_leased p.access now)) [
              | inl e4 ↦ rw (e1, e2, e3, e4) (Keeps-push s c true keeps)
              | inr e4 ↦ elim (Bool-cases (seen.recent || is_leased seen now)) [
                | inl e5 ↦
                    rw (e1, e2, e3, e4, e5)
                      (Keeps-push
                        (put_slot s c.slot (with_access slot p (record seen { recent = false }))) c
                        true
                        (Keeps-with_access s c.slot slot p (record seen { recent = false }) there
                          held (late-Shielded late p.access e4) keeps))
                | inr e5 ↦
                    rw (e1, e2, e3, e4, e5)
                      (Keeps-retire s c.slot slot p there held (shield-lost p.access s e1 e4) keeps)
              ]
            ]
          ]
        ]
      ]

  pub evict_candidate-Keeps :
      (s : Catalog) (c : GcCandidate) (b : Bool) (late : Option ℕ)
      → Keeps now k v s
      → Keeps now k v (evict_candidate s c b now late).0
  unfolding evict_candidate
  evict_candidate-Keeps s c b late keeps = elim (Option-cases (upgrade s c.slot)) [
    | inl gone ↦
        let same : s ≡ (evict_candidate s c b now late).0 = ground (arith, gone) in
        subst (λ t. Keeps now k v t) same keeps
    | inr (slot, there) ↦ elim (Option-cases slot.committed) [
      | inl empty ↦
          let same : s ≡ (evict_candidate s c b now late).0 = ground (arith, there, empty) in
          subst (λ t. Keeps now k v t) same keeps
      | inr (p, held) ↦ elim (Bool-cases (eqb p.version.address c.version)) [
        | inr other ↦
            let same : s ≡ (evict_candidate s c b now late).0 =
              ground (arith, there, held, other) in
            subst (λ t. Keeps now k v t) same keeps
        | inl mine ↦
            let same : evict_published s c b slot p now late ≡ evict_candidate s c b now late =
              ground (arith, there, held, mine) in
            subst (λ r. Keeps now k v r.0) same
              (evict_published-Keeps s c b slot p late (get-upgrade s c.slot there) held keeps)
      ]
    ]
  ]

  evict_queue-Keeps :
      (n : ℕ) (s : Catalog) (b : Bool) (late : ℕ → Option ℕ)
      → Keeps now k v s
      → Keeps now k v (evict_queue n s b now late)
  unfolding evict_queue
  evict_queue-Keeps zero s b late keeps = keeps
  evict_queue-Keeps (suc n) s true late keeps = elim (Bool-cases (reclaim_target_is_covered s)) [
    | inl covered ↦ rw covered keeps
    | inr short ↦ elim (List-cases s.protected) [
      | inl empty ↦
          let same : s ≡ evict_queue (suc n) s true now late = ground (arith, short, empty) in
          subst (λ t. Keeps now k v t) same keeps
      | inr (c, rest, queue) ↦
          let s' : Catalog = record s { protected = rest } in
          let t = (evict_candidate s' c true now (late c.version)).0 in
          let same : evict_queue n t true now late ≡ evict_queue (suc n) s true now late =
            ground (arith, short, queue) in
          subst (λ u. Keeps now k v u) same
            (evict_queue-Keeps n t true late
              (evict_candidate-Keeps s' c true (late c.version) keeps))
    ]
  ]
  evict_queue-Keeps (suc n) s false late keeps = elim (Bool-cases (reclaim_target_is_covered s)) [
    | inl covered ↦ rw covered keeps
    | inr short ↦ elim (List-cases s.young) [
      | inl empty ↦
          let same : s ≡ evict_queue (suc n) s false now late = ground (arith, short, empty) in
          subst (λ t. Keeps now k v t) same keeps
      | inr (c, rest, queue) ↦
          let s' : Catalog = record s { young = rest } in
          let t = (evict_candidate s' c false now (late c.version)).0 in
          let same : evict_queue n t false now late ≡ evict_queue (suc n) s false now late =
            ground (arith, short, queue) in
          subst (λ u. Keeps now k v u) same
            (evict_queue-Keeps n t false late
              (evict_candidate-Keeps s' c false (late c.version) keeps))
    ]
  ]

-- A version that is published with a hard pin, or with a lease that lasts beyond now, stays published in its
-- slot and stays so shielded through a whole pass of the eviction over both queues, whatever the queues
-- hold, the budget is, and other readers write to the leases meanwhile.
pub evict-Keeps :
    (s : Catalog) (now k budget : ℕ) (v : Version) (late : ℕ → Option ℕ)
    → Keeps now k v s
    → Keeps now k v (evict s now budget late)
unfolding evict
evict-Keeps s now k budget v late keeps =
    let young = min (length s.young) budget in
    let s' = evict_queue young s false now late in
    evict_queue-Keeps now k v (min (length s.protected) (budget - young)) s' true late
      (evict_queue-Keeps now k v young s false late keeps)
