-- ===== src/Object/Ledger/Rounds.antt =====
-- The moves of the loops of the collector: src/object/catalog/collector.rs.
use cakemaster.Base.{
  ℕ, zero, suc, ◌-◌, Bool, true, false, ◌&&◌, ◌||◌, Option, List, [], ◌∷◌, ◌++◌, ◌≡◌, inl, inr,
  refl, arith, nat_eq, subst, eqb, Bool-cases, Option-cases, List-cases, is_some, ltb, min,
}
use cakemaster.Base.Lists.{length}
use cakemaster.Base.Table.{get, insert}
use cakemaster.Object.Access.{expire_soft_pin}
use cakemaster.Object.Identity.{object_identity_eq}
use cakemaster.Object.Replicas.{all_live}
use cakemaster.Object.Catalog.Defs.{
  Slot, Catalog, PendingCandidate, GcCandidate, SoftPinCandidate, EmptySlotCandidate, RetiredObject,
  put_slot, upgrade, has_committed,
}
use cakemaster.Object.Catalog.Collect.{
  with_access, evict_published, evict_candidate, abort_pending, contains, expire_candidate,
  expire_pending, reclaim_one, reclaim, clean_candidate, clean_empty_slots,
  expire_soft_pin_candidate, expire_soft_pins, reclaim_target_is_covered, evict_queue, evict,
}
use cakemaster.Object.Catalog.Write.{abort_staged}
use cakemaster.Object.Ledger.Moves.{Aborts, Reclaims, Retires, Round, Stays}
use cakemaster.Object.Ledger.Defs.{Books, books, Step, slot_live}
use cakemaster.Object.Ledger.Defs as Ledger
use cakemaster.Object.Ledger.Steps.{put_stay, take_retired, rotate_retired}
use cakemaster.Object.Ledger.Write.{get-upgrade, phase-cases, abort_staged-Step}
use cakemaster.Object.Ledger.Collect.{
  Round-start, Round-one, Round-same, with_access-Step, evict_published-Round,
}

pub evict_candidate-Round :
    (s : Catalog) (c : GcCandidate) (from_protected : Bool) (now : ℕ) (late : Option ℕ)
    → Round Retires s (evict_candidate s c from_protected now late).0
unfolding evict_candidate
evict_candidate-Round s c from_protected now late = elim (Option-cases (upgrade s c.slot)) [
  | inl gone ↦ Round-same s (evict_candidate s c from_protected now late).0 (ground (arith, gone))
  | inr (slot, there) ↦ elim (Option-cases slot.committed) [
    | inl empty ↦
        Round-same s (evict_candidate s c from_protected now late).0 (ground (arith, there, empty))
    | inr (p, full) ↦ elim (Bool-cases (eqb p.version.address c.version)) [
      | inr other ↦
          Round-same s (evict_candidate s c from_protected now late).0
            (ground (arith, there, full, other))
      | inl mine ↦
          let same : evict_published s c from_protected slot p now late
              ≡ evict_candidate s c from_protected now late =
            ground (arith, there, full, mine) in
          subst (λ r. Round Retires s r.0) same
            (evict_published-Round s c from_protected slot p now late (get-upgrade s c.slot there)
              full)
    ]
  ]
]

evict_queue-Round :
    (n : ℕ) (s : Catalog) (from_protected : Bool) (now : ℕ) (late : ℕ → Option ℕ)
    → Round Retires s (evict_queue n s from_protected now late)
unfolding evict_queue
evict_queue-Round zero s from_protected now late = Round-same s s refl
evict_queue-Round (suc n) s true now late = elim (Bool-cases (reclaim_target_is_covered s)) [
  | inl covered ↦ Round-same s (evict_queue (suc n) s true now late) (ground (arith, covered))
  | inr short ↦ elim (List-cases s.protected) [
    | inl empty ↦ Round-same s (evict_queue (suc n) s true now late) (ground (arith, short, empty))
    | inr (c, rest, queue) ↦
        let s' : Catalog = record s { protected = rest } in
        let t = (evict_candidate s' c true now (late c.version)).0 in
        let same : evict_queue n t true now late ≡ evict_queue (suc n) s true now late =
          ground (arith, short, queue) in
        subst (λ u. Round Retires s u) same
          (Round-start s' t (evict_queue n t true now late)
            (evict_candidate-Round s' c true now (late c.version))
            (evict_queue-Round n t true now late))
  ]
]
evict_queue-Round (suc n) s false now late = elim (Bool-cases (reclaim_target_is_covered s)) [
  | inl covered ↦ Round-same s (evict_queue (suc n) s false now late) (ground (arith, covered))
  | inr short ↦ elim (List-cases s.young) [
    | inl empty ↦ Round-same s (evict_queue (suc n) s false now late) (ground (arith, short, empty))
    | inr (c, rest, queue) ↦
        let s' : Catalog = record s { young = rest } in
        let t = (evict_candidate s' c false now (late c.version)).0 in
        let same : evict_queue n t false now late ≡ evict_queue (suc n) s false now late =
          ground (arith, short, queue) in
        subst (λ u. Round Retires s u) same
          (Round-start s' t (evict_queue n t false now late)
            (evict_candidate-Round s' c false now (late c.version))
            (evict_queue-Round n t false now late))
  ]
]

pub evict-Round :
    (s : Catalog) (now budget : ℕ) (late : ℕ → Option ℕ) → Round Retires s (evict s now budget late)
unfolding evict
evict-Round s now budget late =
    let young = min (length s.young) budget in
    let s' = evict_queue young s false now late in
    Round-start s s' (evict s now budget late) (evict_queue-Round young s false now late)
      (evict_queue-Round (min (length s.protected) (budget - young)) s' true now late)

pub abort_pending-Round :
    (s : Catalog) (live : ℕ → Bool) (c : PendingCandidate) (now : ℕ)
    → Round Aborts s (abort_pending s live c now).0
unfolding abort_pending
abort_pending-Round s live c now = elim (Option-cases (upgrade s c.slot)) [
  | inl gone ↦ Round-same s (abort_pending s live c now).0 (ground (arith, gone))
  | inr (slot, there) ↦ elim (Option-cases slot.active) [
    | inl idle ↦ Round-same s (abort_pending s live c now).0 (ground (arith, there, idle))
    | inr (active, busy) ↦ elim (phase-cases active.phase) [
      | inl early ↦ Round-same s (abort_pending s live c now).0 (ground (arith, there, busy, early))
      | inr (pending, last) ↦
          elim (Bool-cases
            (eqb active.id c.transaction_id && eqb pending.address c.pending.address)) [
              | inr other ↦
                  Round-same s (abort_pending s live c now).0
                    (ground (arith, there, busy, last, other))
              | inl mine ↦
                  let t = abort_staged s live c.slot slot active pending now in
                  let same : t ≡ (abort_pending s live c now).0 =
                    ground (arith, there, busy, last, mine) in
                  subst (λ u. Round Aborts s u) same
                    (Round-one s t (Ledger.abort pending) tt (
                      abort_staged-Step s live c.slot slot active pending now
                        (get-upgrade s c.slot there) busy last))
            ]
    ]
  ]
]

expire_candidate-Round :
    (s : Catalog) (live held : ℕ → Bool) (c : PendingCandidate) (now : ℕ)
    → Round Aborts s (expire_candidate s live held c now)
unfolding expire_candidate
expire_candidate-Round s live held c now = elim (Bool-cases (held c.pending.address)) [
  | inr gone ↦ rw gone (Round-same s s refl)
  | inl there ↦ elim (Bool-cases (contains c.pending.address s.published)) [
    | inl done ↦ rw (there, done) (Round-same s s refl)
    | inr pending ↦ elim (Bool-cases (all_live live c.pending.replicas && ltb now c.deadline)) [
      | inl early ↦ rw (there, pending, early) ([], refl, tt)
      | inr late ↦ rw (there, pending, late) (abort_pending-Round s live c now)
    ]
  ]
]

pub expire_pending-Round :
    (n : ℕ) (s : Catalog) (live held : ℕ → Bool) (now : ℕ)
    → Round Aborts s (expire_pending n s live held now)
unfolding expire_pending
expire_pending-Round zero s live held now = Round-same s s refl
expire_pending-Round (suc n) s live held now = elim (List-cases s.pending_candidates) [
  | inl empty ↦ Round-same s (expire_pending (suc n) s live held now) (ground (arith, empty))
  | inr (c, rest, queue) ↦
      let s' : Catalog = record s { pending_candidates = rest } in
      let t = expire_candidate s' live held c now in
      let same : expire_pending n t live held now ≡ expire_pending (suc n) s live held now =
        ground (arith, queue) in
      subst (λ u. Round Aborts s u) same
        (Round-start s' t (expire_pending n t live held now)
          (expire_candidate-Round s' live held c now) (expire_pending-Round n t live held now))
]

reclaim_one-Round :
    (s : Catalog) (r : RetiredObject) (rest : List RetiredObject) (now : ℕ) (unique : Bool)
    → s.retired ≡ r ∷ rest
    → Round Reclaims s (reclaim_one (record s { retired = rest }) r now unique)
unfolding reclaim_one
reclaim_one-Round s r rest now unique queue =
    let s' : Catalog = record s { retired = rest } in
    let again : Catalog = record s { retired = rest ++ (r ∷ []) } in
    elim (Bool-cases (ltb now r.reclaim_after)) [
      | inl early ↦
          rw early (Round-one s again Ledger.stay tt (rotate_retired (books s) r rest queue))
      | inr late ↦ elim (Bool-cases unique) [
        | inr shared ↦
            rw (late, shared)
              (Round-one s again Ledger.stay tt (rotate_retired (books s) r rest queue))
        | inl sole ↦
            rw (late, sole)
              (
                (Ledger.reclaim r.version ∷ []),
                (_, take_retired (books s) r rest queue, refl),
                (tt, tt),
              )
      ]
    ]

pub reclaim-Round :
    (n : ℕ) (s : Catalog) (now : ℕ) (unique : ℕ → Bool) → Round Reclaims s (reclaim n s now unique)
unfolding reclaim
reclaim-Round zero s now unique = Round-same s s refl
reclaim-Round (suc n) s now unique = elim (List-cases s.retired) [
  | inl empty ↦ Round-same s (reclaim (suc n) s now unique) (ground (arith, empty))
  | inr (r, rest, queue) ↦
      let t = reclaim_one (record s { retired = rest }) r now (unique r.version.address) in
      let same : reclaim n t now unique ≡ reclaim (suc n) s now unique = ground (arith, queue) in
      subst (λ u. Round Reclaims s u) same
        (Round-start s t (reclaim n t now unique)
          (reclaim_one-Round s r rest now (unique r.version.address) queue)
          (reclaim-Round n t now unique))
]

clean_candidate-Round :
    (s : Catalog) (c : EmptySlotCandidate) (now : ℕ) → Round Stays s (clean_candidate s c now)
unfolding clean_candidate put_slot
clean_candidate-Round s c now = elim (Bool-cases (ltb now c.deadline)) [
  | inl early ↦ rw early ([], refl, tt)
  | inr late ↦ elim (Option-cases (upgrade s c.slot)) [
    | inl gone ↦ Round-same s (clean_candidate s c now) (ground (arith, late, gone))
    | inr (slot, there) ↦ elim (Bool-cases (has_committed slot || is_some slot.active)) [
      | inl used ↦ Round-same s (clean_candidate s c now) (ground (arith, late, there, used))
      | inr idle ↦ elim (Option-cases (get c.identity s.index)) [
        | inl unknown ↦
            Round-same s (clean_candidate s c now) (ground (arith, late, there, idle, unknown))
        | inr (k, found) ↦ elim (Bool-cases (eqb k c.slot)) [
          | inr other ↦
              Round-same s (clean_candidate s c now)
                (ground (arith, late, there, idle, found, other))
          | inl mine ↦
              let slot' : Slot = record slot { dropped = true } in
              let same : record (books s) { slots = insert c.slot slot' s.slots }
                  ≡ books (clean_candidate s c now) =
                ground (arith, late, there, idle, found, mine) in
              Round-one s (clean_candidate s c now) Ledger.stay tt (
                subst (λ b. Step (books s) Ledger.stay b) same
                  (put_stay (books s) c.slot slot slot' (get-upgrade s c.slot there) refl
                    (λ w. refl)))
        ]
      ]
    ]
  ]
]

pub clean_empty_slots-Round :
    (n : ℕ) (s : Catalog) (now : ℕ) → Round Stays s (clean_empty_slots n s now)
unfolding clean_empty_slots
clean_empty_slots-Round zero s now = Round-same s s refl
clean_empty_slots-Round (suc n) s now = elim (List-cases s.empty_slots) [
  | inl empty ↦ Round-same s (clean_empty_slots (suc n) s now) (ground (arith, empty))
  | inr (c, rest, queue) ↦
      let s' : Catalog = record s { empty_slots = rest } in
      let t = clean_candidate s' c now in
      let same : clean_empty_slots n t now ≡ clean_empty_slots (suc n) s now =
        ground (arith, queue) in
      subst (λ u. Round Stays s u) same
        (Round-start s' t (clean_empty_slots n t now) (clean_candidate-Round s' c now)
          (clean_empty_slots-Round n t now))
]

expire_soft_pin_candidate-Round :
    (s : Catalog) (c : SoftPinCandidate) (now : ℕ)
    → Round Stays s (expire_soft_pin_candidate s c now)
unfolding expire_soft_pin_candidate
expire_soft_pin_candidate-Round s c now = elim (Option-cases (upgrade s c.candidate.slot)) [
  | inl gone ↦ Round-same s (expire_soft_pin_candidate s c now) (ground (arith, gone))
  | inr (slot, there) ↦ elim (Option-cases slot.committed) [
    | inl empty ↦ Round-same s (expire_soft_pin_candidate s c now) (ground (arith, there, empty))
    | inr (p, full) ↦ elim (Bool-cases (eqb p.version.address c.candidate.version)) [
      | inr other ↦
          Round-same s (expire_soft_pin_candidate s c now) (ground (arith, there, full, other))
      | inl mine ↦ elim (Bool-cases (ltb now c.deadline)) [
        | inl early ↦
            let t : Catalog = record s { soft_pins = s.soft_pins ++ (c ∷ []) } in
            let same : t ≡ expire_soft_pin_candidate s c now =
              ground (arith, there, full, mine, early) in
            subst (λ u. Round Stays s u) same ([], refl, tt)
        | inr late ↦
            let a = (expire_soft_pin p.access c.deadline now).1 in
            let t = put_slot s c.candidate.slot (with_access slot p a) in
            let same : t ≡ expire_soft_pin_candidate s c now =
              ground (arith, there, full, mine, late) in
            subst (λ u. Round Stays s u) same
              (Round-one s t Ledger.stay tt (
                with_access-Step s c.candidate.slot slot p a (get-upgrade s c.candidate.slot there)
                  full))
      ]
    ]
  ]
]

pub expire_soft_pins-Round :
    (n : ℕ) (s : Catalog) (now : ℕ) → Round Stays s (expire_soft_pins n s now)
unfolding expire_soft_pins
expire_soft_pins-Round zero s now = Round-same s s refl
expire_soft_pins-Round (suc n) s now = elim (List-cases s.soft_pins) [
  | inl empty ↦ Round-same s (expire_soft_pins (suc n) s now) (ground (arith, empty))
  | inr (c, rest, queue) ↦
      let s' : Catalog = record s { soft_pins = rest } in
      let t = expire_soft_pin_candidate s' c now in
      let same : expire_soft_pins n t now ≡ expire_soft_pins (suc n) s now =
        ground (arith, queue) in
      subst (λ u. Round Stays s u) same
        (Round-start s' t (expire_soft_pins n t now) (expire_soft_pin_candidate-Round s' c now)
          (expire_soft_pins-Round n t now))
]
