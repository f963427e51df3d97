-- ===== src/Object/Sweeping/Rounds.antt =====
-- How far the rounds of the liveness sweep get: src/object/catalog/collector.rs.
use cakemaster.Base.{
  ℕ, zero, suc, ◌-◌, ◌≤◌, Bool, true, false, not, some, List, [], ◌∷◌, ◌++◌, ◌≡◌, ◌⊎◌, inl, inr,
  refl, ◌∙◌, ap, arith, eqb, eqb_iff, Bool-cases, List-cases, subst, nat_eq,
}
use cakemaster.Base.Lists.{length, In, append_assoc}
use cakemaster.Base.Table.{get, insert, get-insert}
use cakemaster.Object.Catalog.Defs.{Slot, Catalog, GcCandidate, upgrade}
use cakemaster.Object.Catalog.Queues.{queue_of, with_queue, remaining_of, with_remaining}
use cakemaster.Object.Catalog.Sweep.{sweep_candidate, sweep_queue}
use cakemaster.Object.Ledger.Write.{get-upgrade}
use cakemaster.Object.Sweeping.Candidates.{
  Settled, Slots, sweep_candidate-Slots, sweep_candidate-Queues,
}

module _ (live : ℕ → Bool) (now : ℕ) where
  -- What a slot's number leads to after a change.
  upgrade-insert :
      (s t : Catalog) (j i : ℕ) (slot : Slot) {x : Slot}
      → t.slots ≡ insert j slot s.slots
      → upgrade t i ≡ some x
      → (x ≡ slot) ⊎ ((eqb j i ≡ false) × (upgrade s i ≡ some x))
  upgrade-insert s t j i slot {x} slots found =
      let here = ap (get i) slots ∙ get-insert j i slot s.slots in
      let there = get-upgrade t i found in
      elim (Bool-cases (eqb j i)) [
        | inl same ↦ inl (ground (arith, here, same, there))
        | inr other ↦ inr (other, ground (arith, here, other, there, found))
      ]

  keeps-Settled :
      (s t : Catalog) (c d : GcCandidate)
      → Slots live now s t c
      → Settled live s d
      → Settled live t d
  keeps-Settled s t c d (inl (same, _)) settled slot p there full is =
      settled slot p (ground (arith, there, ap (get d.slot) same)) full is
  keeps-Settled s t c d (inr (new, slots, clean)) settled slot p there full is =
      elim (upgrade-insert s t c.slot d.slot new slots there) [
        | inl e ↦ inl (clean p (subst (λ x. x.committed ≡ some p) e full))
        | inr (_, before) ↦ settled slot p before full is
      ]

  own-Settled : (s t : Catalog) (c : GcCandidate) → Slots live now s t c → Settled live t c
  own-Settled s t c (inl (same, settled)) slot p there full is =
      keeps-Settled s t c c (inl (same, settled)) settled slot p there full is
  own-Settled s t c (inr (new, slots, clean)) slot p there full is =
      elim (upgrade-insert s t c.slot c.slot new slots there) [
        | inl e ↦ inl (clean p (subst (λ x. x.committed ≡ some p) e full))
        | inr (other, _) ↦ absurd (ground (arith, other, (eqb_iff c.slot c.slot).1 refl))
      ]

  -- A candidate that is taken from its queue.
  abbrev taken_from : Bool → List GcCandidate → Catalog → Catalog
  taken_from b rest s = with_remaining b (remaining_of b s - 1) (with_queue b rest s)

  taken-Queues :
      (b : Bool) (rest : List GcCandidate) (s : Catalog)
      → ((taken_from b rest s).slots ≡ s.slots)
        × (queue_of b (taken_from b rest s) ≡ rest)
        × (queue_of (not b) (taken_from b rest s) ≡ queue_of (not b) s)
        × (remaining_of b (taken_from b rest s) ≡ remaining_of b s - 1)
        × (remaining_of (not b) (taken_from b rest s) ≡ remaining_of (not b) s)
  taken-Queues true rest s = (refl, refl, refl, refl, refl)
  taken-Queues false rest s = (refl, refl, refl, refl, refl)

  emptied-Queues :
      (b : Bool) (s : Catalog)
      → ((with_remaining b 0 s).slots ≡ s.slots)
        × (queue_of (not b) (with_remaining b 0 s) ≡ queue_of (not b) s)
        × (remaining_of b (with_remaining b 0 s) ≡ 0)
        × (remaining_of (not b) (with_remaining b 0 s) ≡ remaining_of (not b) s)
  emptied-Queues true s = (refl, refl, refl, refl)
  emptied-Queues false s = (refl, refl, refl, refl)

  same-Settled :
      (s t : Catalog) (d : GcCandidate) → t.slots ≡ s.slots → Settled live s d → Settled live t d
  same-Settled s t d same settled slot p there =
      settled slot p (ground (arith, there, ap (get d.slot) same))

  pub sweep_queue-keeps :
      (n : ℕ) (s : Catalog) (b : Bool) (d : GcCandidate)
      → Settled live s d
      → Settled live (sweep_queue n s live b now).0 d
  unfolding sweep_queue
  sweep_queue-keeps zero s b d settled = settled
  sweep_queue-keeps (suc n) s b d settled = elim (List-cases (queue_of b s)) [
    | inl empty ↦
        rw (empty, sweep_queue)
          (same-Settled s (with_remaining b 0 s) d (emptied-Queues b s).0 settled)
    | inr (c, rest, queue) ↦
        let taken = taken_from b rest s in
        let t = sweep_candidate taken live c b now in
        rw (queue, sweep_queue)
          (sweep_queue-keeps n t b d (
            keeps-Settled taken t c d (sweep_candidate-Slots live now taken c b)
              (same-Settled s taken d (taken-Queues b rest s).0 settled)))
  ]

  -- The rounds reach every candidate of the queue, if they are as many.
  pub sweep_queue-settles :
      (n : ℕ) (s : Catalog) (b : Bool) (cs extra : List GcCandidate) (d : GcCandidate)
      → queue_of b s ≡ cs ++ extra
      → length cs ≤ n
      → In d cs
      → Settled live (sweep_queue n s live b now).0 d
  unfolding sweep_queue
  sweep_queue-settles n s b [] extra d queue enough member = absurd member
  sweep_queue-settles zero s b (c ∷ cs) extra d queue enough member = absurd (omega (arith, enough))
  sweep_queue-settles (suc n) s b (c ∷ cs) extra d queue enough member =
      let taken = taken_from b (cs ++ extra) s in
      let t = sweep_candidate taken live c b now in
      let slots = sweep_candidate-Slots live now taken c b in
      let popped = (taken-Queues b (cs ++ extra) s).1 in
      rw (queue, sweep_queue)
        (elim member [
          | inl same ↦
              sweep_queue-keeps n t b d
                (subst (λ x. Settled live t x) same (own-Settled taken t c slots))
          | inr later ↦ elim (sweep_candidate-Queues live now taken c b).0 [
            | inl alike ↦
                sweep_queue-settles n t b cs extra d (alike ∙ popped) (omega (arith, enough)) later
            | inr longer ↦
                sweep_queue-settles n t b cs (extra ++ (c ∷ [])) d
                  (longer ∙ ap (λ q. q ++ (c ∷ [])) popped ∙ append_assoc cs extra (c ∷ []))
                  (omega (arith, enough)) later
          ]
        ])

  remaining-same :
      (b : Bool) (s t : Catalog)
      → t.young_remaining ≡ s.young_remaining
      → t.protected_remaining ≡ s.protected_remaining
      → remaining_of b t ≡ remaining_of b s
  remaining-same true s t young protected = protected
  remaining-same false s t young protected = young

  -- What the rounds leave alone, and how far they get.
  pub sweep_queue-counts :
      (n : ℕ) (s : Catalog) (b : Bool)
      → let t = sweep_queue n s live b now in
        (queue_of (not b) t.0 ≡ queue_of (not b) s)
        × (remaining_of (not b) t.0 ≡ remaining_of (not b) s)
        × (t.1 ≤ n)
        × (remaining_of b s ≤ n → remaining_of b t.0 ≡ 0)
  unfolding sweep_queue
  sweep_queue-counts zero s b = (refl, refl, omega arith, λ h. omega (arith, h))
  sweep_queue-counts (suc n) s b = elim (List-cases (queue_of b s)) [
    | inl empty ↦
        let (_, other, none_left, other_left) = emptied-Queues b s in
        rw (empty, sweep_queue) (other, other_left, omega arith, λ _. none_left)
    | inr (c, rest, queue) ↦
        let taken = taken_from b rest s in
        let t = sweep_candidate taken live c b now in
        let (_, _, other, left, other_left) = taken-Queues b rest s in
        let (_, other', young, protected) = sweep_candidate-Queues live now taken c b in
        let later = sweep_queue-counts n t b in
        rw (queue, sweep_queue)
          (
            later.0 ∙ other' ∙ other,
            later.1 ∙ remaining-same (not b) taken t young protected ∙ other_left,
            omega (arith, later.2),
            λ h. later.3 (omega (arith, h, left, remaining-same b taken t young protected)),
          )
  ]
