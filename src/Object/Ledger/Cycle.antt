-- ===== src/Object/Ledger/Cycle.antt =====
-- The moves of a whole step of the collector: src/object/catalog/collector.rs.
use cakemaster.Base.{ℕ, ◌-◌, Bool, List, inl, inr, refl, nat_eq, Bool-cases, min}
use cakemaster.Base.Lists.{length}
use cakemaster.Object.Watermark.Defs.{CollectBudget}
use cakemaster.Object.Catalog.Defs.{Catalog}
use cakemaster.Object.Catalog.Collect.{expire_soft_pins, expire_pending, evict, clean_empty_slots}
use cakemaster.Object.Catalog.Sweep.{
  begin_if_requested, sweep_is_incomplete, retire_invalidated_published,
}
use cakemaster.Object.Catalog.Scoped.{ReclaimTarget, evict_scoped}
use cakemaster.Object.Catalog.Cycle.{
  Surroundings, scoped_targets, reclaim_rounds, reclaim_within, evict_both, sweep_and_evict,
  collect_rest, collect_step,
}
use cakemaster.Object.Ledger.Moves.{
  Aborts-Collects, Reclaims-Collects, Retires-Collects, Stays-Collects, Sweeps-Collects,
}
use cakemaster.Object.Ledger.Moves.{
  Aborts-Collects, Collects, Reclaims, Reclaims-Collects, Retires, Retires-Collects, Round,
  Stays-Collects, Sweeps-Collects,
}
use cakemaster.Object.Ledger.Collect.{Round-among, Round-start, Round-same}
use cakemaster.Object.Ledger.Rounds.{
  evict-Round, expire_pending-Round, reclaim-Round, clean_empty_slots-Round, expire_soft_pins-Round,
}
use cakemaster.Object.Ledger.Sweep.{
  begin_if_requested-Round, retire_invalidated_published-Round, evict_scoped-Round,
}

module _ (o : Surroundings) (targets : List ReclaimTarget) (now : ℕ) where
  evict_both-Round :
      (s : Catalog) (budget : ℕ) → Round Retires s (evict_both s o targets now budget)
  unfolding evict_both
  evict_both-Round s budget =
      let scoped = evict_scoped s targets now budget o.late_scoped in
      Round-start s scoped.catalog (evict scoped.catalog now (budget - scoped.scanned) o.late)
        (evict_scoped-Round s targets now budget o.late_scoped)
        (evict-Round scoped.catalog now (budget - scoped.scanned) o.late)

  sweep_and_evict-Round :
      (s : Catalog) (budget : ℕ) → Round Collects s (sweep_and_evict s o targets now budget)
  unfolding sweep_and_evict
  sweep_and_evict-Round s budget =
      let swept = retire_invalidated_published s o.live now budget in
      let rounds = min (length swept.0.pending_candidates) budget in
      let expired = expire_pending rounds swept.0 o.live_later o.held now in
      let both : Round Collects s expired =
        Round-start s swept.0 expired
          (Round-among s swept.0 Sweeps-Collects
            (retire_invalidated_published-Round s o.live now budget))
          (Round-among swept.0 expired Aborts-Collects
            (expire_pending-Round rounds swept.0 o.live_later o.held now)) in
      elim (Bool-cases (sweep_is_incomplete expired)) [
        | inl more ↦ rw more both
        | inr swept_all ↦ rw swept_all (
            Round-start s expired (evict_both expired o targets now (budget - swept.1)) both (
              Round-among expired (evict_both expired o targets now (budget - swept.1))
                Retires-Collects (evict_both-Round expired (budget - swept.1))))
      ]

reclaim_within-Round :
    (s : Catalog) (budget now : ℕ) (unique : ℕ → Bool)
    → Round Reclaims s (reclaim_within s budget now unique)
reclaim_within-Round s budget now unique = reclaim-Round (reclaim_rounds s budget) s now unique

collect_rest-Round :
    (s : Catalog) (o : Surroundings) (now : ℕ) (budget : CollectBudget)
    (targets : List ReclaimTarget) (reclaims : ℕ)
    → Round Collects s (collect_rest s o now budget targets reclaims)
unfolding collect_rest
collect_rest-Round s o now budget targets reclaims =
    let begun = begin_if_requested s in
    let rounds = min (length begun.soft_pins) budget.max_candidates in
    let unpinned = expire_soft_pins rounds begun now in
    let owed = scoped_targets targets (o.watermark_bytes s) in
    let evicted = sweep_and_evict unpinned o owed now budget.max_candidates in
    let reclaimed = reclaim_within evicted reclaims now o.unique_later in
    let empties = min (length reclaimed.empty_slots) budget.max_empty_slots in
    let last = clean_empty_slots empties reclaimed now in
    Round-start s begun last (Round-among s begun Stays-Collects (begin_if_requested-Round s)) (
      Round-start begun unpinned last
        (Round-among begun unpinned Stays-Collects (expire_soft_pins-Round rounds begun now))
        (Round-start unpinned evicted last
          (sweep_and_evict-Round o owed now unpinned budget.max_candidates)
          (Round-start evicted reclaimed last
            (Round-among evicted reclaimed Reclaims-Collects
              (reclaim_within-Round evicted reclaims now o.unique_later))
            (Round-among reclaimed last Stays-Collects
              (clean_empty_slots-Round empties reclaimed now)))))

pub collect_step-Round :
    (s : Catalog) (o : Surroundings) (now : ℕ) (budget : CollectBudget)
    (targets : List ReclaimTarget) (reclaim_first : Bool)
    → Round Collects s (collect_step s o now budget targets reclaim_first)
unfolding collect_step
collect_step-Round s o now budget targets reclaim_first =
    let first = reclaim_within s budget.max_reclaims now o.unique in
    let left = budget.max_reclaims - reclaim_rounds s budget.max_reclaims in
    elim (Bool-cases o.busy) [
      | inl busy ↦ rw busy (Round-same s s refl)
      | inr free ↦ elim (Bool-cases reclaim_first) [
        | inl early ↦
            rw (free, early)
              (Round-start s first (collect_rest first o now budget targets left)
                (Round-among s first Reclaims-Collects
                  (reclaim_within-Round s budget.max_reclaims now o.unique))
                (collect_rest-Round first o now budget targets left))
        | inr late ↦ rw (free, late) (collect_rest-Round s o now budget targets budget.max_reclaims)
      ]
    ]
