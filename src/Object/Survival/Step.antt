-- ===== src/Object/Survival/Step.antt =====
-- A whole step of the collector and a version that is pinned or leased: src/object/catalog/collector.rs.
use cakemaster.Base.{ℕ, ◌-◌, Bool, true, false, List, ◌≡◌, inl, inr, Bool-cases, nat_eq, min}
use cakemaster.Base.Lists.{length}
use cakemaster.Object.Replicas.{all_live}
use cakemaster.Object.Watermark.Defs.{CollectBudget}
use cakemaster.Object.Catalog.Defs.{Version, Catalog}
use cakemaster.Object.Catalog.Collect.{expire_pending, expire_soft_pins}
use cakemaster.Object.Catalog.Sweep.{
  begin_if_requested, sweep_is_incomplete, retire_invalidated_published,
}
use cakemaster.Object.Catalog.Scoped.{ReclaimTarget, evict_scoped_queue, start_scoped, evict_scoped}
use cakemaster.Object.Catalog.Cycle.{
  Surroundings, scoped_targets, reclaim_rounds, reclaim_within, evict_both, sweep_and_evict,
  collect_rest, collect_step,
}
use cakemaster.Object.Eviction.{Keeps, evict-Keeps}
use cakemaster.Object.Survival.Loops.{
  expire_soft_pins-Keeps, expire_pending-Keeps, reclaim-Keeps, clean_empty_slots-Keeps,
  retire_invalidated_published-Keeps, evict_scoped_queue-Keeps,
}

module _ (now k : ℕ) (v : Version) where
  module _ (o : Surroundings) (alive : all_live o.live v.replicas ≡ true)
      (targets : List ReclaimTarget) where
    evict_both-Keeps :
        (s : Catalog) (budget : ℕ)
        → Keeps now k v s
        → Keeps now k v (evict_both s o targets now budget)
    unfolding evict_both evict_scoped
    evict_both-Keeps s budget keeps =
        let scoped = evict_scoped s targets now budget o.late_scoped in
        let young = min (length s.young) budget in
        let first = evict_scoped_queue young (start_scoped s targets) false now o.late_scoped in
        evict-Keeps scoped.catalog now k (budget - scoped.scanned) v o.late (
          evict_scoped_queue-Keeps now k v (min (length s.protected) (budget - first.scanned)) first
            true o.late_scoped
            (evict_scoped_queue-Keeps now k v young (start_scoped s targets) false o.late_scoped
              keeps))

    sweep_and_evict-Keeps :
        (s : Catalog) (budget : ℕ)
        → Keeps now k v s
        → Keeps now k v (sweep_and_evict s o targets now budget)
    unfolding sweep_and_evict
    sweep_and_evict-Keeps s budget keeps =
        let swept = retire_invalidated_published s o.live now budget in
        let rounds = min (length swept.0.pending_candidates) budget in
        let expired = expire_pending rounds swept.0 o.live_later o.held now in
        let kept : Keeps now k v expired =
          expire_pending-Keeps now k v rounds swept.0 o.live_later o.held
            (retire_invalidated_published-Keeps now k v o.live alive s budget keeps) in
        elim (Bool-cases (sweep_is_incomplete expired)) [
          | inl more ↦ rw more kept
          | inr swept_all ↦ rw swept_all (evict_both-Keeps expired (budget - swept.1) kept)
        ]

  begin_if_requested-Keeps : (s : Catalog) → Keeps now k v s → Keeps now k v (begin_if_requested s)
  unfolding begin_if_requested
  begin_if_requested-Keeps s keeps = elim (Bool-cases s.liveness_requested) [
    | inl asked ↦ rw asked keeps
    | inr not_asked ↦ rw not_asked keeps
  ]

  collect_rest-Keeps :
      (s : Catalog) (o : Surroundings) (budget : CollectBudget) (targets : List ReclaimTarget)
      (reclaims : ℕ)
      → all_live o.live v.replicas ≡ true
      → Keeps now k v s
      → Keeps now k v (collect_rest s o now budget targets reclaims)
  unfolding collect_rest
  collect_rest-Keeps s o budget targets reclaims alive keeps =
      let begun = begin_if_requested s in
      let rounds = min (length begun.soft_pins) budget.max_candidates in
      let unpinned = expire_soft_pins rounds begun now in
      let owed = scoped_targets targets (o.watermark_bytes s) in
      let evicted = sweep_and_evict unpinned o owed now budget.max_candidates in
      let reclaimed = reclaim_within evicted reclaims now o.unique_later in
      clean_empty_slots-Keeps now k v (min (length reclaimed.empty_slots) budget.max_empty_slots)
        reclaimed
        (reclaim-Keeps now k v (reclaim_rounds evicted reclaims) evicted o.unique_later (
          sweep_and_evict-Keeps o alive owed unpinned budget.max_candidates
            (expire_soft_pins-Keeps now k v rounds begun (begin_if_requested-Keeps s keeps))))

-- A version that is published with a hard pin, or with a lease that lasts beyond now, and whose replicas
-- are all live at the sweep, stays published in its slot, whole and so shielded, through a whole step of
-- the collector, whatever its queues hold and the budget and the debts are, as long as no other thread
-- writes or removes an object during the step: what may change meanwhile are the leases that readers take,
-- which segments are live after the sweep, and which versions readers still refer to.
pub collect_step-Keeps :
    (s : Catalog) (o : Surroundings) (now k : ℕ) (v : Version) (budget : CollectBudget)
    (targets : List ReclaimTarget) (reclaim_first : Bool)
    → all_live o.live v.replicas ≡ true
    → Keeps now k v s
    → Keeps now k v (collect_step s o now budget targets reclaim_first)
unfolding collect_step
collect_step-Keeps s o now k v budget targets reclaim_first alive keeps =
    let first = reclaim_within s budget.max_reclaims now o.unique in
    let rounds = reclaim_rounds s budget.max_reclaims in
    elim (Bool-cases o.busy) [
      | inl busy ↦ rw busy keeps
      | inr free ↦ elim (Bool-cases reclaim_first) [
        | inl early ↦
            rw (free, early)
              (collect_rest-Keeps now k v first o budget targets (budget.max_reclaims - rounds)
                alive (reclaim-Keeps now k v rounds s o.unique keeps))
        | inr late ↦
            rw (free, late)
              (collect_rest-Keeps now k v s o budget targets budget.max_reclaims alive keeps)
      ]
    ]
