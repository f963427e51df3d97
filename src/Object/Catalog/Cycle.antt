-- ===== src/Object/Catalog/Cycle.antt =====
-- src/object/catalog/collector.rs: `collect_step_inner`, one step of the collector. The report is left out.
use cakemaster.Base.{ℕ, ◌-◌, Bool, Option, List, [], ◌∷◌, ◌++◌, if◌then◌else◌, eqb, min}
use cakemaster.Base.Lists.{length}
use cakemaster.Object.Watermark.Defs.{CollectBudget}
use cakemaster.Object.Catalog.Defs.{Catalog}
use cakemaster.Object.Catalog.Collect.{
  expire_soft_pins, expire_pending, evict, reclaim, clean_empty_slots,
}
use cakemaster.Object.Catalog.Sweep.{
  begin_if_requested, sweep_is_incomplete, retire_invalidated_published,
}
use cakemaster.Object.Catalog.Scoped.{ReclaimTarget, class, evict_scoped}

-- What a step reads from outside: whether another step runs, the flags of the leases, which versions have
-- other references, what readers write, and what the watermark controller asks for.
pub record Surroundings : Type 0 where
  pub busy : Bool
  pub live : ℕ → Bool
  pub live_later : ℕ → Bool
  pub held : ℕ → Bool
  pub unique : ℕ → Bool
  pub unique_later : ℕ → Bool
  pub late_scoped : ℕ → Option ℕ
  pub late : ℕ → Option ℕ
  pub watermark_bytes : Catalog → ℕ

abbrev pub scoped_targets : List ReclaimTarget → ℕ → List ReclaimTarget
scoped_targets targets bytes =
    if eqb bytes 0 then targets else targets ++ (record { filter = class; bytes = bytes } ∷ [])

-- The rounds of `reclaim` that a budget allows.
abbrev pub reclaim_rounds : Catalog → ℕ → ℕ
reclaim_rounds s budget = min (length s.retired) budget

abbrev pub reclaim_within : Catalog → ℕ → ℕ → (ℕ → Bool) → Catalog
reclaim_within s budget now unique = reclaim (reclaim_rounds s budget) s now unique

-- Both evictions, when the sweep has come to its end.
unfoldable pub evict_both : Catalog → Surroundings → List ReclaimTarget → ℕ → ℕ → Catalog
unfolding evict_scoped evict
evict_both s o targets now budget =
    let scoped = evict_scoped s targets now budget o.late_scoped in
    evict scoped.catalog now (budget - scoped.scanned) o.late

-- The sweep, the expiry of pending writes and the evictions, with what the sweep left of the budget.
unfoldable pub sweep_and_evict : Catalog → Surroundings → List ReclaimTarget → ℕ → ℕ → Catalog
unfolding retire_invalidated_published expire_pending evict_both
sweep_and_evict s o targets now budget =
    let swept = retire_invalidated_published s o.live now budget in
    let expired =
      expire_pending (min (length swept.0.pending_candidates) budget) swept.0 o.live_later o.held
        now in
    if sweep_is_incomplete expired
    then expired
    else evict_both expired o targets now (budget - swept.1)

-- The step after its first reclamation, with the reclaims that are left.
unfoldable pub collect_rest :
    Catalog → Surroundings → ℕ → CollectBudget → List ReclaimTarget → ℕ → Catalog
unfolding begin_if_requested expire_soft_pins sweep_and_evict reclaim clean_empty_slots
collect_rest s o now budget targets reclaims =
    let begun = begin_if_requested s in
    let unpinned =
      expire_soft_pins (min (length begun.soft_pins) budget.max_candidates) begun now in
    let evicted =
      sweep_and_evict unpinned o (scoped_targets targets (o.watermark_bytes s)) now
        budget.max_candidates in
    let reclaimed = reclaim_within evicted reclaims now o.unique_later in
    clean_empty_slots (min (length reclaimed.empty_slots) budget.max_empty_slots) reclaimed now

unfoldable pub collect_step :
    Catalog → Surroundings → ℕ → CollectBudget → List ReclaimTarget → Bool → Catalog
unfolding collect_rest
collect_step s o now budget targets reclaim_first =
    if o.busy
    then s
    else if reclaim_first
    then collect_rest (reclaim_within s budget.max_reclaims now o.unique) o now budget targets
        (budget.max_reclaims - reclaim_rounds s budget.max_reclaims)
    else collect_rest s o now budget targets budget.max_reclaims
