-- ===== src/Object/Watermark/Examples.antt =====
-- A pool of 1000 bytes that fills up, is evicted and drains.
use cakemaster.Base.{ℕ, true, Option, some, none, List, [], ◌∷◌, ◌≡◌, refl, arith, ok, is_some}
use cakemaster.Object.Watermark.Defs.{
  MemoryEvictionConfig, new_eviction_config, default_failure_budget, SpaceStats, CatalogStats,
  EvictionState, idle_state,
}
use cakemaster.Object.Watermark.Laws.{
  Event, preparing, finishing, requesting, clearing, IsPolicy, after_events, triggered,
  after_events-triggered,
}

abbrev policy : MemoryEvictionConfig
policy = record {
  high_watermark_ppm = 900000;
  low_watermark_ppm = 800000;
  allocation_failure_budget = default_failure_budget;
  allocation_retry_limit = 1;
}

policy-accepted : new_eviction_config (some 900000) (some 800000) ≡ ok policy
unfolding new_eviction_config
policy-accepted = refl

policy-IsPolicy : IsPolicy policy
policy-IsPolicy = (omega arith, omega arith)

abbrev space : ℕ → SpaceStats
space used = record { capacity_bytes = 1000; used_bytes = used }

abbrev catalog : CatalogStats
catalog = record { retired_memory_bytes = 10; reclaim_debt = 0 }

-- The newest event comes first.
abbrev events : List Event
events =
    preparing (space 850) catalog
    ∷ clearing 1
    ∷ finishing (space 870) catalog 80
    ∷ requesting 30
    ∷ preparing (space 950) catalog
    ∷ preparing (space 850) catalog
    ∷ []

abbrev or_idle : Option EvictionState → EvictionState
or_idle none = idle_state
or_idle (some s) = s

some-or_idle : (o : Option EvictionState) → is_some o ≡ true → o ≡ some (or_idle o)
some-or_idle none h = absurd cc
some-or_idle (some s) h = refl

events-run : is_some (after_events policy events) ≡ true
unfolding after_events
events-run = refl

abbrev final : EvictionState
final = or_idle (after_events policy events)

after_events-triggered_example : final.watermark_active ≡ triggered policy events
after_events-triggered_example =
    after_events-triggered policy events final policy-IsPolicy
      (some-or_idle (after_events policy events) events-run)
