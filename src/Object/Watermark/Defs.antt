-- ===== src/Object/Watermark/Defs.antt =====
-- src/object/eviction.rs: the policy and the state of the watermark controller. A ratio is what
-- `ratio_to_ppm` made of it, in parts per million, or none; the samples of the space and of the catalog
-- and the collector's reports are arguments.
use cakemaster.Base.{
  ℕ, ◌-◌, ◌*◌, ◌/◌, Bool, true, false, not, ◌&&◌, ◌||◌, Option, none, some, if◌then◌else◌, eqb, leb,
  ltb, max, saturating_add, wrapping_add, u64_max, Result, ok, err,
}

abbrev pub watermark_scale : ℕ
watermark_scale = 1000000

abbrev pub max_allocation_retries : ℕ
max_allocation_retries = 3

pub record CollectBudget : Type 0 where
  pub max_candidates : ℕ
  pub max_reclaims : ℕ
  pub max_empty_slots : ℕ

abbrev pub default_failure_budget : CollectBudget
default_failure_budget = record { max_candidates = 64; max_reclaims = 64; max_empty_slots = 0 }

pub record MemoryEvictionConfig : Type 0 where
  pub high_watermark_ppm : ℕ
  pub low_watermark_ppm : ℕ
  pub allocation_failure_budget : CollectBudget
  pub allocation_retry_limit : ℕ

pub data MemoryEvictionConfigError : Type 0 where
  invalid_high_watermark invalid_low_watermark low_not_below_high : MemoryEvictionConfigError
  zero_failure_candidates zero_failure_reclaims too_many_allocation_retries :
      MemoryEvictionConfigError

unfoldable pub new_eviction_config :
    Option ℕ → Option ℕ → Result MemoryEvictionConfigError MemoryEvictionConfig
new_eviction_config none low = err invalid_high_watermark
new_eviction_config (some high) none = err invalid_low_watermark
new_eviction_config (some high) (some low) =
    if leb high low
    then err low_not_below_high
    else ok (record {
      high_watermark_ppm = high;
      low_watermark_ppm = low;
      allocation_failure_budget = default_failure_budget;
      allocation_retry_limit = 1;
    })

unfoldable pub with_allocation_failure_policy :
    MemoryEvictionConfig → CollectBudget → ℕ → Result MemoryEvictionConfigError MemoryEvictionConfig
with_allocation_failure_policy c budget retry_limit =
    if eqb budget.max_candidates 0
    then err zero_failure_candidates
    else if eqb budget.max_reclaims 0
    then err zero_failure_reclaims
    else if ltb max_allocation_retries retry_limit
    then err too_many_allocation_retries
    else ok (record c { allocation_failure_budget = budget; allocation_retry_limit = retry_limit })

-- none is the panic of `expect`.
abbrev pub scale_bytes : ℕ → ℕ → Option ℕ
scale_bytes bytes ppm =
    if leb (bytes * ppm / watermark_scale) u64_max
    then some (bytes * ppm / watermark_scale)
    else none

-- What `ReplicaClassSpaceStats` has of the space, and `ObjectCatalogStats` of the catalog.
pub record SpaceStats : Type 0 where
  pub capacity_bytes : ℕ
  pub used_bytes : ℕ

pub record CatalogStats : Type 0 where
  pub retired_memory_bytes : ℕ
  pub reclaim_debt : ℕ

-- `MemoryEvictionState`, with the statistics that the controller acts on.
pub record EvictionState : Type 0 where
  pub active : Bool
  pub reclaim_debt_bytes : ℕ
  pub requested_reclaim_debt_bytes : ℕ
  pub allocation_reclaim_debt_bytes : ℕ
  pub watermark_reclaim_debt_bytes : ℕ
  pub trigger_events : ℕ
  pub maximum_used_bytes : ℕ
  pub watermark_active : Bool
  pub allocation_reclaim_bytes : ℕ
  pub allocation_generation : ℕ

abbrev pub idle_state : EvictionState
idle_state = record {
  active = false;
  reclaim_debt_bytes = 0;
  requested_reclaim_debt_bytes = 0;
  allocation_reclaim_debt_bytes = 0;
  watermark_reclaim_debt_bytes = 0;
  trigger_events = 0;
  maximum_used_bytes = 0;
  watermark_active = false;
  allocation_reclaim_bytes = 0;
  allocation_generation = 0;
}

abbrev pub or_debt : Option ℕ → ℕ → ℕ
or_debt none old = old
or_debt (some bytes) old = bytes

unfoldable pub refresh_debt_stats : EvictionState → ℕ → Option ℕ → EvictionState
refresh_debt_stats s requested watermark =
    let debt = or_debt watermark s.watermark_reclaim_debt_bytes in
    record s {
      watermark_reclaim_debt_bytes = debt;
      requested_reclaim_debt_bytes = requested;
      allocation_reclaim_debt_bytes = s.allocation_reclaim_bytes;
      reclaim_debt_bytes = max (max requested s.allocation_reclaim_bytes) debt;
      active =
          s.watermark_active || not (eqb s.allocation_reclaim_bytes 0) || not (eqb requested 0);
    }

unfoldable pub update_sample : EvictionState → SpaceStats → CatalogStats → ℕ → EvictionState
unfolding refresh_debt_stats
update_sample s space catalog watermark =
    refresh_debt_stats (record s { maximum_used_bytes = max s.maximum_used_bytes space.used_bytes })
      catalog.reclaim_debt (some watermark)

abbrev pub watermark_debt : Bool → ℕ → ℕ → ℕ
watermark_debt active used low = if active then used - low else 0

-- The switch of `prepare_step`, between the bytes of the two watermarks.
abbrev pub switch : EvictionState → SpaceStats → ℕ → ℕ → EvictionState
switch s space high low =
    if eqb space.capacity_bytes 0 || s.watermark_active && leb space.used_bytes low
    then record s { watermark_active = false }
    else if not s.watermark_active && ltb high space.used_bytes
    then record s { watermark_active = true; trigger_events = saturating_add s.trigger_events 1 }
    else s

unfoldable pub sampled : EvictionState → SpaceStats → CatalogStats → ℕ → ℕ → ℕ × EvictionState
unfolding update_sample
sampled s space catalog high low =
    let s' = switch s space high low in
    let debt = watermark_debt s'.watermark_active space.used_bytes low in
    (
      max (debt - catalog.retired_memory_bytes) s'.allocation_reclaim_bytes,
      update_sample s' space catalog debt,
    )

unfoldable pub prepare_step :
    MemoryEvictionConfig → EvictionState → SpaceStats → CatalogStats → Option (ℕ × EvictionState)
unfolding sampled
prepare_step c s space catalog = elim (scale_bytes space.capacity_bytes c.high_watermark_ppm) [
  | none ↦ none
  | some high ↦ elim (scale_bytes space.capacity_bytes c.low_watermark_ppm) [
    | none ↦ none
    | some low ↦ some (sampled s space catalog high low)
  ]
]

unfoldable pub finished : EvictionState → SpaceStats → CatalogStats → ℕ → ℕ → EvictionState
unfolding update_sample
finished s space catalog reclaimed low =
    let active =
      if eqb space.capacity_bytes 0 || leb space.used_bytes low
      then false
      else s.watermark_active in
    update_sample
      (record s {
        allocation_reclaim_bytes = s.allocation_reclaim_bytes - reclaimed;
        watermark_active = active;
      })
      space catalog (watermark_debt active space.used_bytes low)

-- `finish_step`, with the memory bytes that its report says were reclaimed.
unfoldable pub finish_step :
    MemoryEvictionConfig
    → EvictionState
    → SpaceStats
    → CatalogStats
    → ℕ
    → Option (Bool × EvictionState)
unfolding finished
finish_step c s space catalog reclaimed =
    elim (scale_bytes space.capacity_bytes c.high_watermark_ppm) [
      | none ↦ none
      | some high ↦ elim (scale_bytes space.capacity_bytes c.low_watermark_ppm) [
        | none ↦ none
        | some low ↦ (let s' = finished s space catalog reclaimed low in some (s'.active, s'))
      ]
    ]

-- The generation of the request, and the state after it.
unfoldable pub request_allocation_reclaim : EvictionState → ℕ → ℕ × EvictionState
unfolding refresh_debt_stats
request_allocation_reclaim s bytes =
    let s' : EvictionState = record s {
      allocation_generation = wrapping_add s.allocation_generation 1;
      allocation_reclaim_bytes = max s.allocation_reclaim_bytes bytes;
    } in
    (s'.allocation_generation, refresh_debt_stats s' s.requested_reclaim_debt_bytes none)

unfoldable pub clear_allocation_reclaim : EvictionState → ℕ → EvictionState
unfolding refresh_debt_stats
clear_allocation_reclaim s generation =
    if not (eqb s.allocation_generation generation)
    then s
    else refresh_debt_stats (record s { allocation_reclaim_bytes = 0 })
        s.requested_reclaim_debt_bytes none
