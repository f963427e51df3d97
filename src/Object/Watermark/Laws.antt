-- ===== src/Object/Watermark/Laws.antt =====
-- What the watermark controller does over a history of samples and requests.
use native.Mathlib.Nat.{mul-le-mul_left}
use mathlib.Core.Option.{some_inj}
use cakemaster.Base.{
  ℕ, ◌*◌, ◌/◌, ◌≤◌, ◌<◌, Bool, true, false, not, ◌&&◌, ◌||◌, Option, none, some, List, [], ◌∷◌, eqb,
  leb, ltb, u64_max, IsU64, ◌≡◌, refl, sym, ap, ◌∙◌, arith, Option-cases, Bool-cases, inl, inr,
}
use cakemaster.Object.Watermark.Defs.{
  watermark_scale, MemoryEvictionConfig, scale_bytes, SpaceStats, CatalogStats, EvictionState,
  idle_state, refresh_debt_stats, update_sample, sampled, prepare_step, finished, finish_step,
  request_allocation_reclaim, clear_allocation_reclaim,
}

-- A policy as its constructor makes it.
abbrev pub IsPolicy : MemoryEvictionConfig → Type 0
IsPolicy c = (c.low_watermark_ppm < c.high_watermark_ppm) × (c.high_watermark_ppm < watermark_scale)

scale_le : (bytes low high : ℕ) → low ≤ high → bytes * low / 1000000 ≤ bytes * high / 1000000
scale_le bytes low high h = omega (arith, mul-le-mul_left bytes h)

scale_le_bytes : (bytes ppm : ℕ) → ppm ≤ 1000000 → bytes * ppm / 1000000 ≤ bytes
scale_le_bytes bytes ppm h = omega (arith, mul-le-mul_left bytes h)

-- For a policy that was accepted, and any capacity, the two watermarks are computed without the panic of
-- the code's `expect`, and are in their order within the capacity.
pub watermarks_ordered :
    (c : MemoryEvictionConfig) (capacity : ℕ)
    → IsPolicy c
    → IsU64 capacity
    → (high : ℕ) × (low : ℕ) × (scale_bytes capacity c.high_watermark_ppm ≡ some high)
      × (scale_bytes capacity c.low_watermark_ppm ≡ some low)
      × (low ≤ high)
      × (high ≤ capacity)
watermarks_ordered c capacity (below, within) fits =
    let le = scale_le capacity c.low_watermark_ppm c.high_watermark_ppm (omega (arith, below)) in
    let le_bytes = scale_le_bytes capacity c.high_watermark_ppm (omega (arith, within)) in
    (
      capacity * c.high_watermark_ppm / 1000000,
      capacity * c.low_watermark_ppm / 1000000,
      ground (arith, le_bytes, fits),
      ground (arith, le, le_bytes, fits),
      le,
      le_bytes,
    )

pub data Event : Type 0 where
  preparing : SpaceStats → CatalogStats → Event
  finishing : SpaceStats → CatalogStats → ℕ → Event
  requesting clearing : ℕ → Event

abbrev second {ℓ κ} : {A : Type ℓ} {B : Type κ} → Option (A × B) → Option B
second none = none
second (some (a, b)) = some b

abbrev pub event_step : MemoryEvictionConfig → Event → EvictionState → Option EvictionState
event_step c (preparing space catalog) s = second (prepare_step c s space catalog)
event_step c (finishing space catalog reclaimed) s =
    second (finish_step c s space catalog reclaimed)
event_step c (requesting bytes) s = some (request_allocation_reclaim s bytes).1
event_step c (clearing generation) s = some (clear_allocation_reclaim s generation)

-- The state after the events, the last of which comes first.
unfoldable pub after_events : MemoryEvictionConfig → List Event → Option EvictionState
unfolding prepare_step finish_step request_allocation_reclaim clear_allocation_reclaim
after_events c [] = some idle_state
after_events c (e ∷ es) = elim (after_events c es) [ none ↦ none | some s ↦ event_step c e s ]

-- A sample above the high watermark that is taken before a step, and a sample above the low one.
abbrev pub triggers : MemoryEvictionConfig → Event → Bool
triggers c (preparing space catalog) =
    not (eqb space.capacity_bytes 0)
    && ltb (space.capacity_bytes * c.high_watermark_ppm / 1000000) space.used_bytes
triggers c (finishing space catalog reclaimed) = false
triggers c (requesting bytes) = false
triggers c (clearing generation) = false

abbrev pub stays_above : MemoryEvictionConfig → Event → Bool
stays_above c (preparing space catalog) =
    not (eqb space.capacity_bytes 0)
    && ltb (space.capacity_bytes * c.low_watermark_ppm / 1000000) space.used_bytes
stays_above c (finishing space catalog reclaimed) =
    not (eqb space.capacity_bytes 0)
    && ltb (space.capacity_bytes * c.low_watermark_ppm / 1000000) space.used_bytes
stays_above c (requesting bytes) = true
stays_above c (clearing generation) = true

-- Some sample triggered, and all samples since then were above the low watermark.
pub triggered : MemoryEvictionConfig → List Event → Bool
triggered c [] = false
triggered c (e ∷ es) = triggers c e || stays_above c e && triggered c es

sampled-active :
    (s : EvictionState) (space : SpaceStats) (catalog : CatalogStats) (high low : ℕ)
    → low ≤ high
    → (sampled s space catalog high low).1.watermark_active ≡ (
        not (eqb space.capacity_bytes 0) && ltb high space.used_bytes
        || not (eqb space.capacity_bytes 0) && ltb low space.used_bytes && s.watermark_active)
unfolding sampled update_sample refresh_debt_stats
sampled-active s space catalog high low ordered = ground (arith, ordered)

prepare_step-inv :
    (c : MemoryEvictionConfig) (s s' : EvictionState) (space : SpaceStats) (catalog : CatalogStats)
    → second (prepare_step c s space catalog) ≡ some s'
    → (sampled s space catalog
        (space.capacity_bytes * c.high_watermark_ppm / 1000000)
        (space.capacity_bytes * c.low_watermark_ppm / 1000000)).1
      ≡ s'
unfolding prepare_step
prepare_step-inv c s s' space catalog done =
    elim (Bool-cases (leb (space.capacity_bytes * c.high_watermark_ppm / 1000000) u64_max)) [
      | inr over ↦ absurd (ground (arith, done, over))
      | inl high ↦
          elim (Bool-cases (leb (space.capacity_bytes * c.low_watermark_ppm / 1000000) u64_max)) [
            | inr over ↦ absurd (ground (arith, done, high, over))
            | inl low ↦ ground (arith, done, high, low)
          ]
    ]

finish_step-inv :
    (c : MemoryEvictionConfig) (s s' : EvictionState) (space : SpaceStats) (catalog : CatalogStats)
    (reclaimed : ℕ)
    → second (finish_step c s space catalog reclaimed) ≡ some s'
    → finished s space catalog reclaimed (space.capacity_bytes * c.low_watermark_ppm / 1000000) ≡ s'
unfolding finish_step
finish_step-inv c s s' space catalog reclaimed done =
    elim (Bool-cases (leb (space.capacity_bytes * c.high_watermark_ppm / 1000000) u64_max)) [
      | inr over ↦ absurd (ground (arith, done, over))
      | inl high ↦
          elim (Bool-cases (leb (space.capacity_bytes * c.low_watermark_ppm / 1000000) u64_max)) [
            | inr over ↦ absurd (ground (arith, done, high, over))
            | inl low ↦ ground (arith, done, high, low)
          ]
    ]

finished-active :
    (s : EvictionState) (space : SpaceStats) (catalog : CatalogStats) (reclaimed low : ℕ)
    → (finished s space catalog reclaimed low).watermark_active
      ≡ (not (eqb space.capacity_bytes 0) && ltb low space.used_bytes && s.watermark_active)
unfolding finished update_sample refresh_debt_stats
finished-active s space catalog reclaimed low = ground arith

clear-active :
    (s : EvictionState) (generation : ℕ)
    → (clear_allocation_reclaim s generation).watermark_active ≡ s.watermark_active
unfolding clear_allocation_reclaim refresh_debt_stats
clear-active s generation = ground arith

request-active :
    (s : EvictionState) (bytes : ℕ)
    → (request_allocation_reclaim s bytes).1.watermark_active ≡ s.watermark_active
unfolding request_allocation_reclaim refresh_debt_stats
request-active s bytes = refl

event_step-active :
    (c : MemoryEvictionConfig) (e : Event) (s s' : EvictionState)
    → IsPolicy c
    → event_step c e s ≡ some s'
    → s'.watermark_active ≡ (triggers c e || stays_above c e && s.watermark_active)
event_step-active c (preparing space catalog) s s' policy done =
    sym (ap (λ x. x.watermark_active) (prepare_step-inv c s s' space catalog done))
    ∙ sampled-active s space catalog (space.capacity_bytes * c.high_watermark_ppm / 1000000)
        (space.capacity_bytes * c.low_watermark_ppm / 1000000)
        (scale_le space.capacity_bytes c.low_watermark_ppm c.high_watermark_ppm
          (omega (arith, policy.0)))
event_step-active c (finishing space catalog reclaimed) s s' policy done =
    sym (ap (λ x. x.watermark_active) (finish_step-inv c s s' space catalog reclaimed done))
    ∙ finished-active s space catalog reclaimed
        (space.capacity_bytes * c.low_watermark_ppm / 1000000)
event_step-active c (requesting bytes) s s' policy done =
    sym (ap (λ x. x.watermark_active) (some_inj.0 done)) ∙ request-active s bytes
event_step-active c (clearing generation) s s' policy done =
    sym (ap (λ x. x.watermark_active) (some_inj.0 done)) ∙ clear-active s generation

after_events-inv :
    (c : MemoryEvictionConfig) (e : Event) (es : List Event) (s' : EvictionState)
    → after_events c (e ∷ es) ≡ some s'
    → (s : EvictionState) × (after_events c es ≡ some s) × (event_step c e s ≡ some s')
unfolding after_events
after_events-inv c e es s' done = elim (Option-cases (after_events c es)) [
  | inl panic ↦ absurd (ground (arith, done, panic))
  | inr (s, before) ↦ (s, before, ground (arith, done, before))
]

-- The hysteresis: after any history of samples, reports and allocation failures under an accepted policy, the
-- eviction is switched on exactly when some sample before a step was above the high watermark and all samples
-- since then, before and after a step, were above the low one.
pub after_events-triggered :
    (c : MemoryEvictionConfig) (es : List Event) (s : EvictionState)
    → IsPolicy c
    → after_events c es ≡ some s
    → s.watermark_active ≡ triggered c es
unfolding after_events triggered
after_events-triggered c [] s policy done = sym (ap (λ x. x.watermark_active) (some_inj.0 done))
after_events-triggered c (e ∷ es) s' policy done =
    let (s, before, step) = after_events-inv c e es s' done in
    event_step-active c e s s' policy step
    ∙ ap (λ b. triggers c e || stays_above c e && b) (after_events-triggered c es s policy before)

-- A clean-up of an older allocation failure leaves the state as it is, with the bytes that a later failure
-- asked for; whatever generation the counter has, also where it wraps around.
pub clear-request_later :
    (s : EvictionState) (first second : ℕ)
    → IsU64 s.allocation_generation
    → let (generation, s1) = request_allocation_reclaim s first in
      let s2 = (request_allocation_reclaim s1 second).1 in
      (clear_allocation_reclaim s2 generation ≡ s2) × (second ≤ s2.allocation_reclaim_bytes)
unfolding request_allocation_reclaim clear_allocation_reclaim refresh_debt_stats
clear-request_later s first second fits = ground (arith, fits)
