-- ===== src/Object/Catalog/Scoped.antt =====
-- src/object/catalog/collector.rs: `evict_scoped`, the eviction for the debts of tenants and classes.
use cakemaster.Base.{
  ℕ, zero, suc, ◌-◌, ◌*◌, Bool, true, false, ◌&&◌, Option, none, some, List, [], ◌∷◌, if◌then◌else◌,
  eqb, leb, ltb, min, u64_max, nat_eq, is_some,
}
use cakemaster.Base.Lists.{length}
use cakemaster.Base.Table.{get}
use cakemaster.Object.Catalog.Defs.{Version, in_memory, GcCandidate, Catalog, upgrade}
use cakemaster.Object.Catalog.Queues.{queue_of, with_queue}
use cakemaster.Object.Catalog.Collect.{push_candidate, evict_candidate}

-- Memory is the only class of replicas.
pub data ReclaimFilter : Type 0 where
  any class : ReclaimFilter
  scope : ℕ → ReclaimFilter

pub record ReclaimTarget : Type 0 where
  pub filter : ReclaimFilter
  pub bytes : ℕ

abbrev pub Debts : Type 0
Debts = List (ReclaimFilter × ℕ)

abbrev pub debts_of : List ReclaimTarget → Debts
debts_of [] = []
debts_of (t ∷ ts) = if ltb 0 t.bytes then (t.filter, t.bytes) ∷ debts_of ts else debts_of ts

abbrev pub all_paid : Debts → Bool
all_paid [] = true
all_paid ((filter, debt) ∷ ds) = eqb debt 0 && all_paid ds

-- `is_accounted`.
abbrev pub is_accounted : Catalog → Version → Bool
is_accounted s v = is_some (get v.address s.charges)

abbrev pub filter_matches : Catalog → Version → ReclaimFilter → Bool
filter_matches s v any = true
filter_matches s v class = in_memory v
filter_matches s v (scope namespace) =
    is_accounted s v && eqb v.identity.namespace namespace && in_memory v

-- The positions, from `i` on, of the debts that a version can pay.
abbrev pub matching : Catalog → Version → ℕ → Debts → List ℕ
matching s v i [] = []
matching s v i ((filter, debt) ∷ ds) =
    if ltb 0 debt && filter_matches s v filter
    then i ∷ matching s v (suc i) ds
    else matching s v (suc i) ds

pub data ScopedCandidate : Type 0 where
  stale unmatched : ScopedCandidate
  matches : Version → List ℕ → ScopedCandidate

abbrev pub match_result : Version → List ℕ → ScopedCandidate
match_result v [] = unmatched
match_result v (i ∷ is) = matches v (i ∷ is)

-- `classify_scoped_candidate`, with the version that it looked at.
unfoldable pub classify_scoped_candidate : Catalog → GcCandidate → Debts → ScopedCandidate
classify_scoped_candidate s c debts = elim (upgrade s c.slot) [
  | none ↦ stale
  | some slot ↦ elim slot.committed [
    | none ↦ stale
    | some p ↦
        if eqb p.version.address c.version
        then match_result p.version (matching s p.version 0 debts)
        else stale
  ]
]

pub record RetiredBytes : Type 0 where
  pub physical : ℕ
  pub quota : ℕ

-- What a tenant was charged for a version, or the bytes of the version where there is no charge.
abbrev pub quota_bytes : Catalog → Version → ℕ
quota_bytes s v =
    let charged = v.content.logical_bytes * length v.replicas in
    if is_accounted s v && in_memory v && leb charged u64_max then charged else v.bytes

abbrev pub payment : ReclaimFilter → RetiredBytes → ℕ
payment any r = r.physical
payment class r = r.physical
payment (scope namespace) r = r.quota

abbrev pub pay_at : RetiredBytes → ℕ → Debts → Debts
pay_at r i [] = []
pay_at r zero ((filter, debt) ∷ ds) = (filter, debt - payment filter r) ∷ ds
pay_at r (suc i) ((filter, debt) ∷ ds) = (filter, debt) ∷ pay_at r i ds

abbrev pub pay : RetiredBytes → List ℕ → Debts → Debts
pay r [] ds = ds
pay r (i ∷ is) ds = pay r is (pay_at r i ds)

abbrev pub settle_debts : RetiredBytes → List ℕ → Debts → Debts
settle_debts r is ds = if ltb 0 r.physical then pay r is ds else ds

-- One round, for the candidate that was taken from its queue: the catalog and the debts after it.
unfoldable pub evict_scoped_candidate :
    Catalog → Debts → GcCandidate → Bool → ℕ → Option ℕ → Catalog × Debts
unfolding classify_scoped_candidate evict_candidate
evict_scoped_candidate s debts c b now late = elim (classify_scoped_candidate s c debts) [
  | stale ↦ (s, debts)
  | unmatched ↦ (push_candidate b c s, debts)
  | matches v is ↦
      let evicted = evict_candidate s c b now late in
      let retired : RetiredBytes = record { physical = evicted.1; quota = quota_bytes s v } in
      (evicted.0, settle_debts retired is debts)
]

-- The state of the loop: the catalog, the debts and the number of candidates that were scanned.
pub record ScopedState : Type 0 where
  pub catalog : Catalog
  pub debts : Debts
  pub scanned : ℕ

unfoldable pub evict_scoped_queue : ℕ → ScopedState → Bool → ℕ → (ℕ → Option ℕ) → ScopedState
unfolding evict_scoped_candidate
evict_scoped_queue zero t b now late = t
evict_scoped_queue (suc n) t b now late =
    if all_paid t.debts then t else elim (queue_of b t.catalog) [
      | [] ↦ t
      | c ∷ rest ↦
          let round =
            evict_scoped_candidate (with_queue b rest t.catalog) t.debts c b now (late c.version) in
          evict_scoped_queue n
            (record { catalog = round.0; debts = round.1; scanned = suc t.scanned }) b now late
    ]

abbrev pub start_scoped : Catalog → List ReclaimTarget → ScopedState
start_scoped s targets = record { catalog = s; debts = debts_of targets; scanned = 0 }

-- `evict_scoped`: the lengths of both queues are read first.
unfoldable pub evict_scoped : Catalog → List ReclaimTarget → ℕ → ℕ → (ℕ → Option ℕ) → ScopedState
unfolding evict_scoped_queue
evict_scoped s targets now budget late =
    let first =
      evict_scoped_queue (min (length s.young) budget) (start_scoped s targets) false now late in
    evict_scoped_queue (min (length s.protected) (budget - first.scanned)) first true now late
