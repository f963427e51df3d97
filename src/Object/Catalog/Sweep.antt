-- ===== src/Object/Catalog/Sweep.antt =====
-- src/object/catalog/collector.rs and catalog.rs: `LivenessSweep`, which takes the dead replicas off the
-- published versions and retires those that have none left. The leases of the replicas are dropped after it.
use cakemaster.Base.{
  ℕ, zero, suc, ◌+◌, ◌-◌, Bool, true, false, not, ◌||◌, none, some, [], ◌∷◌, if◌then◌else◌, eqb,
  max, min, nat_eq, is_some,
}
use cakemaster.Base.Lists.{length}
use cakemaster.Object.Replicas.{
  ReplicaSet, total_reserved, live_part, prune_all_live, prune_all_stale, prune_mixed,
  prune_invalidated,
}
use cakemaster.Object.Catalog.Counters.{on_prune_published}
use cakemaster.Object.Catalog.Defs.{
  Version, Published, Slot, GcCandidate, Catalog, put_slot, upgrade,
}
use cakemaster.Object.Catalog.Queues.{queue_of, with_queue, remaining_of, with_remaining}
use cakemaster.Object.Catalog.Collect.{push_candidate, retire_published}

unfoldable pub request_liveness_scan : Catalog → Catalog
request_liveness_scan s = record s { liveness_requested = true }

-- `begin_if_requested`.
unfoldable pub begin_if_requested : Catalog → Catalog
begin_if_requested s =
    if s.liveness_requested
    then record s {
      liveness_requested = false;
      young_remaining = max s.young_remaining (length s.young);
      protected_remaining = max s.protected_remaining (length s.protected);
    }
    else s

abbrev pub sweep_is_incomplete : Catalog → Bool
sweep_is_incomplete s = not (eqb s.young_remaining 0) || not (eqb s.protected_remaining 0)

-- What is left of a version, and the bytes that it counts for: `ReplicaStorage::prune_invalidated`.
abbrev pub pruned_version : (ℕ → Bool) → ReplicaSet → Version → Version
pruned_version live stale v = record v {
  replicas = live_part live v.replicas;
  bytes = v.bytes - total_reserved stale;
}

abbrev pub pruned_slot : (ℕ → Bool) → ReplicaSet → Slot → Published → Slot
pruned_slot live stale slot p = record slot {
  committed = some (record p { version = pruned_version live stale p.version });
}

-- A version that keeps some of its replicas. A tenant's charge stays in its phase, for fewer bytes.
unfoldable pub put_pruned : Catalog → (ℕ → Bool) → ReplicaSet → ℕ → Slot → Published → Catalog
unfolding put_slot on_prune_published
put_pruned s live stale k slot p = record (put_slot s k (pruned_slot live stale slot p)) {
  counters = on_prune_published (total_reserved stale) s.counters;
  reclaim_requested = s.reclaim_requested - total_reserved stale;
}

unfoldable pub sweep_published :
    Catalog → (ℕ → Bool) → GcCandidate → Bool → Slot → Published → ℕ → Catalog
unfolding prune_invalidated retire_published put_pruned
sweep_published s live c b slot p now = elim (prune_invalidated live p.version.replicas) [
  | prune_all_live ↦ push_candidate b c s
  | prune_all_stale ↦
      if is_some slot.active
      then push_candidate b c s
      else retire_published s c.slot slot p.version now
  | prune_mixed stale ↦ push_candidate b c (put_pruned s live stale c.slot slot p)
]

-- One round of `retire_invalidated_published`.
unfoldable pub sweep_candidate : Catalog → (ℕ → Bool) → GcCandidate → Bool → ℕ → Catalog
unfolding sweep_published
sweep_candidate s live c b now = elim (upgrade s c.slot) [
  | none ↦ s
  | some slot ↦ elim slot.committed [
    | none ↦ s
    | some p ↦ if eqb p.version.address c.version then sweep_published s live c b slot p now else s
  ]
]

-- The rounds over one queue, and how many candidates they took.
unfoldable pub sweep_queue : ℕ → Catalog → (ℕ → Bool) → Bool → ℕ → Catalog × ℕ
unfolding sweep_candidate
sweep_queue zero s live b now = (s, 0)
sweep_queue (suc n) s live b now = elim (queue_of b s) [
  | [] ↦ (with_remaining b 0 s, 0)
  | c ∷ rest ↦
      let taken = with_remaining b (remaining_of b s - 1) (with_queue b rest s) in
      let later = sweep_queue n (sweep_candidate taken live c b now) live b now in
      (later.0, suc later.1)
]

-- `retire_invalidated_published`, with the number of candidates that it scanned.
unfoldable pub retire_invalidated_published : Catalog → (ℕ → Bool) → ℕ → ℕ → Catalog × ℕ
unfolding sweep_queue
retire_invalidated_published s live now budget =
    let first = sweep_queue (min s.young_remaining budget) s live false now in
    let second =
      sweep_queue (min first.0.protected_remaining (budget - first.1)) first.0 live true now in
    (second.0, first.1 + second.1)
