-- ===== src/Object/Catalog/Publish.antt =====
-- src/object/catalog/write.rs: staging the allocated replicas, and the commit that publishes them.
use cakemaster.Base.{
  ℕ, suc, Bool, not, ◌&&◌, Option, none, some, [], ◌∷◌, ◌++◌, if◌then◌else◌, eqb, leb, u64_max,
  Result, ok, err, ◌==◌, nat_eq,
}
use cakemaster.Tenant.Account.{ChargePhase, retiring}
use cakemaster.Object.Access.{AccessControl, for_commit, soft_pin_until}
use cakemaster.Object.Identity.{ObjectContent, ObjectCommit, commit_beq, write_owner_eq}
use cakemaster.Object.Replicas.{
  ReplicaSet, all_live, validate_stage_replicas, StageError, claim_lost, owner_inactive, zero_size,
}
use cakemaster.Object.Catalog.Counters.{on_commit_new, on_commit_replacing}
use cakemaster.Object.Catalog.Defs.{
  Version, in_memory, Published, GcCandidate, claimed, staged, ActiveTransaction, Slot, Catalog,
  WriteClaim, WriteTransaction, put_slot, upgrade, has_committed, committed_points_to, charge_phase,
}
use cakemaster.Object.Catalog.Write.{
  drop_claim, is_claimed, new_version, put_staged, abort, request_liveness_if, CommitError,
  foreign_catalog, transaction_gone, not_staged, commit_conflict, replicas_invalidated,
}

-- A staging that fails drops its claim.
unfoldable pub refuse_stage :
    Catalog → (ℕ → Bool) → WriteClaim → StageError → Result StageError WriteTransaction × Catalog
refuse_stage s live claim e = (err e, drop_claim s live claim)

-- A session that ended while the version was staged loses it again. The claim was used up.
unfoldable pub confirm_owner :
    (ℕ → Bool)
    → Bool
    → ℕ
    → WriteTransaction × Catalog
    → Result StageError WriteTransaction × Catalog
confirm_owner live still_active started_at (t, s) =
    if still_active then (ok t, s) else elim (abort s live t started_at) [
      | ok s' ↦ (err owner_inactive, s')
      | err _ ↦ (err owner_inactive, s)
    ]

unfoldable pub stage_active :
    Catalog
    → (ℕ → Bool)
    → WriteClaim
    → ObjectContent
    → ReplicaSet
    → Bool
    → Bool
    → Slot
    → ActiveTransaction
    → Result StageError WriteTransaction × Catalog
unfolding refuse_stage confirm_owner put_staged
stage_active s live claim content replicas accounted still_active slot active =
    if eqb active.id claim.id && active.owner == claim.owner && is_claimed active.phase
    then confirm_owner live still_active claim.started_at
        (put_staged s claim (new_version s claim content replicas) accounted slot active)
    else refuse_stage s live claim claim_lost

-- `stage_inner`. The guard is read before (`active`) and after (`still_active`) the staging.
unfoldable pub stage :
    Catalog
    → (ℕ → Bool)
    → WriteClaim
    → ObjectContent
    → ReplicaSet
    → Bool
    → Bool
    → Bool
    → Result StageError WriteTransaction × Catalog
unfolding refuse_stage stage_active
stage s live claim content replicas accounted active still_active =
    if not active
    then refuse_stage s live claim owner_inactive
    else if eqb content.logical_bytes 0
    then refuse_stage s live claim zero_size
    else elim (validate_stage_replicas live replicas content.logical_bytes) [
      | err e ↦ refuse_stage s live claim e
      | ok _ ↦ elim (upgrade s claim.slot) [
        | none ↦ refuse_stage s live claim claim_lost
        | some slot ↦ elim slot.active [
          | none ↦ refuse_stage s live claim claim_lost
          | some transaction ↦
              stage_active s live claim content replicas accounted still_active slot transaction
        ]
      ]
    ]

-- The base of the transaction is what the slot still points to.
abbrev pub base_matches : Slot → ActiveTransaction → Bool
base_matches slot active = elim active.base [
  | none ↦ not (has_committed slot)
  | some base ↦ committed_points_to slot base.address
]

abbrev pub base_access : Slot → Option AccessControl
base_access slot = elim slot.committed [ none ↦ none | some p ↦ some p.access ]

abbrev pub publication : Slot → ActiveTransaction → Version → ObjectCommit → ℕ → Published
publication slot active pending commit now = record {
  version = pending;
  version_id = slot.next_version_id;
  commit = commit;
  access = for_commit (base_access slot) active.pins now;
}

abbrev pub enqueue_soft_pin : Option ℕ → GcCandidate → Catalog → Catalog
enqueue_soft_pin none candidate s = s
enqueue_soft_pin (some deadline) candidate s = record s {
  soft_pins = s.soft_pins ++ (record { candidate = candidate; deadline = deadline } ∷ []);
}

-- The two eviction queues that a new version enters.
unfoldable pub enqueue_published : Catalog → ℕ → Published → Catalog
enqueue_published s k p =
    let candidate : GcCandidate = record { slot = k; version = p.version.address } in
    enqueue_soft_pin (soft_pin_until p.access) candidate
      (record s { young = s.young ++ (candidate ∷ []) })

-- The replaced version is retired, to be reclaimed after its lease.
unfoldable pub retire_replaced : Catalog → Option Published → Catalog
unfolding charge_phase
retire_replaced s none = s
retire_replaced s (some old) = record s {
  charges = charge_phase old.version.address retiring s.charges;
  retired =
      s.retired ++ (record { version = old.version; reclaim_after = old.access.lease_word } ∷ []);
}

abbrev pub count_commit : Option Published → Version → Catalog → Catalog
count_commit none pending s = record s { counters = on_commit_new pending.bytes s.counters }
count_commit (some old) pending s = record s {
  counters =
      on_commit_replacing pending.bytes old.version.bytes
        (if in_memory old.version then old.version.bytes else 0) s.counters;
}

abbrev pub published_slot : Slot → Published → Slot
published_slot slot p = record slot {
  committed = some p;
  next_version_id = suc slot.next_version_id;
  active = none;
}

-- The counters, the queues and the replaced version, once the slot points to the new version.
unfoldable pub settle : (ℕ → Bool) → ℕ → Published → Option Published → Catalog → Catalog
unfolding enqueue_published retire_replaced request_liveness_if on_commit_new on_commit_replacing
settle live k p old s =
    request_liveness_if (not (all_live live p.version.replicas))
      (retire_replaced (enqueue_published (count_commit old p.version s) k p) old)

unfoldable pub put_published : Catalog → ℕ → Slot → Published → Catalog
unfolding put_slot charge_phase
put_published s k slot p = record (put_slot s k (published_slot slot p)) {
  charges = charge_phase p.version.address ChargePhase.committed s.charges;
  published = p.version.address ∷ s.published;
}

unfoldable pub publish :
    Catalog
    → (ℕ → Bool)
    → ℕ
    → Slot
    → ActiveTransaction
    → Version
    → ObjectCommit
    → ℕ
    → Published × Catalog
unfolding put_published settle
publish s live k slot active pending commit now =
    let p = publication slot active pending commit now in
    (p, settle live k p slot.committed (put_published s k slot p))

unfoldable pub commit_staged :
    Catalog
    → (ℕ → Bool)
    → ℕ
    → Slot
    → ActiveTransaction
    → Version
    → ObjectCommit
    → ℕ
    → Option (Result CommitError (Published × Catalog))
unfolding publish
commit_staged s live k slot active pending commit now =
    if not (all_live live pending.replicas)
    then some (err replicas_invalidated)
    else if not (base_matches slot active)
    then some (err transaction_gone)
    else if leb (suc slot.next_version_id) u64_max
    then some (ok (publish s live k slot active pending commit now))
    else none

unfoldable pub commit_active :
    Catalog
    → (ℕ → Bool)
    → WriteTransaction
    → Slot
    → ActiveTransaction
    → ObjectCommit
    → ℕ
    → Option (Result CommitError (Published × Catalog))
unfolding commit_staged
commit_active s live t slot active commit now =
    if not (eqb active.id t.id) then some (err transaction_gone) else elim active.phase [
      | claimed ↦ some (err not_staged)
      | staged pending ↦
          if eqb pending.address t.pending.address
          then commit_staged s live t.slot slot active pending commit now
          else some (err transaction_gone)
    ]

-- A commit that is sent again finds the version that it published.
unfoldable pub commit_again :
    Catalog → WriteTransaction → Slot → ObjectCommit → Result CommitError (Published × Catalog)
commit_again s t slot commit = elim slot.committed [
  | none ↦ err transaction_gone
  | some p ↦
      if not (eqb p.version.origin t.id)
      then err transaction_gone
      else if commit_beq p.commit commit
      then ok (p, s)
      else err commit_conflict
]

unfoldable pub commit :
    Catalog
    → (ℕ → Bool)
    → WriteTransaction
    → ObjectCommit
    → ℕ
    → Option (Result CommitError (Published × Catalog))
unfolding commit_active commit_again
commit s live t checksum now =
    if not (eqb t.catalog s.catalog_id)
    then some (err foreign_catalog)
    else elim (upgrade s t.slot) [
      | none ↦ some (err transaction_gone)
      | some slot ↦ elim slot.active [
        | some active ↦ commit_active s live t slot active checksum now
        | none ↦ some (commit_again s t slot checksum)
      ]
    ]
