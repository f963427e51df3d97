-- ===== src/Object/Catalog/Write.antt =====
-- src/object/catalog/write.rs: the write transactions. Each function holds the slot's control lock over
-- what it reads and changes of the slot, so it is one function on the catalog; the outer none is a panic.
-- A client's guard is read through `active`, what it said at the time.
use cakemaster.Base.{
  ℕ, suc, Bool, true, false, not, ◌&&◌, ◌||◌, Option, none, some, [], ◌∷◌, ◌++◌, if◌then◌else◌, eqb,
  leb, saturating_add, wrapping_add, u64_max, Result, ok, err, ◌==◌, nat_eq, is_some,
}
use cakemaster.Base.Table.{Table, get, insert}
use cakemaster.Identity.{string_eq}
use cakemaster.Tenant.Account.{ChargePhase, reserved, released}
use cakemaster.Object.Access.{
  ResolvedPinRequest, ObjectPinRequest, ObjectCatalogConfigError, resolve_pin_request,
}
use cakemaster.Object.Identity.{
  ObjectIdentity, ObjectContent, WriteOwner, WriteMode, insert_only, upsert, object_identity_eq,
  write_owner_eq,
}
use cakemaster.Object.Replicas.{ReplicaSet, has_live, total_reserved}
use cakemaster.Object.Catalog.Counters.{on_claim, on_claim_dropped, on_stage, on_abort_pending}
use cakemaster.Object.Catalog.Defs.{
  Version, in_memory, EmptySlotCandidate, PendingCandidate, TransactionPhase, claimed, staged,
  ActiveTransaction, Slot, Catalog, WriteClaim, WriteTransaction, put_slot, upgrade, has_committed,
  committed_version, charge_phase,
}

pub data BeginError : Type 0 where
  empty_key already_exists write_in_progress reclamation_backlog : BeginError
  invalid_pin_request : ObjectCatalogConfigError → BeginError

pub data CommitError : Type 0 where
  foreign_catalog transaction_gone not_staged commit_conflict replicas_invalidated : CommitError

pub data AbortError : Type 0 where
  abort_foreign_catalog abort_transaction_gone already_committed : AbortError

-- The transaction that a claim starts.
abbrev pub claimed_transaction :
    ℕ → WriteOwner → Option Version → ResolvedPinRequest → ActiveTransaction
claimed_transaction id owner base pins = record {
  id = id;
  owner = owner;
  base = base;
  pins = pins;
  phase = claimed;
}

abbrev pub first_slot : ObjectIdentity → WriteOwner → ResolvedPinRequest → Slot
first_slot identity owner pins = record {
  dropped = false;
  slot_identity = identity;
  committed = none;
  next_transaction_id = 2;
  next_version_id = 1;
  active = some (claimed_transaction 1 owner none pins);
}

-- A claim on an identity that is not indexed.
unfoldable pub begin_vacant :
    Catalog → ObjectIdentity → WriteOwner → ResolvedPinRequest → ℕ → WriteClaim × Catalog
unfolding put_slot on_claim
begin_vacant s identity owner pins now = (
  record { slot = s.next_slot; identity = identity; id = 1; owner = owner; started_at = now },
  record (put_slot s s.next_slot (first_slot identity owner pins)) {
    index = insert identity s.next_slot s.index;
    slot_count = wrapping_add s.slot_count 1;
    next_slot = suc s.next_slot;
    counters = on_claim s.counters;
  },
)

abbrev pub claimed_slot : Slot → WriteOwner → ResolvedPinRequest → Slot
claimed_slot slot owner pins = record slot {
  next_transaction_id = suc slot.next_transaction_id;
  active = some (claimed_transaction slot.next_transaction_id owner (committed_version slot) pins);
}

-- A claim on a slot that is idle.
unfoldable pub claim_slot :
    Catalog → ℕ → Slot → WriteOwner → ResolvedPinRequest → ℕ → WriteClaim × Catalog
unfolding put_slot on_claim
claim_slot s k slot owner pins now = (
  record {
    slot = k;
    identity = slot.slot_identity;
    id = slot.next_transaction_id;
    owner = owner;
    started_at = now;
  },
  record (put_slot s k (claimed_slot slot owner pins)) { counters = on_claim s.counters },
)

-- `allocate_transaction_id` panics when the numbers of the slot are used up.
unfoldable pub begin_claimed :
    Catalog → ℕ → Slot → WriteOwner → ResolvedPinRequest → ℕ → Option (WriteClaim × Catalog)
unfolding claim_slot
begin_claimed s k slot owner pins now =
    if leb (suc slot.next_transaction_id) u64_max
    then some (claim_slot s k slot owner pins now)
    else none

abbrev pub inserts : WriteMode → Bool
inserts insert_only = true
inserts upsert = false

unfoldable pub begin_occupied :
    Catalog
    → ℕ
    → Slot
    → WriteOwner
    → WriteMode
    → ResolvedPinRequest
    → ℕ
    → Option (Result BeginError (WriteClaim × Catalog))
unfolding begin_claimed
begin_occupied s k slot owner mode pins now =
    if is_some slot.active
    then some (err write_in_progress)
    else if inserts mode && has_committed slot
    then some (err already_exists)
    else elim (begin_claimed s k slot owner pins now) [ none ↦ none | some r ↦ some (ok r) ]

unfoldable pub begin_write_resolved :
    Catalog
    → ObjectIdentity
    → WriteOwner
    → WriteMode
    → ResolvedPinRequest
    → ℕ
    → Option (Result BeginError (WriteClaim × Catalog))
unfolding begin_occupied begin_vacant
begin_write_resolved s identity owner mode pins now =
    if identity.key == ""
    then some (err empty_key)
    else if leb s.config.max_retired_bytes s.counters.retired_bytes
    then some (err reclamation_backlog)
    else elim (get identity s.index) [
      | none ↦ some (ok (begin_vacant s identity owner pins now))
      | some k ↦ elim (get k s.slots) [
        | none ↦ none
        | some slot ↦ begin_occupied s k slot owner mode pins now
      ]
    ]

unfoldable pub begin_write :
    Catalog
    → ObjectIdentity
    → WriteOwner
    → WriteMode
    → ObjectPinRequest
    → ℕ
    → Option (Result BeginError (WriteClaim × Catalog))
unfolding begin_write_resolved
begin_write s identity owner mode pins now = elim (resolve_pin_request s.config pins) [
  | err e ↦ some (err (invalid_pin_request e))
  | ok resolved ↦ begin_write_resolved s identity owner mode resolved now
]

-- `enqueue_empty`, when the slot has nothing committed.
unfoldable pub enqueue_if_empty : Catalog → ℕ → Slot → ℕ → Catalog
enqueue_if_empty s k slot now =
    let candidate : EmptySlotCandidate = record {
      identity = slot.slot_identity;
      slot = k;
      deadline = saturating_add now s.config.empty_slot_grace_ticks;
    } in
    if has_committed slot then s else record s { empty_slots = s.empty_slots ++ (candidate ∷ []) }

abbrev pub base_is_invalid : (ℕ → Bool) → ActiveTransaction → Bool
base_is_invalid live active = elim active.base [
  | none ↦ false
  | some base ↦ not (has_live live base.replicas)
]

unfoldable pub request_liveness_if : Bool → Catalog → Catalog
request_liveness_if b s = record s { liveness_requested = b || s.liveness_requested }

abbrev pub is_claimed : TransactionPhase → Bool
is_claimed claimed = true
is_claimed (staged v) = false

unfoldable pub unclaim : Catalog → (ℕ → Bool) → WriteClaim → Slot → ActiveTransaction → Catalog
unfolding put_slot on_claim_dropped enqueue_if_empty request_liveness_if
unclaim s live claim slot active =
    let slot' : Slot = record slot { active = none } in
    let s' : Catalog = record (put_slot s claim.slot slot') {
      counters = on_claim_dropped s.counters;
    } in
    request_liveness_if (base_is_invalid live active)
      (enqueue_if_empty s' claim.slot slot' claim.started_at)

-- `Drop` of a claim that was not staged.
unfoldable pub drop_claim : Catalog → (ℕ → Bool) → WriteClaim → Catalog
unfolding unclaim
drop_claim s live claim = elim (upgrade s claim.slot) [
  | none ↦ s
  | some slot ↦ elim slot.active [
    | none ↦ s
    | some active ↦
        if eqb active.id claim.id && is_claimed active.phase
        then unclaim s live claim slot active
        else s
  ]
]

abbrev pub new_version : Catalog → WriteClaim → ObjectContent → ReplicaSet → Version
new_version s claim content replicas = record {
  address = s.next_address;
  origin = claim.id;
  owner = claim.owner;
  identity = claim.identity;
  content = content;
  replicas = replicas;
  bytes = total_reserved replicas;
}

-- The charge that the quota reservation becomes, for an accounted object.
abbrev pub with_charge : Bool → ℕ → Table ℕ ChargePhase → Table ℕ ChargePhase
with_charge accounted address m = if accounted then insert address reserved m else m

abbrev pub staged_slot : Slot → ActiveTransaction → Version → Slot
staged_slot slot active pending = record slot {
  active = some (record active { phase = staged pending });
}

unfoldable pub put_staged :
    Catalog → WriteClaim → Version → Bool → Slot → ActiveTransaction → WriteTransaction × Catalog
unfolding put_slot on_stage
put_staged s claim pending accounted slot active =
    let candidate : PendingCandidate = record {
      slot = claim.slot;
      pending = pending;
      transaction_id = claim.id;
      deadline = saturating_add claim.started_at s.config.pending_timeout_ticks;
    } in
    (
      record { catalog = s.catalog_id; slot = claim.slot; pending = pending; id = claim.id },
      record (put_slot s claim.slot (staged_slot slot active pending)) {
        next_address = suc s.next_address;
        charges = with_charge accounted pending.address s.charges;
        counters = on_stage pending.bytes s.counters;
        pending_candidates = s.pending_candidates ++ (candidate ∷ []);
      },
    )

-- `retire_aborted_pending`.
unfoldable pub retire_aborted_pending : Catalog → Version → ℕ → Catalog
unfolding on_abort_pending charge_phase
retire_aborted_pending s pending now = record s {
  charges = charge_phase pending.address released s.charges;
  counters = on_abort_pending pending.bytes (in_memory pending) s.counters;
  retired = s.retired ++ (record { version = pending; reclaim_after = now } ∷ []);
}

-- The staged version taken out of its slot and retired: the common end of `abort` and `abort_pending`.
unfoldable pub abort_staged :
    Catalog → (ℕ → Bool) → ℕ → Slot → ActiveTransaction → Version → ℕ → Catalog
unfolding put_slot retire_aborted_pending enqueue_if_empty request_liveness_if
abort_staged s live k slot active pending now =
    let slot' : Slot = record slot { active = none } in
    request_liveness_if (base_is_invalid live active)
      (enqueue_if_empty (retire_aborted_pending (put_slot s k slot') pending now) k slot' now)

abbrev pub committed_origin : Slot → ℕ → Bool
committed_origin slot id = elim slot.committed [ none ↦ false | some p ↦ eqb p.version.origin id ]

unfoldable pub abort_active :
    Catalog
    → (ℕ → Bool)
    → WriteTransaction
    → Slot
    → ActiveTransaction
    → ℕ
    → Result AbortError Catalog
unfolding abort_staged
abort_active s live t slot active now =
    if not (eqb active.id t.id) then err abort_transaction_gone else elim active.phase [
      | claimed ↦ err abort_transaction_gone
      | staged pending ↦
          if eqb pending.address t.pending.address
          then ok (abort_staged s live t.slot slot active pending now)
          else err abort_transaction_gone
    ]

unfoldable pub abort : Catalog → (ℕ → Bool) → WriteTransaction → ℕ → Result AbortError Catalog
unfolding abort_active
abort s live t now =
    if not (eqb t.catalog s.catalog_id)
    then err abort_foreign_catalog
    else elim (upgrade s t.slot) [
      | none ↦ err abort_transaction_gone
      | some slot ↦ elim slot.active [
        | some active ↦ abort_active s live t slot active now
        | none ↦
            if committed_origin slot t.id then err already_committed else err abort_transaction_gone
      ]
    ]
