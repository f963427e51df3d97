-- ===== src/Object/Catalog/Defs.antt =====
-- src/object/catalog.rs: slots, versions and the queues of the collector.
-- A version is shared by `Arc`s and changes only in its cells: so the model has the version by value with
-- an `address`, which `Arc::ptr_eq` compares, and keeps the cells of a published version
-- (`CommittedVersion`) beside the slot's pointer to it. The sweep that prunes dead replicas changes the
-- version there; the base of a transaction is compared by its address, and is asked only whether it has a
-- live replica, which those that were taken off do not change, as no replica comes back to life.
use cakemaster.Base.{
  ℕ, Bool, true, false, not, Option, none, some, List, [], if◌then◌else◌, eqb, nat_eq,
}
use cakemaster.Base.Table.{Table, get, insert}
use cakemaster.Tenant.Account.{ChargePhase}
use cakemaster.Object.Access.{ResolvedPinRequest, AccessControl, ObjectCatalogConfig}
use cakemaster.Object.Identity.{
  ObjectIdentity, ObjectContent, WriteOwner, ObjectCommit, object_identity_eq,
}
use cakemaster.Object.Replicas.{ReplicaSet, is_empty}
use cakemaster.Object.Catalog.Counters.{Counters, no_objects}

pub record Version : Type 0 where
  pub address : ℕ
  pub origin : ℕ
  pub owner : WriteOwner
  pub identity : ObjectIdentity
  pub content : ObjectContent
  pub replicas : ReplicaSet
  pub bytes : ℕ

-- `current_direct_replica_class() == Some(Memory)`: Memory is the only class.
abbrev pub in_memory : Version → Bool
in_memory v = not (is_empty v.replicas)

-- A version with its `CommittedVersion`.
pub record Published : Type 0 where
  pub version : Version
  pub version_id : ℕ
  pub commit : ObjectCommit
  pub access : AccessControl

pub data TransactionPhase : Type 0 where
  claimed : TransactionPhase
  staged : Version → TransactionPhase

-- The base is the version that was committed when the transaction began.
pub record ActiveTransaction : Type 0 where
  pub id : ℕ
  pub owner : WriteOwner
  pub base : Option Version
  pub pins : ResolvedPinRequest
  pub phase : TransactionPhase

-- `ObjectSlot` with its `SlotControl`; `dropped` once its last reference is gone.
pub record Slot : Type 0 where
  pub dropped : Bool
  pub slot_identity : ObjectIdentity
  pub committed : Option Published
  pub next_transaction_id : ℕ
  pub next_version_id : ℕ
  pub active : Option ActiveTransaction

pub record GcCandidate : Type 0 where
  pub slot : ℕ
  pub version : ℕ

pub record PendingCandidate : Type 0 where
  pub slot : ℕ
  pub pending : Version
  pub transaction_id : ℕ
  pub deadline : ℕ

pub record SoftPinCandidate : Type 0 where
  pub candidate : GcCandidate
  pub deadline : ℕ

pub record EmptySlotCandidate : Type 0 where
  pub identity : ObjectIdentity
  pub slot : ℕ
  pub deadline : ℕ

-- `reserved_bytes` is the `bytes` of the version.
pub record RetiredObject : Type 0 where
  pub version : Version
  pub reclaim_after : ℕ

pub record WriteClaim : Type 0 where
  pub slot : ℕ
  pub identity : ObjectIdentity
  pub id : ℕ
  pub owner : WriteOwner
  pub started_at : ℕ

pub record WriteTransaction : Type 0 where
  pub catalog : ℕ
  pub slot : ℕ
  pub pending : Version
  pub id : ℕ

-- `CatalogInner`. The slots stand in a store by number, which the index and the weak pointers hold. `charges` has the phase of each tenant charge by
-- the address of its version, and `published` the addresses whose `OnceLock` is set.
pub record Catalog : Type 0 where
  pub catalog_id : ℕ
  pub config : ObjectCatalogConfig
  pub index : Table ObjectIdentity ℕ
  pub slots : Table ℕ Slot
  pub slot_count : ℕ
  pub next_slot : ℕ
  pub next_address : ℕ
  pub charges : Table ℕ ChargePhase
  pub published : List ℕ
  pub counters : Counters
  pub young : List GcCandidate
  pub protected : List GcCandidate
  pub soft_pins : List SoftPinCandidate
  pub pending_candidates : List PendingCandidate
  pub retired : List RetiredObject
  pub empty_slots : List EmptySlotCandidate
  pub liveness_requested : Bool
  pub young_remaining : ℕ
  pub protected_remaining : ℕ
  pub reclaim_requested : ℕ

abbrev pub new_catalog : ℕ → ObjectCatalogConfig → Catalog
new_catalog catalog_id config = record {
  catalog_id = catalog_id;
  config = config;
  index = [];
  slots = [];
  slot_count = 0;
  next_slot = 0;
  next_address = 0;
  charges = [];
  published = [];
  counters = no_objects;
  young = [];
  protected = [];
  soft_pins = [];
  pending_candidates = [];
  retired = [];
  empty_slots = [];
  liveness_requested = false;
  young_remaining = 0;
  protected_remaining = 0;
  reclaim_requested = 0;
}

-- `Weak::upgrade` of a pointer to a slot.
abbrev pub upgrade : Catalog → ℕ → Option Slot
upgrade s k = elim (get k s.slots) [
  | none ↦ none
  | some slot ↦ if slot.dropped then none else some slot
]

-- A slot changed under its control lock.
unfoldable pub put_slot : Catalog → ℕ → Slot → Catalog
put_slot s k slot = record s { slots = insert k slot s.slots }

abbrev pub has_committed : Slot → Bool
has_committed slot = elim slot.committed [ none ↦ false | some _ ↦ true ]

-- `committed_points_to`.
abbrev pub committed_points_to : Slot → ℕ → Bool
committed_points_to slot address = elim slot.committed [
  | none ↦ false
  | some p ↦ eqb p.version.address address
]

-- `load_committed`, as the version alone.
abbrev pub committed_version : Slot → Option Version
committed_version slot = elim slot.committed [ none ↦ none | some p ↦ some p.version ]

-- A change of a charge's phase, when the version is accounted.
unfoldable pub charge_phase : ℕ → ChargePhase → Table ℕ ChargePhase → Table ℕ ChargePhase
charge_phase address phase m = elim (get address m) [ none ↦ m | some old ↦ insert address phase m ]
