-- ===== src/Object/Ledger/Examples.antt =====
-- A history of one object that is written twice, read, replaced and reclaimed, and one that is removed.
mod Collecting
use cakemaster.Base.{
  ℕ, ◌+◌, Bool, true, false, ◌&&◌, Option, none, some, List, [], ◌∷◌, ◌++◌, ◌≡◌, inl, inr, refl,
  arith, is_some, nat_eq, ok, err, leb, u64_max, Option-cases,
}
use cakemaster.Base.Table.{get, insert}
use cakemaster.Object.Access.{
  ObjectCatalogConfig, ObjectPinRequest, preserve, enable, resolve_pin_request,
}
use cakemaster.Object.Identity.{
  ObjectIdentity, ObjectContent, WriteOwner, insert_only, upsert, general, object_identity_eq,
}
use cakemaster.Object.Replicas.{ReplicaSet}
use cakemaster.Object.Catalog.Defs.{
  Version, Published, Slot, Catalog, WriteClaim, WriteTransaction, new_catalog,
}
use cakemaster.Object.Catalog.Defs.{ActiveTransaction, staged, upgrade}
use cakemaster.Object.Catalog.Write.{commit_conflict}
use cakemaster.Object.Catalog.Publish.{commit}
use cakemaster.Object.Commits.{commit_repeats}
use cakemaster.Object.Catalog.Collect.{remove_with_force, retire_published, evict}
use cakemaster.Object.Ledger.Defs.{Books, books, totals, Numbered}
use cakemaster.Object.Ledger.History.{
  CatalogCall, beginning, staging, committing, reading, removing, evicting, reclaiming,
  command_step, catalog_run, command_step-Refines, Refines, catalog_run-Numbered, new-Numbered,
}
use cakemaster.Object.Ledger.Counting.{Matches, Fits, each, plain}
use cakemaster.Object.Ledger.Totals.{AllFit, catalog_run-Matches}
use cakemaster.Object.Ledger.Ownership.{Owned, catalog_run-Owned}
use cakemaster.Object.Removal.{Removable, remove_with_force-Removable}
use cakemaster.Object.Eviction.{Keeps, evict-Keeps}

abbrev config : ObjectCatalogConfig
config = record {
  expected_objects = 16;
  lease_ttl_ticks = 100;
  lease_refresh_ticks = 50;
  pending_timeout_ticks = 1000;
  empty_slot_grace_ticks = 1000;
  max_retired_bytes = 1048576;
  default_soft_pin_ttl_ticks = 1000;
  max_soft_pin_ttl_ticks = 2000;
  allow_evict_soft_pinned_objects = true;
}

abbrev writer : WriteOwner
writer = record { client = record { high = 0; low = 7 }; session_generation = 1 }

abbrev object : ℕ → ObjectIdentity
object n = record { namespace = n; key = "weights" }

abbrev no_pins : ObjectPinRequest
no_pins = record { soft_pin_action = preserve; soft_pin_ttl_ticks = none; with_hard_pin = false }

abbrev hard_pin : ObjectPinRequest
hard_pin = record { soft_pin_action = preserve; soft_pin_ttl_ticks = none; with_hard_pin = true }

abbrev replicas : ReplicaSet
replicas = record { replica_id = 1; incarnation = 5; capacity_bytes = 64; reserved_bytes = 64 } ∷ []

abbrev content : ObjectContent
content = record { logical_bytes = 60; kind = general }

abbrev every : ℕ → Bool
every n = true

abbrev claim_on : ℕ → ℕ → ℕ → WriteClaim
claim_on slot id now = record {
  slot = slot;
  identity = object slot;
  id = id;
  owner = writer;
  started_at = now;
}

abbrev version_of : ℕ → ℕ → ℕ → Version
version_of address slot id = record {
  address = address;
  origin = id;
  owner = writer;
  identity = object slot;
  content = content;
  replicas = replicas;
  bytes = 64;
}

abbrev transaction : ℕ → ℕ → ℕ → WriteTransaction
transaction address slot id = record {
  catalog = 1;
  slot = slot;
  pending = version_of address slot id;
  id = id;
}

-- Object 0 is written and hard pinned, object 1 is written.
abbrev writes : List CatalogCall
writes =
    beginning (object 0) writer insert_only hard_pin 10
    ∷ staging every (claim_on 0 1 10) content replicas true true true
    ∷ committing every (transaction 0 0 1) (some 77) 12
    ∷ beginning (object 1) writer upsert no_pins 13
    ∷ staging every (claim_on 1 1 13) content replicas true true true
    ∷ committing every (transaction 1 1 1) none 14
    ∷ []

-- Then object 1 is replaced, the new version read and evicted, and what is retired reclaimed.
abbrev history : List CatalogCall
history =
    writes
    ++ (beginning (object 1) writer upsert no_pins 15
        ∷ staging every (claim_on 1 2 15) content replicas true true false
        ∷ beginning (object 1) writer upsert no_pins 16
        ∷ staging every (claim_on 1 3 16) content replicas true true true
        ∷ committing every (transaction 3 1 3) none 17
        ∷ reading every (object 1) 20
        ∷ reclaiming 2 20 every
        ∷ removing (object 1) 200 false none
        ∷ evicting 300 16 (λ _. none)
        ∷ reclaiming 2 400 every
        ∷ [])

abbrev start : Catalog
start = new_catalog 1 config

abbrev or_start : Option Catalog → Catalog
or_start (some s) = s
or_start none = start

some-or_start : (o : Option Catalog) → is_some o ≡ true → o ≡ some (or_start o)
some-or_start (some s) h = refl
some-or_start none h = absurd cc

abbrev final : Catalog
final = or_start (catalog_run history start)

abbrev written : Catalog
written = or_start (catalog_run writes start)

abbrev zero_id : Published
zero_id = record {
  version = version_of 0 0 1;
  version_id = 1;
  commit = some 77;
  access = record { lease_word = 0; recent = false; soft_pin_word = 0; hard_pinned = true };
}

abbrev zero_slot : Slot
zero_slot = record {
  dropped = false;
  slot_identity = object 0;
  committed = some zero_id;
  next_transaction_id = 2;
  next_version_id = 2;
  active = none;
}

abbrev one_id : Published
one_id = record {
  version = version_of 1 1 1;
  version_id = 1;
  commit = none;
  access = record { lease_word = 0; recent = false; soft_pin_word = 0; hard_pinned = false };
}

abbrev one_slot : Slot
one_slot = record zero_slot { slot_identity = object 1; committed = some one_id }

computed :
    (is_some (catalog_run history start) ≡ true)
    × (is_some (catalog_run writes start) ≡ true)
    × (get 0 written.slots ≡ some zero_slot)
    × (remove_with_force written (object 1) 200 false none
        ≡ (ok tt, retire_published written 1 one_slot one_id.version 200))
unfolding catalog_run cakemaster.Object.Catalog.Write.begin_write resolve_pin_request get insert
    cakemaster.Object.Catalog.Publish.commit cakemaster.Object.Catalog.Publish.stage
    cakemaster.Object.Replicas.validate_stage_replicas cakemaster.Object.Access.for_commit
    cakemaster.Object.Catalog.Write.abort remove_with_force
computed = (refl, refl, refl, refl)

catalog_run-Owned_example : Owned (books final)
catalog_run-Owned_example =
    catalog_run-Owned 1 config history (some-or_start (catalog_run history start) computed.0)

-- `Fits` and `AllFit` as tests.
abbrev fits : Books → Bool
fits b =
    leb ((totals each b).claims + (totals each b).staged + (totals each b).live) u64_max
    && leb ((totals plain b).staged + (totals plain b).live + (totals plain b).retired) u64_max

fits-Fits : (b : Books) → fits b ≡ true → Fits b
fits-Fits b h = ground (arith, h)

all_fit : List CatalogCall → Catalog → Bool
all_fit [] s = fits (books s)
all_fit (c ∷ cs) s =
    fits (books s) && elim (command_step c s) [ none ↦ true | some s' ↦ all_fit cs s' ]

all_fit-AllFit : (cs : List CatalogCall) (s : Catalog) → all_fit cs s ≡ true → AllFit cs s
unfolding all_fit AllFit
all_fit-AllFit [] s h = fits-Fits (books s) h
all_fit-AllFit (c ∷ cs) s h = elim (Option-cases (command_step c s)) [
  | inl panic ↦ (fits-Fits (books s) (ground (arith, h)), rw panic tt)
  | inr (t, first) ↦ (
    fits-Fits (books s) (ground (arith, h)),
    rw first (all_fit-AllFit cs t (ground (arith, h, first))),
  )
]

history-fits : all_fit history start ≡ true
unfolding catalog_run cakemaster.Object.Catalog.Write.begin_write resolve_pin_request get insert
    cakemaster.Object.Catalog.Publish.commit cakemaster.Object.Catalog.Publish.stage
    cakemaster.Object.Replicas.validate_stage_replicas cakemaster.Object.Access.for_commit
    cakemaster.Object.Catalog.Write.abort all_fit cakemaster.Object.Catalog.Collect.get_object
    cakemaster.Object.Catalog.Collect.reclaim remove_with_force
    cakemaster.Object.Access.record_access evict
history-fits = refl

catalog_run-Matches_example : Matches (books final)
catalog_run-Matches_example =
    catalog_run-Matches 1 config history (all_fit-AllFit history start history-fits)
      (some-or_start (catalog_run history start) computed.0)

remove_with_force-Removable_example :
    (k : ℕ) × (slot : Slot) × (p : Published) × (get (object 1) written.index ≡ some k)
    × Removable written 200 none k slot p
    × (retire_published written 1 one_slot one_id.version 200
        ≡ retire_published written k slot p.version 200)
remove_with_force-Removable_example =
    remove_with_force-Removable written (retire_published written 1 one_slot one_id.version 200)
      (object 1) 200 none computed.3

abbrev evicted : Catalog
evicted = or_start (command_step (evicting 300 16 (λ _. none)) written)

evicting-runs : command_step (evicting 300 16 (λ _. none)) written ≡ some evicted
unfolding command_step
evicting-runs = refl

written-Numbered : Numbered (books written)
written-Numbered =
    catalog_run-Numbered writes start (new-Numbered 1 config)
      (some-or_start (catalog_run writes start) computed.1)

command_step-Refines_example : Refines (evicting 300 16 (λ _. none)) written evicted
command_step-Refines_example =
    command_step-Refines (evicting 300 16 (λ _. none)) written written-Numbered evicting-runs

-- Object 0 is staged, then committed.
abbrev staged_once : Catalog
staged_once = or_start (
    catalog_run
      (beginning (object 0) writer insert_only hard_pin 10
        ∷ staging every (claim_on 0 1 10) content replicas true true true
        ∷ [])
      start)

abbrev zero_active : ActiveTransaction
zero_active = record {
  id = 1;
  owner = writer;
  pins = record { action = preserve; ttl_ticks = 0; hard_pin = true };
  phase = staged (version_of 0 0 1);
  base = none;
}

abbrev busy_slot : Slot
busy_slot = record zero_slot { committed = none; next_version_id = 1; active = some zero_active }

abbrev committed_once : Catalog
committed_once =
    or_start (command_step (committing every (transaction 0 0 1) (some 77) 12) staged_once)

first_commit :
    (commit staged_once every (transaction 0 0 1) (some 77) 12
      ≡ some (ok (zero_id, committed_once)))
    × (upgrade staged_once 0 ≡ some busy_slot)
unfolding catalog_run cakemaster.Object.Catalog.Write.begin_write resolve_pin_request get insert
    commit cakemaster.Object.Catalog.Publish.stage
    cakemaster.Object.Replicas.validate_stage_replicas cakemaster.Object.Access.for_commit
    command_step
first_commit = (refl, refl)

commit_repeats_example :
    commit committed_once every (transaction 0 0 1) (some 78) 50 ≡ some (err commit_conflict)
commit_repeats_example =
    commit_repeats staged_once every (transaction 0 0 1) (some 77) 12 zero_id committed_once
      busy_slot zero_active first_commit.0 first_commit.1 refl refl refl every (some 78) 50
