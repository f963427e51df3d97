-- ===== src/Object/Catalog/Reads.antt =====
-- src/object/catalog/read.rs and catalog.rs: reads of many objects, the statistics and the names of the
-- objects of a namespace.
use cakemaster.Base.{
  ℕ, Bool, false, ◌&&◌, none, some, List, [], ◌∷◌, if◌then◌else◌, eqb, saturating_add, Result,
  nat_eq,
}
use cakemaster.Base.Lists.{length}
use cakemaster.Base.Table.{Table, get}
use cakemaster.Object.Identity.{ObjectIdentity, object_identity_eq}
use cakemaster.Object.Catalog.Counters.{Counters}
use cakemaster.Object.Catalog.Defs.{Published, Catalog, has_committed}
use cakemaster.Object.Catalog.Collect.{LookupError, get_object}

-- `get_batch_into`: one read after the other, each with the flags of the leases at its time.
unfoldable pub get_batch :
    List (ObjectIdentity × (ℕ → Bool))
    → Catalog
    → ℕ
    → List (Result LookupError (Published × ℕ)) × Catalog
unfolding get_object
get_batch [] s now = ([], s)
get_batch ((identity, live) ∷ lookups) s now =
    let first = get_object s live identity now in
    let rest = get_batch lookups first.1 now in (first.0 ∷ rest.0, rest.1)

pub record ObjectCatalogStats : Type 0 where
  pub slots : ℕ
  pub lifecycle : Counters
  pub reclaim_debt : ℕ
  pub pending_candidates : ℕ
  pub soft_pin_candidates : ℕ
  pub liveness_scan_remaining : ℕ
  pub young_candidates : ℕ
  pub protected_candidates : ℕ
  pub retired_candidates : ℕ
  pub empty_slot_candidates : ℕ

abbrev pub catalog_stats : Catalog → ObjectCatalogStats
catalog_stats s = record {
  slots = s.slot_count;
  lifecycle = s.counters;
  reclaim_debt = s.reclaim_requested;
  pending_candidates = length s.pending_candidates;
  soft_pin_candidates = length s.soft_pins;
  liveness_scan_remaining = saturating_add s.young_remaining s.protected_remaining;
  young_candidates = length s.young;
  protected_candidates = length s.protected;
  retired_candidates = length s.retired;
  empty_slot_candidates = length s.empty_slots;
}

abbrev slot_is_committed : Catalog → ℕ → Bool
slot_is_committed s k = elim (get k s.slots) [ none ↦ false | some slot ↦ has_committed slot ]

abbrev identities_in : Catalog → ℕ → Table ObjectIdentity ℕ → List ObjectIdentity
identities_in s namespace [] = []
identities_in s namespace ((identity, k) ∷ entries) =
    if eqb identity.namespace namespace && slot_is_committed s k
    then identity ∷ identities_in s namespace entries
    else identities_in s namespace entries

-- `identities`, in the order of the index.
abbrev pub identities : Catalog → ℕ → List ObjectIdentity
identities s namespace = identities_in s namespace s.index
