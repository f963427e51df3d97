-- ===== src/Object/Examples.antt =====
-- Leases and pins at concrete times.
use cakemaster.Base.{true, false, some, [], ◌∷◌, ◌≡◌, arith, leb, eqb, ◌||◌, ◌&&◌}
use cakemaster.Object.Access.{
  preserve, AccessControl, ResolvedPinRequest, ObjectCatalogConfig, is_soft_pinned,
  base_hard_pinned, for_commit, expire_soft_pin, acquire_lease,
}
use cakemaster.Object.Leases.{LeaseOutcome, acquire_lease-LeaseOutcome}
use cakemaster.Object.Pins.{pinned_after, for_commit_lem, expire_soft_pin_lem}

abbrev config : ObjectCatalogConfig
config = record {
  expected_objects = 65536;
  lease_ttl_ticks = 10000;
  lease_refresh_ticks = 5000;
  pending_timeout_ticks = 30000;
  empty_slot_grace_ticks = 60000;
  max_retired_bytes = 1073741824;
  default_soft_pin_ttl_ticks = 1800000;
  max_soft_pin_ttl_ticks = 86400000;
  allow_evict_soft_pinned_objects = true;
}

abbrev old_version : AccessControl
old_version = record { lease_word = 900; recent = true; soft_pin_word = 5000; hard_pinned = true }

abbrev pins : ResolvedPinRequest
pins = record { action = preserve; ttl_ticks = 0; hard_pin = false }

acquire_lease-LeaseOutcome_example :
    LeaseOutcome 6000 11000 100
      (200 ∷ 300 ∷ [])
      (acquire_lease 1000 10000 5000 100 (200 ∷ 300 ∷ []))
acquire_lease-LeaseOutcome_example =
    acquire_lease-LeaseOutcome 1000 10000 5000 100 (200 ∷ 300 ∷ []) (omega arith)

for_commit_lem_example :
    (is_soft_pinned (for_commit (some old_version) pins 1000) 4999
      ≡ pinned_after (some old_version) preserve 0 1000 4999)
    × ((for_commit (some old_version) pins 1000).hard_pinned
        ≡ (base_hard_pinned (some old_version) || false))
    × ((for_commit (some old_version) pins 1000).lease_word ≡ 0)
for_commit_lem_example = for_commit_lem (some old_version) pins 1000 4999 (omega arith)

expire_soft_pin_lem_example :
    (is_soft_pinned (expire_soft_pin old_version 5000 5000).1 5001
      ≡ is_soft_pinned old_version 5001)
    × ((expire_soft_pin old_version 5000 5000).0 ≡ (leb 5000 5000 && eqb 5000 5000))
expire_soft_pin_lem_example = expire_soft_pin_lem old_version 5000 5000 5001 (omega arith)
