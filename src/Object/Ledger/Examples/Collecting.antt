-- ===== src/Object/Ledger/Examples/Collecting.antt =====
-- A whole step of the collector over the written objects, and a revocation of one of two staged writes.
use cakemaster.Base.{
  ℕ, Bool, ◌+◌, ◌≤◌, ◌⊎◌, arith, true, false, none, some, List, [], ◌∷◌, ◌≡◌, inl, inr, refl,
  nat_eq, subst, sym,
}
use cakemaster.Base.Lists.{In}
use cakemaster.Base.Table.{get, insert}
use cakemaster.Object.Access.{resolve_pin_request}
use cakemaster.Object.Identity.{WriteOwner, insert_only, object_identity_eq, write_owner_eq}
use cakemaster.Object.Watermark.Defs.{CollectBudget}
use cakemaster.Object.Catalog.Defs.{Catalog, PendingCandidate, GcCandidate}
use cakemaster.Object.Catalog.Sweep.{
  begin_if_requested, sweep_is_incomplete, retire_invalidated_published,
}
use cakemaster.Object.Sweeping.{begun_sweep-Settled}
use cakemaster.Object.Sweeping.Candidates.{Settled}
use cakemaster.Object.Catalog.Revoke.{
  session_owners, has_owner, pending_snapshot, revoke_pending_owners,
}
use cakemaster.Object.Catalog.Scoped.{ReclaimTarget, any, scope}
use cakemaster.Object.Catalog.Cycle.{Surroundings, collect_step}
use cakemaster.Object.Ledger.History.{beginning, staging, catalog_run}
use cakemaster.Object.Eviction.{Keeps}
use cakemaster.Object.Survival.Step.{collect_step-Keeps}
use cakemaster.Object.Revocation.{revoke_pending_owners_lem}
use cakemaster.Object.Revocation.Snapshots.{surviving}
use cakemaster.Object.Ledger.Examples.{
  every, zero_slot, zero_id, version_of, written, computed, start, or_start, writer, object,
  content, replicas, claim_on, no_pins, hard_pin,
}

abbrev quiet : Surroundings
quiet = record {
  busy = false;
  live = every;
  live_later = every;
  held = every;
  unique = every;
  unique_later = every;
  late_scoped = λ a. some 400;
  late = λ a. none;
  watermark_bytes = λ s. 4096;
}

abbrev budget : CollectBudget
budget = record { max_candidates = 16; max_reclaims = 8; max_empty_slots = 4 }

abbrev owed_targets : List ReclaimTarget
owed_targets = record { filter = scope 1; bytes = 64 } ∷ record { filter = any; bytes = 128 } ∷ []

collect_step-Keeps_example :
    Keeps 300 0 (version_of 0 0 1) (collect_step written quiet 300 budget owed_targets true)
collect_step-Keeps_example =
    collect_step-Keeps written quiet 300 0 (version_of 0 0 1) budget owed_targets true refl
      (zero_slot, zero_id, computed.2, refl, refl, inl refl)

abbrev other_writer : WriteOwner
other_writer = record { client = record { high = 0; low = 8 }; session_generation = 2 }

abbrev two_staged : Catalog
two_staged = or_start (
    catalog_run
      (beginning (object 0) writer insert_only hard_pin 10
        ∷ staging every (claim_on 0 1 10) content replicas true true true
        ∷ beginning (object 1) other_writer insert_only no_pins 11
        ∷ staging every (record (claim_on 1 1 11) { owner = other_writer }) content replicas true
            true true
        ∷ [])
      start)

abbrev second_candidate : PendingCandidate
second_candidate = record {
  slot = 1;
  pending = record (version_of 1 1 1) { owner = other_writer };
  transaction_id = 1;
  deadline = 1011;
}

abbrev first_candidate : PendingCandidate
first_candidate = record {
  slot = 0;
  pending = version_of 0 0 1;
  transaction_id = 1;
  deadline = 1010;
}

two_queued : two_staged.pending_candidates ≡ first_candidate ∷ second_candidate ∷ []
unfolding catalog_run cakemaster.Object.Catalog.Write.begin_write resolve_pin_request get insert
    cakemaster.Object.Catalog.Publish.stage cakemaster.Object.Replicas.validate_stage_replicas
two_queued = refl

revoke_pending_owners_example :
    (pending_snapshot (revoke_pending_owners two_staged every (writer ∷ []) 50).0 second_candidate
      ≡ surviving (session_owners (writer ∷ [])) (pending_snapshot two_staged second_candidate))
    × ((o : WriteOwner)
        → pending_snapshot two_staged second_candidate ≡ some o
        → has_owner o (session_owners (writer ∷ [])) ≡ false
        → In second_candidate
            (revoke_pending_owners two_staged every (writer ∷ []) 50).0.pending_candidates)
revoke_pending_owners_example =
    revoke_pending_owners_lem two_staged every (writer ∷ []) 50 second_candidate
      (subst (λ q. In second_candidate q) (sym two_queued) (inr (inl refl)))

-- The segment of every replica is gone.
abbrev scan_requested : Catalog
scan_requested = record written { liveness_requested = true }

abbrev nowhere : ℕ → Bool
nowhere n = false

scan_fits :
    (begin_if_requested scan_requested).young_remaining
      + (begin_if_requested scan_requested).protected_remaining
    ≤ 16
unfolding begin_if_requested catalog_run cakemaster.Object.Catalog.Write.begin_write
    resolve_pin_request get insert cakemaster.Object.Catalog.Publish.commit
    cakemaster.Object.Catalog.Publish.stage cakemaster.Object.Replicas.validate_stage_replicas
    cakemaster.Object.Access.for_commit
scan_fits = omega arith

abbrev swept : Catalog
swept = (retire_invalidated_published (begin_if_requested scan_requested) nowhere 300 16).0

begun_sweep-Settled_example :
    (sweep_is_incomplete swept ≡ false)
    × ((c : GcCandidate)
        → In c scan_requested.young ⊎ In c scan_requested.protected
        → Settled nowhere swept c)
begun_sweep-Settled_example = begun_sweep-Settled scan_requested nowhere 300 16 refl scan_fits
