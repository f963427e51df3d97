-- ===== src/Client/Examples.antt =====
-- Concrete runs of the client registry, and the theorems at concrete inputs.
use cakemaster.Base.{◌≤◌, ◌<◌, ◌≡◌, ◌↔◌, refl, ◌⊎◌, true, false, some, List, [], ◌∷◌, arith, ok}
use cakemaster.Base.Lists.{length}
use cakemaster.Base.Table.{get, insert}
use cakemaster.Identity.{ClientId, uuid_eq}
use cakemaster.Client.Types.{
  ClientLifecycleConfig, Session, graceful_unmount, heartbeat_expired, ClientPhase, ClientEntry,
  Cleanup, Registry, activated, alive, phase_is_active, push_deadline,
}
use cakemaster.Client.Registry.{
  empty_registry, with_config, activate, heartbeat, begin_drain, finish, active_session_guard,
  guard_is_active, cleanup_is_running, new_entry,
}
use cakemaster.Client.Scan.{claim_due_cleanups}
use cakemaster.Client.Invariant.Defs.{Inv}
use cakemaster.Client.Invariant.Operations.{with_config-Inv, activate-Inv}
use cakemaster.Client.Claims.Count.{count}
use cakemaster.Client.World.Defs.{Command, activates, beats, scans, step, run, WorldInv}
use cakemaster.Client.World.Reachable.{
  fresh_world, run-WorldInv, claims_exclusive, outstanding_finishes,
}
use cakemaster.Client.World.Fencing.{IsDown, run-IsDown}
use cakemaster.Client.Calls.{heartbeat_alive_iff, activated_fresh, drain_lowers_guard}
use cakemaster.Client.Progress.Overdue.{scan_leaves_none_overdue, scan_within_budget}

abbrev small_config : ClientLifecycleConfig
small_config = record { ttl_ticks = 10; max_clients = 2; cleanup_scan_budget = 4 }

abbrev alice : ClientId
alice = record { high = 0; low = 7 }

abbrev bob : ClientId
bob = record { high = 1; low = 2 }

small_made : with_config small_config ≡ ok (empty_registry small_config)
unfolding with_config
small_made = refl

-- Both activate, alice beats once, both expire, and the scan claims both cleanups.
abbrev history : List Command
history = activates alice 0 ∷ activates bob 1 ∷ beats alice 5 ∷ scans 20 8 ∷ []

abbrev alice_claim : Cleanup
alice_claim = record {
  session = record { client_id = alice; generation = 1 };
  reason = heartbeat_expired;
}

abbrev bob_claim : Cleanup
bob_claim = record {
  session = record { client_id = bob; generation = 2 };
  reason = heartbeat_expired;
}

history_claims :
    (run (fresh_world (empty_registry small_config)) history).claims ≡ alice_claim ∷ bob_claim ∷ []
unfolding run step activate heartbeat claim_due_cleanups get insert push_deadline
history_claims = refl

run-WorldInv_example : WorldInv (run (fresh_world (empty_registry small_config)) history)
run-WorldInv_example = run-WorldInv small_config (empty_registry small_config) small_made history

claims_exclusive_example :
    count alice_claim.session (run (fresh_world (empty_registry small_config)) history).claims ≤ 1
claims_exclusive_example =
    claims_exclusive small_config (empty_registry small_config) small_made history
      alice_claim.session

outstanding_finishes_example :
    (finish (run (fresh_world (empty_registry small_config)) history).registry alice_claim).1
    ≡ ok tt
unfolding run step activate heartbeat claim_due_cleanups get insert push_deadline
outstanding_finishes_example =
    outstanding_finishes small_config (empty_registry small_config) small_made history 0 alice_claim
      (bob_claim ∷ []) refl

-- Alice's registry after one activation.
abbrev one_client : Registry
one_client = (activate (empty_registry small_config) alice 0).0

abbrev alice_entry : ClientEntry
alice_entry = new_entry (empty_registry small_config) alice 0

one_client_entry : get alice one_client.entries ≡ some alice_entry
unfolding activate get insert
one_client_entry = refl

run-IsDown_example :
    IsDown 0
      (run
        (fresh_world (begin_drain one_client alice_entry.session graceful_unmount).0)
        (activates alice 3 ∷ [])).registry
unfolding activate begin_drain get insert
run-IsDown_example =
    run-IsDown 0 (fresh_world (begin_drain one_client alice_entry.session graceful_unmount).0)
      (activates alice 3 ∷ []) (omega arith, refl)

heartbeat_alive_iff_example :
    ((heartbeat one_client alice 4).1 ≡ alive alice_entry.session)
    ↔ ((phase_is_active alice_entry.phase ≡ true) × (4 < alice_entry.expires_at))
heartbeat_alive_iff_example = heartbeat_alive_iff one_client alice 4 alice_entry one_client_entry

one_client-Inv : Inv one_client
one_client-Inv = activate-Inv alice 0 (with_config-Inv small_config small_made)

abbrev bob_session : Session
bob_session = record { client_id = bob; generation = 2 }

bob_activates : (activate one_client bob 1).1 ≡ ok (activated bob_session)
unfolding activate get insert
bob_activates = refl

activated_fresh_example : alice_entry.session.generation < bob_session.generation
activated_fresh_example =
    (activated_fresh one_client bob 1 bob_session one_client-Inv bob_activates).2 alice alice_entry
      one_client_entry

alice_guard : active_session_guard one_client alice ≡ ok alice_entry.guard
unfolding active_session_guard activate get insert
alice_guard = refl

drain_lowers_guard_example :
    guard_is_active
      (begin_drain one_client alice_entry.session graceful_unmount).0
      alice_entry.guard
    ≡ false
drain_lowers_guard_example =
    (drain_lowers_guard one_client alice alice_entry.guard graceful_unmount one_client-Inv
      alice_guard).2

scan_within_budget_example :
    (length (claim_due_cleanups one_client 20 1).1 ≤ 1)
    × (length (claim_due_cleanups one_client 20 1).1 ≤ one_client.config.cleanup_scan_budget)
scan_within_budget_example = scan_within_budget one_client 20 1

abbrev beaten : Registry
beaten =
    (run (fresh_world (empty_registry small_config))
      (activates alice 0 ∷ beats alice 5 ∷ [])).registry

-- The scan at 12 meets the record of 0 + 10, finds the deadline 15 and keeps alice.
kept_alice :
    get alice (claim_due_cleanups beaten 12 4).0.entries
    ≡ some (record alice_entry { expires_at = 15 })
unfolding run step activate heartbeat claim_due_cleanups get insert push_deadline
kept_alice = refl

scan_leaves_none_overdue_example : (12 < 15) ⊎ (cleanup_is_running ClientPhase.active ≡ true)
unfolding run step activate heartbeat get insert push_deadline
scan_leaves_none_overdue_example =
    scan_leaves_none_overdue small_config (empty_registry small_config) small_made
      (activates alice 0 ∷ beats alice 5 ∷ []) 12 4 (omega arith) alice
      (record alice_entry { expires_at = 15 }) kept_alice
