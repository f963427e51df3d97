-- ===== src/Client/Scan.antt =====
-- src/client/lifecycle.rs: `claim_due_cleanups`. Each loop recurs on what is left of the budget.
use cakemaster.Base.{
  ℕ, zero, suc, true, false, Option, none, some, List, [], ◌∷◌, ◌++◌, ltb, eqb, if◌then◌else◌, ◌==◌,
  min,
}
use cakemaster.Base.Table.{get}
use cakemaster.Identity.{uuid_eq}
use cakemaster.Client.Types.{
  Session, session_eq, graceful_unmount, heartbeat_expired, server_shutdown, ready, queued,
  ClientPhase, cleanup_pending, ClientEntry, DeadlineRecord, Cleanup, Registry, push_deadline,
}
use cakemaster.Client.Registry.{mark_expired, claim_cleanup}

-- The registry and the `cleanups` gathered so far.
pub record ScanState : Type 0 where
  pub registry : Registry
  pub cleanups : List Cleanup

abbrev pub gather : List Cleanup → Registry × Option Cleanup → ScanState
gather out (r, none) = record { registry = r; cleanups = out }
gather out (r, some c) = record { registry = r; cleanups = out ++ (c ∷ []) }

-- One round of the first loop, on the session that `pop_front` gave.
unfoldable pub ready_round : Registry → List Cleanup → Session → ScanState
unfolding claim_cleanup
ready_round r out s = elim (get s.client_id r.entries) [
  | none ↦ gather out (r, none)
  | some e ↦
      if e.session == s
      then gather out (claim_cleanup r s.client_id e queued)
      else gather out (r, none)
]

-- The first loop: what is left of the budget, and the state.
unfoldable pub ready_loop : ℕ → ScanState → ℕ × ScanState
unfolding ready_round
ready_loop zero s = (zero, s)
ready_loop (suc budget) s = elim s.registry.cleanup_ready [
  | [] ↦ (suc budget, s)
  | session ∷ rest ↦
      ready_loop budget
        (ready_round (record s.registry { cleanup_ready = rest }) s.cleanups session)
]

-- One round of the second loop, on the record that `pop` took off the heap.
unfoldable pub due_phase :
    ℕ → Registry → List Cleanup → DeadlineRecord → ClientEntry → ClientPhase → ScanState
unfolding mark_expired claim_cleanup
due_phase now r out d e ClientPhase.active =
    if ltb now e.expires_at
    then record {
      registry = record r {
        deadlines = push_deadline (record d { expires_at = e.expires_at }) r.deadlines;
      };
      cleanups = out;
    }
    else gather out (
        claim_cleanup (mark_expired r d.client_id e) d.client_id
          (record e { phase = cleanup_pending heartbeat_expired ready }) ready)
due_phase now r out d e (cleanup_pending heartbeat_expired _) =
    gather out (claim_cleanup r d.client_id e ready)
due_phase now r out d e (cleanup_pending graceful_unmount _) = gather out (r, none)
due_phase now r out d e (cleanup_pending server_shutdown _) = gather out (r, none)

unfoldable pub due_round : ℕ → Registry → List Cleanup → DeadlineRecord → ScanState
unfolding due_phase
due_round now r out d = elim (get d.client_id r.entries) [
  | none ↦ gather out (r, none)
  | some e ↦
      if eqb e.session.generation d.generation
      then due_phase now r out d e e.phase
      else gather out (r, none)
]

unfoldable pub due_loop : ℕ → ℕ → ScanState → ScanState
unfolding due_round
due_loop now zero s = s
due_loop now (suc budget) s = elim s.registry.deadlines [
  | [] ↦ s
  | d ∷ rest ↦ elim (ltb now d.expires_at) [
    | true ↦ s
    | false ↦
        due_loop now budget (due_round now (record s.registry { deadlines = rest }) s.cleanups d)
  ]
]

unfoldable pub claim_due_cleanups : Registry → ℕ → ℕ → Registry × List Cleanup
unfolding ready_loop due_loop
claim_due_cleanups r now budget =
    let (left, s) =
      ready_loop (min budget r.config.cleanup_scan_budget)
        (record { registry = r; cleanups = [] }) in
    let s' = due_loop now left s in (s'.registry, s'.cleanups)
