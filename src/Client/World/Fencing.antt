-- ===== src/Client/World/Fencing.antt =====
-- A guard that has gone down stays down, whatever happens to its client later.
use cakemaster.Base.{
  ℕ, zero, suc, ◌<◌, ◌≡◌, inl, inr, false, Option, some, none, List, [], ◌∷◌, arith, Option-cases,
  List-cases, Bool-cases, ltb, eqb, min, ◌==◌,
}
use cakemaster.Base.Table.{get}
use cakemaster.Identity.{ClientId, uuid_eq}
use cakemaster.Client.Types.{
  Session, session_eq, CleanupReason, CleanupClaimState, ready, queued, heartbeat_expired,
  graceful_unmount, server_shutdown, ClientPhase, cleanup_pending, ClientEntry, DeadlineRecord,
  Cleanup, Registry,
}
use cakemaster.Client.Registry.{
  claim_cleanup, mark_expired, activate, activate_known, activate_new, heartbeat, heartbeat_known,
  rollback_activation, rollback_known, begin_drain, drain_known, finish_cleanup, finish_known,
  release_cleanup, release_known, finish, claim_phase,
}
use cakemaster.Client.Scan.{
  ScanState, gather, ready_round, ready_loop, due_phase, due_round, due_loop, claim_due_cleanups,
}
use cakemaster.Client.World.Defs.{
  World, Command, activates, beats, rolls_back, drains, scans, finishes, drops, take_nth, step, run,
}

-- The flag in `cell` is allocated and down.
abbrev pub IsDown : ℕ → Registry → Type 0
IsDown cell r = (cell < r.next_guard) × (r.guards cell ≡ false)

module _ (cell : ℕ) where
  claim_cleanup-IsDown :
      (r : Registry) (k : ClientId) (e : ClientEntry) (x : CleanupClaimState)
      → IsDown cell r
      → IsDown cell (claim_cleanup r k e x).0
  unfolding claim_cleanup
  claim_cleanup-IsDown r k e x h = elim (Option-cases (claim_phase e.phase x)) [
    | inl refused ↦ ground arith
    | inr ((p, reason), got) ↦ ground arith
  ]

  activate-IsDown :
      (r : Registry) (k : ClientId) (now : ℕ) → IsDown cell r → IsDown cell (activate r k now).0
  unfolding activate activate_known activate_new
  activate-IsDown r k now h = ground arith

  heartbeat-IsDown :
      (r : Registry) (k : ClientId) (now : ℕ) → IsDown cell r → IsDown cell (heartbeat r k now).0
  unfolding heartbeat heartbeat_known
  heartbeat-IsDown r k now h = ground arith

  rollback_activation-IsDown :
      (r : Registry) (s : Session) → IsDown cell r → IsDown cell (rollback_activation r s).0
  unfolding rollback_activation rollback_known
  rollback_activation-IsDown r s h = ground arith

  begin_drain-IsDown :
      (r : Registry) (s : Session) (reason : CleanupReason)
      → IsDown cell r
      → IsDown cell (begin_drain r s reason).0
  unfolding begin_drain drain_known
  begin_drain-IsDown r s reason h = ground arith

  release_cleanup-IsDown :
      (r : Registry) (s : Session) → IsDown cell r → IsDown cell (release_cleanup r s)
  unfolding release_cleanup release_known
  release_cleanup-IsDown r s h = ground arith

  finish-IsDown : (r : Registry) (c : Cleanup) → IsDown cell r → IsDown cell (finish r c).0
  unfolding finish finish_cleanup finish_known release_cleanup
  finish-IsDown r c h = ground arith

  gather-IsDown :
      (out : List Cleanup) (p : Registry × Option Cleanup)
      → IsDown cell p.0
      → IsDown cell (gather out p).registry
  gather-IsDown out (r, none) h = h
  gather-IsDown out (r, some c) h = h

  ready_round-IsDown :
      (r : Registry) (out : List Cleanup) (s : Session)
      → IsDown cell r
      → IsDown cell (ready_round r out s).registry
  unfolding ready_round
  ready_round-IsDown r out s h = elim (Option-cases (get s.client_id r.entries)) [
    | inl no_entry ↦ rw (no_entry, ready_round) h
    | inr (e, there) ↦ elim (Bool-cases (e.session == s)) [
      | inl own ↦
          rw (there, own, ready_round)
            (gather-IsDown out (claim_cleanup r s.client_id e queued)
              (claim_cleanup-IsDown r s.client_id e queued h))
      | inr other ↦ rw (there, other, ready_round) h
    ]
  ]

  due_phase-IsDown :
      (now : ℕ) (r : Registry) (out : List Cleanup) (d : DeadlineRecord) (e : ClientEntry)
      (p : ClientPhase)
      → IsDown cell r
      → IsDown cell (due_phase now r out d e p).registry
  unfolding due_phase mark_expired
  due_phase-IsDown now r out d e ClientPhase.active h = elim (Bool-cases (ltb now e.expires_at)) [
    | inl early ↦ rw early h
    | inr late ↦
        let gone : ClientEntry = record e { phase = cleanup_pending heartbeat_expired ready } in
        rw late (
          gather-IsDown out (claim_cleanup (mark_expired r d.client_id e) d.client_id gone ready) (
            claim_cleanup-IsDown (mark_expired r d.client_id e) d.client_id gone ready
              (ground arith)))
  ]
  due_phase-IsDown now r out d e (cleanup_pending heartbeat_expired c) h =
      gather-IsDown out (claim_cleanup r d.client_id e ready)
        (claim_cleanup-IsDown r d.client_id e ready h)
  due_phase-IsDown now r out d e (cleanup_pending graceful_unmount c) h = h
  due_phase-IsDown now r out d e (cleanup_pending server_shutdown c) h = h

  due_round-IsDown :
      (now : ℕ) (r : Registry) (out : List Cleanup) (d : DeadlineRecord)
      → IsDown cell r
      → IsDown cell (due_round now r out d).registry
  unfolding due_round
  due_round-IsDown now r out d h = elim (Option-cases (get d.client_id r.entries)) [
    | inl no_entry ↦ rw (no_entry, due_round) h
    | inr (e, there) ↦ elim (Bool-cases (eqb e.session.generation d.generation)) [
      | inl own ↦ rw (there, own, due_round) (due_phase-IsDown now r out d e e.phase h)
      | inr other ↦ rw (there, other, due_round) h
    ]
  ]

  ready_loop-IsDown :
      (budget : ℕ) (s : ScanState)
      → IsDown cell s.registry
      → IsDown cell (ready_loop budget s).1.registry
  unfolding ready_loop
  ready_loop-IsDown zero s h = h
  ready_loop-IsDown (suc budget) s h = elim (List-cases s.registry.cleanup_ready) [
    | inl empty ↦ rw (empty, ready_loop) h
    | inr (x, rest, front) ↦
        rw (front, ready_loop)
          (ready_loop-IsDown budget
            (ready_round (record s.registry { cleanup_ready = rest }) s.cleanups x)
            (ready_round-IsDown (record s.registry { cleanup_ready = rest }) s.cleanups x h))
  ]

  due_loop-IsDown :
      (now budget : ℕ) (s : ScanState)
      → IsDown cell s.registry
      → IsDown cell (due_loop now budget s).registry
  unfolding due_loop
  due_loop-IsDown now zero s h = h
  due_loop-IsDown now (suc budget) s h = elim (List-cases s.registry.deadlines) [
    | inl empty ↦ rw (empty, due_loop) h
    | inr (d, rest, front) ↦ elim (Bool-cases (ltb now d.expires_at)) [
      | inl early ↦ rw (front, early, due_loop) h
      | inr due ↦
          rw (front, due, due_loop)
            (due_loop-IsDown now budget
              (due_round now (record s.registry { deadlines = rest }) s.cleanups d)
              (due_round-IsDown now (record s.registry { deadlines = rest }) s.cleanups d h))
    ]
  ]

  claim_due_cleanups-IsDown :
      (r : Registry) (now budget : ℕ)
      → IsDown cell r
      → IsDown cell (claim_due_cleanups r now budget).0
  unfolding claim_due_cleanups
  claim_due_cleanups-IsDown r now budget h =
      let b = min budget r.config.cleanup_scan_budget in
      let start : ScanState = record { registry = r; cleanups = [] } in
      due_loop-IsDown now (ready_loop b start).0 (ready_loop b start).1
        (ready_loop-IsDown b start h)

  step-IsDown : (w : World) (c : Command) → IsDown cell w.registry → IsDown cell (step w c).registry
  unfolding step
  step-IsDown w (activates k now) h = activate-IsDown w.registry k now h
  step-IsDown w (beats k now) h = heartbeat-IsDown w.registry k now h
  step-IsDown w (rolls_back s) h = rollback_activation-IsDown w.registry s h
  step-IsDown w (drains s reason) h = begin_drain-IsDown w.registry s reason h
  step-IsDown w (scans now budget) h = claim_due_cleanups-IsDown w.registry now budget h
  step-IsDown w (finishes n) h = elim (Option-cases (take_nth n w.claims)) [
    | inl nothing ↦ rw (nothing, step) h
    | inr ((c, rest), taken) ↦ rw (taken, step) (finish-IsDown w.registry c h)
  ]
  step-IsDown w (drops n) h = elim (Option-cases (take_nth n w.claims)) [
    | inl nothing ↦ rw (nothing, step) h
    | inr ((c, rest), taken) ↦ rw (taken, step) (release_cleanup-IsDown w.registry c.session h)
  ]

  -- A guard flag that has been allocated and is down stays down through every history of calls: the
  -- fence of an ended session is never lifted, not even when its client activates again.
  pub run-IsDown :
      (w : World) (cs : List Command) → IsDown cell w.registry → IsDown cell (run w cs).registry
  unfolding run
  run-IsDown w [] h = h
  run-IsDown w (c ∷ cs) h = run-IsDown (step w c) cs (step-IsDown w c h)
