-- ===== src/Client/Progress/Overdue.antt =====
-- The bound and the progress of a maintenance scan.
use cakemaster.Base.{
  ℕ, ◌+◌, ◌≤◌, ◌<◌, ◌≡◌, refl, sym, subst, ◌∙◌, ◌⊎◌, inl, inr, true, some, List, [], ◌∷◌, arith,
  Option-cases, ok, min,
}
use cakemaster.Base.Lists.{length, In}
use cakemaster.Base.Table.{get}
use cakemaster.Identity.{ClientId, uuid_eq}
use cakemaster.Client.Types.{
  ClientLifecycleConfig, Session, CleanupReason, heartbeat_expired, graceful_unmount,
  server_shutdown, ready, queued, running, ClientPhase, cleanup_pending, ClientEntry,
  DeadlineRecord, Cleanup, Registry,
}
use cakemaster.Client.Registry.{
  with_config, cleanup_is_running, activate, activate_known, activate_new, admit, heartbeat,
  heartbeat_known, rollback_activation, rollback_known, begin_drain, drain_known, finish_cleanup,
  finish_known, release_cleanup, release_known, finish, new_deadline,
}
use cakemaster.Client.Scan.{ScanState, ready_loop, claim_due_cleanups}
use cakemaster.Client.Invariant.Defs.{Dated, Tracked}
use cakemaster.Client.Invariant.Scan.{claim_due_cleanups-Inv}
use cakemaster.Client.World.Defs.{
  World, Command, activates, beats, rolls_back, drains, scans, finishes, drops, take_nth, step, run,
}
use cakemaster.Client.World.Reachable.{fresh_world, run-WorldInv}
use cakemaster.Client.Progress.Heap.{IsSorted, AllLater, due_count, push-IsSorted, In-later}
use cakemaster.Client.Progress.Rounds.{ready_loop-Drained, due_loop-Swept}

-- A scan hands out at most as many claims as its budget and the configured budget allow.
pub scan_within_budget :
    (r : Registry) (now budget : ℕ)
    → (length (claim_due_cleanups r now budget).1 ≤ budget)
      × (length (claim_due_cleanups r now budget).1 ≤ r.config.cleanup_scan_budget)
unfolding claim_due_cleanups
scan_within_budget r now budget =
    let b = min budget r.config.cleanup_scan_budget in
    let start : ScanState = record { registry = r; cleanups = [] } in
    let d = ready_loop-Drained b start in
    let s = due_loop-Swept now (ready_loop b start).0 (ready_loop b start).1 in
    (ground (arith, d.claims, s.claims), ground (arith, d.claims, s.claims))

module _ (r : Registry) (now budget : ℕ) where
  scan-IsSorted : IsSorted r.deadlines → IsSorted (claim_due_cleanups r now budget).0.deadlines
  unfolding claim_due_cleanups
  scan-IsSorted h =
      let b = min budget r.config.cleanup_scan_budget in
      let start : ScanState = record { registry = r; cleanups = [] } in
      let d = ready_loop-Drained b start in
      let s = due_loop-Swept now (ready_loop b start).0 (ready_loop b start).1 in
      s.sorted (subst IsSorted (sym d.heap) h)

  -- With budget enough for the queue and for the records that are due, no record that is due and
  -- nothing of the queue is left.
  scan_exhausts :
      IsSorted r.deadlines
      → length r.cleanup_ready + due_count now r.deadlines ≤ min budget r.config.cleanup_scan_budget
      → AllLater now (claim_due_cleanups r now budget).0.deadlines
        × ((claim_due_cleanups r now budget).0.cleanup_ready ≡ [])
  unfolding claim_due_cleanups
  scan_exhausts h enough =
      let b = min budget r.config.cleanup_scan_budget in
      let start : ScanState = record { registry = r; cleanups = [] } in
      let d = ready_loop-Drained b start in
      let s = due_loop-Swept now (ready_loop b start).0 (ready_loop b start).1 in
      (
        s.nothing_due (subst IsSorted (sym d.heap) h) (
            subst (λ ds. due_count now ds ≤ (ready_loop b start).0) (sym d.heap)
              (omega (arith, d.spent))),
        s.queue ∙ d.emptied (omega arith),
      )

Dated-later :
    (now : ℕ) (ds : List DeadlineRecord) (e : ClientEntry)
    → AllLater now ds
    → Dated ds e
    → now < e.expires_at
Dated-later now ds e a d = omega (arith, In-later now d.due ds d.held a, d.in_time)

Tracked-settled :
    (now : ℕ) (ds : List DeadlineRecord) (q : List Session) (e : ClientEntry) (p : ClientPhase)
    → AllLater now ds
    → q ≡ []
    → Tracked ds q e p
    → (now < e.expires_at) ⊎ (cleanup_is_running p ≡ true)
Tracked-settled now ds q e ClientPhase.active a empty t = inl (Dated-later now ds e a t)
Tracked-settled now ds q e (cleanup_pending reason running) a empty t = inr refl
Tracked-settled now ds q e (cleanup_pending reason queued) a empty t =
    absurd (subst (In e.session) empty t)
Tracked-settled now ds q e (cleanup_pending heartbeat_expired ready) a empty t =
    inl (Dated-later now ds e a t)
Tracked-settled now ds q e (cleanup_pending graceful_unmount ready) a empty t = absurd t
Tracked-settled now ds q e (cleanup_pending server_shutdown ready) a empty t = absurd t

module _ (r : Registry) (h : IsSorted r.deadlines) where
  activate-IsSorted : (k : ClientId) (now : ℕ) → IsSorted (activate r k now).0.deadlines
  unfolding activate activate_known activate_new admit
  activate-IsSorted k now = ground (arith, h, push-IsSorted (new_deadline r k now) r.deadlines h)

  heartbeat-IsSorted : (k : ClientId) (now : ℕ) → IsSorted (heartbeat r k now).0.deadlines
  unfolding heartbeat heartbeat_known
  heartbeat-IsSorted k now = ground (arith, h)

  rollback_activation-IsSorted : (s : Session) → IsSorted (rollback_activation r s).0.deadlines
  unfolding rollback_activation rollback_known
  rollback_activation-IsSorted s = ground (arith, h)

  begin_drain-IsSorted :
      (s : Session) (reason : CleanupReason) → IsSorted (begin_drain r s reason).0.deadlines
  unfolding begin_drain drain_known
  begin_drain-IsSorted s reason = ground (arith, h)

  finish-IsSorted : (c : Cleanup) → IsSorted (finish r c).0.deadlines
  unfolding finish finish_cleanup finish_known release_cleanup release_known
  finish-IsSorted c = ground (arith, h)

  release_cleanup-IsSorted : (s : Session) → IsSorted (release_cleanup r s).deadlines
  unfolding release_cleanup release_known
  release_cleanup-IsSorted s = ground (arith, h)

step-IsSorted :
    (w : World) (c : Command)
    → IsSorted w.registry.deadlines
    → IsSorted (step w c).registry.deadlines
unfolding step
step-IsSorted w (activates k now) h = activate-IsSorted w.registry h k now
step-IsSorted w (beats k now) h = heartbeat-IsSorted w.registry h k now
step-IsSorted w (rolls_back s) h = rollback_activation-IsSorted w.registry h s
step-IsSorted w (drains s reason) h = begin_drain-IsSorted w.registry h s reason
step-IsSorted w (scans now budget) h = scan-IsSorted w.registry now budget h
step-IsSorted w (finishes n) h = elim (Option-cases (take_nth n w.claims)) [
  | inl nothing ↦ rw (nothing, step) h
  | inr ((c, rest), taken) ↦ rw (taken, step) (finish-IsSorted w.registry h c)
]
step-IsSorted w (drops n) h = elim (Option-cases (take_nth n w.claims)) [
  | inl nothing ↦ rw (nothing, step) h
  | inr ((c, rest), taken) ↦ rw (taken, step) (release_cleanup-IsSorted w.registry h c.session)
]

run-IsSorted :
    (w : World) (cs : List Command)
    → IsSorted w.registry.deadlines
    → IsSorted (run w cs).registry.deadlines
unfolding run
run-IsSorted w [] h = h
run-IsSorted w (c ∷ cs) h = run-IsSorted (step w c) cs (step-IsSorted w c h)

-- After any history from an accepted configuration, a scan at the time `now` whose budget covers the
-- retry queue and the heap records that are due leaves no client behind: every entry that is still
-- there has a deadline later than `now`, or its cleanup has been claimed.
pub scan_leaves_none_overdue :
    (config : ClientLifecycleConfig) (r : Registry)
    → with_config config ≡ ok r
    → (cs : List Command) (now budget : ℕ)
    → let q = (run (fresh_world r) cs).registry in
      length q.cleanup_ready + due_count now q.deadlines ≤ min budget q.config.cleanup_scan_budget
      → (k : ClientId) (e : ClientEntry)
      → get k (claim_due_cleanups (run (fresh_world r) cs).registry now budget).0.entries ≡ some e
      → (now < e.expires_at) ⊎ (cleanup_is_running e.phase ≡ true)
unfolding with_config
scan_leaves_none_overdue config r made cs now budget enough k e there =
    let w = run (fresh_world r) cs in
    let start : IsSorted r.deadlines = ground arith in
    let (later, empty) =
      scan_exhausts w.registry now budget (run-IsSorted (fresh_world r) cs start) enough in
    let v = claim_due_cleanups-Inv now budget (run-WorldInv config r made cs).registry_inv in
    Tracked-settled now _ _ e e.phase later empty (v.each k e there).tracked
