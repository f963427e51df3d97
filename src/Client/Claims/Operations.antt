-- ===== src/Client/Claims/Operations.antt =====
-- What each operation does to the number of claims of every session.
use cakemaster.Base.{
  ℕ, suc, ◌+◌, ◌≤◌, ◌≡◌, ◌≢◌, refl, ap, ◌∙◌, inl, inr, true, false, Option, some, none, arith,
  Option-cases, Result, ok, err,
}
use cakemaster.Base.Table.{Table, get, insert, insert-insert}
use cakemaster.Identity.{ClientId, uuid_eq}
use cakemaster.Client.Types.{
  Session, session_eq, session_beq_iff, CleanupReason, CleanupClaimState, heartbeat_expired, ready,
  queued, running, ClientPhase, cleanup_pending, ClientEntry, Cleanup, Registry,
  ClientLifecycleError, phase_is_active,
}
use cakemaster.Client.Registry.{
  cleanup_is_running, claim_phase, queue_phase, refresh, fence, claim_cleanup, activate_known,
  new_entry, admit, activate_new, activate, heartbeat_known, heartbeat, rollback_known,
  rollback_activation, drain_known, begin_drain, finish_known, finish_cleanup, release_known,
  release_cleanup, finish,
}
use cakemaster.Client.Invariant.Defs.{Inv}
use cakemaster.Client.Claims.Count.{
  one, handed, running_one, running_in, running_in-put, running_in-remove, running_in-admit,
}

idle_of_active : (p : ClientPhase) → phase_is_active p ≡ true → cleanup_is_running p ≡ false
idle_of_active ClientPhase.active h = refl
idle_of_active (cleanup_pending a c) h = cc

claimed_phase :
    (p p' : ClientPhase) (x : CleanupClaimState) (reason : CleanupReason)
    → x ≢ running
    → claim_phase p x ≡ some (p', reason)
    → (cleanup_is_running p ≡ false) × (cleanup_is_running p' ≡ true)
claimed_phase ClientPhase.active p' x reason n h = cc
claimed_phase (cleanup_pending a ready) p' x reason n h = ground arith
claimed_phase (cleanup_pending a queued) p' x reason n h = ground arith
claimed_phase (cleanup_pending a running) p' ready reason n h = cc
claimed_phase (cleanup_pending a running) p' queued reason n h = cc
claimed_phase (cleanup_pending a running) p' running reason n h = absurd (n refl)

queued_phase :
    (p p' : ClientPhase)
    → queue_phase p ≡ some p'
    → (cleanup_is_running p ≡ true) × (cleanup_is_running p' ≡ false)
queued_phase ClientPhase.active p' h = cc
queued_phase (cleanup_pending a ready) p' h = cc
queued_phase (cleanup_pending a queued) p' h = cc
queued_phase (cleanup_pending a running) p' h = ground arith

module _ (r : Registry) (k : ClientId) (e : ClientEntry) (there : get k r.entries ≡ some e)
    (keyed : e.session.client_id ≡ k) (s : Session) where
  -- The entry stays as far from running as it was.
  idle_put :
      (e' : ClientEntry)
      → e'.session ≡ e.session
      → cleanup_is_running e'.phase ≡ cleanup_is_running e.phase
      → running_in (insert k e' r.entries) s ≡ running_in r.entries s
  unfolding running_one
  idle_put e' same phase = ground (
    arith,
    running_in-put r.entries k e there keyed s e' (ap (λ (x : Session). x.client_id) same ∙ keyed),
  )

  pub claim_cleanup-running :
      (x : CleanupClaimState)
      → x ≢ running
      → running_in (claim_cleanup r k e x).0.entries s
        ≡ running_in r.entries s + handed s (claim_cleanup r k e x).1
  unfolding claim_cleanup running_one
  claim_cleanup-running x n = elim (Option-cases (claim_phase e.phase x)) [
    | inl refused ↦ rw (refused, claim_cleanup) (omega arith)
    | inr ((p, reason), got) ↦
        let (idle, busy) = claimed_phase e.phase p x reason n got in
        rw (got, claim_cleanup)
          (ground
            (arith, running_in-put r.entries k e there keyed s (record e { phase = p }) keyed))
  ]

  pub fence_claim-running :
      (reason : CleanupReason)
      → phase_is_active e.phase ≡ true
      → let c =
          claim_cleanup
            (fence r k e reason)
            k
            (record e { phase = cleanup_pending reason ready })
            ready in
        running_in c.0.entries s ≡ running_in r.entries s + handed s c.1
  unfolding claim_cleanup fence running_one
  fence_claim-running reason act = ground (
    arith,
    idle_of_active e.phase act,
    insert-insert k (record e { phase = cleanup_pending reason running })
        (record e { phase = cleanup_pending reason ready }) r.entries,
    running_in-put r.entries k e there keyed s (record e { phase = cleanup_pending reason running })
        keyed,
  )

  activate_known-running :
      (now : ℕ) → running_in (activate_known r k e now).0.entries s ≡ running_in r.entries s
  unfolding activate_known
  activate_known-running now = ground (
    arith,
    idle_put (refresh e now r.config.ttl_ticks) refl refl,
    idle_of_active e.phase,
    idle_put (record e { phase = cleanup_pending heartbeat_expired ready }) refl,
  )

  heartbeat_known-running :
      (now : ℕ) → running_in (heartbeat_known r k e now).0.entries s ≡ running_in r.entries s
  unfolding heartbeat_known
  heartbeat_known-running now = ground (
    arith,
    idle_put (refresh e now r.config.ttl_ticks) refl refl,
    idle_of_active e.phase,
    idle_put (record e { phase = cleanup_pending heartbeat_expired ready }) refl,
  )

module _ (r : Registry) (t : Session) (e : ClientEntry) (there : get t.client_id r.entries ≡ some e)
    (keyed : e.session.client_id ≡ t.client_id) (s : Session) where
  rollback_known-running : running_in (rollback_known r t e).0.entries s ≡ running_in r.entries s
  unfolding rollback_known running_one
  rollback_known-running =
      ground
        (arith, idle_of_active e.phase, running_in-remove r.entries t.client_id e there keyed s)

-- The claim that a fallible operation hands out.
abbrev pub claim_of : Result ClientLifecycleError (Option Cleanup) → Option Cleanup
claim_of (ok c) = c
claim_of (err x) = none

module _ {r : Registry} (v : Inv r) (s : Session) where
  pub activate-running :
      (k : ClientId) (now : ℕ) → running_in (activate r k now).0.entries s ≡ running_in r.entries s
  unfolding activate activate_new admit
  activate-running k now = elim (Option-cases (get k r.entries)) [
    | inl no_entry ↦
        ground (arith, running_in-admit r.entries k (new_entry r k now) s no_entry refl)
    | inr (e, there) ↦
        ground (arith, activate_known-running r k e there (v.each k e there).keyed s now)
  ]

  pub heartbeat-running :
      (k : ClientId) (now : ℕ) → running_in (heartbeat r k now).0.entries s ≡ running_in r.entries s
  unfolding heartbeat
  heartbeat-running k now = elim (Option-cases (get k r.entries)) [
    | inl no_entry ↦ ground arith
    | inr (e, there) ↦
        ground (arith, heartbeat_known-running r k e there (v.each k e there).keyed s now)
  ]

  pub rollback_activation-running :
      (t : Session) → running_in (rollback_activation r t).0.entries s ≡ running_in r.entries s
  unfolding rollback_activation
  rollback_activation-running t = elim (Option-cases (get t.client_id r.entries)) [
    | inl no_entry ↦ ground arith
    | inr (e, there) ↦
        ground (arith, rollback_known-running r t e there (v.each t.client_id e there).keyed s)
  ]

  pub begin_drain-running :
      (t : Session) (reason : CleanupReason)
      → running_in (begin_drain r t reason).0.entries s
        ≡ running_in r.entries s + handed s (claim_of (begin_drain r t reason).1)
  unfolding begin_drain drain_known
  begin_drain-running t reason = elim (Option-cases (get t.client_id r.entries)) [
    | inl no_entry ↦ ground arith
    | inr (e, there) ↦
        let keyed : e.session.client_id ≡ t.client_id = (v.each t.client_id e there).keyed in
        ground (
          arith,
          fence_claim-running r t.client_id e there keyed s reason,
          claim_cleanup-running r t.client_id e there keyed s ready (λ q. cc),
        )
  ]

-- A session that counts as claimed has an entry in the phase `running`.
pub claimed_entry :
    (m : Table ClientId ClientEntry) (s : Session) (n : ℕ)
    → running_in m s ≡ suc n
    → (e : ClientEntry) × (get s.client_id m ≡ some e)
      × (e.session ≡ s)
      × (cleanup_is_running e.phase ≡ true)
unfolding running_in running_one
claimed_entry m s n h = elim (Option-cases (get s.client_id m)) [
  | inl no_entry ↦ absurd (ground arith)
  | inr (e, there) ↦ (e, there, ground (arith, session_beq_iff e.session s), ground arith)
]

pub running_in-le_one : (m : Table ClientId ClientEntry) (s : Session) → running_in m s ≤ 1
unfolding running_in running_one
running_in-le_one m s = ground arith

module _ {r : Registry} (v : Inv r) (c : Cleanup) (n : ℕ)
    (claimed : running_in r.entries c.session ≡ suc n) where
  -- The holder of a claim can finish it.
  pub finish_claimed : (finish r c).1 ≡ ok tt
  unfolding finish finish_cleanup finish_known
  finish_claimed =
      let (e, there, own, busy) = claimed_entry r.entries c.session n claimed in
      ground (arith, session_beq_iff e.session c.session)

  pub finish-running :
      (s : Session) → running_in (finish r c).0.entries s + one c.session s ≡ running_in r.entries s
  unfolding finish finish_cleanup finish_known running_one
  finish-running s =
      let (e, there, own, busy) = claimed_entry r.entries c.session n claimed in
      ground (
        arith,
        session_beq_iff e.session c.session,
        running_in-remove r.entries c.session.client_id e there
            (v.each c.session.client_id e there).keyed s,
      )

  pub release_cleanup-running :
      (s : Session)
      → running_in (release_cleanup r c.session).entries s + one c.session s
        ≡ running_in r.entries s
  unfolding release_cleanup release_known running_one
  release_cleanup-running s =
      let (e, there, own, busy) = claimed_entry r.entries c.session n claimed in
      elim (Option-cases (queue_phase e.phase)) [
        | inl not_running ↦ absurd (never e.phase busy not_running)
        | inr (p, got) ↦ ground (
          arith,
          session_beq_iff e.session c.session,
          queued_phase e.phase p got,
          running_in-put r.entries c.session.client_id e there
              (v.each c.session.client_id e there).keyed s (record e { phase = p })
              (v.each c.session.client_id e there).keyed,
        )
      ]
    where
      never : (p : ClientPhase) → cleanup_is_running p ≡ true → queue_phase p ≡ none → ⊥
      never ClientPhase.active b q = cc
      never (cleanup_pending a ready) b q = cc
      never (cleanup_pending a queued) b q = cc
      never (cleanup_pending a running) b q = cc
