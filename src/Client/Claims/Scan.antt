-- ===== src/Client/Claims/Scan.antt =====
-- `claim_due_cleanups` hands out a claim for each session that it sets running, and no other.
use cakemaster.Base.{
  ℕ, zero, suc, ◌+◌, ◌≡◌, refl, ap, inl, inr, Option, some, none, List, [], ◌∷◌, arith, Bool-cases,
  Option-cases, List-cases, ◌==◌, ltb, eqb, min,
}
use cakemaster.Base.Table.{get}
use cakemaster.Identity.{uuid_eq}
use cakemaster.Client.Types.{
  Session, session_eq, heartbeat_expired, graceful_unmount, server_shutdown, ready, queued,
  ClientPhase, cleanup_pending, ClientEntry, DeadlineRecord, Cleanup, Registry, phase_is_active,
}
use cakemaster.Client.Registry.{mark_expired, claim_cleanup}
use cakemaster.Client.Scan.{
  ScanState, gather, ready_round, ready_loop, due_phase, due_round, due_loop, claim_due_cleanups,
}
use cakemaster.Client.Invariant.Defs.{Inv}
use cakemaster.Client.Invariant.Scan.{ready_round-Inv, due_round-Inv, ready_loop-Inv}
use cakemaster.Client.Claims.Count.{count, count-append, handed, running_in}
use cakemaster.Client.Claims.Operations.{claim_cleanup-running, fence_claim-running}

-- What a round has added to the claims it has added to the running sessions.
abbrev Balanced : Session → Registry → List Cleanup → ScanState → Type 0
Balanced s r out t =
    running_in t.registry.entries s + count s out ≡ running_in r.entries s + count s t.cleanups

gather-Balanced :
    (s : Session) (r : Registry) (out : List Cleanup) (p : Registry × Option Cleanup)
    → running_in p.0.entries s ≡ running_in r.entries s + handed s p.1
    → Balanced s r out (gather out p)
gather-Balanced s r out (r', none) h = omega arith
gather-Balanced s r out (r', some c) h = omega (arith, count-append s out (c ∷ []))

module _ {r : Registry} (v : Inv r) (s : Session) (out : List Cleanup) where
  ready_round-Balanced :
      (t : Session) (rest : List Session)
      → Balanced s r out (ready_round (record r { cleanup_ready = rest }) out t)
  unfolding ready_round
  ready_round-Balanced t rest = elim (Option-cases (get t.client_id r.entries)) [
    | inl no_entry ↦ rw (no_entry, ready_round) (omega arith)
    | inr (e, there) ↦ elim (Bool-cases (e.session == t)) [
      | inl own ↦
          rw (there, own, ready_round)
            (gather-Balanced s r out
              (claim_cleanup (record r { cleanup_ready = rest }) t.client_id e queued)
              (claim_cleanup-running (record r { cleanup_ready = rest }) t.client_id e there
                (v.each t.client_id e there).keyed s queued (λ q. cc)))
      | inr other ↦ rw (there, other, ready_round) (omega arith)
    ]
  ]

  due_phase-Balanced :
      (now : ℕ) (d : DeadlineRecord) (rest : List DeadlineRecord) (e : ClientEntry)
      (there : get d.client_id r.entries ≡ some e) (p : ClientPhase)
      → e.phase ≡ p
      → Balanced s r out (due_phase now (record r { deadlines = rest }) out d e p)
  unfolding due_phase mark_expired
  due_phase-Balanced now d rest e there ClientPhase.active is =
      elim (Bool-cases (ltb now e.expires_at)) [
        | inl early ↦ rw early (omega arith)
        | inr late ↦ rw late (
            gather-Balanced s r out
              (claim_cleanup (mark_expired (record r { deadlines = rest }) d.client_id e)
                d.client_id (record e { phase = cleanup_pending heartbeat_expired ready }) ready)
              (fence_claim-running (record r { deadlines = rest }) d.client_id e there
                (v.each d.client_id e there).keyed s heartbeat_expired (ap phase_is_active is)))
      ]
  due_phase-Balanced now d rest e there (cleanup_pending heartbeat_expired c) is =
      gather-Balanced s r out (claim_cleanup (record r { deadlines = rest }) d.client_id e ready) (
        claim_cleanup-running (record r { deadlines = rest }) d.client_id e there
          (v.each d.client_id e there).keyed s ready (λ q. cc))
  due_phase-Balanced now d rest e there (cleanup_pending graceful_unmount c) is = omega arith
  due_phase-Balanced now d rest e there (cleanup_pending server_shutdown c) is = omega arith

  due_round-Balanced :
      (now : ℕ) (d : DeadlineRecord) (rest : List DeadlineRecord)
      → Balanced s r out (due_round now (record r { deadlines = rest }) out d)
  unfolding due_round
  due_round-Balanced now d rest = elim (Option-cases (get d.client_id r.entries)) [
    | inl no_entry ↦ rw (no_entry, due_round) (omega arith)
    | inr (e, there) ↦ elim (Bool-cases (eqb e.session.generation d.generation)) [
      | inl own ↦ rw (there, own, due_round) (due_phase-Balanced now d rest e there e.phase refl)
      | inr other ↦ rw (there, other, due_round) (omega arith)
    ]
  ]

ready_loop-Balanced :
    (s : Session) (budget : ℕ) (t : ScanState)
    → Inv t.registry
    → Balanced s t.registry t.cleanups (ready_loop budget t).1
unfolding ready_loop
ready_loop-Balanced s zero t v = omega arith
ready_loop-Balanced s (suc budget) t v = elim (List-cases t.registry.cleanup_ready) [
  | inl empty ↦ rw (empty, ready_loop) (omega arith)
  | inr (x, rest, front) ↦
      rw (front, ready_loop)
        (omega (
          arith,
          ready_round-Balanced v s t.cleanups x rest,
          ready_loop-Balanced s budget
              (ready_round (record t.registry { cleanup_ready = rest }) t.cleanups x)
              (ready_round-Inv v t.cleanups x rest front),
        ))
]

due_loop-Balanced :
    (s : Session) (now budget : ℕ) (t : ScanState)
    → Inv t.registry
    → Balanced s t.registry t.cleanups (due_loop now budget t)
unfolding due_loop
due_loop-Balanced s now zero t v = omega arith
due_loop-Balanced s now (suc budget) t v = elim (List-cases t.registry.deadlines) [
  | inl empty ↦ rw (empty, due_loop) (omega arith)
  | inr (d, rest, front) ↦ elim (Bool-cases (ltb now d.expires_at)) [
    | inl early ↦ rw (front, early, due_loop) (omega arith)
    | inr due ↦
        rw (front, due, due_loop)
          (omega (
            arith,
            due_round-Balanced v s t.cleanups now d rest,
            due_loop-Balanced s now budget
                (due_round now (record t.registry { deadlines = rest }) t.cleanups d)
                (due_round-Inv v t.cleanups now d rest front),
          ))
  ]
]

pub claim_due_cleanups-running :
    {r : Registry} (v : Inv r) (s : Session) (now budget : ℕ)
    → running_in (claim_due_cleanups r now budget).0.entries s
      ≡ running_in r.entries s + count s (claim_due_cleanups r now budget).1
unfolding claim_due_cleanups
claim_due_cleanups-running {r} v s now budget =
    let b = min budget r.config.cleanup_scan_budget in
    let start : ScanState = record { registry = r; cleanups = [] } in
    omega (
      arith,
      ready_loop-Balanced s b start v,
      due_loop-Balanced s now (ready_loop b start).0 (ready_loop b start).1
          (ready_loop-Inv b start v),
    )
