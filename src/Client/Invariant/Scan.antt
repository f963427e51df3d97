-- ===== src/Client/Invariant/Scan.antt =====
-- `claim_due_cleanups` keeps the invariant.
use cakemaster.Base.{
  ℕ, zero, suc, ◌≡◌, ◌≢◌, refl, sym, ap, subst, ◌∙◌, inl, inr, false, some, none, Option, List, [],
  ◌∷◌, arith, Bool-cases, Option-cases, List-cases, ◌==◌, ltb, eqb, eqb_iff, min,
}
use cakemaster.Base.Lists.{In}
use cakemaster.Base.Table.{get}
use cakemaster.Identity.{uuid_eq}
use cakemaster.Client.Types.{
  Session, session_eq, session_beq_iff, CleanupReason, CleanupClaimState, graceful_unmount,
  heartbeat_expired, server_shutdown, ready, queued, running, ClientPhase, cleanup_pending,
  ClientEntry, DeadlineRecord, Cleanup, Registry, phase_is_active, push_deadline,
}
use cakemaster.Client.Registry.{claim_phase, mark_expired, claim_cleanup}
use cakemaster.Client.Scan.{
  ScanState, gather, ready_round, ready_loop, due_phase, due_round, due_loop, claim_due_cleanups,
}
use cakemaster.Client.Invariant.Defs.{Dated, Tracked, Inv}
use cakemaster.Client.Invariant.Frame.{In-push_self, In-push, same-Inv}
use cakemaster.Client.Invariant.Entry.{fence_claim-Inv, unchanged-Inv, claim_cleanup-Inv}

gather-Inv :
    (out : List Cleanup) (p : Registry × Option Cleanup) → Inv p.0 → Inv (gather out p).registry
gather-Inv out (r, none) v = v
gather-Inv out (r, some c) v = v

-- What an entry still has after a session or a record that is not its own is taken off.
Tracked-pop_ready :
    (ds : List DeadlineRecord) (s : Session) (rest : List Session) (e : ClientEntry)
    (p : ClientPhase)
    → e.session ≢ s
    → Tracked ds (s ∷ rest) e p
    → Tracked ds rest e p
Tracked-pop_ready ds s rest e ClientPhase.active n h = h
Tracked-pop_ready ds s rest e (cleanup_pending a running) n h = tt
Tracked-pop_ready ds s rest e (cleanup_pending a queued) n (inl q) = absurd (n (sym q))
Tracked-pop_ready ds s rest e (cleanup_pending a queued) n (inr h) = h
Tracked-pop_ready ds s rest e (cleanup_pending heartbeat_expired ready) n h = h
Tracked-pop_ready ds s rest e (cleanup_pending graceful_unmount ready) n h = absurd h
Tracked-pop_ready ds s rest e (cleanup_pending server_shutdown ready) n h = absurd h

Tracked-unclaimed :
    (ds : List DeadlineRecord) (q q' : List Session) (e : ClientEntry) (p : ClientPhase)
    → claim_phase p queued ≡ none
    → Tracked ds q e p
    → Tracked ds q' e p
Tracked-unclaimed ds q q' e ClientPhase.active n h = h
Tracked-unclaimed ds q q' e (cleanup_pending a running) n h = tt
Tracked-unclaimed ds q q' e (cleanup_pending a queued) n h = cc
Tracked-unclaimed ds q q' e (cleanup_pending heartbeat_expired ready) n h = h
Tracked-unclaimed ds q q' e (cleanup_pending graceful_unmount ready) n h = absurd h
Tracked-unclaimed ds q q' e (cleanup_pending server_shutdown ready) n h = absurd h

Dated-pop :
    (d : DeadlineRecord) (rest : List DeadlineRecord) (e : ClientEntry)
    → e.session.generation ≢ d.generation
    → Dated (d ∷ rest) e
    → Dated rest e
Dated-pop d rest e n h = record {
  due = h.due;
  held = other h.held;
  same_client = h.same_client;
  same_generation = h.same_generation;
  in_time = h.in_time;
}
  where
    other : In h.due (d ∷ rest) → In h.due rest
    other (inl q) =
        absurd (n (sym h.same_generation ∙ ap (λ (x : DeadlineRecord). x.generation) (sym q)))
    other (inr i) = i

Tracked-pop_due :
    (d : DeadlineRecord) (rest : List DeadlineRecord) (q : List Session) (e : ClientEntry)
    (p : ClientPhase)
    → e.session.generation ≢ d.generation
    → Tracked (d ∷ rest) q e p
    → Tracked rest q e p
Tracked-pop_due d rest q e ClientPhase.active n h = Dated-pop d rest e n h
Tracked-pop_due d rest q e (cleanup_pending a running) n h = tt
Tracked-pop_due d rest q e (cleanup_pending a queued) n h = h
Tracked-pop_due d rest q e (cleanup_pending heartbeat_expired ready) n h = Dated-pop d rest e n h
Tracked-pop_due d rest q e (cleanup_pending graceful_unmount ready) n h = absurd h
Tracked-pop_due d rest q e (cleanup_pending server_shutdown ready) n h = absurd h

Tracked-settled :
    (ds ds' : List DeadlineRecord) (q : List Session) (e : ClientEntry) (reason : CleanupReason)
    (c : CleanupClaimState)
    → (reason ≡ heartbeat_expired → claim_phase (cleanup_pending reason c) ready ≡ none)
    → Tracked ds q e (cleanup_pending reason c)
    → Tracked ds' q e (cleanup_pending reason c)
Tracked-settled ds ds' q e reason running h t = tt
Tracked-settled ds ds' q e reason queued h t = t
Tracked-settled ds ds' q e graceful_unmount ready h t = absurd t
Tracked-settled ds ds' q e server_shutdown ready h t = absurd t
Tracked-settled ds ds' q e heartbeat_expired ready h t = cc (h refl)

ne_of_beq : (e : ClientEntry) (s : Session) → (e.session == s) ≡ false → e.session ≢ s
ne_of_beq e s h q = ground (arith, (session_beq_iff e.session s).1 q)

module _ {r : Registry} (v : Inv r) (out : List Cleanup) where
  module _ (s : Session) (rest : List Session) (front : r.cleanup_ready ≡ s ∷ rest) where
    later : (x : Session) → x.client_id ≢ s.client_id → In x r.cleanup_ready → In x rest
    later x n h = go (subst (In x) front h)
      where
        go : In x (s ∷ rest) → In x rest
        go (inl q) = absurd (n (ap (λ (y : Session). y.client_id) (sym q)))
        go (inr i) = i

    pub ready_round-Inv : Inv (ready_round (record r { cleanup_ready = rest }) out s).registry
    unfolding ready_round
    ready_round-Inv = elim (Option-cases (get s.client_id r.entries)) [
      | inl no_entry ↦
          rw (no_entry, ready_round)
            (same-Inv {k = s.client_id} {cell = 0}
              (record {
                dates = λ d n h. h;
                queue = later;
                generations = omega arith;
                cells = omega arith;
                flags = λ c n. refl;
              })
              v refl refl refl (λ e there. cc))
      | inr (e, there) ↦ elim (Bool-cases (e.session == s)) [
        | inl own ↦
            rw (there, own, ready_round)
              (gather-Inv out
                (claim_cleanup (record r { cleanup_ready = rest }) s.client_id e queued)
                (claim_cleanup-Inv v s.client_id e there r.deadlines rest (λ d n h. h) later queued
                  (λ refused.
                    Tracked-unclaimed r.deadlines r.cleanup_ready rest e e.phase refused
                      (v.each s.client_id e there).tracked)))
        | inr other ↦
            rw (there, other, ready_round)
              (unchanged-Inv v s.client_id e there r.deadlines rest (λ d n h. h) later
                (Tracked-pop_ready r.deadlines s rest e e.phase (ne_of_beq e s other) (
                  subst (λ q. Tracked r.deadlines q e e.phase) front
                    (v.each s.client_id e there).tracked)))
      ]
    ]

  module _ (now : ℕ) (d : DeadlineRecord) (rest : List DeadlineRecord)
      (front : r.deadlines ≡ d ∷ rest) where
    after : (x : DeadlineRecord) → x.client_id ≢ d.client_id → In x r.deadlines → In x rest
    after x n h = go (subst (In x) front h)
      where
        go : In x (d ∷ rest) → In x rest
        go (inl q) = absurd (n (ap (λ (y : DeadlineRecord). y.client_id) (sym q)))
        go (inr i) = i

    settled-Inv :
        (e : ClientEntry) (there : get d.client_id r.entries ≡ some e) (reason : CleanupReason)
        (c : CleanupClaimState)
        → e.phase ≡ cleanup_pending reason c
        → (reason ≡ heartbeat_expired → claim_phase (cleanup_pending reason c) ready ≡ none)
        → Tracked rest r.cleanup_ready e e.phase
    settled-Inv e there reason c is h = subst (Tracked rest r.cleanup_ready e) (sym is) (
        Tracked-settled r.deadlines rest r.cleanup_ready e reason c h
          (subst (Tracked r.deadlines r.cleanup_ready e) is (v.each d.client_id e there).tracked))

    requeue_deadline-Inv :
        (e : ClientEntry)
        → get d.client_id r.entries ≡ some e
        → e.phase ≡ ClientPhase.active
        → e.session.generation ≡ d.generation
        → Inv (record r { deadlines = push_deadline (record d { expires_at = e.expires_at }) rest })
    requeue_deadline-Inv e there is same =
        let again : DeadlineRecord = record d { expires_at = e.expires_at } in
        unchanged-Inv v d.client_id e there (push_deadline again rest) r.cleanup_ready
          (λ x n h. In-push x again rest (after x n h)) (λ x n h. h)
          (subst (Tracked (push_deadline again rest) r.cleanup_ready e) (sym is) (record {
            due = again;
            held = In-push_self again rest;
            same_client = sym (v.each d.client_id e there).keyed;
            same_generation = sym same;
            in_time = omega arith;
          }))

    due_phase-Inv :
        (e : ClientEntry) (there : get d.client_id r.entries ≡ some e) (p : ClientPhase)
        → e.phase ≡ p
        → e.session.generation ≡ d.generation
        → Inv (due_phase now (record r { deadlines = rest }) out d e p).registry
    unfolding due_phase mark_expired
    due_phase-Inv e there ClientPhase.active is same = elim (Bool-cases (ltb now e.expires_at)) [
      | inl early ↦ rw early (requeue_deadline-Inv e there is same)
      | inr late ↦ rw late (
          gather-Inv out
            (claim_cleanup (mark_expired (record r { deadlines = rest }) d.client_id e) d.client_id
              (record e { phase = cleanup_pending heartbeat_expired ready }) ready)
            (fence_claim-Inv v d.client_id e there rest r.cleanup_ready after (λ x n h. h)
              heartbeat_expired (ap phase_is_active is)))
    ]
    due_phase-Inv e there (cleanup_pending heartbeat_expired c) is same =
        gather-Inv out (claim_cleanup (record r { deadlines = rest }) d.client_id e ready) (
          claim_cleanup-Inv v d.client_id e there rest r.cleanup_ready after (λ x n h. h) ready
            (λ refused.
              settled-Inv e there heartbeat_expired c is
                (λ _. ap (λ (p : ClientPhase). claim_phase p ready) (sym is) ∙ refused)))
    due_phase-Inv e there (cleanup_pending graceful_unmount c) is same =
        unchanged-Inv v d.client_id e there rest r.cleanup_ready after (λ x n h. h)
          (settled-Inv e there graceful_unmount c is (λ q. cc))
    due_phase-Inv e there (cleanup_pending server_shutdown c) is same =
        unchanged-Inv v d.client_id e there rest r.cleanup_ready after (λ x n h. h)
          (settled-Inv e there server_shutdown c is (λ q. cc))

    pub due_round-Inv : Inv (due_round now (record r { deadlines = rest }) out d).registry
    unfolding due_round
    due_round-Inv = elim (Option-cases (get d.client_id r.entries)) [
      | inl no_entry ↦
          rw (no_entry, due_round)
            (same-Inv {k = d.client_id} {cell = 0}
              (record {
                dates = after;
                queue = λ x n h. h;
                generations = omega arith;
                cells = omega arith;
                flags = λ c n. refl;
              })
              v refl refl refl (λ e there. cc))
      | inr (e, there) ↦ elim (Bool-cases (eqb e.session.generation d.generation)) [
        | inl own ↦
            rw (there, own, due_round) (due_phase-Inv e there e.phase refl ((eqb_iff _ _).0 own))
        | inr other ↦
            rw (there, other, due_round)
              (unchanged-Inv v d.client_id e there rest r.cleanup_ready after (λ x n h. h)
                (Tracked-pop_due d rest r.cleanup_ready e e.phase (λ q. ground arith)
                  (subst (λ ds. Tracked ds r.cleanup_ready e e.phase) front
                    (v.each d.client_id e there).tracked)))
      ]
    ]

pub ready_loop-Inv :
    (budget : ℕ) (s : ScanState) → Inv s.registry → Inv (ready_loop budget s).1.registry
unfolding ready_loop
ready_loop-Inv zero s v = v
ready_loop-Inv (suc budget) s v = elim (List-cases s.registry.cleanup_ready) [
  | inl empty ↦ rw (empty, ready_loop) v
  | inr (x, rest, front) ↦
      rw (front, ready_loop) (ready_loop-Inv budget _ (ready_round-Inv v s.cleanups x rest front))
]

pub due_loop-Inv :
    (now budget : ℕ) (s : ScanState) → Inv s.registry → Inv (due_loop now budget s).registry
unfolding due_loop
due_loop-Inv now zero s v = v
due_loop-Inv now (suc budget) s v = elim (List-cases s.registry.deadlines) [
  | inl empty ↦ rw (empty, due_loop) v
  | inr (d, rest, front) ↦ elim (Bool-cases (ltb now d.expires_at)) [
    | inl early ↦ rw (front, early, due_loop) v
    | inr due ↦
        rw (front, due, due_loop)
          (due_loop-Inv now budget _ (due_round-Inv v s.cleanups now d rest front))
  ]
]

pub claim_due_cleanups-Inv :
    {r : Registry} (now budget : ℕ) → Inv r → Inv (claim_due_cleanups r now budget).0
unfolding claim_due_cleanups
claim_due_cleanups-Inv {r} now budget v = due_loop-Inv now _ _ (
    ready_loop-Inv (min budget r.config.cleanup_scan_budget)
      (record { registry = r; cleanups = [] }) v)
