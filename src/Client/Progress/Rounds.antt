-- ===== src/Client/Progress/Rounds.antt =====
-- What the rounds of a scan do to the heap, to the queue and to the number of claims.
use cakemaster.Base.{
  ℕ, zero, suc, ◌+◌, ◌≤◌, ◌<◌, ◌≡◌, refl, sym, ap, subst, ◌∙◌, ◌⊎◌, inl, inr, Option, some, none,
  List, [], ◌∷◌, arith, Bool-cases, Option-cases, List-cases, ◌==◌, ltb, ltb→lt, eqb,
}
use cakemaster.Base.Lists.{length, length-append}
use cakemaster.Base.Table.{get}
use cakemaster.Identity.{ClientId, uuid_eq}
use cakemaster.Client.Types.{
  Session, session_eq, heartbeat_expired, graceful_unmount, server_shutdown, CleanupClaimState,
  ready, queued, ClientPhase, cleanup_pending, ClientEntry, DeadlineRecord, Cleanup, Registry,
  push_deadline,
}
use cakemaster.Client.Registry.{claim_phase, fence, mark_expired, claim_cleanup}
use cakemaster.Client.Scan.{
  ScanState, gather, ready_round, ready_loop, due_phase, due_round, due_loop,
}
use cakemaster.Client.Progress.Heap.{
  IsSorted, AllLater, AllFrom-mono, due_count, push-IsSorted, due_count-push_later,
  later_of_none_due,
}

-- The heap, or the heap with one more record that is not due.
abbrev pub Requeued : ℕ → List DeadlineRecord → List DeadlineRecord → Type 0
Requeued now before after =
    (after ≡ before)
    ⊎ ((x : DeadlineRecord) × (now < x.expires_at) × (after ≡ push_deadline x before))

-- What a round leaves alone: the queue, and all but one more claim.
pub record Modest (r : Registry) (out : List Cleanup) (t : ScanState) : Type 0 where
  pub same_queue : t.registry.cleanup_ready ≡ r.cleanup_ready
  pub same_config : t.registry.config ≡ r.config
  pub one_more : length t.cleanups ≤ suc (length out)

claim_cleanup-heap :
    (r : Registry) (k : ClientId) (e : ClientEntry) (x : CleanupClaimState)
    → ((claim_cleanup r k e x).0.deadlines ≡ r.deadlines)
      × ((claim_cleanup r k e x).0.cleanup_ready ≡ r.cleanup_ready)
      × ((claim_cleanup r k e x).0.config ≡ r.config)
unfolding claim_cleanup
claim_cleanup-heap r k e x = elim (Option-cases (claim_phase e.phase x)) [
  | inl refused ↦ ground arith
  | inr ((p, reason), got) ↦ ground arith
]

gather-Modest :
    (r : Registry) (out : List Cleanup) (p : Registry × Option Cleanup)
    → p.0.cleanup_ready ≡ r.cleanup_ready
    → p.0.config ≡ r.config
    → Modest r out (gather out p)
gather-Modest r out (r', none) q c = record {
  same_queue = q;
  same_config = c;
  one_more = omega arith;
}
gather-Modest r out (r', some x) q c = record {
  same_queue = q;
  same_config = c;
  one_more = omega (arith, length-append out (x ∷ []));
}

gather-heap :
    (out : List Cleanup) (p : Registry × Option Cleanup)
    → (gather out p).registry.deadlines ≡ p.0.deadlines
gather-heap out (r, none) = refl
gather-heap out (r, some c) = refl

claim-Modest :
    (r : Registry) (out : List Cleanup) (k : ClientId) (e : ClientEntry) (x : CleanupClaimState)
    → Modest r out (gather out (claim_cleanup r k e x))
claim-Modest r out k e x =
    let (heap, queue, config) = claim_cleanup-heap r k e x in
    gather-Modest r out (claim_cleanup r k e x) queue config

idle-Modest : (r : Registry) (out : List Cleanup) → Modest r out (gather out (r, none))
idle-Modest r out = record { same_queue = refl; same_config = refl; one_more = omega arith }

pub ready_round-Modest :
    (r : Registry) (out : List Cleanup) (s : Session)
    → Modest r out (ready_round r out s) × ((ready_round r out s).registry.deadlines ≡ r.deadlines)
unfolding ready_round
ready_round-Modest r out s = elim (Option-cases (get s.client_id r.entries)) [
  | inl no_entry ↦ rw (no_entry, ready_round) (idle-Modest r out, refl)
  | inr (e, there) ↦ elim (Bool-cases (e.session == s)) [
    | inl own ↦
        rw (there, own, ready_round)
          (
            claim-Modest r out s.client_id e queued,
            gather-heap out (claim_cleanup r s.client_id e queued)
                ∙ (claim_cleanup-heap r s.client_id e queued).0,
          )
    | inr other ↦ rw (there, other, ready_round) (idle-Modest r out, refl)
  ]
]

due_phase-Modest :
    (now : ℕ) (r : Registry) (out : List Cleanup) (d : DeadlineRecord) (e : ClientEntry)
    (p : ClientPhase)
    → Modest r out (due_phase now r out d e p)
      × Requeued now r.deadlines (due_phase now r out d e p).registry.deadlines
unfolding due_phase mark_expired fence
due_phase-Modest now r out d e ClientPhase.active = elim (Bool-cases (ltb now e.expires_at)) [
  | inl early ↦ rw early (
    record { same_queue = refl; same_config = refl; one_more = omega arith },
    inr (record d { expires_at = e.expires_at }, ground arith, refl),
  )
  | inr late ↦
      let gone : ClientEntry = record e { phase = cleanup_pending heartbeat_expired ready } in
      let r' : Registry = mark_expired r d.client_id e in
      let (heap, queue, config) = claim_cleanup-heap r' d.client_id gone ready in
      rw late (
        gather-Modest r out (claim_cleanup r' d.client_id gone ready) queue config,
        inl (gather-heap out (claim_cleanup r' d.client_id gone ready) ∙ heap),
      )
]
due_phase-Modest now r out d e (cleanup_pending heartbeat_expired c) = (
  claim-Modest r out d.client_id e ready,
  inl (
      gather-heap out (claim_cleanup r d.client_id e ready)
      ∙ (claim_cleanup-heap r d.client_id e ready).0),
)
due_phase-Modest now r out d e (cleanup_pending graceful_unmount c) = (idle-Modest r out, inl refl)
due_phase-Modest now r out d e (cleanup_pending server_shutdown c) = (idle-Modest r out, inl refl)

pub due_round-Modest :
    (now : ℕ) (r : Registry) (out : List Cleanup) (d : DeadlineRecord)
    → Modest r out (due_round now r out d)
      × Requeued now r.deadlines (due_round now r out d).registry.deadlines
unfolding due_round
due_round-Modest now r out d = elim (Option-cases (get d.client_id r.entries)) [
  | inl no_entry ↦ rw (no_entry, due_round) (idle-Modest r out, inl refl)
  | inr (e, there) ↦ elim (Bool-cases (eqb e.session.generation d.generation)) [
    | inl own ↦ rw (there, own, due_round) (due_phase-Modest now r out d e e.phase)
    | inr other ↦ rw (there, other, due_round) (idle-Modest r out, inl refl)
  ]
]

pub Requeued-IsSorted :
    (now : ℕ) (a b : List DeadlineRecord) → Requeued now a b → IsSorted a → IsSorted b
Requeued-IsSorted now a b (inl same) s = subst IsSorted (sym same) s
Requeued-IsSorted now a b (inr (x, later, same)) s = subst IsSorted (sym same) (push-IsSorted x a s)

pub Requeued-due_count :
    (now : ℕ) (a b : List DeadlineRecord) → Requeued now a b → due_count now b ≡ due_count now a
Requeued-due_count now a b (inl same) = ap (due_count now) same
Requeued-due_count now a b (inr (x, later, same)) =
    ap (due_count now) same ∙ due_count-push_later now x a later

-- What the first loop has done: it takes one session a round, claims at most one cleanup a round,
-- and with budget enough leaves the queue empty.
pub record Drained (budget : ℕ) (s : ScanState) (left : ℕ) (t : ScanState) : Type 0 where
  pub claims : length t.cleanups + left ≤ length s.cleanups + budget
  pub spent : budget ≤ left + length s.registry.cleanup_ready
  pub heap : t.registry.deadlines ≡ s.registry.deadlines
  pub emptied : length s.registry.cleanup_ready ≤ budget → t.registry.cleanup_ready ≡ []

pub ready_loop-Drained :
    (budget : ℕ) (s : ScanState) → Drained budget s (ready_loop budget s).0 (ready_loop budget s).1
unfolding ready_loop
ready_loop-Drained zero s = record {
  claims = omega arith;
  spent = omega arith;
  heap = refl;
  emptied = λ h. ground arith;
}
ready_loop-Drained (suc budget) s = elim (List-cases s.registry.cleanup_ready) [
  | inl empty ↦
      rw (empty, ready_loop)
        (record { claims = omega arith; spent = omega arith; heap = refl; emptied = λ h. empty })
  | inr (x, rest, front) ↦
      let popped : Registry = record s.registry { cleanup_ready = rest } in
      let t : ScanState = ready_round popped s.cleanups x in
      let (m, same) = ready_round-Modest popped s.cleanups x in
      let ih = ready_loop-Drained budget t in
      let queue : length t.registry.cleanup_ready ≡ length rest = ap length m.same_queue in
      let whole : length s.registry.cleanup_ready ≡ suc (length rest) = ap length front in
      rw (front, ready_loop)
        (record {
          claims = omega (arith, ih.claims, m.one_more);
          spent = omega (arith, ih.spent, queue, whole);
          heap = ih.heap ∙ same;
          emptied = λ h. ih.emptied (omega (arith, queue, whole));
        })
]

-- What the second loop has done: at most one claim a round, the queue untouched, and with budget
-- enough no record left in the heap is due.
pub record Swept (now budget claimed : ℕ) (ds : List DeadlineRecord) (q : List Session)
    (t : ScanState) : Type 0 where
  pub claims : length t.cleanups ≤ claimed + budget
  pub queue : t.registry.cleanup_ready ≡ q
  pub sorted : IsSorted ds → IsSorted t.registry.deadlines
  pub nothing_due : IsSorted ds → due_count now ds ≤ budget → AllLater now t.registry.deadlines

pub due_loop-Swept :
    (now budget : ℕ) (s : ScanState)
    → Swept now budget
        (length s.cleanups)
        s.registry.deadlines
        s.registry.cleanup_ready
        (due_loop now budget s)
unfolding due_loop
due_loop-Swept now zero s = record {
  claims = omega arith;
  queue = refl;
  sorted = λ h. h;
  nothing_due = λ h few. later_of_none_due now s.registry.deadlines (omega arith);
}
due_loop-Swept now (suc budget) s = elim (List-cases s.registry.deadlines) [
  | inl empty ↦
      rw (empty, due_loop)
        (record {
          claims = omega arith;
          queue = refl;
          sorted = λ h. rw empty tt;
          nothing_due = λ h few. rw empty tt;
        })
  | inr (d, rest, front) ↦ elim (Bool-cases (ltb now d.expires_at)) [
    | inl early ↦
        rw (front, early, due_loop)
          (record {
            claims = omega arith;
            queue = refl;
            sorted = λ h. rw front h;
            nothing_due = λ h few. rw front (
              ltb→lt now d.expires_at early,
              AllFrom-mono (suc now) d.expires_at rest (ltb→lt now d.expires_at early) h.0,
            );
          })
    | inr due ↦
        let popped : Registry = record s.registry { deadlines = rest } in
        let t : ScanState = due_round now popped s.cleanups d in
        let (m, heap) = due_round-Modest now popped s.cleanups d in
        let ih = due_loop-Swept now budget t in
        rw (front, due, due_loop)
          (record {
            claims = omega (arith, ih.claims, m.one_more);
            queue = ih.queue ∙ m.same_queue;
            sorted = λ h. ih.sorted (Requeued-IsSorted now rest t.registry.deadlines heap h.1);
            nothing_due = λ h few.
                ih.nothing_due (Requeued-IsSorted now rest t.registry.deadlines heap h.1)
                  (ground (arith, Requeued-due_count now rest t.registry.deadlines heap));
          })
  ]
]
