-- ===== src/Client/Invariant/Entry.antt =====
-- The changes that the operations make to one entry keep the invariant.
use cakemaster.Base.{
  ℕ, ◌≡◌, ◌≢◌, refl, sym, ap, subst, ◌∙◌, inl, inr, Bool, true, false, some, none, List, [], ◌∷◌,
  ◌++◌, arith, Option-cases,
}
use cakemaster.Base.Lists.{In, In-append_left, In-append_right}
use cakemaster.Base.Table.{
  Table, get, insert, remove, length-insert_present, length-remove_le, insert-insert,
}
use cakemaster.Identity.{ClientId, uuid_eq}
use cakemaster.Client.Types.{
  Session, session_eq, Guard, CleanupReason, CleanupClaimState, heartbeat_expired, ready, queued,
  running, ClientPhase, cleanup_pending, ClientEntry, DeadlineRecord, Registry, phase_is_active,
}
use cakemaster.Client.Registry.{
  put, store, fence, mark_expired, refresh, claim_phase, queue_phase, claim_cleanup,
}
use cakemaster.Client.Invariant.Defs.{Dated, Tracked, Inv}
use cakemaster.Client.Invariant.Frame.{put-Inv, remove-Inv, same-Inv, others_of_Inv}

active_phase : (p : ClientPhase) → phase_is_active p ≡ true → p ≡ ClientPhase.active
active_phase ClientPhase.active h = refl
active_phase (cleanup_pending reason claim) h = cc

module _ {r : Registry} (v : Inv r) (k : ClientId) (e : ClientEntry)
    (there : get k r.entries ≡ some e) where
  -- The entry at `k` is replaced by one of the same session; the heap and the queue may change in
  -- what they hold of this client.
  pub touch-Inv :
      (e' : ClientEntry) (m : Table ClientId ClientEntry) (g : ℕ → Bool) (ds : List DeadlineRecord)
      (q : List Session)
      → m ≡ insert k e' r.entries
      → e'.session ≡ e.session
      → e'.guard ≡ e.guard
      → ((c : ℕ) → c ≢ e.guard.cell → g c ≡ r.guards c)
      → g e.guard.cell ≡ phase_is_active e'.phase
      → ((d : DeadlineRecord) → d.client_id ≢ k → In d r.deadlines → In d ds)
      → ((s : Session) → s.client_id ≢ k → In s r.cleanup_ready → In s q)
      → Tracked ds q e' e'.phase
      → Inv (record r { entries = m; deadlines = ds; cleanup_ready = q; guards = g })
  touch-Inv e' m g ds q same session guard flags flag dates queue track =
      let old = v.each k e there in
      put-Inv
        (record {
          dates = dates;
          queue = queue;
          generations = omega arith;
          cells = omega arith;
          flags = flags;
        })
        e' v same (rw (same, length-insert_present k e' r.entries there) v.within)
        (ap (λ (x : Guard). x.cell) guard) (others_of_Inv v k e there)
        (record {
          keyed = ap (λ (x : Session). x.client_id) session ∙ old.keyed;
          older = rw session old.older;
          guarded = ap (λ (x : Guard). x.session) guard ∙ old.guarded ∙ sym session;
          allocated = rw guard old.allocated;
          flagged = rw guard flag;
          tracked = track;
        })

  pub remove_fenced-Inv :
      Inv (record r { entries = remove k r.entries; guards = store r.guards e.guard.cell false })
  remove_fenced-Inv =
      remove-Inv
        (record {
          dates = λ d n h. h;
          queue = λ s n h. h;
          generations = omega arith;
          cells = omega arith;
          flags = λ c n. ground arith;
        })
        v refl (omega (arith, v.within, length-remove_le k r.entries)) (others_of_Inv v k e there)

  Dated-of_active : phase_is_active e.phase ≡ true → Dated r.deadlines e
  Dated-of_active act =
      subst (Tracked r.deadlines r.cleanup_ready e) (active_phase e.phase act)
        (v.each k e there).tracked

  pub refresh-Inv :
      (now : ℕ) → phase_is_active e.phase ≡ true → Inv (put r k (refresh e now r.config.ttl_ticks))
  refresh-Inv now act =
      touch-Inv (refresh e now r.config.ttl_ticks) _ r.guards r.deadlines r.cleanup_ready refl refl
        refl (λ c n. refl) (v.each k e there).flagged (λ d n h. h) (λ s n h. h)
        (subst (Tracked r.deadlines r.cleanup_ready (refresh e now r.config.ttl_ticks))
          (sym (active_phase e.phase act))
          (record {
            due = d.due;
            held = d.held;
            same_client = d.same_client;
            same_generation = d.same_generation;
            in_time = ground arith;
          }))
    where
      d : Dated r.deadlines e
      d = Dated-of_active act

  pub mark_expired-Inv : phase_is_active e.phase ≡ true → Inv (mark_expired r k e)
  unfolding mark_expired
  mark_expired-Inv act =
      touch-Inv (record e { phase = cleanup_pending heartbeat_expired ready }) _ _ r.deadlines
        r.cleanup_ready refl refl refl (λ c n. ground arith) (ground arith) (λ d n h. h)
        (λ s n h. h)
        (record {
          due = d.due;
          held = d.held;
          same_client = d.same_client;
          same_generation = d.same_generation;
          in_time = d.in_time;
        })
    where
      d : Dated r.deadlines e
      d = Dated-of_active act

  claim_flag :
      (p p' : ClientPhase) (x : CleanupClaimState) (reason : CleanupReason)
      → claim_phase p x ≡ some (p', reason)
      → (phase_is_active p' ≡ phase_is_active p) × (p' ≡ cleanup_pending reason running)
  claim_flag ClientPhase.active p' x reason h = cc
  claim_flag (cleanup_pending a ready) p' x reason h = ground arith
  claim_flag (cleanup_pending a queued) p' x reason h = ground arith
  claim_flag (cleanup_pending a running) p' x reason h = ground arith

  queue_flag :
      (p p' : ClientPhase)
      → queue_phase p ≡ some p'
      → (reason : CleanupReason) × (p ≡ cleanup_pending reason running)
        × (p' ≡ cleanup_pending reason queued)
  queue_flag ClientPhase.active p' h = cc
  queue_flag (cleanup_pending a ready) p' h = cc
  queue_flag (cleanup_pending a queued) p' h = cc
  queue_flag (cleanup_pending a running) p' h = (a, refl, ground arith)

  -- A running cleanup goes to the end of the queue.
  pub requeue-Inv :
      (s : Session) (p : ClientPhase)
      → e.session ≡ s
      → queue_phase e.phase ≡ some p
      → Inv (record r {
        entries = insert k (record e { phase = p }) r.entries;
        cleanup_ready = r.cleanup_ready ++ (s ∷ []);
      })
  requeue-Inv s p own got =
      let (reason, was, is) = queue_flag e.phase p got in
      touch-Inv (record e { phase = p }) _ r.guards r.deadlines _ refl refl refl (λ c n. refl)
        ((v.each k e there).flagged ∙ ap phase_is_active was ∙ sym (ap phase_is_active is))
        (λ d n h. h) (λ x n h. In-append_left x r.cleanup_ready (s ∷ []) h)
        (subst (Tracked r.deadlines (r.cleanup_ready ++ (s ∷ [])) (record e { phase = p })) (sym is)
          (In-append_right e.session r.cleanup_ready (s ∷ []) (inl (sym own))))

  pub remove_claimed-Inv : Inv (record r { entries = remove k r.entries })
  remove_claimed-Inv =
      remove-Inv
        (record {
          dates = λ d n h. h;
          queue = λ s n h. h;
          generations = omega arith;
          cells = omega arith;
          flags = λ c n. refl;
        })
        v refl (omega (arith, v.within, length-remove_le k r.entries)) (others_of_Inv v k e there)

  -- A claim, and a fence with the claim that follows it at once, after the heap and the queue have
  -- lost or gained something of this client.
  module _ (ds : List DeadlineRecord) (q : List Session)
      (dates : (d : DeadlineRecord) → d.client_id ≢ k → In d r.deadlines → In d ds)
      (queue : (s : Session) → s.client_id ≢ k → In s r.cleanup_ready → In s q) where
    pub fence_claim-Inv :
        (reason : CleanupReason)
        → phase_is_active e.phase ≡ true
        → Inv
            (claim_cleanup
              (fence (record r { deadlines = ds; cleanup_ready = q }) k e reason)
              k
              (record e { phase = cleanup_pending reason ready })
              ready).0
    unfolding fence claim_cleanup
    fence_claim-Inv reason act =
        touch-Inv (record e { phase = cleanup_pending reason running }) _ _ ds q
          (insert-insert k _ _ r.entries) refl refl (λ c n. ground arith) (ground arith) dates queue
          tt

    pub unchanged-Inv :
        Tracked ds q e e.phase → Inv (record r { deadlines = ds; cleanup_ready = q })
    unchanged-Inv track =
        same-Inv {cell = 0}
          (record {
            dates = dates;
            queue = queue;
            generations = omega arith;
            cells = omega arith;
            flags = λ c n. refl;
          })
          v refl refl refl
          (λ f found. subst (λ (x : ClientEntry). Tracked ds q x x.phase) (ground arith) track)

    pub claim_cleanup-Inv :
        (x : CleanupClaimState)
        → (claim_phase e.phase x ≡ none → Tracked ds q e e.phase)
        → Inv (claim_cleanup (record r { deadlines = ds; cleanup_ready = q }) k e x).0
    unfolding claim_cleanup
    claim_cleanup-Inv x keep = elim (Option-cases (claim_phase e.phase x)) [
      | inl refused ↦ rw (refused, claim_cleanup) (unchanged-Inv (keep refused))
      | inr ((p, reason), got) ↦
          let (same, is) = claim_flag e.phase p x reason got in
          rw (got, claim_cleanup)
            (touch-Inv (record e { phase = p }) _ r.guards ds q refl refl refl (λ c n. refl)
              ((v.each k e there).flagged ∙ sym same) dates queue
              (subst (Tracked ds q (record e { phase = p })) (sym is) tt))
    ]
