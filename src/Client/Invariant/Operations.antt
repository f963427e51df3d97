-- ===== src/Client/Invariant/Operations.antt =====
-- Every operation of the registry but the scan keeps the invariant.
use cakemaster.Base.{ℕ, ◌+◌, ◌<◌, ◌≡◌, refl, subst, inl, inr, some, none, arith, Option-cases, ok}
use cakemaster.Base.Lists.{length}
use cakemaster.Base.Table.{get, length-insert_le}
use cakemaster.Identity.{ClientId, uuid_eq}
use cakemaster.Client.Types.{
  ClientLifecycleConfig, Session, session_eq, session_beq_iff, CleanupReason, ready, ClientEntry,
  Cleanup, Registry,
}
use cakemaster.Client.Registry.{
  empty_registry, with_config, queue_phase, activate_known, new_entry, new_deadline, admit,
  activate_new, activate, heartbeat_known, heartbeat, rollback_known, rollback_activation,
  drain_known, begin_drain, finish_known, finish_cleanup, release_known, release_cleanup, finish,
}
use cakemaster.Client.Invariant.Defs.{Inv}
use cakemaster.Client.Invariant.Frame.{In-push_self, In-push, put-Inv}
use cakemaster.Client.Invariant.Entry.{
  remove_fenced-Inv, refresh-Inv, mark_expired-Inv, fence_claim-Inv, claim_cleanup-Inv, requeue-Inv,
  remove_claimed-Inv,
}

module _ {r : Registry} (v : Inv r) (k : ClientId) (e : ClientEntry)
    (there : get k r.entries ≡ some e) where
  activate_known-Inv : (now : ℕ) → Inv (activate_known r k e now).0
  unfolding activate_known
  activate_known-Inv now =
      ground (arith, v, refresh-Inv v k e there now, mark_expired-Inv v k e there)

  heartbeat_known-Inv : (now : ℕ) → Inv (heartbeat_known r k e now).0
  unfolding heartbeat_known
  heartbeat_known-Inv now =
      ground (arith, v, refresh-Inv v k e there now, mark_expired-Inv v k e there)

module _ {r : Registry} (v : Inv r) (s : Session) (e : ClientEntry)
    (there : get s.client_id r.entries ≡ some e) where
  rollback_known-Inv : Inv (rollback_known r s e).0
  unfolding rollback_known
  rollback_known-Inv = ground (arith, v, remove_fenced-Inv v s.client_id e there)

  drain_known-Inv : (reason : CleanupReason) → Inv (drain_known r s e reason).0
  unfolding drain_known
  drain_known-Inv reason = ground (
    arith,
    v,
    fence_claim-Inv v s.client_id e there r.deadlines r.cleanup_ready (λ d n h. h) (λ x n h. h)
        reason,
    claim_cleanup-Inv v s.client_id e there r.deadlines r.cleanup_ready (λ d n h. h) (λ x n h. h)
        ready (λ _. (v.each s.client_id e there).tracked),
  )

  finish_known-Inv : Inv (finish_known r s e).0
  unfolding finish_known
  finish_known-Inv = ground (arith, v, remove_claimed-Inv v s.client_id e there)

  release_known-Inv : Inv (release_known r s e)
  unfolding release_known
  release_known-Inv = elim (Option-cases (queue_phase e.phase)) [
    | inl no_claim ↦ ground (arith, v)
    | inr (p, got) ↦
        ground (arith, v, session_beq_iff e.session s, requeue-Inv v s.client_id e there s p)
  ]

admit-Inv :
    {r : Registry} (v : Inv r) (k : ClientId) (now next : ℕ)
    → get k r.entries ≡ none
    → length r.entries < r.config.max_clients
    → r.next_generation < next
    → Inv (admit r k now next)
unfolding admit
admit-Inv {r} v k now next absent room newer =
    put-Inv
      (record {
        dates = λ d n h. In-push d (new_deadline r k now) r.deadlines h;
        queue = λ s n h. h;
        generations = omega arith;
        cells = omega arith;
        flags = λ c n. ground arith;
      })
      (new_entry r k now) v refl (omega (arith, length-insert_le k (new_entry r k now) r.entries))
      refl (λ j f h n q. omega (arith, (v.each j f h).allocated))
      (record {
        keyed = refl;
        older = newer;
        guarded = refl;
        allocated = omega arith;
        flagged = ground arith;
        tracked = record {
          due = new_deadline r k now;
          held = In-push_self (new_deadline r k now) r.deadlines;
          same_client = refl;
          same_generation = refl;
          in_time = omega arith;
        };
      })

activate_new-Inv :
    {r : Registry} (v : Inv r) (k : ClientId) (now : ℕ)
    → get k r.entries ≡ none
    → Inv (activate_new r k now).0
unfolding activate_new
activate_new-Inv {r} v k now absent =
    ground (arith, v, admit-Inv v k now (r.next_generation + 1) absent)

pub activate-Inv : {r : Registry} (k : ClientId) (now : ℕ) → Inv r → Inv (activate r k now).0
unfolding activate
activate-Inv {r} k now v = elim (Option-cases (get k r.entries)) [
  | inl no_entry ↦ ground (arith, v, activate_new-Inv v k now no_entry)
  | inr (e, there) ↦ ground (arith, v, activate_known-Inv v k e there now)
]

pub heartbeat-Inv : {r : Registry} (k : ClientId) (now : ℕ) → Inv r → Inv (heartbeat r k now).0
unfolding heartbeat
heartbeat-Inv {r} k now v = elim (Option-cases (get k r.entries)) [
  | inl no_entry ↦ rw (no_entry, heartbeat) v
  | inr (e, there) ↦ rw (there, heartbeat) (heartbeat_known-Inv v k e there now)
]

pub rollback_activation-Inv : {r : Registry} (s : Session) → Inv r → Inv (rollback_activation r s).0
unfolding rollback_activation
rollback_activation-Inv {r} s v = elim (Option-cases (get s.client_id r.entries)) [
  | inl no_entry ↦ rw (no_entry, rollback_activation) v
  | inr (e, there) ↦ rw (there, rollback_activation) (rollback_known-Inv v s e there)
]

pub begin_drain-Inv :
    {r : Registry} (s : Session) (reason : CleanupReason) → Inv r → Inv (begin_drain r s reason).0
unfolding begin_drain
begin_drain-Inv {r} s reason v = elim (Option-cases (get s.client_id r.entries)) [
  | inl no_entry ↦ rw (no_entry, begin_drain) v
  | inr (e, there) ↦ rw (there, begin_drain) (drain_known-Inv v s e there reason)
]

finish_cleanup-Inv : {r : Registry} (s : Session) → Inv r → Inv (finish_cleanup r s).0
unfolding finish_cleanup
finish_cleanup-Inv {r} s v = elim (Option-cases (get s.client_id r.entries)) [
  | inl no_entry ↦ rw (no_entry, finish_cleanup) v
  | inr (e, there) ↦ rw (there, finish_cleanup) (finish_known-Inv v s e there)
]

pub release_cleanup-Inv : {r : Registry} (s : Session) → Inv r → Inv (release_cleanup r s)
unfolding release_cleanup
release_cleanup-Inv {r} s v = elim (Option-cases (get s.client_id r.entries)) [
  | inl no_entry ↦ rw (no_entry, release_cleanup) v
  | inr (e, there) ↦ rw (there, release_cleanup) (release_known-Inv v s e there)
]

pub finish-Inv : {r : Registry} (c : Cleanup) → Inv r → Inv (finish r c).0
unfolding finish
finish-Inv {r} c v = ground (
  arith,
  finish_cleanup-Inv c.session v,
  release_cleanup-Inv c.session (finish_cleanup-Inv c.session v),
)

empty_registry-Inv : (c : ClientLifecycleConfig) → Inv (empty_registry c)
unfolding get
empty_registry-Inv c = record {
  each = λ k e found. cc;
  apart = λ j k e f found other q. cc;
  within = omega arith;
}

pub with_config-Inv : (c : ClientLifecycleConfig) {r : Registry} → with_config c ≡ ok r → Inv r
unfolding with_config
with_config-Inv c {r} h = subst Inv {x = empty_registry c} (ground arith) (empty_registry-Inv c)
