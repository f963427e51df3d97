-- ===== src/Client/Registry.antt =====
-- src/client/lifecycle.rs: `ClientRegistry`, one operation at a time, each under the registry's mutex.
-- An operation returns the new registry and its result; the log lines are left out.
use cakemaster.Base.{
  ℕ, ◌+◌, Bool, true, false, Option, none, some, [], ◌∷◌, ◌++◌, ltb, leb, eqb, if◌then◌else◌,
  Result, ok, err, ok_or, ◌==◌, checked_add, saturating_add, max,
}
use cakemaster.Base.Lists.{length}
use cakemaster.Base.Table.{get, insert, remove}
use cakemaster.Identity.{ClientId, uuid_eq, is_nil}
use cakemaster.Client.Types.{
  ClientLifecycleConfig, ClientLifecycleConfigError, validate, Session, session_eq, Guard,
  ClientState, expired, CleanupReason, heartbeat_expired, CleanupClaimState, ready, queued, running,
  ClientPhase, cleanup_pending, ClientEntry, DeadlineRecord, Cleanup, ActivateOutcome, activated,
  already_active, HeartbeatOutcome, alive, need_remount, ClientLifecycleError, nil_client_id,
  capacity_exceeded, cleanup_in_progress, client_not_active, cleanup_not_started, stale_session,
  generation_exhausted, Registry, push_deadline, phase_is_active, phase_state,
}

abbrev pub empty_registry : ClientLifecycleConfig → Registry
empty_registry config = record {
  config = config;
  entries = [];
  deadlines = [];
  cleanup_ready = [];
  next_generation = 1;
  guards = λ _. false;
  next_guard = 0;
}

unfoldable pub with_config : ClientLifecycleConfig → Result ClientLifecycleConfigError Registry
unfolding validate
with_config config = elim (validate config) [ err e ↦ err e | ok _ ↦ ok (empty_registry config) ]

-- A store to one shared flag.
abbrev pub store : (ℕ → Bool) → ℕ → Bool → ℕ → Bool
store flags cell value c = if eqb c cell then value else flags c

abbrev pub put : Registry → ClientId → ClientEntry → Registry
put r id e = record r { entries = insert id e r.entries }

-- `mark_expired` and `fence`: the phase changes and the guard is invalidated.
unfoldable pub fence : Registry → ClientId → ClientEntry → CleanupReason → Registry
fence r id e reason = record r {
  entries = insert id (record e { phase = cleanup_pending reason ready }) r.entries;
  guards = store r.guards e.guard.cell false;
}

unfoldable pub mark_expired : Registry → ClientId → ClientEntry → Registry
unfolding fence
mark_expired r id e = fence r id e heartbeat_expired

unfoldable pub expire_if_due : Registry → ClientId → ClientEntry → ℕ → Registry × Bool
unfolding mark_expired
expire_if_due r id e now = if ltb now e.expires_at then (r, false) else (mark_expired r id e, true)

abbrev pub refresh : ClientEntry → ℕ → ℕ → ClientEntry
refresh e now ttl = record e { expires_at = max e.expires_at (saturating_add now ttl) }

abbrev pub ensure_session : ClientEntry → Session → Result ClientLifecycleError (Unit {0})
ensure_session e s = if e.session == s then ok tt else err stale_session

-- What `claim_cleanup` does to the phase, if it claims.
abbrev pub claim_phase : ClientPhase → CleanupClaimState → Option (ClientPhase × CleanupReason)
claim_phase ClientPhase.active expected = none
claim_phase (cleanup_pending reason ready) ready = some (cleanup_pending reason running, reason)
claim_phase (cleanup_pending reason queued) queued = some (cleanup_pending reason running, reason)
claim_phase (cleanup_pending reason running) running = some (cleanup_pending reason running, reason)
claim_phase (cleanup_pending reason _) _ = none

unfoldable pub claim_cleanup :
    Registry → ClientId → ClientEntry → CleanupClaimState → Registry × Option Cleanup
claim_cleanup r id e expected = elim (claim_phase e.phase expected) [
  | none ↦ (r, none)
  | some (phase, reason) ↦ (
    put r id (record e { phase = phase }),
    some (record { session = e.session; reason = reason }),
  )
]

abbrev pub cleanup_is_running : ClientPhase → Bool
cleanup_is_running ClientPhase.active = false
cleanup_is_running (cleanup_pending _ running) = true
cleanup_is_running (cleanup_pending _ ready) = false
cleanup_is_running (cleanup_pending _ queued) = false

abbrev pub allocate_generation : ℕ → Result ClientLifecycleError ℕ
allocate_generation next = ok_or (checked_add next 1) generation_exhausted

unfoldable pub activate_known :
    Registry → ClientId → ClientEntry → ℕ → Registry × Result ClientLifecycleError ActivateOutcome
unfolding expire_if_due
activate_known r id e now =
    if phase_is_active e.phase
    then (let (r', due) = expire_if_due r id e now in
        if due
        then (r', err (cleanup_in_progress expired))
        else (put r' id (refresh e now r.config.ttl_ticks), ok (already_active e.session)))
    else (r, err (cleanup_in_progress (phase_state e.phase)))

-- What `activate` inserts for a client that is not there: the entry, with a new guard.
abbrev pub new_session : Registry → ClientId → Session
new_session r id = record { client_id = id; generation = r.next_generation }

abbrev pub new_entry : Registry → ClientId → ℕ → ClientEntry
new_entry r id now = record {
  session = new_session r id;
  guard = record { session = new_session r id; cell = r.next_guard };
  phase = ClientPhase.active;
  expires_at = saturating_add now r.config.ttl_ticks;
}

abbrev pub new_deadline : Registry → ClientId → ℕ → DeadlineRecord
new_deadline r id now = record {
  expires_at = saturating_add now r.config.ttl_ticks;
  client_id = id;
  generation = r.next_generation;
}

unfoldable pub admit : Registry → ClientId → ℕ → ℕ → Registry
admit r id now next = record r {
  entries = insert id (new_entry r id now) r.entries;
  deadlines = push_deadline (new_deadline r id now) r.deadlines;
  next_generation = next;
  guards = store r.guards r.next_guard true;
  next_guard = r.next_guard + 1;
}

unfoldable pub activate_new :
    Registry → ClientId → ℕ → Registry × Result ClientLifecycleError ActivateOutcome
unfolding admit
activate_new r id now =
    if leb r.config.max_clients (length r.entries)
    then (r, err (capacity_exceeded r.config.max_clients))
    else elim (allocate_generation r.next_generation) [
      | err e ↦ (r, err e)
      | ok next ↦ (admit r id now next, ok (activated (new_session r id)))
    ]

unfoldable pub activate :
    Registry → ClientId → ℕ → Registry × Result ClientLifecycleError ActivateOutcome
unfolding activate_known activate_new
activate r id now = if is_nil id then (r, err nil_client_id) else elim (get id r.entries) [
  | some e ↦ activate_known r id e now
  | none ↦ activate_new r id now
]

unfoldable pub heartbeat_known : Registry → ClientId → ClientEntry → ℕ → Registry × HeartbeatOutcome
unfolding expire_if_due
heartbeat_known r id e now =
    if phase_is_active e.phase
    then (let (r', due) = expire_if_due r id e now in
        if due
        then (r', need_remount)
        else (put r' id (refresh e now r.config.ttl_ticks), alive e.session))
    else (r, need_remount)

unfoldable pub heartbeat : Registry → ClientId → ℕ → Registry × HeartbeatOutcome
unfolding heartbeat_known
heartbeat r id now = elim (get id r.entries) [
  | none ↦ (r, need_remount)
  | some e ↦ heartbeat_known r id e now
]

abbrev pub active_entry : Registry → ClientId → Option ClientEntry
active_entry r id = elim (get id r.entries) [
  | none ↦ none
  | some e ↦ if phase_is_active e.phase then some e else none
]

unfoldable pub active_session : Registry → ClientId → Result ClientLifecycleError Session
active_session r id =
    if is_nil id
    then err nil_client_id
    else elim (active_entry r id) [ none ↦ err client_not_active | some e ↦ ok e.session ]

unfoldable pub active_session_guard : Registry → ClientId → Result ClientLifecycleError Guard
active_session_guard r id =
    if is_nil id
    then err nil_client_id
    else elim (active_entry r id) [ none ↦ err client_not_active | some e ↦ ok e.guard ]

-- `ClientSessionGuard::is_active`, on any clone of the guard.
abbrev pub guard_is_active : Registry → Guard → Bool
guard_is_active r g = r.guards g.cell

unfoldable pub client_state : Registry → ClientId → Option ClientState
client_state r id = elim (get id r.entries) [ none ↦ none | some e ↦ some (phase_state e.phase) ]

unfoldable pub rollback_known :
    Registry → Session → ClientEntry → Registry × Result ClientLifecycleError (Unit {0})
rollback_known r s e = elim (ensure_session e s) [
  | err x ↦ (r, err x)
  | ok _ ↦
      if phase_is_active e.phase
      then (
        record r {
          entries = remove s.client_id r.entries;
          guards = store r.guards e.guard.cell false;
        },
        ok tt,
      )
      else (r, err (cleanup_in_progress (phase_state e.phase)))
]

unfoldable pub rollback_activation :
    Registry → Session → Registry × Result ClientLifecycleError (Unit {0})
unfolding rollback_known
rollback_activation r s = elim (get s.client_id r.entries) [
  | none ↦ (r, err client_not_active)
  | some e ↦ rollback_known r s e
]

-- The entry that `begin_drain` has after its fence, for the claim that follows.
abbrev fenced : ClientEntry → CleanupReason → ClientEntry
fenced e reason =
    if phase_is_active e.phase then record e { phase = cleanup_pending reason ready } else e

unfoldable pub drain_known :
    Registry
    → Session
    → ClientEntry
    → CleanupReason
    → Registry × Result ClientLifecycleError (Option Cleanup)
unfolding fence claim_cleanup
drain_known r s e reason = elim (ensure_session e s) [
  | err x ↦ (r, err x)
  | ok _ ↦
      let r' = (if phase_is_active e.phase then fence r s.client_id e reason else r) in
      let (r'', cleanup) = claim_cleanup r' s.client_id (fenced e reason) ready in (r'', ok cleanup)
]

unfoldable pub begin_drain :
    Registry → Session → CleanupReason → Registry × Result ClientLifecycleError (Option Cleanup)
unfolding drain_known
begin_drain r s reason = elim (get s.client_id r.entries) [
  | none ↦ (r, err client_not_active)
  | some e ↦ drain_known r s e reason
]

unfoldable pub finish_known :
    Registry → Session → ClientEntry → Registry × Result ClientLifecycleError (Unit {0})
finish_known r s e = elim (ensure_session e s) [
  | err x ↦ (r, err x)
  | ok _ ↦
      if cleanup_is_running e.phase
      then (record r { entries = remove s.client_id r.entries }, ok tt)
      else (r, err cleanup_not_started)
]

unfoldable pub finish_cleanup :
    Registry → Session → Registry × Result ClientLifecycleError (Unit {0})
unfolding finish_known
finish_cleanup r s = elim (get s.client_id r.entries) [
  | none ↦ (r, ok tt)
  | some e ↦ finish_known r s e
]

-- `queue_running_cleanup`, as the phase that it leaves.
abbrev pub queue_phase : ClientPhase → Option ClientPhase
queue_phase (cleanup_pending reason running) = some (cleanup_pending reason queued)
queue_phase (cleanup_pending _ ready) = none
queue_phase (cleanup_pending _ queued) = none
queue_phase ClientPhase.active = none

unfoldable pub release_known : Registry → Session → ClientEntry → Registry
release_known r s e =
    if e.session == s
    then elim (queue_phase e.phase) [
      | none ↦ r
      | some phase ↦ record r {
        entries = insert s.client_id (record e { phase = phase }) r.entries;
        cleanup_ready = r.cleanup_ready ++ (s ∷ []);
      }
    ]
    else r

-- `Drop` of an unfinished claim.
unfoldable pub release_cleanup : Registry → Session → Registry
unfolding release_known
release_cleanup r s = elim (get s.client_id r.entries) [ none ↦ r | some e ↦ release_known r s e ]

-- `ClientCleanup::finish`: a claim that cannot be finished is dropped, and so released.
unfoldable pub finish : Registry → Cleanup → Registry × Result ClientLifecycleError (Unit {0})
unfolding finish_cleanup release_cleanup
finish r c =
    let (r', result) = finish_cleanup r c.session in
    elim result [ ok u ↦ (r', ok u) | err x ↦ (release_cleanup r' c.session, err x) ]
