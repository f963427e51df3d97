-- ===== src/Client/Calls.antt =====
-- The result of single calls of the registry, on every branch.
use cakemaster.Base.{
  ℕ, ◌+◌, ◌≤◌, ◌<◌, ◌≡◌, ◌↔◌, ◌⊎◌, inl, inr, true, false, some, arith, Option-cases, Bool-cases, ok,
  ltb, saturating_add, max,
}
use cakemaster.Base.Table.{get, get-insert_self}
use cakemaster.Identity.{ClientId, uuid_eq}
use cakemaster.Client.Types.{
  Session, session_eq, session_beq_iff, Guard, CleanupReason, heartbeat_expired, ready, ClientPhase,
  cleanup_pending, ClientEntry, activated, alive, need_remount, Registry, phase_is_active,
}
use cakemaster.Client.Registry.{
  refresh, activate, activate_known, activate_new, new_entry, heartbeat, heartbeat_known,
  begin_drain, drain_known, active_session_guard, guard_is_active,
}
use cakemaster.Client.Invariant.Defs.{Inv}

-- A heartbeat answers with the session exactly when the client has an active entry whose deadline
-- has not come.
pub heartbeat_alive_iff :
    (r : Registry) (k : ClientId) (now : ℕ) (e : ClientEntry)
    → get k r.entries ≡ some e
    → ((heartbeat r k now).1 ≡ alive e.session)
      ↔ ((phase_is_active e.phase ≡ true) × (now < e.expires_at))
unfolding heartbeat heartbeat_known
heartbeat_alive_iff r k now e there = ((λ h. ground arith), λ h. ground arith)

-- The three ways a heartbeat can go for a client with the entry `e`.
abbrev pub InTime : Registry → ClientId → ℕ → ClientEntry → Type 0
InTime r k now e =
    (phase_is_active e.phase ≡ true)
    × (now < e.expires_at)
    × (get k (heartbeat r k now).0.entries
        ≡ some (record e { expires_at = max e.expires_at (saturating_add now r.config.ttl_ticks) }))
    × ((heartbeat r k now).0.guards ≡ r.guards)

abbrev pub TooLate : Registry → ClientId → ℕ → ClientEntry → Type 0
TooLate r k now e =
    (phase_is_active e.phase ≡ true)
    × (e.expires_at ≤ now)
    × (get k (heartbeat r k now).0.entries
        ≡ some (record e { phase = cleanup_pending heartbeat_expired ready }))
    × ((heartbeat r k now).0.guards e.guard.cell ≡ false)
    × ((heartbeat r k now).1 ≡ need_remount)

abbrev pub AlreadyFenced : Registry → ClientId → ℕ → ClientEntry → Type 0
AlreadyFenced r k now e =
    (phase_is_active e.phase ≡ false) × (heartbeat r k now ≡ (r, need_remount))

-- A heartbeat before the deadline puts the deadline at the later of the old one and `now + ttl`
-- (saturated) and changes no other field of the entry and no guard flag; one at the deadline or
-- later expires the session, lowers its guard flag and asks for a remount; of a session that is
-- already fenced nothing changes, and the answer is to remount.
pub heartbeat_effect :
    (r : Registry) (k : ClientId) (now : ℕ) (e : ClientEntry)
    → get k r.entries ≡ some e
    → InTime r k now e ⊎ TooLate r k now e ⊎ AlreadyFenced r k now e
unfolding heartbeat heartbeat_known
heartbeat_effect r k now e there = elim (Bool-cases (phase_is_active e.phase)) [
  | inl act ↦ elim (Bool-cases (ltb now e.expires_at)) [
    | inl early ↦ inl (
      act,
      ground arith,
      ground (arith, get-insert_self k (refresh e now r.config.ttl_ticks) r.entries),
      ground arith,
    )
    | inr late ↦ inr (
        inl (
          act,
          ground arith,
          ground (
            arith,
            get-insert_self k (record e { phase = cleanup_pending heartbeat_expired ready })
                r.entries,
          ),
          ground arith,
          ground arith,
        ))
  ]
  | inr fenced ↦ inr (inr (fenced, ground arith))
]

-- The generation is later than that of every entry.
abbrev pub Newest : Registry → ℕ → Type 0
Newest r generation =
    (j : ClientId) (f : ClientEntry) → get j r.entries ≡ some f → f.session.generation < generation

-- In a well-formed registry a new session, the first one included, takes the next generation, which is
-- later than that of any entry there is, counts it up, and starts active with a raised guard and the
-- deadline `now + ttl` (saturated).
pub activated_fresh :
    (r : Registry) (k : ClientId) (now : ℕ) (s : Session)
    → Inv r
    → (activate r k now).1 ≡ ok (activated s)
    → (s.client_id ≡ k)
      × (s.generation ≡ r.next_generation)
      × Newest r s.generation
      × ((activate r k now).0.next_generation ≡ s.generation + 1)
      × (get k (activate r k now).0.entries
          ≡ some (record {
            session = s;
            guard = record { session = s; cell = r.next_guard };
            phase = ClientPhase.active;
            expires_at = saturating_add now r.config.ttl_ticks;
          }))
      × ((activate r k now).0.guards r.next_guard ≡ true)
unfolding activate activate_known activate_new
activated_fresh r k now s v made =
    let next : s.generation ≡ r.next_generation = ground arith in
    (
      ground arith,
      next,
      λ j f there. omega (arith, next, (v.each j f there).older),
      ground arith,
      ground (arith, get-insert_self k (new_entry r k now) r.entries),
      ground arith,
    )

-- In a well-formed registry the guard that `active_session_guard` hands out is that of the client's
-- current session and is up, and after a drain of that session it is down.
pub drain_lowers_guard :
    (r : Registry) (k : ClientId) (g : Guard) (reason : CleanupReason)
    → Inv r
    → active_session_guard r k ≡ ok g
    → (g.session.client_id ≡ k)
      × (guard_is_active r g ≡ true)
      × (guard_is_active (begin_drain r g.session reason).0 g ≡ false)
      × ((begin_drain r g.session reason).1
          ≡ ok (some (record { session = g.session; reason = reason })))
unfolding active_session_guard begin_drain drain_known
drain_lowers_guard r k g reason v found = elim (Option-cases (get k r.entries)) [
  | inl no_entry ↦ ground arith
  | inr (e, there) ↦
      let h = v.each k e there in
      ground (arith, h.keyed, h.guarded, h.flagged, session_beq_iff e.session g.session)
]
