-- ===== src/Client/Invariant/Defs.antt =====
-- The invariant of the client registry.
use cakemaster.Base.{◌≤◌, ◌<◌, ◌≡◌, some, List}
use cakemaster.Base.Lists.{length, In}
use cakemaster.Base.Table.{get}
use cakemaster.Identity.{ClientId, uuid_eq}
use cakemaster.Client.Types.{
  Session, graceful_unmount, heartbeat_expired, server_shutdown, ready, queued, running,
  ClientPhase, cleanup_pending, ClientEntry, DeadlineRecord, Registry, phase_is_active,
}

-- The heap holds a record of the entry's session that comes due no later than the entry.
pub record Dated (ds : List DeadlineRecord) (e : ClientEntry) : Type 0 where
  pub due : DeadlineRecord
  pub held : In due ds
  pub same_client : due.client_id ≡ e.session.client_id
  pub same_generation : due.generation ≡ e.session.generation
  pub in_time : due.expires_at ≤ e.expires_at

-- Where the next maintenance round finds an entry in this phase: by its deadline, or in the queue
-- of cleanups to retry. A running cleanup is found by whoever holds its claim.
abbrev pub Tracked : List DeadlineRecord → List Session → ClientEntry → ClientPhase → Type 0
Tracked ds q e ClientPhase.active = Dated ds e
Tracked ds q e (cleanup_pending reason running) = Unit {0}
Tracked ds q e (cleanup_pending reason queued) = In e.session q
Tracked ds q e (cleanup_pending heartbeat_expired ready) = Dated ds e
Tracked ds q e (cleanup_pending graceful_unmount ready) = ⊥
Tracked ds q e (cleanup_pending server_shutdown ready) = ⊥

pub record EntryInv (r : Registry) (k : ClientId) (e : ClientEntry) : Type 0 where
  pub keyed : e.session.client_id ≡ k
  pub older : e.session.generation < r.next_generation
  pub guarded : e.guard.session ≡ e.session
  pub allocated : e.guard.cell < r.next_guard
  pub flagged : r.guards e.guard.cell ≡ phase_is_active e.phase
  pub tracked : Tracked r.deadlines r.cleanup_ready e e.phase

pub record Inv (r : Registry) : Type 0 where
  pub each : (k : ClientId) (e : ClientEntry) → get k r.entries ≡ some e → EntryInv r k e
  pub apart :
      (j k : ClientId) (e f : ClientEntry)
      → get j r.entries ≡ some e
      → get k r.entries ≡ some f
      → e.guard.cell ≡ f.guard.cell
      → j ≡ k
  pub within : length r.entries ≤ r.config.max_clients
