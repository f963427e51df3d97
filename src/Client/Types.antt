-- ===== src/Client/Types.antt =====
-- src/client/lifecycle.rs, config.rs and error.rs: the data of the client registry.
-- Ticks are u64 numbers. A guard is an `Arc` of a flag: its clones share the cell that it names.
use cakemaster.Base.{
  ℕ, ◌≡◌, ◌↔◌, Bool, true, false, ◌&&◌, ◌||◌, List, [], ◌∷◌, arith, ltb, eqb, if◌then◌else◌, Result,
  ok, err, Eq, ◌==◌,
}
use cakemaster.Base.Table.{Table}
use cakemaster.Identity.{ClientId, uuid_eq, uuid_lt}

pub record ClientLifecycleConfig : Type 0 where
  pub ttl_ticks : ℕ
  pub max_clients : ℕ
  pub cleanup_scan_budget : ℕ

pub data ClientLifecycleConfigError : Type 0 where
  zero_ttl zero_max_clients zero_cleanup_scan_budget : ClientLifecycleConfigError

unfoldable pub validate : ClientLifecycleConfig → Result ClientLifecycleConfigError (Unit {0})
validate c =
    if eqb c.ttl_ticks 0
    then err zero_ttl
    else if eqb c.max_clients 0
    then err zero_max_clients
    else if eqb c.cleanup_scan_budget 0
    then err zero_cleanup_scan_budget
    else ok tt

pub record Session : Type 0 where
  pub client_id : ClientId
  pub generation : ℕ

abbrev session_beq : Session → Session → Bool
session_beq a b = a.client_id == b.client_id && eqb a.generation b.generation

pub session_beq_iff : (a b : Session) → (session_beq a b ≡ true) ↔ (a ≡ b)
session_beq_iff a b = ((λ h. ground arith), (λ h. ground arith))

instance abbrev pub session_eq : Eq Session
session_eq = record { equal = session_beq; equal_iff = session_beq_iff }

-- `ClientSessionGuard`: `cell` is the address of the shared flag `active`.
pub record Guard : Type 0 where
  pub session : Session
  pub cell : ℕ

pub data ClientState : Type 0 where
  active draining expired : ClientState

pub data CleanupReason : Type 0 where
  graceful_unmount heartbeat_expired server_shutdown : CleanupReason

pub data CleanupClaimState : Type 0 where
  ready queued running : CleanupClaimState

pub data ClientPhase : Type 0 where
  active : ClientPhase
  cleanup_pending : CleanupReason → CleanupClaimState → ClientPhase

pub record ClientEntry : Type 0 where
  pub session : Session
  pub guard : Guard
  pub phase : ClientPhase
  pub expires_at : ℕ

pub record DeadlineRecord : Type 0 where
  pub expires_at : ℕ
  pub client_id : ClientId
  pub generation : ℕ

-- `ClientCleanup`: the right to clean one fenced session.
pub record Cleanup : Type 0 where
  pub session : Session
  pub reason : CleanupReason

pub data ActivateOutcome : Type 0 where
  activated already_active : Session → ActivateOutcome

pub data HeartbeatOutcome : Type 0 where
  alive : Session → HeartbeatOutcome
  need_remount : HeartbeatOutcome

pub data ClientLifecycleError : Type 0 where
  nil_client_id : ClientLifecycleError
  capacity_exceeded : ℕ → ClientLifecycleError
  cleanup_in_progress : ClientState → ClientLifecycleError
  client_not_active cleanup_not_started stale_session generation_exhausted : ClientLifecycleError

-- `RegistryState` under its mutex, with the configuration, and the flags that guards share.
pub record Registry : Type 0 where
  pub config : ClientLifecycleConfig
  pub entries : Table ClientId ClientEntry
  pub deadlines : List DeadlineRecord
  pub cleanup_ready : List Session
  pub next_generation : ℕ
  pub guards : ℕ → Bool
  pub next_guard : ℕ

-- The derived order of `DeadlineRecord`.
abbrev pub deadline_lt : DeadlineRecord → DeadlineRecord → Bool
deadline_lt a b =
    ltb a.expires_at b.expires_at
    || eqb a.expires_at b.expires_at
      && (uuid_lt a.client_id b.client_id
          || a.client_id == b.client_id && ltb a.generation b.generation)

-- `BinaryHeap<Reverse<_>>`, least record first: `push` keeps the order, `peek` and `pop` take the head.
unfoldable pub push_deadline : DeadlineRecord → List DeadlineRecord → List DeadlineRecord
push_deadline d [] = d ∷ []
push_deadline d (x ∷ xs) = if deadline_lt x d then x ∷ push_deadline d xs else d ∷ x ∷ xs

-- `is_active` and `state` of an entry, read off its phase.
abbrev pub phase_is_active : ClientPhase → Bool
phase_is_active ClientPhase.active = true
phase_is_active (cleanup_pending _ _) = false

abbrev pub phase_state : ClientPhase → ClientState
phase_state ClientPhase.active = ClientState.active
phase_state (cleanup_pending heartbeat_expired _) = expired
phase_state (cleanup_pending graceful_unmount _) = draining
phase_state (cleanup_pending server_shutdown _) = draining
