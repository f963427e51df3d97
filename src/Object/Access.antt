-- ===== src/Object/Access.antt =====
-- src/object/config.rs and catalog/version.rs: the lease and the pins of a committed version, and the
-- configuration they come from. Ticks are u64.
use cakemaster.Base.{
  ℕ, Bool, true, false, ◌||◌, Option, none, some, List, [], ◌∷◌, if◌then◌else◌, eqb, ltb, leb,
  saturating_add, Result, ok, err, ◌>>=◌, is_some,
}

pub data SoftPinAction : Type 0 where
  preserve enable disable : SoftPinAction

pub record ObjectPinRequest : Type 0 where
  pub soft_pin_action : SoftPinAction
  pub soft_pin_ttl_ticks : Option ℕ
  pub with_hard_pin : Bool

-- `ResolvedObjectPinRequest`, with the fields of its `ResolvedSoftPinRequest`.
pub record ResolvedPinRequest : Type 0 where
  pub action : SoftPinAction
  pub ttl_ticks : ℕ
  pub hard_pin : Bool

pub record ObjectCatalogConfig : Type 0 where
  pub expected_objects : ℕ
  pub lease_ttl_ticks : ℕ
  pub lease_refresh_ticks : ℕ
  pub pending_timeout_ticks : ℕ
  pub empty_slot_grace_ticks : ℕ
  pub max_retired_bytes : ℕ
  pub default_soft_pin_ttl_ticks : ℕ
  pub max_soft_pin_ttl_ticks : ℕ
  pub allow_evict_soft_pinned_objects : Bool

pub data ObjectCatalogConfigError : Type 0 where
  zero_expected_objects zero_lease_ttl zero_pending_timeout zero_max_retired_bytes :
      ObjectCatalogConfigError
  lease_refresh_exceeds_ttl default_soft_pin_ttl_exceeds_maximum : ℕ → ℕ → ObjectCatalogConfigError
  soft_pin_ttl_requires_enable : ObjectCatalogConfigError
  soft_pin_ttl_exceeds_maximum : ℕ → ℕ → ObjectCatalogConfigError

unfoldable pub validate_config : ObjectCatalogConfig → Result {0, 0} ObjectCatalogConfigError Unit
validate_config c =
    if eqb c.expected_objects 0
    then err zero_expected_objects
    else if eqb c.lease_ttl_ticks 0
    then err zero_lease_ttl
    else if ltb c.lease_ttl_ticks c.lease_refresh_ticks
    then err (lease_refresh_exceeds_ttl c.lease_ttl_ticks c.lease_refresh_ticks)
    else if eqb c.pending_timeout_ticks 0
    then err zero_pending_timeout
    else if eqb c.max_retired_bytes 0
    then err zero_max_retired_bytes
    else if ltb c.max_soft_pin_ttl_ticks c.default_soft_pin_ttl_ticks
    then err
        (default_soft_pin_ttl_exceeds_maximum c.default_soft_pin_ttl_ticks c.max_soft_pin_ttl_ticks)
    else ok tt

abbrev unwrap_or : Option ℕ → ℕ → ℕ
unwrap_or none default = default
unwrap_or (some n) default = n

abbrev pub resolve_ttl :
    ObjectCatalogConfig → SoftPinAction → Option ℕ → Result ObjectCatalogConfigError ℕ
resolve_ttl c preserve ttl = if is_some ttl then err soft_pin_ttl_requires_enable else ok 0
resolve_ttl c disable ttl = if is_some ttl then err soft_pin_ttl_requires_enable else ok 0
resolve_ttl c enable ttl =
    let ticks = unwrap_or ttl c.default_soft_pin_ttl_ticks in
    if ltb c.max_soft_pin_ttl_ticks ticks
    then err (soft_pin_ttl_exceeds_maximum ticks c.max_soft_pin_ttl_ticks)
    else ok ticks

unfoldable pub resolve_pin_request :
    ObjectCatalogConfig → ObjectPinRequest → Result ObjectCatalogConfigError ResolvedPinRequest
resolve_pin_request c request =
    resolve_ttl c request.soft_pin_action request.soft_pin_ttl_ticks >>= (λ ticks. ok (record {
      action = request.soft_pin_action;
      ttl_ticks = ticks;
      hard_pin = request.with_hard_pin;
    }))

-- The words behind the atomics; 0 in `soft_pin_word` is no pin.
pub record AccessControl : Type 0 where
  pub lease_word : ℕ
  pub recent : Bool
  pub soft_pin_word : ℕ
  pub hard_pinned : Bool

-- `soft_pin_until`.
abbrev pub soft_pin_until : AccessControl → Option ℕ
soft_pin_until a = if eqb a.soft_pin_word 0 then none else some a.soft_pin_word

abbrev pub is_soft_pinned : AccessControl → ℕ → Bool
is_soft_pinned a now = elim (soft_pin_until a) [ none ↦ false | some deadline ↦ ltb now deadline ]

abbrev pub is_leased : AccessControl → ℕ → Bool
is_leased a now = ltb now a.lease_word

-- The deadline inherited from the version that is replaced, if it is still to come.
abbrev inherited : Option AccessControl → ℕ → ℕ
inherited none now = 0
inherited (some base) now = elim (soft_pin_until base) [
  | none ↦ 0
  | some deadline ↦ if ltb now deadline then deadline else 0
]

abbrev pub committed_soft_pin : Option AccessControl → ResolvedPinRequest → SoftPinAction → ℕ → ℕ
committed_soft_pin base pins preserve now = inherited base now
committed_soft_pin base pins enable now =
    if eqb pins.ttl_ticks 0 then 0 else saturating_add now pins.ttl_ticks
committed_soft_pin base pins disable now = 0

abbrev pub base_hard_pinned : Option AccessControl → Bool
base_hard_pinned none = false
base_hard_pinned (some base) = base.hard_pinned

unfoldable pub for_commit : Option AccessControl → ResolvedPinRequest → ℕ → AccessControl
for_commit base pins now = record {
  lease_word = 0;
  recent = false;
  soft_pin_word = committed_soft_pin base pins pins.action now;
  hard_pinned = base_hard_pinned base || pins.hard_pin;
}

-- The loop of `acquire_lease` from the value `current` that was read: each member of `observed` is what
-- a failed exchange found in the word, and after them the exchange succeeds. The results are the
-- deadline returned, and the value stored, if one was.
unfoldable pub acquire_loop : ℕ → ℕ → ℕ → List ℕ → ℕ × Option ℕ
acquire_loop refresh_at desired current [] =
    if ltb current refresh_at then (desired, some desired) else (current, none)
acquire_loop refresh_at desired current (seen ∷ observed) =
    let again = acquire_loop refresh_at desired seen observed in
    if ltb current refresh_at then again else (current, none)

unfoldable pub acquire_lease : ℕ → ℕ → ℕ → ℕ → List ℕ → ℕ × Option ℕ
unfolding acquire_loop
acquire_lease now ttl refresh current observed =
    acquire_loop (saturating_add now refresh) (saturating_add now ttl) current observed

-- `record_access` while no other thread touches the version.
unfoldable pub record_access : AccessControl → ℕ → ℕ → ℕ → ℕ × AccessControl
unfolding acquire_lease
record_access a now ttl refresh =
    let (deadline, stored) = acquire_lease now ttl refresh a.lease_word [] in
    (deadline, record a { lease_word = unwrap_or stored a.lease_word; recent = true })

unfoldable pub take_recent : AccessControl → Bool × AccessControl
take_recent a = (a.recent, record a { recent = false })

-- `expire_soft_pin`, with its exchange of the expected deadline.
unfoldable pub expire_soft_pin : AccessControl → ℕ → ℕ → Bool × AccessControl
expire_soft_pin a expected now =
    if leb expected now
    then (if eqb a.soft_pin_word expected
        then (true, record a { soft_pin_word = 0 })
        else (false, a))
    else (false, a)
