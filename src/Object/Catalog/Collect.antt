-- ===== src/Object/Catalog/Collect.antt =====
-- src/object/catalog/collector.rs and read.rs: reads, removal, and the steps of the collector.
use cakemaster.Base.{
  ℕ, zero, suc, ◌-◌, Bool, true, false, not, ◌&&◌, ◌||◌, Option, none, some, List, [], ◌∷◌, ◌++◌,
  if◌then◌else◌, eqb, leb, ltb, max, min, Result, ok, err, nat_eq, is_some,
}
use cakemaster.Base.Lists.{length}
use cakemaster.Base.Table.{get, remove}
use cakemaster.Tenant.Account.{retiring, released}
use cakemaster.Object.Access.{
  AccessControl, record_access, is_soft_pinned, is_leased, expire_soft_pin,
}
use cakemaster.Object.Identity.{ObjectIdentity, object_identity_eq}
use cakemaster.Object.Replicas.{all_live, has_live}
use cakemaster.Object.Catalog.Counters.{on_retire_published, on_reclaim, less_one}
use cakemaster.Object.Catalog.Defs.{
  Version, in_memory, Published, GcCandidate, PendingCandidate, SoftPinCandidate,
  EmptySlotCandidate, RetiredObject, claimed, staged, TransactionPhase, ActiveTransaction, Slot,
  Catalog, WriteTransaction, put_slot, upgrade, has_committed, charge_phase,
}
use cakemaster.Object.Catalog.Write.{abort_staged, enqueue_if_empty}

pub data LookupError : Type 0 where
  lookup_not_found lookup_not_ready : LookupError

pub data RemoveError : Type 0 where
  remove_not_found remove_not_ready hard_pinned_object : RemoveError
  leased_until : ℕ → RemoveError

abbrev pub with_access : Slot → Published → AccessControl → Slot
with_access slot p a = record slot { committed = some (record p { access = a }) }

-- `get`, with the time that the lease lasts to. The lease is taken before the replicas are asked.
unfoldable pub read_slot :
    Catalog → (ℕ → Bool) → ℕ → Slot → ℕ → Result LookupError (Published × ℕ) × Catalog
unfolding put_slot
read_slot s live k slot now = elim slot.committed [
  | none ↦ (if is_some slot.active then err lookup_not_ready else err lookup_not_found, s)
  | some p ↦
      (let (deadline, access) =
          record_access p.access now s.config.lease_ttl_ticks s.config.lease_refresh_ticks in
        let s' = put_slot s k (with_access slot p access) in
        if has_live live p.version.replicas
        then (ok (record p { access = access }, deadline), s')
        else (err lookup_not_found, s'))
]

unfoldable pub get_object :
    Catalog → (ℕ → Bool) → ObjectIdentity → ℕ → Result LookupError (Published × ℕ) × Catalog
unfolding read_slot
get_object s live identity now = elim (get identity s.index) [
  | none ↦ (err lookup_not_found, s)
  | some k ↦ elim (get k s.slots) [
    | none ↦ (err lookup_not_found, s)
    | some slot ↦ read_slot s live k slot now
  ]
]

pub data WriteResolution : Type 0 where
  active_write : WriteTransaction → WriteResolution
  committed_object : Published → WriteResolution

abbrev pub resolve_active :
    Catalog → ℕ → ActiveTransaction → TransactionPhase → Result LookupError WriteResolution
resolve_active s k active claimed = err lookup_not_ready
resolve_active s k active (staged pending) =
    ok (
      active_write (record { catalog = s.catalog_id; slot = k; pending = pending; id = active.id }))

unfoldable pub resolve_write : Catalog → ObjectIdentity → Result LookupError WriteResolution
resolve_write s identity = elim (get identity s.index) [
  | none ↦ err lookup_not_found
  | some k ↦ elim (get k s.slots) [
    | none ↦ err lookup_not_found
    | some slot ↦ elim slot.active [
      | some active ↦ resolve_active s k active active.phase
      | none ↦ elim slot.committed [
        | none ↦ err lookup_not_found
        | some p ↦ ok (committed_object p)
      ]
    ]
  ]
]

abbrev pub emptied_slot : Slot → Slot
emptied_slot slot = record slot { committed = none }

unfoldable pub put_retired : Catalog → ℕ → Slot → Version → ℕ → Catalog
unfolding put_slot on_retire_published charge_phase
put_retired s k slot v now = record (put_slot s k (emptied_slot slot)) {
  charges = charge_phase v.address retiring s.charges;
  counters = on_retire_published v.bytes (in_memory v) s.counters;
  retired = s.retired ++ (record { version = v; reclaim_after = now } ∷ []);
}

-- `retire_published` of what the slot pointed to.
unfoldable pub retire_published : Catalog → ℕ → Slot → Version → ℕ → Catalog
unfolding put_retired enqueue_if_empty
retire_published s k slot v now =
    enqueue_if_empty (put_retired s k slot v now) k (emptied_slot slot) now

-- What a reader writes between the checks and the last look at the lease: a new deadline, if any.
abbrev pub late_access : Option ℕ → AccessControl → AccessControl
late_access none a = a
late_access (some deadline) a = record a { lease_word = deadline; recent = true }

unfoldable pub remove_published :
    Catalog → ℕ → Slot → Published → ℕ → Bool → Option ℕ → Result {0, 0} RemoveError Unit × Catalog
unfolding put_slot retire_published
remove_published s k slot p now force late =
    let seen = late_access late p.access in
    if not force && is_leased p.access now
    then (err (leased_until p.access.lease_word), s)
    else if not force && p.access.hard_pinned
    then (err hard_pinned_object, s)
    else if not force && is_leased seen now
    then (err (leased_until seen.lease_word), put_slot s k (with_access slot p seen))
    else (ok tt, retire_published s k slot p.version now)

unfoldable pub remove_with_force :
    Catalog → ObjectIdentity → ℕ → Bool → Option ℕ → Result {0, 0} RemoveError Unit × Catalog
unfolding remove_published
remove_with_force s identity now force late = elim (get identity s.index) [
  | none ↦ (err remove_not_found, s)
  | some k ↦ elim (get k s.slots) [
    | none ↦ (err remove_not_found, s)
    | some slot ↦ if is_some slot.active then (err remove_not_ready, s) else elim slot.committed [
      | none ↦ (err remove_not_found, s)
      | some p ↦ remove_published s k slot p now force late
    ]
  ]
]

abbrev pub push_candidate : Bool → GcCandidate → Catalog → Catalog
push_candidate true c s = record s { protected = s.protected ++ (c ∷ []) }
push_candidate false c s = record s { young = s.young ++ (c ∷ []) }

-- A pin that keeps a version from eviction.
abbrev pub pinned : Catalog → AccessControl → ℕ → Bool
pinned s a now =
    a.hard_pinned || is_soft_pinned a now && not s.config.allow_evict_soft_pinned_objects

unfoldable pub evict_published :
    Catalog → GcCandidate → Bool → Slot → Published → ℕ → Option ℕ → Catalog × ℕ
unfolding put_slot retire_published
evict_published s c from_protected slot p now late =
    let aged : AccessControl = record p.access { recent = false } in
    let seen = late_access late aged in
    if pinned s p.access now
    then (push_candidate from_protected c s, 0)
    else if is_some slot.active
    then (push_candidate true c s, 0)
    else if p.access.recent
    then (push_candidate true c (put_slot s c.slot (with_access slot p aged)), 0)
    else if is_leased p.access now
    then (push_candidate true c s, 0)
    else if seen.recent || is_leased seen now
    then (
      push_candidate true c
          (put_slot s c.slot (with_access slot p (record seen { recent = false }))),
      0,
    )
    else (retire_published s c.slot slot p.version now, p.version.bytes)

-- `evict_candidate`, with the bytes that it retired.
unfoldable pub evict_candidate : Catalog → GcCandidate → Bool → ℕ → Option ℕ → Catalog × ℕ
unfolding evict_published
evict_candidate s c from_protected now late = elim (upgrade s c.slot) [
  | none ↦ (s, 0)
  | some slot ↦ elim slot.committed [
    | none ↦ (s, 0)
    | some p ↦
        if eqb p.version.address c.version
        then evict_published s c from_protected slot p now late
        else (s, 0)
  ]
]

-- `abort_pending` of a candidate.
unfoldable pub abort_pending : Catalog → (ℕ → Bool) → PendingCandidate → ℕ → Catalog × Bool
unfolding abort_staged
abort_pending s live c now = elim (upgrade s c.slot) [
  | none ↦ (s, false)
  | some slot ↦ elim slot.active [
    | none ↦ (s, false)
    | some active ↦ elim active.phase [
      | claimed ↦ (s, false)
      | staged pending ↦
          if eqb active.id c.transaction_id && eqb pending.address c.pending.address
          then (abort_staged s live c.slot slot active pending now, true)
          else (s, false)
    ]
  ]
]

abbrev pub contains : ℕ → List ℕ → Bool
contains a [] = false
contains a (x ∷ xs) = eqb x a || contains a xs

-- One round of `expire_pending`, for the candidate that was taken from the queue. `held` says whether the
-- version at an address is still there for its weak pointer.
unfoldable pub expire_candidate : Catalog → (ℕ → Bool) → (ℕ → Bool) → PendingCandidate → ℕ → Catalog
unfolding abort_pending
expire_candidate s live held c now =
    if not (held c.pending.address)
    then s
    else if contains c.pending.address s.published
    then s
    else if all_live live c.pending.replicas && ltb now c.deadline
    then record s { pending_candidates = s.pending_candidates ++ (c ∷ []) }
    else (abort_pending s live c now).0

unfoldable pub expire_pending : ℕ → Catalog → (ℕ → Bool) → (ℕ → Bool) → ℕ → Catalog
unfolding expire_candidate
expire_pending zero s live held now = s
expire_pending (suc n) s live held now = elim s.pending_candidates [
  | [] ↦ s
  | c ∷ rest ↦
      expire_pending n (expire_candidate (record s { pending_candidates = rest }) live held c now)
        live held now
]

-- One round of `reclaim`. `unique` says whether the queue has the last reference.
unfoldable pub reclaim_one : Catalog → RetiredObject → ℕ → Bool → Catalog
unfolding on_reclaim charge_phase
reclaim_one s r now unique =
    let again : Catalog = record s { retired = s.retired ++ (r ∷ []) } in
    if ltb now r.reclaim_after then again else if not unique then again else record s {
      charges = charge_phase r.version.address released s.charges;
      counters = on_reclaim r.version.bytes (in_memory r.version) s.counters;
      reclaim_requested = s.reclaim_requested - r.version.bytes;
    }

unfoldable pub reclaim : ℕ → Catalog → ℕ → (ℕ → Bool) → Catalog
unfolding reclaim_one
reclaim zero s now unique = s
reclaim (suc n) s now unique = elim s.retired [
  | [] ↦ s
  | r ∷ rest ↦
      reclaim n (reclaim_one (record s { retired = rest }) r now (unique r.version.address)) now
        unique
]

-- One round of `clean_empty_slots`: the slot leaves the index, and with it its last reference.
unfoldable pub clean_candidate : Catalog → EmptySlotCandidate → ℕ → Catalog
unfolding put_slot
clean_candidate s c now =
    if ltb now c.deadline
    then record s { empty_slots = s.empty_slots ++ (c ∷ []) }
    else elim (upgrade s c.slot) [
      | none ↦ s
      | some slot ↦
          if has_committed slot || is_some slot.active then s else elim (get c.identity s.index) [
            | none ↦ s
            | some k ↦
                if eqb k c.slot
                then record (put_slot s c.slot (record slot { dropped = true })) {
                  index = remove c.identity s.index;
                  slot_count = less_one s.slot_count;
                }
                else s
          ]
    ]

unfoldable pub clean_empty_slots : ℕ → Catalog → ℕ → Catalog
unfolding clean_candidate
clean_empty_slots zero s now = s
clean_empty_slots (suc n) s now = elim s.empty_slots [
  | [] ↦ s
  | c ∷ rest ↦ clean_empty_slots n (clean_candidate (record s { empty_slots = rest }) c now) now
]

-- One round of `expire_soft_pins`.
unfoldable pub expire_soft_pin_candidate : Catalog → SoftPinCandidate → ℕ → Catalog
unfolding put_slot
expire_soft_pin_candidate s c now = elim (upgrade s c.candidate.slot) [
  | none ↦ s
  | some slot ↦ elim slot.committed [
    | none ↦ s
    | some p ↦
        if not (eqb p.version.address c.candidate.version)
        then s
        else if ltb now c.deadline
        then record s { soft_pins = s.soft_pins ++ (c ∷ []) }
        else put_slot s c.candidate.slot
            (with_access slot p (expire_soft_pin p.access c.deadline now).1)
  ]
]

unfoldable pub expire_soft_pins : ℕ → Catalog → ℕ → Catalog
unfolding expire_soft_pin_candidate
expire_soft_pins zero s now = s
expire_soft_pins (suc n) s now = elim s.soft_pins [
  | [] ↦ s
  | c ∷ rest ↦
      expire_soft_pins n (expire_soft_pin_candidate (record s { soft_pins = rest }) c now) now
]

unfoldable pub request_reclaim : ℕ → Catalog → Catalog
request_reclaim bytes s = record s { reclaim_requested = max s.reclaim_requested bytes }

abbrev pub reclaim_target_is_covered : Catalog → Bool
reclaim_target_is_covered s = leb s.reclaim_requested s.counters.retired_bytes

-- The rounds of `evict` over one queue, with the budget that is left. `late` is what readers write.
unfoldable pub evict_queue : ℕ → Catalog → Bool → ℕ → (ℕ → Option ℕ) → Catalog
unfolding evict_candidate
evict_queue zero s from_protected now late = s
evict_queue (suc n) s true now late = if reclaim_target_is_covered s then s else elim s.protected [
  | [] ↦ s
  | c ∷ rest ↦
      evict_queue n (evict_candidate (record s { protected = rest }) c true now (late c.version)).0
        true now late
]
evict_queue (suc n) s false now late = if reclaim_target_is_covered s then s else elim s.young [
  | [] ↦ s
  | c ∷ rest ↦
      evict_queue n (evict_candidate (record s { young = rest }) c false now (late c.version)).0
        false now late
]

-- `evict`: the lengths of both queues are read first.
unfoldable pub evict : Catalog → ℕ → ℕ → (ℕ → Option ℕ) → Catalog
unfolding evict_queue
evict s now budget late =
    let young = min (length s.young) budget in
    let s' = evict_queue young s false now late in
    evict_queue (min (length s.protected) (budget - young)) s' true now late
