-- ===== src/Object/Ledger/Write.antt =====
-- The moves of the write transactions: src/object/catalog/write.rs.
use cakemaster.Base.{
  ℕ, Bool, true, none, some, ◌≡◌, ◌⊎◌, inl, inr, refl, arith, nat_eq, subst, sym, ap, ◌∙◌, eqb,
  eqb_iff, Bool-cases, Option-cases, Result-cases, ok, ◌&&◌,
}
use cakemaster.Base.Table.{get}
use cakemaster.Identity.{string_eq}
use cakemaster.Object.Access.{ObjectPinRequest, ResolvedPinRequest, resolve_pin_request}
use cakemaster.Object.Identity.{
  ObjectIdentity, ObjectContent, WriteOwner, WriteMode, object_identity_eq,
}
use cakemaster.Object.Replicas.{ReplicaSet}
use cakemaster.Object.Catalog.Counters.{on_claim_dropped}
use cakemaster.Object.Catalog.Defs.{
  Version, TransactionPhase, claimed, staged, ActiveTransaction, Slot, Catalog, WriteClaim,
  WriteTransaction, put_slot, upgrade, has_committed,
}
use cakemaster.Object.Catalog.Write.{
  begin_vacant, claimed_slot, claim_slot, begin_claimed, begin_occupied, begin_write_resolved,
  begin_write, enqueue_if_empty, request_liveness_if, base_is_invalid, unclaim, drop_claim,
  is_claimed, new_version, staged_slot, put_staged, retire_aborted_pending, abort_staged,
  abort_active, abort, first_slot,
}
use cakemaster.Object.Ledger.Moves.{One}
use cakemaster.Object.Ledger.Defs.{Books, books, Move, Step, Numbered}
use cakemaster.Object.Ledger.Defs as Ledger
use cakemaster.Object.Ledger.Steps.{put_claim, put_unclaim, put_stage, put_abort, new_claim}

-- The queues are not read by the ledger.
pub books-enqueue_if_empty :
    (s : Catalog) (k : ℕ) (slot : Slot) (now : ℕ) → books (enqueue_if_empty s k slot now) ≡ books s
unfolding enqueue_if_empty
books-enqueue_if_empty s k slot now = elim (Bool-cases (has_committed slot)) [
  | inl e ↦ rw e refl
  | inr e ↦ rw e refl
]

pub books-request_liveness_if : (b : Bool) (s : Catalog) → books (request_liveness_if b s) ≡ books s
unfolding request_liveness_if
books-request_liveness_if b s = refl

-- What an upgraded pointer leads to.
pub get-upgrade :
    (s : Catalog) (k : ℕ) {slot : Slot} → upgrade s k ≡ some slot → get k s.slots ≡ some slot
get-upgrade s k h = elim (Option-cases (get k s.slots)) [
  | inl e ↦ absurd (ground (arith, e, h))
  | inr (old, e) ↦ ground (arith, e, h)
]

get-next_slot : (b : Books) → Numbered b → get b.next_slot b.slots ≡ none
get-next_slot b num = elim (Option-cases (get b.next_slot b.slots)) [
  | inl e ↦ e
  | inr (slot, e) ↦ absurd (omega (arith, num b.next_slot slot e))
]

claim_slot-Step :
    (s : Catalog) (k : ℕ) (slot : Slot) (owner : WriteOwner) (pins : ResolvedPinRequest) (now : ℕ)
    → get k s.slots ≡ some slot
    → slot.active ≡ none
    → Step (books s) Ledger.claim (books (claim_slot s k slot owner pins now).1)
unfolding claim_slot put_slot
claim_slot-Step s k slot owner pins now here idle =
    put_claim (books s) k slot (claimed_slot slot owner pins) here idle refl refl refl

begin_occupied-inv :
    (s : Catalog) (k : ℕ) (slot : Slot) (owner : WriteOwner) (mode : WriteMode)
    (pins : ResolvedPinRequest) (now : ℕ) {r : WriteClaim × Catalog}
    → begin_occupied s k slot owner mode pins now ≡ some (ok r)
    → (slot.active ≡ none) × (claim_slot s k slot owner pins now ≡ r)
unfolding begin_occupied begin_claimed
begin_occupied-inv s k slot owner mode pins now {r} done = ground (arith, done)

begin_vacant-Step :
    (s : Catalog) (identity : ObjectIdentity) (owner : WriteOwner) (pins : ResolvedPinRequest)
    (now : ℕ)
    → Numbered (books s)
    → Step (books s) Ledger.claim (books (begin_vacant s identity owner pins now).1)
unfolding begin_vacant put_slot
begin_vacant-Step s identity owner pins now num =
    new_claim (books s) (first_slot identity owner pins) (get-next_slot (books s) num) refl refl
      refl

-- What a begun write was begun on.
begin_write_resolved-inv :
    (s : Catalog) (identity : ObjectIdentity) (owner : WriteOwner) (mode : WriteMode)
    (pins : ResolvedPinRequest) (now : ℕ) {r : WriteClaim × Catalog}
    → begin_write_resolved s identity owner mode pins now ≡ some (ok r)
    → (begin_vacant s identity owner pins now ≡ r)
      ⊎ ((k : ℕ) × (slot : Slot) × (get k s.slots ≡ some slot)
          × (begin_occupied s k slot owner mode pins now ≡ some (ok r)))
unfolding begin_write_resolved
begin_write_resolved-inv s identity owner mode pins now {r} done =
    elim (Option-cases (get identity s.index)) [
      | inl vacant ↦ inl (ground (arith, done, vacant))
      | inr (k, found) ↦ elim (Option-cases (get k s.slots)) [
        | inl gone ↦ absurd (ground (arith, done, found, gone))
        | inr (slot, here) ↦ inr (k, slot, here, ground (arith, done, found, here))
      ]
    ]

begin_write_resolved-Step :
    (s s' : Catalog) (identity : ObjectIdentity) (owner : WriteOwner) (mode : WriteMode)
    (pins : ResolvedPinRequest) (now : ℕ) {claim : WriteClaim}
    → Numbered (books s)
    → begin_write_resolved s identity owner mode pins now ≡ some (ok (claim, s'))
    → Step (books s) Ledger.claim (books s')
begin_write_resolved-Step s s' identity owner mode pins now num done =
    elim (begin_write_resolved-inv s identity owner mode pins now done) [
      | inl same ↦
          subst (λ r. Step (books s) Ledger.claim (books r.1)) same
            (begin_vacant-Step s identity owner pins now num)
      | inr (k, slot, here, begun) ↦
          let (idle, same) = begin_occupied-inv s k slot owner mode pins now begun in
          subst (λ r. Step (books s) Ledger.claim (books r.1)) same
            (claim_slot-Step s k slot owner pins now here idle)
    ]

pub begin_write-Step :
    (s s' : Catalog) (identity : ObjectIdentity) (owner : WriteOwner) (mode : WriteMode)
    (pins : ObjectPinRequest) (now : ℕ) {claim : WriteClaim}
    → Numbered (books s)
    → begin_write s identity owner mode pins now ≡ some (ok (claim, s'))
    → Step (books s) Ledger.claim (books s')
unfolding begin_write
begin_write-Step s s' identity owner mode pins now {claim} num done =
    elim (Result-cases (resolve_pin_request s.config pins)) [
      | inl (e, refused) ↦ absurd (ground (arith, done, refused))
      | inr (resolved, fine) ↦
          begin_write_resolved-Step s s' identity owner mode resolved now {claim = claim} num
            (ground (arith, done, fine))
    ]

pub is_claimed-inv : (phase : TransactionPhase) → is_claimed phase ≡ true → phase ≡ claimed
is_claimed-inv claimed h = refl
is_claimed-inv (staged v) h = cc

unclaim-Step :
    (s : Catalog) (live : ℕ → Bool) (claim : WriteClaim) (slot : Slot) (active : ActiveTransaction)
    → get claim.slot s.slots ≡ some slot
    → slot.active ≡ some active
    → active.phase ≡ claimed
    → Step (books s) Ledger.unclaim (books (unclaim s live claim slot active))
unfolding unclaim put_slot
unclaim-Step s live claim slot active here busy phase =
    let idle : Slot = record slot { active = none } in
    let s' : Catalog = record (put_slot s claim.slot idle) {
      counters = on_claim_dropped s.counters;
    } in
    subst (λ b. Step (books s) Ledger.unclaim b)
      (sym (
        books-request_liveness_if (base_is_invalid live active)
          (enqueue_if_empty s' claim.slot idle claim.started_at)
        ∙ books-enqueue_if_empty s' claim.slot idle claim.started_at))
      (put_unclaim (books s) claim.slot slot idle here busy phase refl refl)

-- A claim that is dropped leaves the ledger, unless it was lost or used up before.
pub drop_claim-Step :
    (s : Catalog) (live : ℕ → Bool) (claim : WriteClaim)
    → (drop_claim s live claim ≡ s)
      ⊎ Step (books s) Ledger.unclaim (books (drop_claim s live claim))
unfolding drop_claim
drop_claim-Step s live claim = elim (Option-cases (upgrade s claim.slot)) [
  | inl gone ↦ inl (ground (arith, gone))
  | inr (slot, there) ↦ elim (Option-cases slot.active) [
    | inl idle ↦ inl (ground (arith, there, idle))
    | inr (active, busy) ↦ elim (Bool-cases (eqb active.id claim.id && is_claimed active.phase)) [
      | inl mine ↦
          let same : unclaim s live claim slot active ≡ drop_claim s live claim =
            ground (arith, there, busy, mine) in
          inr (
            subst (λ t. Step (books s) Ledger.unclaim (books t)) same
              (unclaim-Step s live claim slot active (get-upgrade s claim.slot there) busy
                (is_claimed-inv active.phase (ground (arith, mine)))))
      | inr other ↦ inl (ground (arith, there, busy, other))
    ]
  ]
]

pub drop_claim-One :
    {P : Move → Type 0} (s : Catalog) (live : ℕ → Bool) (claim : WriteClaim)
    → P Ledger.unclaim
    → One P s (drop_claim s live claim)
drop_claim-One s live claim fine = elim (drop_claim-Step s live claim) [
  | inl same ↦ inl (ap books same)
  | inr step ↦ inr (Ledger.unclaim, fine, step)
]

pub put_staged-Step :
    (s : Catalog) (claim : WriteClaim) (content : ObjectContent) (replicas : ReplicaSet)
    (accounted : Bool) (slot : Slot) (active : ActiveTransaction)
    → get claim.slot s.slots ≡ some slot
    → slot.active ≡ some active
    → active.phase ≡ claimed
    → Step
        (books s)
        (Ledger.stage (new_version s claim content replicas))
        (books (put_staged s claim (new_version s claim content replicas) accounted slot active).1)
unfolding put_staged put_slot
put_staged-Step s claim content replicas accounted slot active here busy phase =
    let pending = new_version s claim content replicas in
    put_stage (books s) claim.slot slot (staged_slot slot active pending) here busy phase refl
      pending refl refl refl refl

pub abort_staged-Step :
    (s : Catalog) (live : ℕ → Bool) (k : ℕ) (slot : Slot) (active : ActiveTransaction)
    (pending : Version) (now : ℕ)
    → get k s.slots ≡ some slot
    → slot.active ≡ some active
    → active.phase ≡ staged pending
    → Step (books s) (Ledger.abort pending) (books (abort_staged s live k slot active pending now))
unfolding abort_staged put_slot retire_aborted_pending
abort_staged-Step s live k slot active pending now here busy phase =
    let idle : Slot = record slot { active = none } in
    let s' = retire_aborted_pending (put_slot s k idle) pending now in
    subst (λ b. Step (books s) (Ledger.abort pending) b)
      (sym (
        books-request_liveness_if (base_is_invalid live active) (enqueue_if_empty s' k idle now)
        ∙ books-enqueue_if_empty s' k idle now))
      (put_abort (books s) k slot idle here busy phase refl now refl)

pub phase-cases :
    (phase : TransactionPhase) → (phase ≡ claimed) ⊎ ((v : Version) × (phase ≡ staged v))
phase-cases claimed = inl refl
phase-cases (staged v) = inr (v, refl)

pub abort_active-inv :
    (s s' : Catalog) (live : ℕ → Bool) (t : WriteTransaction) (slot : Slot)
    (active : ActiveTransaction) (now : ℕ)
    → abort_active s live t slot active now ≡ ok s'
    → (pending : Version) × (active.phase ≡ staged pending)
      × (pending.address ≡ t.pending.address)
      × (active.id ≡ t.id)
      × (abort_staged s live t.slot slot active pending now ≡ s')
unfolding abort_active
abort_active-inv s s' live t slot active now done = elim (phase-cases active.phase) [
  | inl early ↦ absurd (ground (arith, done, early))
  | inr (pending, late) ↦ (
    pending,
    late,
    ground (arith, done, late),
    ground (arith, done, late),
    ground (arith, done, late, eqb_iff active.id t.id, eqb_iff pending.address t.pending.address),
  )
]

-- What an abort that succeeds found in its slot.
pub abort-inv :
    (s s' : Catalog) (live : ℕ → Bool) (t : WriteTransaction) (now : ℕ)
    → abort s live t now ≡ ok s'
    → (slot : Slot) × (active : ActiveTransaction) × (upgrade s t.slot ≡ some slot)
      × (slot.active ≡ some active)
      × (abort_active s live t slot active now ≡ ok s')
unfolding abort
abort-inv s s' live t now done = elim (Option-cases (upgrade s t.slot)) [
  | inl gone ↦ absurd (ground (arith, done, gone))
  | inr (slot, there) ↦ elim (Option-cases slot.active) [
    | inl idle ↦ absurd (ground (arith, done, there, idle))
    | inr (active, busy) ↦ (slot, active, there, busy, ground (arith, done, there, busy))
  ]
]

-- An abort that succeeds retires the version of the transaction.
pub abort-Step :
    (s s' : Catalog) (live : ℕ → Bool) (t : WriteTransaction) (now : ℕ)
    → abort s live t now ≡ ok s'
    → (pending : Version) × (pending.address ≡ t.pending.address)
      × Step (books s) (Ledger.abort pending) (books s')
abort-Step s s' live t now done =
    let (slot, active, there, busy, ran) = abort-inv s s' live t now done in
    let (pending, phase, same, _, end) = abort_active-inv s s' live t slot active now ran in
    (
      pending,
      same,
      subst (λ r. Step (books s) (Ledger.abort pending) (books r)) end
          (abort_staged-Step s live t.slot slot active pending now (get-upgrade s t.slot there) busy
            phase),
    )
