-- ===== src/Object/Catalog/Revoke.antt =====
-- src/object/catalog/write.rs and collector.rs: the staged writes of sessions that have ended.
use cakemaster.Base.{
  ℕ, suc, Bool, true, false, ◌&&◌, ◌||◌, Option, none, some, List, [], ◌∷◌, ◌++◌, if◌then◌else◌,
  eqb, ◌==◌, nat_eq,
}
use cakemaster.Object.Identity.{WriteOwner, write_owner_eq}
use cakemaster.Object.Catalog.Defs.{claimed, staged, PendingCandidate, Slot, Catalog, upgrade}
use cakemaster.Object.Catalog.Collect.{abort_pending, contains}

-- The owners that are sessions. The set of them is asked for members, and whether it is empty.
abbrev pub session_owners : List WriteOwner → List WriteOwner
session_owners [] = []
session_owners (o ∷ os) =
    if eqb o.session_generation 0 then session_owners os else o ∷ session_owners os

abbrev pub has_owner : WriteOwner → List WriteOwner → Bool
has_owner o [] = false
has_owner o (x ∷ xs) = x == o || has_owner o xs

-- Whose write a candidate is in its slot. A version that is staged there is held by the slot, so its weak
-- pointer has not ended.
abbrev pub staged_owner : PendingCandidate → Slot → Option WriteOwner
staged_owner c slot = elim slot.active [
  | none ↦ none
  | some active ↦ elim active.phase [
    | claimed ↦ none
    | staged pending ↦
        if eqb active.id c.transaction_id && eqb pending.address c.pending.address
        then some active.owner
        else none
  ]
]

-- `pending_snapshot`, as the owner alone.
unfoldable pub pending_snapshot : Catalog → PendingCandidate → Option WriteOwner
pending_snapshot s c =
    if contains c.pending.address s.published
    then none
    else elim (upgrade s c.slot) [ none ↦ none | some slot ↦ staged_owner c slot ]

abbrev pub requeue : PendingCandidate → Catalog → Catalog
requeue c s = record s { pending_candidates = s.pending_candidates ++ (c ∷ []) }

abbrev pub count_if : Bool → ℕ → ℕ
count_if true n = suc n
count_if false n = n

-- One round of the loop over the candidates that were taken off the queue.
unfoldable pub revoke_candidate :
    Catalog → (ℕ → Bool) → List WriteOwner → PendingCandidate → ℕ → Catalog × Bool
unfolding pending_snapshot abort_pending
revoke_candidate s live owners c now = elim (pending_snapshot s c) [
  | none ↦ (s, false)
  | some owner ↦ if has_owner owner owners then abort_pending s live c now else (requeue c s, false)
]

unfoldable pub revoke_all :
    List PendingCandidate → Catalog → (ℕ → Bool) → List WriteOwner → ℕ → Catalog × ℕ
unfolding revoke_candidate
revoke_all [] s live owners now = (s, 0)
revoke_all (c ∷ cs) s live owners now =
    let first = revoke_candidate s live owners c now in
    let rest = revoke_all cs first.0 live owners now in (rest.0, count_if first.1 rest.1)

-- `revoke_pending_owners`, with the number of writes that it aborted.
unfoldable pub revoke_pending_owners : Catalog → (ℕ → Bool) → List WriteOwner → ℕ → Catalog × ℕ
unfolding revoke_all
revoke_pending_owners s live owners now = elim (session_owners owners) [
  | [] ↦ (s, 0)
  | o ∷ os ↦
      revoke_all s.pending_candidates (record s { pending_candidates = [] }) live (o ∷ os) now
]
