-- ===== src/Object/Replicas.antt =====
-- src/object/replica.rs: the replicas of a version. A replica names the segment incarnation whose lease
-- it holds; `live` is what the leases' flags say at the time of the call.
use cakemaster.Base.{
  ℕ, ◌+◌, ◌≤◌, ◌≡◌, inl, inr, arith, Bool-cases, u64_max, Bool, true, false, not, ◌&&◌, ◌||◌,
  Option, none, some, List, [], ◌∷◌, if◌then◌else◌, ltb, eqb, saturating_add, Result, ok, err,
}
use cakemaster.Base.Lists.{length}

pub record Replica : Type 0 where
  pub replica_id : ℕ
  pub incarnation : ℕ
  pub capacity_bytes : ℕ
  pub reserved_bytes : ℕ

abbrev pub ReplicaSet : Type 0
ReplicaSet = List Replica

abbrev pub is_empty : ReplicaSet → Bool
is_empty [] = true
is_empty (r ∷ rs) = false

abbrev pub every_live : (ℕ → Bool) → ReplicaSet → Bool
every_live live [] = true
every_live live (r ∷ rs) = live r.incarnation && every_live live rs

abbrev pub all_live : (ℕ → Bool) → ReplicaSet → Bool
all_live live rs = not (is_empty rs) && every_live live rs

abbrev pub has_live : (ℕ → Bool) → ReplicaSet → Bool
has_live live [] = false
has_live live (r ∷ rs) = live r.incarnation || has_live live rs

abbrev sum_reserved : ℕ → ReplicaSet → ℕ
sum_reserved total [] = total
sum_reserved total (r ∷ rs) = sum_reserved (saturating_add total r.reserved_bytes) rs

-- `ReplicaSet::reserved_bytes`.
abbrev pub total_reserved : ReplicaSet → ℕ
total_reserved rs = sum_reserved 0 rs

-- The same sum with no bound.
abbrev pub plain_reserved : ReplicaSet → ℕ
plain_reserved [] = 0
plain_reserved (r ∷ rs) = r.reserved_bytes + plain_reserved rs

sum_reserved-plain :
    (total : ℕ) (rs : ReplicaSet)
    → total + plain_reserved rs ≤ u64_max
    → sum_reserved total rs ≡ total + plain_reserved rs
sum_reserved-plain total [] h = omega arith
sum_reserved-plain total (r ∷ rs) h =
    ground (arith, h, sum_reserved-plain (saturating_add total r.reserved_bytes) rs)

-- Where the bytes fit, no addition saturates.
pub total_reserved-plain :
    (rs : ReplicaSet) → plain_reserved rs ≤ u64_max → total_reserved rs ≡ plain_reserved rs
total_reserved-plain rs h = omega (arith, sum_reserved-plain 0 rs (omega (arith, h)))

-- The replicas that are live, and the others, each in their order.
abbrev pub live_part : (ℕ → Bool) → ReplicaSet → ReplicaSet
live_part live [] = []
live_part live (r ∷ rs) = if live r.incarnation then r ∷ live_part live rs else live_part live rs

abbrev pub stale_part : (ℕ → Bool) → ReplicaSet → ReplicaSet
stale_part live [] = []
stale_part live (r ∷ rs) = if live r.incarnation then stale_part live rs else r ∷ stale_part live rs

pub plain-parts :
    (live : ℕ → Bool) (rs : ReplicaSet)
    → plain_reserved (live_part live rs) + plain_reserved (stale_part live rs) ≡ plain_reserved rs
plain-parts live [] = omega arith
plain-parts live (r ∷ rs) = elim (Bool-cases (live r.incarnation)) [
  | inl e ↦ rw e (omega (arith, plain-parts live rs))
  | inr e ↦ rw e (omega (arith, plain-parts live rs))
]

-- What `prune_invalidated` answers, with the part that it takes off.
pub data ReplicaPrune : Type 0 where
  prune_all_live prune_all_stale : ReplicaPrune
  prune_mixed : ReplicaSet → ReplicaPrune

unfoldable pub partition_by_liveness : (ℕ → Bool) → ReplicaSet → ReplicaPrune
partition_by_liveness live rs =
    let live_count = length (live_part live rs) in
    if eqb live_count 0
    then prune_all_stale
    else if eqb live_count (length rs)
    then prune_all_live
    else prune_mixed (stale_part live rs)

unfoldable pub prune_invalidated : (ℕ → Bool) → ReplicaSet → ReplicaPrune
unfolding partition_by_liveness
prune_invalidated live rs =
    if all_live live rs then prune_all_live else partition_by_liveness live rs

pub data StageError : Type 0 where
  catalog_dropped claim_lost owner_inactive zero_size no_replicas : StageError
  replica_too_small : ℕ → ℕ → ℕ → StageError
  replica_invalidated : ℕ → StageError

-- The first replica that is too small, if one was found.
abbrev undersized_result : ℕ → Option Replica → Result {0, 0} StageError Unit
undersized_result required none = ok tt
undersized_result required (some r) = err (replica_too_small r.replica_id required r.capacity_bytes)

abbrev first_undersized : ℕ → Option Replica → Replica → Option Replica
first_undersized required (some r) next = some r
first_undersized required none next = if ltb next.capacity_bytes required then some next else none

unfoldable pub check_replicas :
    (ℕ → Bool) → ℕ → Option Replica → ReplicaSet → Result {0, 0} StageError Unit
check_replicas live required undersized [] = undersized_result required undersized
check_replicas live required undersized (r ∷ rs) =
    let rest = check_replicas live required (first_undersized required undersized r) rs in
    if live r.incarnation then rest else err (replica_invalidated r.replica_id)

unfoldable pub validate_stage_replicas : (ℕ → Bool) → ReplicaSet → ℕ → Result {0, 0} StageError Unit
unfolding check_replicas
validate_stage_replicas live rs required =
    if is_empty rs then err no_replicas else check_replicas live required none rs
