-- ===== src/Object/Ledger/Defs.antt =====
-- The ledger that the object catalog keeps: each version of an object is staged, live or retired, and
-- an operation moves one version on. The ledger forgets slots, queues and order: it has the weight of
-- the versions in each place, for every way to weigh them.
use cakemaster.Base.{
  ℕ, suc, ◌+◌, ◌-◌, ◌≤◌, Option, none, some, List, [], ◌∷◌, ◌≡◌, ◌<◌, if◌then◌else◌,
}
use cakemaster.Base.Lists.{sum_by}
use cakemaster.Base.Table.{Table, get, sum_values}
use cakemaster.Object.Replicas.{ReplicaSet, total_reserved, plain_reserved}
use cakemaster.Object.Catalog.Counters.{
  Counters, on_claim, on_claim_dropped, on_stage, on_commit_new, on_commit_replacing,
  on_abort_pending, on_retire_published, on_prune_published, on_reclaim,
}
use cakemaster.Object.Catalog.Defs.{
  Version, in_memory, Published, TransactionPhase, claimed, staged, ActiveTransaction, Slot,
  Catalog, RetiredObject,
}
use cakemaster.Base.{nat_eq}

abbrev pub phase_claims : TransactionPhase → ℕ
phase_claims claimed = 1
phase_claims (staged v) = 0

abbrev pub phase_staged : (Version → ℕ) → TransactionPhase → ℕ
phase_staged w claimed = 0
phase_staged w (staged v) = w v

abbrev pub active_claims : Option ActiveTransaction → ℕ
active_claims none = 0
active_claims (some active) = phase_claims active.phase

abbrev pub active_staged : (Version → ℕ) → Option ActiveTransaction → ℕ
active_staged w none = 0
active_staged w (some active) = phase_staged w active.phase

abbrev pub committed_live : (Version → ℕ) → Option Published → ℕ
committed_live w none = 0
committed_live w (some p) = w p.version

abbrev pub slot_claims : Slot → ℕ
slot_claims slot = active_claims slot.active

abbrev pub slot_staged : (Version → ℕ) → Slot → ℕ
slot_staged w slot = active_staged w slot.active

abbrev pub slot_live : (Version → ℕ) → Slot → ℕ
slot_live w slot = committed_live w slot.committed

pub record Totals : Type 0 where
  pub claims : ℕ
  pub staged : ℕ
  pub live : ℕ
  pub retired : ℕ

-- What the ledger is read from.
pub record Books : Type 0 where
  pub slots : Table ℕ Slot
  pub retired : List RetiredObject
  pub counters : Counters
  pub next_address : ℕ
  pub next_slot : ℕ

abbrev pub books : Catalog → Books
books s = record {
  slots = s.slots;
  retired = s.retired;
  counters = s.counters;
  next_address = s.next_address;
  next_slot = s.next_slot;
}

abbrev pub totals : (Version → ℕ) → Books → Totals
totals w b = record {
  claims = sum_values slot_claims b.slots;
  staged = sum_values (slot_staged w) b.slots;
  live = sum_values (slot_live w) b.slots;
  retired = sum_by (λ r. w r.version) b.retired;
}

pub data Move : Type 0 where
  stay claim unclaim : Move
  stage publish abort retire reclaim : Version → Move
  -- A version that is staged when its session has ended, and one that replaces another.
  stage_lost : Version → Move
  replace : Version → Version → Move
  -- Dead replicas taken off a committed version, as it was and as it is.
  prune : ReplicaSet → Version → Version → Move

-- What a move does to the weights.
abbrev pub Balanced : (Version → ℕ) → Move → Totals → Totals → Type 0
Balanced w stay a b =
    (b.claims ≡ a.claims) × (b.staged ≡ a.staged) × (b.live ≡ a.live) × (b.retired ≡ a.retired)
Balanced w claim a b =
    (b.claims ≡ suc a.claims) × (b.staged ≡ a.staged) × (b.live ≡ a.live) × (b.retired ≡ a.retired)
Balanced w unclaim a b =
    (suc b.claims ≡ a.claims) × (b.staged ≡ a.staged) × (b.live ≡ a.live) × (b.retired ≡ a.retired)
Balanced w (stage v) a b =
    (suc b.claims ≡ a.claims)
    × (b.staged ≡ a.staged + w v)
    × (b.live ≡ a.live)
    × (b.retired ≡ a.retired)
Balanced w (stage_lost v) a b =
    (suc b.claims ≡ a.claims)
    × (b.staged ≡ a.staged)
    × (b.live ≡ a.live)
    × (b.retired ≡ a.retired + w v)
Balanced w (publish v) a b =
    (b.claims ≡ a.claims)
    × (b.staged + w v ≡ a.staged)
    × (b.live ≡ a.live + w v)
    × (b.retired ≡ a.retired)
Balanced w (replace v old) a b =
    (b.claims ≡ a.claims)
    × (b.staged + w v ≡ a.staged)
    × (b.live + w old ≡ a.live + w v)
    × (b.retired ≡ a.retired + w old)
Balanced w (abort v) a b =
    (b.claims ≡ a.claims)
    × (b.staged + w v ≡ a.staged)
    × (b.live ≡ a.live)
    × (b.retired ≡ a.retired + w v)
Balanced w (retire v) a b =
    (b.claims ≡ a.claims)
    × (b.staged ≡ a.staged)
    × (b.live + w v ≡ a.live)
    × (b.retired ≡ a.retired + w v)
Balanced w (prune gone old v) a b =
    (b.claims ≡ a.claims)
    × (b.staged ≡ a.staged)
    × (b.live + w old ≡ a.live + w v)
    × (b.retired ≡ a.retired)
    × (w old ≤ a.live)
Balanced w (reclaim v) a b =
    (b.claims ≡ a.claims)
    × (b.staged ≡ a.staged)
    × (b.live ≡ a.live)
    × (b.retired + w v ≡ a.retired)

-- The lifecycle counters that a move updates.
abbrev pub count_move : Move → Counters → Counters
count_move stay c = c
count_move claim c = on_claim c
count_move unclaim c = on_claim_dropped c
count_move (stage v) c = on_stage v.bytes c
count_move (stage_lost v) c = on_abort_pending v.bytes (in_memory v) (on_stage v.bytes c)
count_move (publish v) c = on_commit_new v.bytes c
count_move (replace v old) c =
    on_commit_replacing v.bytes old.bytes (if in_memory old then old.bytes else 0) c
count_move (abort v) c = on_abort_pending v.bytes (in_memory v) c
count_move (retire v) c = on_retire_published v.bytes (in_memory v) c
count_move (prune gone old v) c = on_prune_published (total_reserved gone) c
count_move (reclaim v) c = on_reclaim v.bytes (in_memory v) c

-- A version is staged with the bytes of its replicas.
abbrev pub Counted : Version → Type 0
Counted v = v.bytes ≡ total_reserved v.replicas

-- A version that lost replicas is at its address, with fewer bytes.
abbrev pub Pruned : ReplicaSet → Version → Version → Type 0
Pruned gone old v =
    (v.address ≡ old.address)
    × (v.bytes ≡ old.bytes - total_reserved gone)
    × (plain_reserved v.replicas + plain_reserved gone ≡ plain_reserved old.replicas)

-- Only a staging makes an address, and it is the next one.
abbrev pub Addressed : Move → ℕ → ℕ → Type 0
Addressed (stage v) next next' = (v.address ≡ next) × (next' ≡ suc next) × Counted v
Addressed (stage_lost v) next next' = (v.address ≡ next) × (next' ≡ suc next) × Counted v
Addressed (prune gone old v) next next' = (next' ≡ next) × Pruned gone old v
Addressed _ next next' = next' ≡ next

-- The slots are numbered below the next number.
abbrev pub Numbered : Books → Type 0
Numbered b = (k : ℕ) (slot : Slot) → get k b.slots ≡ some slot → k < b.next_slot

pub record Step (b : Books) (move : Move) (b' : Books) : Type 0 where
  pub balanced : (w : Version → ℕ) → Balanced w move (totals w b) (totals w b')
  pub counted : b'.counters ≡ count_move move b.counters
  pub addressed : Addressed move b.next_address b'.next_address
  pub numbered : Numbered b → Numbered b'

abbrev pub Trace : Books → List Move → Books → Type 0
Trace b [] b' = b' ≡ b
Trace b (move ∷ moves) b' = (c : Books) × Step b move c × Trace c moves b'
