-- ===== src/Object/Ledger/Moves.antt =====
-- The moves that the calls of src/object/catalog.rs may make, by what a call is for.
use cakemaster.Base.{ℕ, ◌≡◌, ◌⊎◌, List}
use cakemaster.Base.Lists.{All}
use cakemaster.Object.Replicas.{ReplicaSet}
use cakemaster.Object.Catalog.Defs.{Catalog}
use cakemaster.Object.Ledger.Defs.{
  books, Move, Step, Trace, stay, claim, unclaim, stage, publish, abort, retire, reclaim,
  stage_lost, replace, prune,
}

-- The moves that a call may make, by what it is for. A slot or the queue that a `stay` touches weighs the
-- same after it.
abbrev pub Begins : Move → Type 0
Begins claim = Unit
Begins _ = ⊥

abbrev pub Drops : Move → Type 0
Drops unclaim = Unit
Drops _ = ⊥

-- The staged version has the replicas that were given; a refusal gives up the claim.
abbrev pub Stages : ReplicaSet → Move → Type 0
Stages replicas (stage v) = v.replicas ≡ replicas
Stages replicas (stage_lost v) = v.replicas ≡ replicas
Stages replicas unclaim = Unit
Stages replicas _ = ⊥

abbrev pub Commits : Move → Type 0
Commits (publish v) = Unit
Commits (replace v old) = Unit
Commits _ = ⊥

-- The abort of the version at the address.
abbrev pub Cancels : ℕ → Move → Type 0
Cancels address (abort v) = v.address ≡ address
Cancels address _ = ⊥

abbrev pub Stays : Move → Type 0
Stays stay = Unit
Stays _ = ⊥

abbrev pub Retires : Move → Type 0
Retires stay = Unit
Retires (retire v) = Unit
Retires _ = ⊥

abbrev pub Aborts : Move → Type 0
Aborts stay = Unit
Aborts (abort v) = Unit
Aborts _ = ⊥

abbrev pub Reclaims : Move → Type 0
Reclaims stay = Unit
Reclaims (reclaim v) = Unit
Reclaims _ = ⊥

abbrev pub Sweeps : Move → Type 0
Sweeps stay = Unit
Sweeps (retire v) = Unit
Sweeps (prune gone old v) = Unit
Sweeps _ = ⊥

-- The moves of a whole step of the collector, none of which adds a version or a claim, or publishes.
abbrev pub Collects : Move → Type 0
Collects stay = Unit
Collects (abort v) = Unit
Collects (retire v) = Unit
Collects (prune gone old v) = Unit
Collects (reclaim v) = Unit
Collects _ = ⊥

-- No change of the ledger, or one of the moves.
abbrev pub One : (Move → Type 0) → Catalog → Catalog → Type 0
One P s s' = (books s' ≡ books s) ⊎ ((move : Move) × P move × Step (books s) move (books s'))

-- Any number of the moves.
abbrev pub Round : (Move → Type 0) → Catalog → Catalog → Type 0
Round P s s' = (moves : List Move) × Trace (books s) moves (books s') × All P moves

-- One move, or a round of the collector.
abbrev pub Moved : Catalog → Catalog → Type 0
Moved s s' = ((move : Move) × Step (books s) move (books s')) ⊎ Round Collects s s'

-- A step of the collector may do what these may.
pub Stays-Collects : (m : Move) → Stays m → Collects m
Stays-Collects stay h = h
Stays-Collects claim h = absurd h
Stays-Collects unclaim h = absurd h
Stays-Collects (stage v) h = absurd h
Stays-Collects (publish v) h = absurd h
Stays-Collects (abort v) h = absurd h
Stays-Collects (retire v) h = absurd h
Stays-Collects (reclaim v) h = absurd h
Stays-Collects (stage_lost v) h = absurd h
Stays-Collects (replace v old) h = absurd h
Stays-Collects (prune gone old v) h = absurd h

pub Aborts-Collects : (m : Move) → Aborts m → Collects m
Aborts-Collects stay h = h
Aborts-Collects claim h = absurd h
Aborts-Collects unclaim h = absurd h
Aborts-Collects (stage v) h = absurd h
Aborts-Collects (publish v) h = absurd h
Aborts-Collects (abort v) h = h
Aborts-Collects (retire v) h = absurd h
Aborts-Collects (reclaim v) h = absurd h
Aborts-Collects (stage_lost v) h = absurd h
Aborts-Collects (replace v old) h = absurd h
Aborts-Collects (prune gone old v) h = absurd h

pub Retires-Collects : (m : Move) → Retires m → Collects m
Retires-Collects stay h = h
Retires-Collects claim h = absurd h
Retires-Collects unclaim h = absurd h
Retires-Collects (stage v) h = absurd h
Retires-Collects (publish v) h = absurd h
Retires-Collects (abort v) h = absurd h
Retires-Collects (retire v) h = h
Retires-Collects (reclaim v) h = absurd h
Retires-Collects (stage_lost v) h = absurd h
Retires-Collects (replace v old) h = absurd h
Retires-Collects (prune gone old v) h = absurd h

pub Reclaims-Collects : (m : Move) → Reclaims m → Collects m
Reclaims-Collects stay h = h
Reclaims-Collects claim h = absurd h
Reclaims-Collects unclaim h = absurd h
Reclaims-Collects (stage v) h = absurd h
Reclaims-Collects (publish v) h = absurd h
Reclaims-Collects (abort v) h = absurd h
Reclaims-Collects (retire v) h = absurd h
Reclaims-Collects (reclaim v) h = h
Reclaims-Collects (stage_lost v) h = absurd h
Reclaims-Collects (replace v old) h = absurd h
Reclaims-Collects (prune gone old v) h = absurd h

pub Sweeps-Collects : (m : Move) → Sweeps m → Collects m
Sweeps-Collects stay h = h
Sweeps-Collects claim h = absurd h
Sweeps-Collects unclaim h = absurd h
Sweeps-Collects (stage v) h = absurd h
Sweeps-Collects (publish v) h = absurd h
Sweeps-Collects (abort v) h = absurd h
Sweeps-Collects (retire v) h = h
Sweeps-Collects (reclaim v) h = absurd h
Sweeps-Collects (stage_lost v) h = absurd h
Sweeps-Collects (replace v old) h = absurd h
Sweeps-Collects (prune gone old v) h = h
