-- ===== src/Object/Ledger/Sweep.antt =====
-- The moves of the liveness sweep and of the eviction for debts: src/object/catalog/collector.rs.
use cakemaster.Base.{
  ℕ, zero, suc, ◌-◌, Bool, true, false, Option, some, List, [], ◌≡◌, ◌⊎◌, ◌∙◌, inl, inr, refl,
  arith, nat_eq, subst, eqb, Bool-cases, Option-cases, List-cases, is_some, min,
}
use cakemaster.Base.Lists.{length}
use cakemaster.Base.Table.{get}
use cakemaster.Object.Replicas.{
  ReplicaSet, prune_all_live, prune_all_stale, prune_mixed, prune_invalidated,
  partition_by_liveness, live_part, stale_part, all_live, plain-parts,
}
use cakemaster.Object.Catalog.Defs.{
  Version, Published, Slot, Catalog, GcCandidate, put_slot, upgrade,
}
use cakemaster.Object.Catalog.Queues.{queue_of, with_queue, remaining_of, with_remaining}
use cakemaster.Object.Catalog.Collect.{push_candidate, retire_published}
use cakemaster.Object.Catalog.Sweep.{
  begin_if_requested, pruned_version, pruned_slot, put_pruned, sweep_published, sweep_candidate,
  sweep_queue, retire_invalidated_published,
}
use cakemaster.Object.Catalog.Scoped.{
  Debts, ReclaimTarget, ScopedCandidate, stale, unmatched, matches, classify_scoped_candidate,
  evict_scoped_candidate, ScopedState, all_paid, evict_scoped_queue, start_scoped, evict_scoped,
}
use cakemaster.Object.Ledger.Moves.{Retires, Round, Stays, Sweeps}
use cakemaster.Object.Ledger.Defs.{Books, books, Move, Step, Pruned}
use cakemaster.Object.Ledger.Defs as Ledger
use cakemaster.Object.Ledger.Steps.{put_prune}
use cakemaster.Object.Ledger.Write.{get-upgrade}
use cakemaster.Object.Ledger.Collect.{
  Round-start, Round-one, Round-same, retire_published-Step, push-Round,
}
use cakemaster.Object.Ledger.Rounds.{evict_candidate-Round}

books-with_queue :
    (b : Bool) (q : List GcCandidate) (s : Catalog) → books (with_queue b q s) ≡ books s
books-with_queue true q s = refl
books-with_queue false q s = refl

books-with_remaining : (b : Bool) (n : ℕ) (s : Catalog) → books (with_remaining b n s) ≡ books s
books-with_remaining true n s = refl
books-with_remaining false n s = refl

module _ {P : Move → Type 0} (s t : Catalog) (same : books t ≡ books s) where
  -- The ledger does not read the queues.
  pub Round-unread : Round P s t
  Round-unread = ([], same, tt)

  pub Round-from : (u : Catalog) → Round P t u → Round P s u
  Round-from u round = Round-start s t u Round-unread round

pub begin_if_requested-Round : (s : Catalog) → Round Stays s (begin_if_requested s)
unfolding begin_if_requested
begin_if_requested-Round s = elim (Bool-cases s.liveness_requested) [
  | inl asked ↦ rw asked ([], refl, tt)
  | inr not_asked ↦ rw not_asked ([], refl, tt)
]

-- The answers of `prune_invalidated`: what is taken off is the part that is not live.
pub prune-cases :
    (live : ℕ → Bool) (rs : ReplicaSet)
    → ((prune_invalidated live rs ≡ prune_all_live) ⊎ (prune_invalidated live rs ≡ prune_all_stale))
      ⊎ (prune_invalidated live rs ≡ prune_mixed (stale_part live rs))
unfolding prune_invalidated partition_by_liveness
prune-cases live rs =
    let count = length (live_part live rs) in
    elim (Bool-cases (all_live live rs)) [
      | inl whole ↦ inl (inl (rw whole refl))
      | inr short ↦ elim (Bool-cases (eqb count 0)) [
        | inl empty ↦ inl (inr (rw (short, empty) refl))
        | inr some_left ↦ elim (Bool-cases (eqb count (length rs))) [
          | inl full ↦ inl (inl (rw (short, some_left, full) refl))
          | inr mixed ↦ inr (rw (short, some_left, mixed) refl)
        ]
      ]
    ]

pruned_version-Pruned :
    (live : ℕ → Bool) (v : Version)
    → Pruned (stale_part live v.replicas) v (pruned_version live (stale_part live v.replicas) v)
pruned_version-Pruned live v = (refl, refl, plain-parts live v.replicas)

put_pruned-Step :
    (s : Catalog) (live : ℕ → Bool) (k : ℕ) (slot : Slot) (p : Published)
    → get k s.slots ≡ some slot
    → slot.committed ≡ some p
    → let gone = stale_part live p.version.replicas in
      Step
        (books s)
        (Ledger.prune gone p.version (pruned_version live gone p.version))
        (books (put_pruned s live gone k slot p))
unfolding put_pruned put_slot
put_pruned-Step s live k slot p here full =
    let gone = stale_part live p.version.replicas in
    put_prune (books s) k slot (pruned_slot live gone slot p) here gone full refl refl
      (pruned_version-Pruned live p.version)

sweep_published-Round :
    (s : Catalog) (live : ℕ → Bool) (c : GcCandidate) (b : Bool) (slot : Slot) (p : Published)
    (now : ℕ)
    → get c.slot s.slots ≡ some slot
    → slot.committed ≡ some p
    → Round Sweeps s (sweep_published s live c b slot p now)
unfolding sweep_published
sweep_published-Round s live c b slot p now here full =
    let gone = stale_part live p.version.replicas in
    elim (prune-cases live p.version.replicas) [
      | inl (inl whole) ↦ rw (whole, sweep_published) (push-Round s c b)
      | inl (inr dead) ↦ elim (Bool-cases (is_some slot.active)) [
        | inl busy ↦ rw (dead, sweep_published, busy) (push-Round s c b)
        | inr idle ↦
            rw (dead, sweep_published, idle)
              (Round-one s (retire_published s c.slot slot p.version now) (Ledger.retire p.version)
                tt (retire_published-Step s c.slot slot p now here full))
      ]
      | inr mixed ↦
          let t = put_pruned s live gone c.slot slot p in
          rw (mixed, sweep_published)
            (Round-start s t (push_candidate b c t)
              (Round-one s t (Ledger.prune gone p.version (pruned_version live gone p.version)) tt
                (put_pruned-Step s live c.slot slot p here full))
              (push-Round t c b))
    ]

sweep_candidate-Round :
    (s : Catalog) (live : ℕ → Bool) (c : GcCandidate) (b : Bool) (now : ℕ)
    → Round Sweeps s (sweep_candidate s live c b now)
unfolding sweep_candidate
sweep_candidate-Round s live c b now = elim (Option-cases (upgrade s c.slot)) [
  | inl gone ↦ Round-same s (sweep_candidate s live c b now) (ground (arith, gone))
  | inr (slot, there) ↦ elim (Option-cases slot.committed) [
    | inl empty ↦ Round-same s (sweep_candidate s live c b now) (ground (arith, there, empty))
    | inr (p, full) ↦ elim (Bool-cases (eqb p.version.address c.version)) [
      | inr other ↦
          Round-same s (sweep_candidate s live c b now) (ground (arith, there, full, other))
      | inl mine ↦
          let same : sweep_published s live c b slot p now ≡ sweep_candidate s live c b now =
            ground (arith, there, full, mine) in
          subst (λ t. Round Sweeps s t) same
            (sweep_published-Round s live c b slot p now (get-upgrade s c.slot there) full)
    ]
  ]
]

sweep_queue-Round :
    (n : ℕ) (s : Catalog) (live : ℕ → Bool) (b : Bool) (now : ℕ)
    → Round Sweeps s (sweep_queue n s live b now).0
unfolding sweep_queue
sweep_queue-Round zero s live b now = Round-same s s refl
sweep_queue-Round (suc n) s live b now = elim (List-cases (queue_of b s)) [
  | inl empty ↦
      rw (empty, sweep_queue) (Round-unread s (with_remaining b 0 s) (books-with_remaining b 0 s))
  | inr (c, rest, queue) ↦
      let popped = with_queue b rest s in
      let taken = with_remaining b (remaining_of b s - 1) popped in
      let t = sweep_candidate taken live c b now in
      let unread : books taken ≡ books s =
        books-with_remaining b (remaining_of b s - 1) popped ∙ books-with_queue b rest s in
      rw (queue, sweep_queue)
        (Round-from s taken unread (sweep_queue n t live b now).0 (
          Round-start taken t (sweep_queue n t live b now).0
            (sweep_candidate-Round taken live c b now) (sweep_queue-Round n t live b now)))
]

pub retire_invalidated_published-Round :
    (s : Catalog) (live : ℕ → Bool) (now budget : ℕ)
    → Round Sweeps s (retire_invalidated_published s live now budget).0
unfolding retire_invalidated_published
retire_invalidated_published-Round s live now budget =
    let first = sweep_queue (min s.young_remaining budget) s live false now in
    let rounds = min first.0.protected_remaining (budget - first.1) in
    Round-start s first.0 (retire_invalidated_published s live now budget).0
      (sweep_queue-Round (min s.young_remaining budget) s live false now)
      (sweep_queue-Round rounds first.0 live true now)

pub classified :
    (a : ScopedCandidate)
    → (a ≡ stale) ⊎ (a ≡ unmatched) ⊎ ((v : Version) × (is : List ℕ) × (a ≡ matches v is))
classified stale = inl refl
classified unmatched = inr (inl refl)
classified (matches v is) = inr (inr (v, is, refl))

evict_scoped_candidate-Round :
    (s : Catalog) (debts : Debts) (c : GcCandidate) (b : Bool) (now : ℕ) (late : Option ℕ)
    → Round Retires s (evict_scoped_candidate s debts c b now late).0
unfolding evict_scoped_candidate
evict_scoped_candidate-Round s debts c b now late =
    elim (classified (classify_scoped_candidate s c debts)) [
      | inl gone ↦ rw (gone, evict_scoped_candidate) (Round-same s s refl)
      | inr (inl other) ↦ rw (other, evict_scoped_candidate) (push-Round s c b)
      | inr (inr (v, is, mine)) ↦
          rw (mine, evict_scoped_candidate) (evict_candidate-Round s c b now late)
    ]

evict_scoped_queue-Round :
    (n : ℕ) (t : ScopedState) (b : Bool) (now : ℕ) (late : ℕ → Option ℕ)
    → Round Retires t.catalog (evict_scoped_queue n t b now late).catalog
unfolding evict_scoped_queue
evict_scoped_queue-Round zero t b now late = Round-same t.catalog t.catalog refl
evict_scoped_queue-Round (suc n) t b now late = elim (Bool-cases (all_paid t.debts)) [
  | inl paid ↦ rw paid (Round-same t.catalog t.catalog refl)
  | inr owed ↦ elim (List-cases (queue_of b t.catalog)) [
    | inl empty ↦ rw (owed, empty, evict_scoped_queue) (Round-same t.catalog t.catalog refl)
    | inr (c, rest, queue) ↦
        let popped = with_queue b rest t.catalog in
        let round = evict_scoped_candidate popped t.debts c b now (late c.version) in
        let u : ScopedState = record {
          catalog = round.0;
          debts = round.1;
          scanned = suc t.scanned;
        } in
        rw (owed, queue, evict_scoped_queue)
          (Round-from t.catalog popped (books-with_queue b rest t.catalog)
            (evict_scoped_queue n u b now late).catalog
            (Round-start popped round.0 (evict_scoped_queue n u b now late).catalog
              (evict_scoped_candidate-Round popped t.debts c b now (late c.version))
              (evict_scoped_queue-Round n u b now late)))
  ]
]

pub evict_scoped-Round :
    (s : Catalog) (targets : List ReclaimTarget) (now budget : ℕ) (late : ℕ → Option ℕ)
    → Round Retires s (evict_scoped s targets now budget late).catalog
unfolding evict_scoped
evict_scoped-Round s targets now budget late =
    let start = start_scoped s targets in
    let young = min (length s.young) budget in
    let first = evict_scoped_queue young start false now late in
    let rounds = min (length s.protected) (budget - first.scanned) in
    Round-start s first.catalog (evict_scoped_queue rounds first true now late).catalog
      (evict_scoped_queue-Round young start false now late)
      (evict_scoped_queue-Round rounds first true now late)
