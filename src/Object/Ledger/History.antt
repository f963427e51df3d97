-- ===== src/Object/Ledger/History.antt =====
-- The calls of the object catalog in any order, each as it happened: src/object/catalog.rs.
-- A refused call changes nothing but what its operation says, and none is a panic.
use cakemaster.Base.{
  ℕ, Bool, Option, none, some, List, [], ◌∷◌, ◌≡◌, inl, inr, refl, sym, arith, subst, ap, Result,
  ok, err, Option-cases, Result-cases, nat_eq, min,
}
use mathlib.Core.Option.{some_inj}
use cakemaster.Base.Table.{get}
use cakemaster.Base.Lists.{length}
use cakemaster.Object.Access.{ObjectPinRequest, ObjectCatalogConfig}
use cakemaster.Object.Identity.{ObjectIdentity, ObjectContent, ObjectCommit, WriteOwner, WriteMode}
use cakemaster.Object.Replicas.{ReplicaSet}
use cakemaster.Object.Catalog.Defs.{Catalog, new_catalog, WriteClaim, WriteTransaction, Published}
use cakemaster.Object.Catalog.Write.{begin_write, drop_claim, abort}
use cakemaster.Object.Catalog.Publish.{stage, commit}
use cakemaster.Object.Catalog.Collect.{
  get_object, remove_with_force, expire_pending, reclaim, request_reclaim, clean_empty_slots,
  expire_soft_pins, evict,
}
use cakemaster.Object.Catalog.Reads.{get_batch}
use cakemaster.Object.Catalog.Revoke.{revoke_pending_owners}
use cakemaster.Object.Catalog.Sweep.{request_liveness_scan}
use cakemaster.Object.Catalog.Scoped.{ReclaimTarget}
use cakemaster.Object.Catalog.Cycle.{Surroundings, collect_step}
use cakemaster.Object.Watermark.Defs.{CollectBudget}
use cakemaster.Object.Ledger.Moves.{
  Aborts, Aborts-Collects, Begins, Cancels, Collects, Commits, Drops, Moved, One, Reclaims,
  Reclaims-Collects, Retires, Retires-Collects, Round, Stages, Stays, Stays-Collects,
}
use cakemaster.Object.Ledger.Revoke.{revoke_pending_owners-Round}
use cakemaster.Object.Ledger.Cycle.{collect_step-Round}
use cakemaster.Object.Ledger.Defs.{Books, books, Move, Step, Trace, Numbered}
use cakemaster.Object.Ledger.Defs as Ledger
use cakemaster.Object.Ledger.Write.{begin_write-Step, drop_claim-One, abort-Step}
use cakemaster.Object.Ledger.Publish.{stage-One, commit-Step}
use cakemaster.Object.Ledger.Collect.{
  Round-among, get_batch-Round, get_object-Round, remove_with_force-Round,
}
use cakemaster.Object.Ledger.Rounds.{
  evict-Round, expire_pending-Round, reclaim-Round, clean_empty_slots-Round, expire_soft_pins-Round,
}

pub data CatalogCall : Type 0 where
  beginning : ObjectIdentity → WriteOwner → WriteMode → ObjectPinRequest → ℕ → CatalogCall
  dropping : (ℕ → Bool) → WriteClaim → CatalogCall
  staging : (ℕ → Bool) → WriteClaim → ObjectContent → ReplicaSet → Bool → Bool → Bool → CatalogCall
  committing : (ℕ → Bool) → WriteTransaction → ObjectCommit → ℕ → CatalogCall
  aborting : (ℕ → Bool) → WriteTransaction → ℕ → CatalogCall
  reading : (ℕ → Bool) → ObjectIdentity → ℕ → CatalogCall
  reading_batch : List (ObjectIdentity × (ℕ → Bool)) → ℕ → CatalogCall
  removing : ObjectIdentity → ℕ → Bool → Option ℕ → CatalogCall
  expiring : ℕ → (ℕ → Bool) → (ℕ → Bool) → ℕ → CatalogCall
  reclaiming : ℕ → ℕ → (ℕ → Bool) → CatalogCall
  requesting : ℕ → CatalogCall
  cleaning unpinning : ℕ → ℕ → CatalogCall
  evicting : ℕ → ℕ → (ℕ → Option ℕ) → CatalogCall
  revoking : (ℕ → Bool) → List WriteOwner → ℕ → CatalogCall
  scanning : CatalogCall
  collecting : Surroundings → ℕ → CollectBudget → List ReclaimTarget → Bool → CatalogCall

-- The catalog after a call that returns a result beside it.
abbrev after {ℓ κ} :
    {E : Type ℓ} {A : Type κ} → Catalog → Option (Result E (A × Catalog)) → Option Catalog
after s none = none
after s (some (err e)) = some s
after s (some (ok (a, s'))) = some s'

abbrev after_abort {ℓ} : {E : Type ℓ} → Catalog → Result E Catalog → Catalog
after_abort s (err e) = s
after_abort s (ok s') = s'

unfoldable pub command_step : CatalogCall → Catalog → Option Catalog
command_step (beginning identity owner mode pins now) s =
    after s (begin_write s identity owner mode pins now)
command_step (dropping live claim) s = some (drop_claim s live claim)
command_step (staging live claim content replicas accounted active still_active) s =
    some (stage s live claim content replicas accounted active still_active).1
command_step (committing live t checksum now) s = after s (commit s live t checksum now)
command_step (aborting live t now) s = some (after_abort s (abort s live t now))
command_step (reading live identity now) s = some (get_object s live identity now).1
command_step (reading_batch lookups now) s = some (get_batch lookups s now).1
command_step (removing identity now force late) s =
    some (remove_with_force s identity now force late).1
command_step (expiring budget live held now) s =
    some (expire_pending (min (length s.pending_candidates) budget) s live held now)
command_step (reclaiming budget now unique) s =
    some (reclaim (min (length s.retired) budget) s now unique)
command_step (requesting bytes) s = some (request_reclaim bytes s)
command_step (cleaning budget now) s =
    some (clean_empty_slots (min (length s.empty_slots) budget) s now)
command_step (unpinning budget now) s =
    some (expire_soft_pins (min (length s.soft_pins) budget) s now)
command_step (evicting now budget late) s = some (evict s now budget late)
command_step (revoking live owners now) s = some (revoke_pending_owners s live owners now).0
command_step scanning s = some (request_liveness_scan s)
command_step (collecting o now budget targets reclaim_first) s =
    some (collect_step s o now budget targets reclaim_first)

unfoldable pub catalog_run : List CatalogCall → Catalog → Option Catalog
unfolding command_step
catalog_run [] s = some s
catalog_run (c ∷ cs) s = elim (command_step c s) [ none ↦ none | some s' ↦ catalog_run cs s' ]

-- What each call does to the ledger.
abbrev pub Refines : CatalogCall → Catalog → Catalog → Type 0
Refines (beginning identity owner mode pins now) = One Begins
Refines (dropping live claim) = One Drops
Refines (staging live claim content replicas accounted active still_active) = One (Stages replicas)
Refines (committing live t checksum now) = One Commits
Refines (aborting live t now) = One (Cancels t.pending.address)
Refines (reading live identity now) = Round Stays
Refines (reading_batch lookups now) = Round Stays
Refines (removing identity now force late) = Round Retires
Refines (expiring budget live held now) = Round Aborts
Refines (reclaiming budget now unique) = Round Reclaims
Refines (requesting bytes) = Round Stays
Refines (cleaning budget now) = Round Stays
Refines (unpinning budget now) = Round Stays
Refines (evicting now budget late) = Round Retires
Refines (revoking live owners now) = Round Aborts
Refines scanning = Round Stays
Refines (collecting o now budget targets reclaim_first) = Round Collects

-- A call that changes nothing, or that makes one of the moves.
after-One {ℓ κ} :
    {E : Type ℓ} {A : Type κ} {P : Move → Type 0} (s : Catalog)
    (o : Option (Result E (A × Catalog))) {s' : Catalog}
    → ((a : A) (t : Catalog) → o ≡ some (ok (a, t)) → One P s t)
    → after s o ≡ some s'
    → One P s s'
after-One s none fine done = absurd (ground (arith, done))
after-One s (some (err e)) fine done = inl (sym (ap books (some_inj.0 done)))
after-One {P = P} s (some (ok (a, t))) fine done =
    subst (λ x. One P s x) (some_inj.0 done) (fine a t refl)

commit-One :
    (s s' : Catalog) (live : ℕ → Bool) (t : WriteTransaction) (checksum : ObjectCommit) (now : ℕ)
    (p : Published)
    → commit s live t checksum now ≡ some (ok (p, s'))
    → One Commits s s'
commit-One s s' live t checksum now p done = elim (commit-Step s s' live t checksum now p done) [
  | inl same ↦ inl (ap books same)
  | inr (v, inl first) ↦ inr (Ledger.publish v, tt, first)
  | inr (v, inr (old, step)) ↦ inr (Ledger.replace v old.version, tt, step)
]

after_abort-One :
    (s : Catalog) (live : ℕ → Bool) (t : WriteTransaction) (now : ℕ)
    → One (Cancels t.pending.address) s (after_abort s (abort s live t now))
after_abort-One s live t now = elim (Result-cases (abort s live t now)) [
  | inl (e, refused) ↦ rw refused (inl refl)
  | inr (s', done) ↦
      let (v, at, step) = abort-Step s s' live t now done in
      rw done (inr (Ledger.abort v, at, step))
]

-- Every call, with any arguments and on every branch, does to the ledger nothing or what the call is for,
-- and the lifecycle counters change as its moves say. A begin makes a claim, and a dropped claim gives it up;
-- a staging stages a version with the given replicas, at the next address, or stages and aborts it, or gives
-- the claim up; a commit publishes or replaces; an abort aborts the version at the transaction's address.
-- Any number of moves: an expiry and a revocation only abort, a removal and an eviction only retire, a
-- reclamation only reclaims; a step of the collector aborts, retires, prunes and reclaims; the other calls
-- leave every weight as it was. The catalog's slots are numbered below its next number.
pub command_step-Refines :
    (c : CatalogCall) (s : Catalog) {s' : Catalog}
    → Numbered (books s)
    → command_step c s ≡ some s'
    → Refines c s s'
unfolding command_step request_reclaim request_liveness_scan
command_step-Refines (beginning identity owner mode pins now) s num done =
    after-One s (begin_write s identity owner mode pins now)
      (λ a t ran. inr (Ledger.claim, tt, begin_write-Step s t identity owner mode pins now num ran))
      done
command_step-Refines (dropping live claim) s num done =
    subst (λ t. One Drops s t) (some_inj.0 done) (drop_claim-One s live claim tt)
command_step-Refines (staging live claim content replicas accounted active still_active) s num
      done =
    subst (λ t. One (Stages replicas) s t) (some_inj.0 done)
      (stage-One s live claim content replicas accounted active still_active)
command_step-Refines (committing live t checksum now) s num done =
    after-One s (commit s live t checksum now) (λ p u ran. commit-One s u live t checksum now p ran)
      done
command_step-Refines (aborting live t now) s num done =
    subst (λ u. One (Cancels t.pending.address) s u) (some_inj.0 done)
      (after_abort-One s live t now)
command_step-Refines (reading live identity now) s num done =
    subst (λ t. Round Stays s t) (some_inj.0 done) ((get_object-Round s live identity now))
command_step-Refines (reading_batch lookups now) s num done =
    subst (λ t. Round Stays s t) (some_inj.0 done) ((get_batch-Round lookups s now))
command_step-Refines (removing identity now force late) s num done =
    subst (λ t. Round Retires s t) (some_inj.0 done)
      ((remove_with_force-Round s identity now force late))
command_step-Refines (expiring budget live held now) s num done =
    subst (λ t. Round Aborts s t) (some_inj.0 done)
      ((expire_pending-Round (min (length s.pending_candidates) budget) s live held now))
command_step-Refines (reclaiming budget now unique) s num done =
    subst (λ t. Round Reclaims s t) (some_inj.0 done)
      ((reclaim-Round (min (length s.retired) budget) s now unique))
command_step-Refines (requesting bytes) s num done =
    subst (λ t. Round Stays s t) (some_inj.0 done) ([], refl, tt)
command_step-Refines (cleaning budget now) s num done =
    subst (λ t. Round Stays s t) (some_inj.0 done)
      ((clean_empty_slots-Round (min (length s.empty_slots) budget) s now))
command_step-Refines (unpinning budget now) s num done =
    subst (λ t. Round Stays s t) (some_inj.0 done)
      ((expire_soft_pins-Round (min (length s.soft_pins) budget) s now))
command_step-Refines (evicting now budget late) s num done =
    subst (λ t. Round Retires s t) (some_inj.0 done) ((evict-Round s now budget late))
command_step-Refines (revoking live owners now) s num done =
    subst (λ t. Round Aborts s t) (some_inj.0 done)
      ((revoke_pending_owners-Round s live owners now))
command_step-Refines scanning s num done =
    subst (λ t. Round Stays s t) (some_inj.0 done) ([], refl, tt)
command_step-Refines (collecting o now budget targets reclaim_first) s num done =
    subst (λ t. Round Collects s t) (some_inj.0 done)
      ((collect_step-Round s o now budget targets reclaim_first))

-- Each of these is one move, or a round of the moves that add nothing.
One-Moved : {P : Move → Type 0} (s s' : Catalog) → One P s s' → Moved s s'
One-Moved s s' (inl same) = inr ([], same, tt)
One-Moved s s' (inr (m, _, step)) = inl (m, step)

Round-Moved :
    {P : Move → Type 0} (s s' : Catalog)
    → ((m : Move) → P m → Collects m)
    → Round P s s'
    → Moved s s'
Round-Moved s s' more round = inr (Round-among s s' more round)

pub Refines-Moved : (c : CatalogCall) (s s' : Catalog) → Refines c s s' → Moved s s'
Refines-Moved (beginning identity owner mode pins now) s s' h = One-Moved s s' h
Refines-Moved (dropping live claim) s s' h = One-Moved s s' h
Refines-Moved (staging live claim content replicas accounted active still_active) s s' h =
    One-Moved s s' h
Refines-Moved (committing live t checksum now) s s' h = One-Moved s s' h
Refines-Moved (aborting live t now) s s' h = One-Moved s s' h
Refines-Moved (reading live identity now) s s' h = Round-Moved s s' Stays-Collects h
Refines-Moved (reading_batch lookups now) s s' h = Round-Moved s s' Stays-Collects h
Refines-Moved (removing identity now force late) s s' h = Round-Moved s s' Retires-Collects h
Refines-Moved (expiring budget live held now) s s' h = Round-Moved s s' Aborts-Collects h
Refines-Moved (reclaiming budget now unique) s s' h = Round-Moved s s' Reclaims-Collects h
Refines-Moved (requesting bytes) s s' h = Round-Moved s s' Stays-Collects h
Refines-Moved (cleaning budget now) s s' h = Round-Moved s s' Stays-Collects h
Refines-Moved (unpinning budget now) s s' h = Round-Moved s s' Stays-Collects h
Refines-Moved (evicting now budget late) s s' h = Round-Moved s s' Retires-Collects h
Refines-Moved (revoking live owners now) s s' h = Round-Moved s s' Aborts-Collects h
Refines-Moved scanning s s' h = Round-Moved s s' Stays-Collects h
Refines-Moved (collecting o now budget targets reclaim_first) s s' h = inr h

pub command_step-Moved :
    (c : CatalogCall) (s : Catalog) {s' : Catalog}
    → Numbered (books s)
    → command_step c s ≡ some s'
    → Moved s s'
command_step-Moved c s {s'} num done = Refines-Moved c s s' (command_step-Refines c s num done)

-- What each move keeps is kept by a call, and by a history of calls.
module _ (P : Books → Type 0) (kept : (b b' : Books) (m : Move) → Step b m b' → P b → P b') where
  Trace-keeps : (b b' : Books) (ms : List Move) → Trace b ms b' → P b → P b'
  Trace-keeps b b' [] same h = subst P (sym same) h
  Trace-keeps b b' (m ∷ ms) (c, step, rest) h = Trace-keeps c b' ms rest (kept b c m step h)

  pub Moved-keeps : (s s' : Catalog) → Moved s s' → P (books s) → P (books s')
  Moved-keeps s s' (inl (m, step)) h = kept (books s) (books s') m step h
  Moved-keeps s s' (inr (ms, trace, _)) h = Trace-keeps (books s) (books s') ms trace h

Step-Numbered : (b b' : Books) (m : Move) → Step b m b' → Numbered b → Numbered b'
Step-Numbered b b' m step = step.numbered

pub command_step-Numbered :
    (c : CatalogCall) (s : Catalog) {s' : Catalog}
    → Numbered (books s)
    → command_step c s ≡ some s'
    → Numbered (books s')
command_step-Numbered c s {s'} num done =
    Moved-keeps Numbered Step-Numbered s s' (command_step-Moved c s num done) num

-- A run that succeeds succeeds at each call.
pub catalog_run-inv :
    (c : CatalogCall) (cs : List CatalogCall) (s : Catalog) {s' : Catalog}
    → catalog_run (c ∷ cs) s ≡ some s'
    → (t : Catalog) × (command_step c s ≡ some t) × (catalog_run cs t ≡ some s')
unfolding catalog_run
catalog_run-inv c cs s done = elim (Option-cases (command_step c s)) [
  | inl panic ↦ absurd (ground (arith, done, panic))
  | inr (t, first) ↦ (t, first, ground (arith, done, first))
]

module _ (P : Books → Type 0) (kept : (b b' : Books) (m : Move) → Step b m b' → P b → P b') where
  pub catalog_run-keeps :
      (cs : List CatalogCall) (s : Catalog) {s' : Catalog}
      → Numbered (books s)
      → P (books s)
      → catalog_run cs s ≡ some s'
      → P (books s')
  unfolding catalog_run
  catalog_run-keeps [] s num h done = subst (λ t. P (books t)) (some_inj.0 done) h
  catalog_run-keeps (c ∷ cs) s num h done =
      let (t, first, rest) = catalog_run-inv c cs s done in
      catalog_run-keeps cs t (command_step-Numbered c s num first)
        (Moved-keeps P kept s t (command_step-Moved c s num first) h) rest

pub new-Numbered :
    (id : ℕ) (config : ObjectCatalogConfig) → Numbered (books (new_catalog id config))
unfolding get
new-Numbered id config k slot found = absurd (ground arith)

pub catalog_run-Numbered :
    (cs : List CatalogCall) (s : Catalog) {s' : Catalog}
    → Numbered (books s)
    → catalog_run cs s ≡ some s'
    → Numbered (books s')
catalog_run-Numbered cs s num done = catalog_run-keeps Numbered Step-Numbered cs s num num done
