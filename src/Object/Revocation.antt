-- ===== src/Object/Revocation.antt =====
-- What a revocation does to the staged writes: src/object/catalog/collector.rs.
pub mod Snapshots
use cakemaster.Base.{
  ℕ, Bool, true, false, ◌&&◌, Option, none, some, List, [], ◌∷◌, ◌≡◌, ◌⊎◌, inl, inr, refl, sym, ◌∙◌,
  ap, arith, eqb, eqb_iff, if◌then◌else◌, nat_eq, Bool-cases, Option-cases, List-cases, subst,
}
use mathlib.Core.Option.{some_inj}
use cakemaster.Base.Lists.{In, In-append_left, In-append_right}
use cakemaster.Base.Table.{get, get-insert}
use cakemaster.Object.Identity.{WriteOwner, write_owner_eq}
use cakemaster.Object.Catalog.Defs.{
  Version, Slot, ActiveTransaction, staged, Catalog, PendingCandidate, put_slot, upgrade,
  has_committed,
}
use cakemaster.Object.Catalog.Write.{
  enqueue_if_empty, retire_aborted_pending, request_liveness_if, abort_staged,
}
use cakemaster.Object.Catalog.Collect.{abort_pending, contains}
use cakemaster.Object.Catalog.Revoke.{
  session_owners, has_owner, pending_snapshot, requeue, revoke_candidate, revoke_all,
  revoke_pending_owners,
}
use cakemaster.Object.Ledger.Write.{get-upgrade, phase-cases}
use cakemaster.Object.Revocation.Snapshots.{
  surviving, surviving-surviving, snapshot-same, abort_pending-snapshot, abort_pending-queue,
  surviving-nobody, snapshot-one_owner,
}

module _ (live : ℕ → Bool) (owners : List WriteOwner) (now : ℕ) where
  -- A staged write stays as it is, or is gone where its session has ended.
  abbrev StaysOrSurvives : Catalog → Catalog → PendingCandidate → Type 0
  StaysOrSurvives s t d =
      (pending_snapshot t d ≡ pending_snapshot s d)
      ⊎ (pending_snapshot t d ≡ surviving owners (pending_snapshot s d))

  ended-StaysOrSurvives :
      (s : Catalog) (c d : PendingCandidate) (o : WriteOwner)
      → pending_snapshot s c ≡ some o
      → has_owner o owners ≡ true
      → StaysOrSurvives s (abort_pending s live c now).0 d
  ended-StaysOrSurvives s c d o there ended =
      let after = abort_pending-snapshot s live c d now there in
      elim (Bool-cases (eqb c.slot d.slot)) [
        | inr apart ↦ inl (ground (arith, after, apart))
        | inl same ↦ elim (Option-cases (pending_snapshot s d)) [
          | inl none_there ↦ inl (ground (arith, after, same, none_there))
          | inr (p, also) ↦
              let lost : has_owner p owners ≡ true =
                subst (λ x. has_owner x owners ≡ true)
                  (sym (snapshot-one_owner s c d there also same)) ended in
              inr (ground (arith, after, same, also, lost))
        ]
      ]

  revoke_candidate-StaysOrSurvives :
      (s : Catalog) (c d : PendingCandidate)
      → StaysOrSurvives s (revoke_candidate s live owners c now).0 d
  unfolding revoke_candidate
  revoke_candidate-StaysOrSurvives s c d = elim (Option-cases (pending_snapshot s c)) [
    | inl gone ↦ rw (gone, revoke_candidate) (inl refl)
    | inr (o, there) ↦ elim (Bool-cases (has_owner o owners)) [
      | inl ended ↦ rw (there, revoke_candidate, ended) (ended-StaysOrSurvives s c d o there ended)
      | inr lasts ↦
          rw (there, revoke_candidate, lasts) (inl (snapshot-same s (requeue c s) d refl refl))
    ]
  ]

  revoke_candidate-own :
      (s : Catalog) (c : PendingCandidate)
      → pending_snapshot (revoke_candidate s live owners c now).0 c
        ≡ surviving owners (pending_snapshot s c)
  unfolding revoke_candidate
  revoke_candidate-own s c = elim (Option-cases (pending_snapshot s c)) [
    | inl gone ↦ ground (arith, gone)
    | inr (o, there) ↦ elim (Bool-cases (has_owner o owners)) [
      | inl ended ↦
          let after = abort_pending-snapshot s live c c now there in
          let self : eqb c.slot c.slot ≡ true = (eqb_iff c.slot c.slot).1 refl in
          ground (arith, there, ended, after, self)
      | inr lasts ↦
          let after = snapshot-same s (requeue c s) c refl refl in
          ground (arith, there, lasts, after)
    ]
  ]

  -- A write that stays or survives, and then does so again.
  StaysOrSurvives-trans :
      (s t u : Catalog) (d : PendingCandidate)
      → StaysOrSurvives s t d
      → StaysOrSurvives t u d
      → StaysOrSurvives s u d
  StaysOrSurvives-trans s t u d (inl a) (inl b) = inl (b ∙ a)
  StaysOrSurvives-trans s t u d (inl a) (inr b) = inr (b ∙ ap (surviving owners) a)
  StaysOrSurvives-trans s t u d (inr a) (inl b) = inr (b ∙ a)
  StaysOrSurvives-trans s t u d (inr a) (inr b) =
      inr (b ∙ ap (surviving owners) a ∙ surviving-surviving owners (pending_snapshot s d))

  -- What survived once stays.
  survived-stays :
      (s t u : Catalog) (d : PendingCandidate)
      → pending_snapshot t d ≡ surviving owners (pending_snapshot s d)
      → StaysOrSurvives t u d
      → pending_snapshot u d ≡ surviving owners (pending_snapshot s d)
  survived-stays s t u d first (inl b) = b ∙ first
  survived-stays s t u d first (inr b) =
      b ∙ ap (surviving owners) first ∙ surviving-surviving owners (pending_snapshot s d)

  stays-survived :
      (s t u : Catalog) (d : PendingCandidate)
      → StaysOrSurvives s t d
      → pending_snapshot u d ≡ surviving owners (pending_snapshot t d)
      → pending_snapshot u d ≡ surviving owners (pending_snapshot s d)
  stays-survived s t u d (inl a) b = b ∙ ap (surviving owners) a
  stays-survived s t u d (inr a) b =
      b ∙ ap (surviving owners) a ∙ surviving-surviving owners (pending_snapshot s d)

  revoke_all-StaysOrSurvives :
      (cs : List PendingCandidate) (s : Catalog) (d : PendingCandidate)
      → StaysOrSurvives s (revoke_all cs s live owners now).0 d
  unfolding revoke_all
  revoke_all-StaysOrSurvives [] s d = inl refl
  revoke_all-StaysOrSurvives (c ∷ cs) s d =
      let t = (revoke_candidate s live owners c now).0 in
      StaysOrSurvives-trans s t (revoke_all cs t live owners now).0 d
        (revoke_candidate-StaysOrSurvives s c d) (revoke_all-StaysOrSurvives cs t d)

  revoke_all-own :
      (cs : List PendingCandidate) (s : Catalog) (d : PendingCandidate)
      → In d cs
      → pending_snapshot (revoke_all cs s live owners now).0 d
        ≡ surviving owners (pending_snapshot s d)
  unfolding revoke_all
  revoke_all-own [] s d member = absurd member
  revoke_all-own (c ∷ cs) s d (inl same) =
      let t = (revoke_candidate s live owners c now).0 in
      let first : pending_snapshot t d ≡ surviving owners (pending_snapshot s d) =
        subst (λ x. pending_snapshot t x ≡ surviving owners (pending_snapshot s x)) same
          (revoke_candidate-own s c) in
      survived-stays s t (revoke_all cs t live owners now).0 d first
        (revoke_all-StaysOrSurvives cs t d)
  revoke_all-own (c ∷ cs) s d (inr later) =
      let t = (revoke_candidate s live owners c now).0 in
      stays-survived s t (revoke_all cs t live owners now).0 d
        (revoke_candidate-StaysOrSurvives s c d) (revoke_all-own cs t d later)

  revoke_candidate-queue :
      (s : Catalog) (c d : PendingCandidate)
      → In d s.pending_candidates
      → In d (revoke_candidate s live owners c now).0.pending_candidates
  unfolding revoke_candidate
  revoke_candidate-queue s c d member = elim (Option-cases (pending_snapshot s c)) [
    | inl gone ↦ rw (gone, revoke_candidate) member
    | inr (o, there) ↦ elim (Bool-cases (has_owner o owners)) [
      | inl ended ↦
          rw (there, revoke_candidate, ended)
            (subst (λ q. In d q) (sym (abort_pending-queue s live c now there)) member)
      | inr lasts ↦
          rw (there, revoke_candidate, lasts)
            (In-append_left d s.pending_candidates (c ∷ []) member)
    ]
  ]

  revoke_all-queue :
      (cs : List PendingCandidate) (s : Catalog) (d : PendingCandidate)
      → In d s.pending_candidates
      → In d (revoke_all cs s live owners now).0.pending_candidates
  unfolding revoke_all
  revoke_all-queue [] s d member = member
  revoke_all-queue (c ∷ cs) s d member =
      revoke_all-queue cs (revoke_candidate s live owners c now).0 d
        (revoke_candidate-queue s c d member)

  -- A write whose session lasts, and its candidate in the queue.
  module _ (o : WriteOwner) (lasts : has_owner o owners ≡ false) where
    still_staged :
        (s t : Catalog) (d : PendingCandidate)
        → pending_snapshot s d ≡ some o
        → StaysOrSurvives s t d
        → pending_snapshot t d ≡ some o
    still_staged s t d there (inl a) = a ∙ there
    still_staged s t d there (inr a) = ground (arith, a, there, lasts)

    requeued :
        (s : Catalog) (c : PendingCandidate)
        → pending_snapshot s c ≡ some o
        → In c (revoke_candidate s live owners c now).0.pending_candidates
    unfolding revoke_candidate
    requeued s c there =
        rw (there, revoke_candidate, lasts)
          (In-append_right c s.pending_candidates (c ∷ []) (inl refl))

    revoke_all-requeues :
        (cs : List PendingCandidate) (s : Catalog) (d : PendingCandidate)
        → In d cs
        → pending_snapshot s d ≡ some o
        → In d (revoke_all cs s live owners now).0.pending_candidates
    unfolding revoke_all
    revoke_all-requeues [] s d member there = absurd member
    revoke_all-requeues (c ∷ cs) s d (inl same) there =
        let t = (revoke_candidate s live owners c now).0 in
        let first : In d t.pending_candidates =
          subst
            (λ x.
              In x (revoke_candidate s live owners x now).0.pending_candidates
              → In x t.pending_candidates)
            same (λ h. h) (requeued s d there) in
        revoke_all-queue cs t d first
    revoke_all-requeues (c ∷ cs) s d (inr later) there =
        let t = (revoke_candidate s live owners c now).0 in
        revoke_all-requeues cs t d later
          (still_staged s t d there (revoke_candidate-StaysOrSurvives s c d))

-- A revocation takes away every queued staged write of a session in the list, and no other: a queued
-- candidate is afterwards the staged write that it was, unless its owner is a session in the list, and then
-- it is none. A candidate of another owner is still in the queue.
pub revoke_pending_owners_lem :
    (s : Catalog) (live : ℕ → Bool) (owners : List WriteOwner) (now : ℕ) (d : PendingCandidate)
    → In d s.pending_candidates
    → let t = (revoke_pending_owners s live owners now).0 in
      (pending_snapshot t d ≡ surviving (session_owners owners) (pending_snapshot s d))
      × ((o : WriteOwner)
          → pending_snapshot s d ≡ some o
          → has_owner o (session_owners owners) ≡ false
          → In d t.pending_candidates)
unfolding revoke_pending_owners
revoke_pending_owners_lem s live owners now d member = elim (List-cases (session_owners owners)) [
  | inl nobody ↦
      rw (nobody, revoke_pending_owners)
        (sym (surviving-nobody (pending_snapshot s d)), λ o there lasts. member)
  | inr (x, xs, ended) ↦
      let taken : Catalog = record s { pending_candidates = [] } in
      let before = snapshot-same s taken d refl refl in
      rw (ended, revoke_pending_owners)
        (
          revoke_all-own live (x ∷ xs) now s.pending_candidates taken d member
              ∙ ap (surviving (x ∷ xs)) before,
          λ o there lasts.
              revoke_all-requeues live (x ∷ xs) now o lasts s.pending_candidates taken d member
                (before ∙ there),
        )
]
