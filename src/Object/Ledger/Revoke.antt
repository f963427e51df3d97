-- ===== src/Object/Ledger/Revoke.antt =====
-- The moves of a revocation: src/object/catalog/collector.rs.
use cakemaster.Base.{
  ℕ, Bool, List, [], ◌∷◌, inl, inr, refl, nat_eq, Bool-cases, Option-cases, List-cases,
}
use cakemaster.Object.Identity.{WriteOwner, write_owner_eq}
use cakemaster.Object.Catalog.Defs.{Catalog, PendingCandidate}
use cakemaster.Object.Catalog.Revoke.{
  session_owners, has_owner, pending_snapshot, requeue, revoke_candidate, revoke_all,
  revoke_pending_owners,
}
use cakemaster.Object.Ledger.Moves.{Aborts, Round}
use cakemaster.Object.Ledger.Collect.{Round-start, Round-same}
use cakemaster.Object.Ledger.Rounds.{abort_pending-Round}
use cakemaster.Object.Ledger.Sweep.{Round-unread, Round-from}

revoke_candidate-Round :
    (s : Catalog) (live : ℕ → Bool) (owners : List WriteOwner) (c : PendingCandidate) (now : ℕ)
    → Round Aborts s (revoke_candidate s live owners c now).0
unfolding revoke_candidate
revoke_candidate-Round s live owners c now = elim (Option-cases (pending_snapshot s c)) [
  | inl gone ↦ rw (gone, revoke_candidate) (Round-same s s refl)
  | inr (owner, there) ↦ elim (Bool-cases (has_owner owner owners)) [
    | inl ended ↦ rw (there, revoke_candidate, ended) (abort_pending-Round s live c now)
    | inr lasts ↦ rw (there, revoke_candidate, lasts) (Round-unread s (requeue c s) refl)
  ]
]

revoke_all-Round :
    (cs : List PendingCandidate) (s : Catalog) (live : ℕ → Bool) (owners : List WriteOwner)
    (now : ℕ)
    → Round Aborts s (revoke_all cs s live owners now).0
unfolding revoke_all
revoke_all-Round [] s live owners now = Round-same s s refl
revoke_all-Round (c ∷ cs) s live owners now =
    let t = (revoke_candidate s live owners c now).0 in
    Round-start s t (revoke_all cs t live owners now).0 (revoke_candidate-Round s live owners c now)
      (revoke_all-Round cs t live owners now)

pub revoke_pending_owners-Round :
    (s : Catalog) (live : ℕ → Bool) (owners : List WriteOwner) (now : ℕ)
    → Round Aborts s (revoke_pending_owners s live owners now).0
unfolding revoke_pending_owners
revoke_pending_owners-Round s live owners now = elim (List-cases (session_owners owners)) [
  | inl none_ended ↦ rw (none_ended, revoke_pending_owners) (Round-same s s refl)
  | inr (o, os, ended) ↦
      let taken : Catalog = record s { pending_candidates = [] } in
      rw (ended, revoke_pending_owners)
        (Round-from s taken refl (revoke_all s.pending_candidates taken live (o ∷ os) now).0
          (revoke_all-Round s.pending_candidates taken live (o ∷ os) now))
]
