-- ===== src/Object/Ledger/Publish.antt =====
-- The moves of staging and commit: src/object/catalog/write.rs.
use cakemaster.Base.{
  ℕ, Bool, true, false, Option, none, some, [], ◌∷◌, ◌++◌, ◌≡◌, ◌⊎◌, inl, inr, refl, arith, nat_eq,
  subst, sym, ap, ◌∙◌, eqb, eqb_iff, Bool-cases, Option-cases, Result-cases, Result, ok, ◌&&◌, not,
  ◌==◌,
}
use mathlib.Core.Option.{some_inj}
use cakemaster.Base.Table.{get, get-insert_self}
use cakemaster.Object.Access.{soft_pin_until}
use cakemaster.Object.Identity.{ObjectContent, ObjectCommit, write_owner_eq}
use cakemaster.Object.Replicas.{
  ReplicaSet, all_live, StageError, claim_lost, owner_inactive, zero_size, validate_stage_replicas,
}
use cakemaster.Object.Catalog.Defs.{
  Version, Published, GcCandidate, claimed, staged, ActiveTransaction, Slot, Catalog, WriteClaim,
  WriteTransaction, put_slot, upgrade,
}
use cakemaster.Object.Catalog.Write.{is_claimed, new_version, staged_slot, put_staged, abort}
use cakemaster.Object.Catalog.Publish.{
  refuse_stage, confirm_owner, stage_active, stage, publication, enqueue_soft_pin,
  enqueue_published, retire_replaced, count_commit, published_slot, settle, put_published, publish,
  commit_staged, commit_active, commit_again, commit,
}
use cakemaster.Object.Ledger.Moves.{One, Stages}
use cakemaster.Object.Ledger.Defs.{Books, books, Step, Numbered}
use cakemaster.Object.Ledger.Defs as Ledger
use cakemaster.Object.Ledger.Steps.{put_publish, put_replace, staged_and_lost}
use cakemaster.Object.Ledger.Write.{
  get-upgrade, abort-inv, abort_active-inv, drop_claim-One, put_staged-Step, is_claimed-inv,
  phase-cases, abort_staged-Step, books-request_liveness_if,
}

books-enqueue_soft_pin :
    (o : Option ℕ) (c : GcCandidate) (s : Catalog) → books (enqueue_soft_pin o c s) ≡ books s
books-enqueue_soft_pin none c s = refl
books-enqueue_soft_pin (some deadline) c s = refl

books-enqueue_published :
    (s : Catalog) (k : ℕ) (p : Published) → books (enqueue_published s k p) ≡ books s
unfolding enqueue_published
books-enqueue_published s k p =
    let candidate : GcCandidate = record { slot = k; version = p.version.address } in
    books-enqueue_soft_pin (soft_pin_until p.access) candidate
      (record s { young = s.young ++ (candidate ∷ []) })

books-settle_new :
    (live : ℕ → Bool) (k : ℕ) (p : Published) (s : Catalog)
    → books (settle live k p none s) ≡ books (count_commit none p.version s)
unfolding settle retire_replaced
books-settle_new live k p s =
    books-request_liveness_if (not (all_live live p.version.replicas))
      (enqueue_published (count_commit none p.version s) k p)
    ∙ books-enqueue_published (count_commit none p.version s) k p

books-retire_replaced :
    (s : Catalog) (old : Published)
    → books (retire_replaced s (some old)) ≡ record (books s) {
      retired =
          (books s).retired
          ++ (record { version = old.version; reclaim_after = old.access.lease_word } ∷ []);
    }
unfolding retire_replaced
books-retire_replaced s old = refl

books-settle_replacing :
    (live : ℕ → Bool) (k : ℕ) (p old : Published) (s : Catalog)
    → books (settle live k p (some old) s) ≡ record (books (count_commit (some old) p.version s)) {
      retired =
          s.retired
          ++ (record { version = old.version; reclaim_after = old.access.lease_word } ∷ []);
    }
unfolding settle
books-settle_replacing live k p old s =
    books-request_liveness_if (not (all_live live p.version.replicas))
      (retire_replaced (enqueue_published (count_commit (some old) p.version s) k p) (some old))
    ∙ books-retire_replaced (enqueue_published (count_commit (some old) p.version s) k p) old
    ∙ ap {A = Books}
        (λ b. record b {
          retired =
              b.retired
              ++ (record { version = old.version; reclaim_after = old.access.lease_word } ∷ []);
        })
        (books-enqueue_published (count_commit (some old) p.version s) k p)

module _ (s : Catalog) (live : ℕ → Bool) (k : ℕ) (slot : Slot) (active : ActiveTransaction)
    (p : Published) (here : get k s.slots ≡ some slot) (busy : slot.active ≡ some active)
    (phase : active.phase ≡ staged p.version) where
  settle-Step_new :
      slot.committed ≡ none
      → Step
          (books s)
          (Ledger.publish p.version)
          (books (settle live k p slot.committed (put_published s k slot p)))
  unfolding put_published put_slot
  settle-Step_new empty = rw empty (
      subst (λ b. Step (books s) (Ledger.publish p.version) b)
        (sym (books-settle_new live k p (put_published s k slot p)))
        (put_publish (books s) k slot (published_slot slot p) here busy phase refl refl empty refl))

  settle-Step_replacing :
      {old : Published}
      → slot.committed ≡ some old
      → Step
          (books s)
          (Ledger.replace p.version old.version)
          (books (settle live k p slot.committed (put_published s k slot p)))
  unfolding put_published put_slot
  settle-Step_replacing {old} full = rw full (
      subst (λ b. Step (books s) (Ledger.replace p.version old.version) b)
        (sym (books-settle_replacing live k p old (put_published s k slot p)))
        (put_replace (books s) k slot (published_slot slot p) here busy phase refl
          old.access.lease_word refl full refl))

-- What a commit of a staged transaction publishes, when it succeeds.
pub commit_active-inv :
    (s : Catalog) (live : ℕ → Bool) (t : WriteTransaction) (slot : Slot)
    (active : ActiveTransaction) (checksum : ObjectCommit) (now : ℕ) {r : Published × Catalog}
    → commit_active s live t slot active checksum now ≡ some (ok r)
    → (pending : Version) × (active.phase ≡ staged pending)
      × (pending.address ≡ t.pending.address)
      × (publish s live t.slot slot active pending checksum now ≡ r)
unfolding commit_active commit_staged
commit_active-inv s live t slot active checksum now done = elim (phase-cases active.phase) [
  | inl early ↦ absurd (ground (arith, done, early))
  | inr (pending, late) ↦ (
    pending,
    late,
    ground (arith, done, late, eqb_iff pending.address t.pending.address),
    ground (arith, done, late),
  )
]

commit_again-inv :
    (s : Catalog) (t : WriteTransaction) (slot : Slot) (checksum : ObjectCommit)
    {r : Published × Catalog}
    → commit_again s t slot checksum ≡ ok r
    → r.1 ≡ s
unfolding commit_again
commit_again-inv s t slot checksum done = elim (Option-cases slot.committed) [
  | inl empty ↦ absurd (ground (arith, done, empty))
  | inr (p, full) ↦ ground (arith, done, full)
]

commit-inv :
    (s : Catalog) (live : ℕ → Bool) (t : WriteTransaction) (checksum : ObjectCommit) (now : ℕ)
    {r : Published × Catalog}
    → commit s live t checksum now ≡ some (ok r)
    → (slot : Slot) × (upgrade s t.slot ≡ some slot)
      × (((active : ActiveTransaction) × (slot.active ≡ some active)
            × (commit_active s live t slot active checksum now ≡ some (ok r)))
          ⊎ (commit_again s t slot checksum ≡ ok r))
unfolding commit
commit-inv s live t checksum now done = elim (Option-cases (upgrade s t.slot)) [
  | inl gone ↦ absurd (ground (arith, done, gone))
  | inr (slot, there) ↦ (
    slot,
    there,
    elim (Option-cases slot.active) [
      | inl idle ↦ inr (ground (arith, done, there, idle))
      | inr (active, busy) ↦ inl (active, busy, ground (arith, done, there, busy))
    ],
  )
]

publish-Step :
    (s : Catalog) (live : ℕ → Bool) (k : ℕ) (slot : Slot) (active : ActiveTransaction)
    (pending : Version) (checksum : ObjectCommit) (now : ℕ)
    → get k s.slots ≡ some slot
    → slot.active ≡ some active
    → active.phase ≡ staged pending
    → (Step
        (books s)
        (Ledger.publish pending)
        (books (publish s live k slot active pending checksum now).1))
      ⊎ ((old : Published) × Step
            (books s)
            (Ledger.replace pending old.version)
            (books (publish s live k slot active pending checksum now).1))
unfolding publish
publish-Step s live k slot active pending checksum now here busy phase =
    let p = publication slot active pending checksum now in
    elim (Option-cases slot.committed) [
      | inl empty ↦ inl (settle-Step_new s live k slot active p here busy phase empty)
      | inr (old, full) ↦
          inr (old, settle-Step_replacing s live k slot active p here busy phase full)
    ]

-- A commit that succeeds publishes its version, first or in place of another, or was done before.
pub commit-Step :
    (s s' : Catalog) (live : ℕ → Bool) (t : WriteTransaction) (checksum : ObjectCommit) (now : ℕ)
    (p : Published)
    → commit s live t checksum now ≡ some (ok (p, s'))
    → (s' ≡ s)
      ⊎ ((pending : Version) × (Step (books s) (Ledger.publish pending) (books s')
            ⊎ ((old : Published) × Step (books s) (Ledger.replace pending old.version) (books s'))))
commit-Step s s' live t checksum now p done =
    let (slot, there, ran) = commit-inv s live t checksum now done in
    elim ran [
      | inr again ↦ inl (commit_again-inv s t slot checksum again)
      | inl (active, busy, first) ↦
          let (pending, phase, _, same) =
            commit_active-inv s live t slot active checksum now first in
          inr (
            pending,
            subst
                (λ r.
                  Step (books s) (Ledger.publish pending) (books r.1)
                  ⊎ ((old : Published) × Step (books s) (Ledger.replace pending old.version)
                        (books r.1)))
                same
                (publish-Step s live t.slot slot active pending checksum now
                  (get-upgrade s t.slot there) busy phase),
          )
    ]

staged_inj : (v w : Version) → staged v ≡ staged w → v ≡ w
staged_inj v w same = ap (λ phase. elim phase [ claimed ↦ v | staged x ↦ x ]) same

lost-Step :
    (s s' : Catalog) (live : ℕ → Bool) (t : WriteTransaction) (slot : Slot)
    (active : ActiveTransaction) (v : Version) (now : ℕ)
    → get t.slot s.slots ≡ some slot
    → slot.active ≡ some active
    → active.phase ≡ staged v
    → abort s live t now ≡ ok s'
    → Step (books s) (Ledger.abort v) (books s')
lost-Step s s' live t slot active v now here busy phase done =
    let (seen, found, there, full, ran) = abort-inv s s' live t now done in
    let (pending, last, _, _, end) = abort_active-inv s s' live t seen found now ran in
    let same_slot : slot ≡ seen = some_inj.0 (sym here ∙ get-upgrade s t.slot there) in
    let same_active : active ≡ found =
      some_inj.0 (sym busy ∙ ap (λ x. x.active) same_slot ∙ full) in
    let same : staged pending ≡ staged v = sym last ∙ sym (ap (λ x. x.phase) same_active) ∙ phase in
    subst (λ x. Step (books s) (Ledger.abort x) (books s')) (staged_inj pending v same)
      (subst (λ r. Step (books s) (Ledger.abort pending) (books r)) end
        (abort_staged-Step s live t.slot seen found pending now (get-upgrade s t.slot there) full
          last))

-- The version that was staged is the one that an abort of its transaction finds.
confirm_owner-Step :
    (s s' : Catalog) (live : ℕ → Bool) (still_active : Bool) (started_at : ℕ) (t : WriteTransaction)
    (slot : Slot) (active : ActiveTransaction) (v : Version)
    → Step (books s) (Ledger.stage v) (books s')
    → get t.slot s'.slots ≡ some slot
    → slot.active ≡ some active
    → active.phase ≡ staged v
    → let end = (confirm_owner live still_active started_at (t, s')).1 in
      Step (books s) (Ledger.stage v) (books end) ⊎ Step (books s) (Ledger.stage_lost v) (books end)
unfolding confirm_owner
confirm_owner-Step s s' live true started_at t slot active v first here busy phase = inl first
confirm_owner-Step s s' live false started_at t slot active v first here busy phase =
    elim (Result-cases (abort s' live t started_at)) [
      | inl (e, refused) ↦ inl (rw refused first)
      | inr (end, lost) ↦ inr (
          rw lost (
            staged_and_lost (books s) (books s') (books end) v first
              (lost-Step s' end live t slot active v started_at here busy phase lost)))
    ]

module _ (s : Catalog) (live : ℕ → Bool) (claim : WriteClaim) (content : ObjectContent)
    (replicas : ReplicaSet) (accounted is_active still_active : Bool) where
  -- A refused stage, or one that found its claim.
  abbrev StageCases : Result StageError WriteTransaction × Catalog → Type 0
  StageCases r =
      ((e : StageError) × (r ≡ refuse_stage s live claim e))
      ⊎ ((slot : Slot) × (active : ActiveTransaction) × (upgrade s claim.slot ≡ some slot)
          × (slot.active ≡ some active)
          × (active.phase ≡ claimed)
          × (r
              ≡ confirm_owner live still_active claim.started_at (
                  put_staged s claim (new_version s claim content replicas) accounted slot active)))

  stage_active-StageCases :
      (slot : Slot) (active : ActiveTransaction)
      → upgrade s claim.slot ≡ some slot
      → slot.active ≡ some active
      → StageCases (stage_active s live claim content replicas accounted still_active slot active)
  unfolding stage_active
  stage_active-StageCases slot active there busy =
      elim (Bool-cases
        (eqb active.id claim.id && active.owner == claim.owner && is_claimed active.phase)) [
          | inl mine ↦ rw mine (
              inr (
                slot,
                active,
                there,
                busy,
                is_claimed-inv active.phase (ground (arith, mine)),
                refl,
              ))
          | inr other ↦ rw other (inl (claim_lost, refl))
        ]

  stage-StageCases :
      StageCases (stage s live claim content replicas accounted is_active still_active)
  unfolding stage
  stage-StageCases = elim (Bool-cases is_active) [
    | inr off ↦ rw off (inl (owner_inactive, refl))
    | inl on ↦ elim (Bool-cases (eqb content.logical_bytes 0)) [
      | inl empty ↦ rw (on, empty) (inl (zero_size, refl))
      | inr size ↦
          elim (Result-cases (validate_stage_replicas live replicas content.logical_bytes)) [
            | inl (e, bad) ↦ rw (on, size, bad) (inl (e, refl))
            | inr (_, good) ↦ elim (Option-cases (upgrade s claim.slot)) [
              | inl gone ↦ rw (on, size, good, gone) (inl (claim_lost, refl))
              | inr (slot, there) ↦ elim (Option-cases slot.active) [
                | inl idle ↦ rw (on, size, good, there, idle) (inl (claim_lost, refl))
                | inr (active, busy) ↦
                    let same : stage_active s live claim content replicas accounted still_active
                          slot active
                        ≡ stage s live claim content replicas accounted is_active still_active =
                      ground (arith, on, size, good, there, busy) in
                    subst StageCases same (stage_active-StageCases slot active there busy)
              ]
            ]
          ]
    ]
  ]

  pub stage-One :
      One
        (Stages replicas)
        s
        (stage s live claim content replicas accounted is_active still_active).1
  unfolding refuse_stage put_staged put_slot
  stage-One = elim stage-StageCases [
    | inl (e, same) ↦
        subst (λ r. One (Stages replicas) s r.1) (sym same) (drop_claim-One s live claim tt)
    | inr (slot, active, there, busy, phase, same) ↦
        let v = new_version s claim content replicas in
        let here = get-upgrade s claim.slot there in
        let (t, s') = put_staged s claim v accounted slot active in
        subst (λ r. One (Stages replicas) s r.1) (sym same)
          (elim (confirm_owner-Step s s' live still_active claim.started_at t
            (staged_slot slot active v) (record active { phase = staged v }) v
            (put_staged-Step s claim content replicas accounted slot active here busy phase)
            (get-insert_self claim.slot (staged_slot slot active v) s.slots) refl refl) [
              | inl kept ↦ inr (Ledger.stage v, refl, kept)
              | inr lost ↦ inr (Ledger.stage_lost v, refl, lost)
            ])
  ]
