-- ===== src/Object/Commits.antt =====
-- src/object/catalog/write.rs: a commit that is sent again after it succeeded.
use cakemaster.Base.{
  ℕ, Bool, true, false, Option, none, some, ◌++◌, [], ◌∷◌, ◌≡◌, ◌∙◌, inl, inr, refl, sym, ap, subst,
  arith, nat_eq, eqb, Bool-cases, Option-cases, ok, err, if◌then◌else◌,
}
use cakemaster.Base.Table.{get, get-insert_self}
use cakemaster.Object.Access.{soft_pin_until}
use cakemaster.Object.Identity.{ObjectCommit, commit_beq}
use cakemaster.Object.Catalog.Defs.{
  Version, Published, GcCandidate, staged, ActiveTransaction, Slot, Catalog, WriteTransaction,
  put_slot, upgrade,
}
use cakemaster.Object.Catalog.Write.{commit_conflict, request_liveness_if}
use cakemaster.Object.Catalog.Publish.{
  publication, enqueue_soft_pin, enqueue_published, retire_replaced, count_commit, published_slot,
  settle, put_published, publish, commit_active, commit_again, commit,
}
use cakemaster.Object.Ledger.Publish.{commit_active-inv}

abbrev SameSlots : Catalog → Catalog → Type 0
SameSlots s t = (t.slots ≡ s.slots) × (t.catalog_id ≡ s.catalog_id)

enqueue_soft_pin-SameSlots :
    (o : Option ℕ) (c : GcCandidate) (s : Catalog) → SameSlots s (enqueue_soft_pin o c s)
enqueue_soft_pin-SameSlots none c s = (refl, refl)
enqueue_soft_pin-SameSlots (some deadline) c s = (refl, refl)

settle-SameSlots :
    (live : ℕ → Bool) (k : ℕ) (p : Published) (old : Option Published) (s : Catalog)
    → SameSlots s (settle live k p old s)
unfolding settle enqueue_published retire_replaced request_liveness_if
settle-SameSlots live k p none s =
    enqueue_soft_pin-SameSlots (soft_pin_until p.access)
      (record { slot = k; version = p.version.address })
      (record (count_commit none p.version s) {
        young = s.young ++ (record { slot = k; version = p.version.address } ∷ []);
      })
settle-SameSlots live k p (some old) s =
    enqueue_soft_pin-SameSlots (soft_pin_until p.access)
      (record { slot = k; version = p.version.address })
      (record (count_commit (some old) p.version s) {
        young = s.young ++ (record { slot = k; version = p.version.address } ∷ []);
      })

-- The slot as the commit left it.
put_published-get :
    (s : Catalog) (live : ℕ → Bool) (k : ℕ) (slot : Slot) (p : Published) (old : Option Published)
    → get k (settle live k p old (put_published s k slot p)).slots ≡ some (published_slot slot p)
unfolding put_published put_slot
put_published-get s live k slot p old =
    ap (get k) (settle-SameSlots live k p old (put_published s k slot p)).0
    ∙ get-insert_self k (published_slot slot p) s.slots

upgrade-dropped :
    (s : Catalog) (k : ℕ) {slot : Slot} → upgrade s k ≡ some slot → slot.dropped ≡ false
upgrade-dropped s k h = elim (Option-cases (get k s.slots)) [
  | inl e ↦ absurd (ground (arith, e, h))
  | inr (old, e) ↦ ground (arith, e, h)
]

module _ (s : Catalog) (live : ℕ → Bool) (t : WriteTransaction) (checksum : ObjectCommit) (now : ℕ)
    (p : Published) (s' : Catalog) (slot : Slot) (active : ActiveTransaction) where
  committed_again :
      upgrade s t.slot ≡ some slot
      → t.pending.origin ≡ t.id
      → eqb t.catalog s.catalog_id ≡ true
      → publish s live t.slot slot active t.pending checksum now ≡ (p, s')
      → (live' : ℕ → Bool) (checksum' : ObjectCommit) (now' : ℕ)
      → commit s' live' t checksum' now'
        ≡ some (if commit_beq checksum checksum' then ok (p, s') else err commit_conflict)
  unfolding publish commit commit_again put_published put_slot
  committed_again there own same done live' checksum' now' =
      let r = publication slot active t.pending checksum now in
      let old = settle live t.slot r slot.committed (put_published s t.slot slot r) in
      let first : r ≡ p = ap (λ (x : Published × Catalog). x.0) done in
      let after : old ≡ s' = ap (λ (x : Published × Catalog). x.1) done in
      let here : get t.slot s'.slots ≡ some (published_slot slot r) =
        ap (λ (c : Catalog). get t.slot c.slots) (sym after)
        ∙ put_published-get s live t.slot slot r slot.committed in
      let ids : s'.catalog_id ≡ s.catalog_id =
        ap (λ (c : Catalog). c.catalog_id) (sym after)
        ∙ (settle-SameSlots live t.slot r slot.committed (put_published s t.slot slot r)).1 in
      let kept : slot.dropped ≡ false = upgrade-dropped s t.slot there in
      let known : eqb t.catalog s'.catalog_id ≡ true = ap (eqb t.catalog) ids ∙ same in
      let found : upgrade s' t.slot ≡ some (published_slot slot r) = ground (arith, here, kept) in
      let mine : eqb t.pending.origin t.id ≡ true = ground (arith, own) in
      elim (Bool-cases (commit_beq checksum checksum')) [
        | inl q ↦ ground (arith, known, found, mine, q, first)
        | inr q ↦ ground (arith, known, found, mine, q)
      ]

  -- A commit that succeeded on the transaction's own staged version, and is sent again with no other call
  -- on the catalog in between: with the same checksum it gives the same version and changes nothing, and
  -- with another one it is a conflict, at any time and whichever of the replicas are still live.
  pub commit_repeats :
      commit s live t checksum now ≡ some (ok (p, s'))
      → upgrade s t.slot ≡ some slot
      → slot.active ≡ some active
      → active.phase ≡ staged t.pending
      → t.pending.origin ≡ t.id
      → (live' : ℕ → Bool) (checksum' : ObjectCommit) (now' : ℕ)
      → commit s' live' t checksum' now'
        ≡ some (if commit_beq checksum checksum' then ok (p, s') else err commit_conflict)
  unfolding commit
  commit_repeats done there busy phase own live' checksum' now' =
      elim (Bool-cases (eqb t.catalog s.catalog_id)) [
        | inr q ↦ absurd (ground (arith, q, done))
        | inl q ↦
            let ran : commit_active s live t slot active checksum now ≡ some (ok (p, s')) =
              ground (arith, q, there, busy, done) in
            let (pending, late, at, published) =
              commit_active-inv s live t slot active checksum now ran in
            let mine : pending ≡ t.pending = ground (arith, late, phase) in
            committed_again there own q
              (subst (λ (v : Version). publish s live t.slot slot active v checksum now ≡ (p, s'))
                mine published)
              live' checksum' now'
      ]
