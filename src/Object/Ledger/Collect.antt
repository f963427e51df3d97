-- ===== src/Object/Ledger/Collect.antt =====
-- The moves of reads, removal and the collector: src/object/catalog/collector.rs and read.rs.
use cakemaster.Base.{
  ℕ, Bool, true, false, not, ◌&&◌, ◌||◌, Option, some, List, [], ◌∷◌, ◌++◌, ◌≡◌, inl, inr, refl,
  arith, nat_eq, subst, sym, ap, Bool-cases, Option-cases, is_some,
}
use cakemaster.Base.Lists.{All-append, All-mono}
use cakemaster.Base.Table.{get}
use cakemaster.Object.Access.{AccessControl, record_access, is_leased}
use cakemaster.Object.Identity.{ObjectIdentity, object_identity_eq}
use cakemaster.Object.Catalog.Defs.{Published, Slot, Catalog, GcCandidate, put_slot}
use cakemaster.Object.Catalog.Collect.{
  with_access, read_slot, get_object, emptied_slot, put_retired, retire_published, late_access,
  remove_published, remove_with_force, push_candidate, pinned, evict_published,
}
use cakemaster.Object.Catalog.Reads.{get_batch}
use cakemaster.Object.Ledger.Moves.{Retires, Round, Stays}
use cakemaster.Object.Ledger.Defs.{Books, books, Move, Step, Trace}
use cakemaster.Object.Ledger.Defs as Ledger
use cakemaster.Object.Ledger.Steps.{put_stay, put_retire}
use cakemaster.Object.Ledger.Write.{books-enqueue_if_empty}

Trace-append :
    (a b c : Books) (ms ns : List Move) → Trace a ms b → Trace b ns c → Trace a (ms ++ ns) c
Trace-append a b c [] ns first second = subst (λ x. Trace x ns c) first second
Trace-append a b c (m ∷ ms) ns (d, step, rest) second =
    (d, step, Trace-append d b c ms ns rest second)

-- Some moves of a round are among more.
pub Round-among :
    {P Q : Move → Type 0} (s t : Catalog) → ((m : Move) → P m → Q m) → Round P s t → Round Q s t
Round-among {P} {Q} s t more (ms, trace, fine) = (ms, trace, All-mono more ms fine)

module _ {P : Move → Type 0} (s t : Catalog) where
  pub Round-start : (u : Catalog) → Round P s t → Round P t u → Round P s u
  Round-start u (ms, first, fine) (ns, second, good) = (
    ms ++ ns,
    Trace-append (books s) (books t) (books u) ms ns first second,
    All-append P ms ns fine good,
  )

  pub Round-one : (m : Move) → P m → Step (books s) m (books t) → Round P s t
  Round-one m fine step = (m ∷ [], (books t, step, refl), (fine, tt))

  pub Round-same : t ≡ s → Round P s t
  Round-same same = ([], ap books same, tt)

-- The cells of a published version are not read by the ledger.
pub with_access-Step :
    (s : Catalog) (k : ℕ) (slot : Slot) (p : Published) (a : AccessControl)
    → get k s.slots ≡ some slot
    → slot.committed ≡ some p
    → Step (books s) Ledger.stay (books (put_slot s k (with_access slot p a)))
unfolding put_slot
with_access-Step s k slot p a here full =
    put_stay (books s) k slot (with_access slot p a) here refl (λ w. rw full refl)

pub retire_published-Step :
    (s : Catalog) (k : ℕ) (slot : Slot) (p : Published) (now : ℕ)
    → get k s.slots ≡ some slot
    → slot.committed ≡ some p
    → Step (books s) (Ledger.retire p.version) (books (retire_published s k slot p.version now))
unfolding retire_published put_retired put_slot
retire_published-Step s k slot p now here full =
    subst (λ b. Step (books s) (Ledger.retire p.version) b)
      (sym (books-enqueue_if_empty (put_retired s k slot p.version now) k (emptied_slot slot) now))
      (put_retire (books s) k slot (emptied_slot slot) here now full refl refl)

read_slot-Round :
    (s : Catalog) (live : ℕ → Bool) (k : ℕ) (slot : Slot) (now : ℕ)
    → get k s.slots ≡ some slot
    → Round Stays s (read_slot s live k slot now).1
unfolding read_slot
read_slot-Round s live k slot now here = elim (Option-cases slot.committed) [
  | inl empty ↦ Round-same s (read_slot s live k slot now).1 (rw empty refl)
  | inr (p, full) ↦
      let access =
        (record_access p.access now s.config.lease_ttl_ticks s.config.lease_refresh_ticks).1 in
      let same : (read_slot s live k slot now).1 ≡ put_slot s k (with_access slot p access) =
        ground (arith, full) in
      subst (λ t. Round Stays s t) (sym same)
        (Round-one s (put_slot s k (with_access slot p access)) Ledger.stay tt
          (with_access-Step s k slot p access here full))
]

-- A read moves no version.
pub get_object-Round :
    (s : Catalog) (live : ℕ → Bool) (identity : ObjectIdentity) (now : ℕ)
    → Round Stays s (get_object s live identity now).1
unfolding get_object
get_object-Round s live identity now = elim (Option-cases (get identity s.index)) [
  | inl unknown ↦ Round-same s (get_object s live identity now).1 (ground (arith, unknown))
  | inr (k, found) ↦ elim (Option-cases (get k s.slots)) [
    | inl gone ↦ Round-same s (get_object s live identity now).1 (ground (arith, found, gone))
    | inr (slot, here) ↦
        let same : read_slot s live k slot now ≡ get_object s live identity now =
          ground (arith, found, here) in
        subst (λ r. Round Stays s r.1) same (read_slot-Round s live k slot now here)
  ]
]

pub get_batch-Round :
    (lookups : List (ObjectIdentity × (ℕ → Bool))) (s : Catalog) (now : ℕ)
    → Round Stays s (get_batch lookups s now).1
unfolding get_batch
get_batch-Round [] s now = Round-same s s refl
get_batch-Round ((identity, live) ∷ lookups) s now =
    let t = (get_object s live identity now).1 in
    Round-start s t (get_batch lookups t now).1 (get_object-Round s live identity now)
      (get_batch-Round lookups t now)

remove_published-Round :
    (s : Catalog) (k : ℕ) (slot : Slot) (p : Published) (now : ℕ) (force : Bool) (late : Option ℕ)
    → get k s.slots ≡ some slot
    → slot.committed ≡ some p
    → Round Retires s (remove_published s k slot p now force late).1
unfolding remove_published
remove_published-Round s k slot p now force late here full =
    let seen = late_access late p.access in
    elim (Bool-cases (not force && is_leased p.access now)) [
      | inl a ↦ Round-same s (remove_published s k slot p now force late).1 (ground (arith, a))
      | inr a ↦ elim (Bool-cases (not force && p.access.hard_pinned)) [
        | inl b ↦ Round-same s (remove_published s k slot p now force late).1 (ground (arith, a, b))
        | inr b ↦ elim (Bool-cases (not force && is_leased seen now)) [
          | inl c ↦
              rw (a, b, c)
                (Round-one s (put_slot s k (with_access slot p seen)) Ledger.stay tt
                  (with_access-Step s k slot p seen here full))
          | inr c ↦
              rw (a, b, c)
                (Round-one s (retire_published s k slot p.version now) (Ledger.retire p.version) tt
                  (retire_published-Step s k slot p now here full))
        ]
      ]
    ]

pub remove_with_force-Round :
    (s : Catalog) (identity : ObjectIdentity) (now : ℕ) (force : Bool) (late : Option ℕ)
    → Round Retires s (remove_with_force s identity now force late).1
unfolding remove_with_force
remove_with_force-Round s identity now force late = elim (Option-cases (get identity s.index)) [
  | inl unknown ↦
      Round-same s (remove_with_force s identity now force late).1 (ground (arith, unknown))
  | inr (k, found) ↦ elim (Option-cases (get k s.slots)) [
    | inl gone ↦
        Round-same s (remove_with_force s identity now force late).1 (ground (arith, found, gone))
    | inr (slot, here) ↦ elim (Bool-cases (is_some slot.active)) [
      | inl busy ↦
          Round-same s (remove_with_force s identity now force late).1
            (ground (arith, found, here, busy))
      | inr idle ↦ elim (Option-cases slot.committed) [
        | inl empty ↦
            Round-same s (remove_with_force s identity now force late).1
              (ground (arith, found, here, idle, empty))
        | inr (p, full) ↦
            let same : remove_published s k slot p now force late
                ≡ remove_with_force s identity now force late =
              ground (arith, found, here, idle, full) in
            subst (λ r. Round Retires s r.1) same
              (remove_published-Round s k slot p now force late here full)
      ]
    ]
  ]
]

pub books-push_candidate :
    (b : Bool) (c : GcCandidate) (s : Catalog) → books (push_candidate b c s) ≡ books s
books-push_candidate true c s = refl
books-push_candidate false c s = refl

keep-Round :
    (s : Catalog) (slot : Slot) (p : Published) (c : GcCandidate) (b : Bool) (a : AccessControl)
    → get c.slot s.slots ≡ some slot
    → slot.committed ≡ some p
    → Round Retires s (push_candidate b c (put_slot s c.slot (with_access slot p a)))
keep-Round s slot p c b a here full =
    let s' = put_slot s c.slot (with_access slot p a) in
    Round-one s (push_candidate b c s') Ledger.stay tt (
      subst (λ x. Step (books s) Ledger.stay x) (sym (books-push_candidate b c s'))
        (with_access-Step s c.slot slot p a here full))

pub push-Round :
    {P : Move → Type 0} (s : Catalog) (c : GcCandidate) (b : Bool)
    → Round P s (push_candidate b c s)
push-Round s c b = ([], books-push_candidate b c s, tt)

pub evict_published-Round :
    (s : Catalog) (c : GcCandidate) (from_protected : Bool) (slot : Slot) (p : Published) (now : ℕ)
    (late : Option ℕ)
    → get c.slot s.slots ≡ some slot
    → slot.committed ≡ some p
    → Round Retires s (evict_published s c from_protected slot p now late).0
unfolding evict_published
evict_published-Round s c from_protected slot p now late here full =
    let aged : AccessControl = record p.access { recent = false } in
    let seen = late_access late aged in
    elim (Bool-cases (pinned s p.access now)) [
      | inl e1 ↦ rw e1 (push-Round s c from_protected)
      | inr e1 ↦ elim (Bool-cases (is_some slot.active)) [
        | inl e2 ↦ rw (e1, e2) (push-Round s c true)
        | inr e2 ↦ elim (Bool-cases p.access.recent) [
          | inl e3 ↦ rw (e1, e2, e3) (keep-Round s slot p c true aged here full)
          | inr e3 ↦ elim (Bool-cases (is_leased p.access now)) [
            | inl e4 ↦ rw (e1, e2, e3, e4) (push-Round s c true)
            | inr e4 ↦ elim (Bool-cases (seen.recent || is_leased seen now)) [
              | inl e5 ↦
                  rw (e1, e2, e3, e4, e5)
                    (keep-Round s slot p c true (record seen { recent = false }) here full)
              | inr e5 ↦
                  rw (e1, e2, e3, e4, e5)
                    (Round-one s (retire_published s c.slot slot p.version now)
                      (Ledger.retire p.version) tt
                      (retire_published-Step s c.slot slot p now here full))
            ]
          ]
        ]
      ]
    ]
