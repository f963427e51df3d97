-- ===== src/Client/Progress/Heap.antt =====
-- The order of the deadline heap.
use cakemaster.Base.{
  ℕ, suc, ◌+◌, ◌≤◌, ◌<◌, ◌≡◌, inl, inr, true, false, List, [], ◌∷◌, arith, Bool-cases,
  if◌then◌else◌, leb,
}
use cakemaster.Client.Types.{DeadlineRecord, push_deadline, deadline_lt}
use cakemaster.Base.Lists.{In}

-- No record comes due before `n`.
abbrev pub AllFrom : ℕ → List DeadlineRecord → Type 0
AllFrom n [] = Unit {0}
AllFrom n (d ∷ ds) = (n ≤ d.expires_at) × AllFrom n ds

abbrev pub IsSorted : List DeadlineRecord → Type 0
IsSorted [] = Unit {0}
IsSorted (d ∷ ds) = AllFrom d.expires_at ds × IsSorted ds

-- Every record comes due after `now`.
abbrev pub AllLater : ℕ → List DeadlineRecord → Type 0
AllLater now ds = AllFrom (suc now) ds

-- How many records are due at `now`.
abbrev pub due_count : ℕ → List DeadlineRecord → ℕ
due_count now [] = 0
due_count now (d ∷ ds) = (if leb d.expires_at now then 1 else 0) + due_count now ds

pub AllFrom-mono : (m n : ℕ) (ds : List DeadlineRecord) → m ≤ n → AllFrom n ds → AllFrom m ds
AllFrom-mono m n [] h a = tt
AllFrom-mono m n (d ∷ ds) h a = (omega arith, AllFrom-mono m n ds h a.1)

AllFrom-push :
    (n : ℕ) (d : DeadlineRecord) (ds : List DeadlineRecord)
    → n ≤ d.expires_at
    → AllFrom n ds
    → AllFrom n (push_deadline d ds)
unfolding push_deadline
AllFrom-push n d [] h a = (h, tt)
AllFrom-push n d (x ∷ ds) h a = elim (Bool-cases (deadline_lt x d)) [
  | inl lt ↦ rw lt (a.0, AllFrom-push n d ds h a.1)
  | inr ge ↦ rw ge (h, a)
]

lt_le : (x d : DeadlineRecord) → deadline_lt x d ≡ true → x.expires_at ≤ d.expires_at
lt_le x d h = ground arith

ge_le : (x d : DeadlineRecord) → deadline_lt x d ≡ false → d.expires_at ≤ x.expires_at
ge_le x d h = ground arith

pub push-IsSorted :
    (d : DeadlineRecord) (ds : List DeadlineRecord) → IsSorted ds → IsSorted (push_deadline d ds)
unfolding push_deadline
push-IsSorted d [] s = (tt, tt)
push-IsSorted d (x ∷ ds) s = elim (Bool-cases (deadline_lt x d)) [
  | inl lt ↦ rw lt (AllFrom-push x.expires_at d ds (lt_le x d lt) s.0, push-IsSorted d ds s.1)
  | inr ge ↦ rw ge ((ge_le x d ge, AllFrom-mono d.expires_at x.expires_at ds (ge_le x d ge) s.0), s)
]

pub due_count-push_later :
    (now : ℕ) (d : DeadlineRecord) (ds : List DeadlineRecord)
    → now < d.expires_at
    → due_count now (push_deadline d ds) ≡ due_count now ds
unfolding push_deadline
due_count-push_later now d [] h = ground arith
due_count-push_later now d (x ∷ ds) h = elim (Bool-cases (deadline_lt x d)) [
  | inl lt ↦ rw lt (omega (arith, due_count-push_later now d ds h))
  | inr ge ↦ rw ge (ground arith)
]

pub later_of_none_due :
    (now : ℕ) (ds : List DeadlineRecord) → due_count now ds ≡ 0 → AllLater now ds
later_of_none_due now [] h = tt
later_of_none_due now (d ∷ ds) h = (ground arith, later_of_none_due now ds (ground arith))

pub In-later :
    (now : ℕ) (d : DeadlineRecord) (ds : List DeadlineRecord)
    → In d ds
    → AllLater now ds
    → now < d.expires_at
In-later now d [] h a = absurd h
In-later now d (x ∷ ds) (inl q) a = ground arith
In-later now d (x ∷ ds) (inr h) a = In-later now d ds h a.1
