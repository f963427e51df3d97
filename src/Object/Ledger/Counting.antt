-- ===== src/Object/Ledger/Counting.antt =====
-- What the lifecycle counters count, and how a move changes both.
use cakemaster.Base.{
  ℕ, ◌+◌, ◌-◌, ◌≤◌, List, [], ◌∷◌, ◌≡◌, inl, inr, arith, if◌then◌else◌, Bool-cases, subst, sym,
  u64_max,
}
use cakemaster.Base.Lists.{sum_by}
use cakemaster.Object.Replicas.{ReplicaSet, total_reserved, plain_reserved, total_reserved-plain}
use cakemaster.Object.Catalog.Counters.{
  Counters, on_claim, on_claim_dropped, on_stage, on_commit_new, on_commit_replacing,
  on_abort_pending, on_retire_published, on_prune_published, on_reclaim,
}
use cakemaster.Object.Catalog.Defs.{Version, in_memory, RetiredObject}
use cakemaster.Object.Ledger.Defs.{
  Balanced, Books, totals, Move, Step, count_move, stay, claim, unclaim, stage, stage_lost, publish,
  replace, abort, retire, prune, reclaim, Counted, Pruned,
}

abbrev pub each : Version → ℕ
each v = 1

abbrev pub size : Version → ℕ
size v = v.bytes

abbrev pub memory_size : Version → ℕ
memory_size v = if in_memory v then v.bytes else 0

-- The counters say what is there.
abbrev pub Says : Counters → Books → Type 0
Says c b =
    (c.claims ≡ (totals each b).claims)
    × (c.pending_objects ≡ (totals each b).staged)
    × (c.published_objects ≡ (totals each b).live)
    × (c.pending_bytes ≡ (totals size b).staged)
    × (c.live_bytes ≡ (totals size b).live)
    × (c.retired_bytes ≡ (totals size b).retired)
    × (c.retired_memory_bytes ≡ (totals memory_size b).retired)

abbrev pub Matches : Books → Type 0
Matches b = Says b.counters b

-- The reserved bytes of a version's replicas, and how far its own count is from them.
abbrev pub plain : Version → ℕ
plain v = plain_reserved v.replicas

abbrev pub drift : Version → ℕ
drift v = (plain v - v.bytes) + (v.bytes - plain v)

-- The writes and objects, and the reserved bytes of all replicas, can be counted in a u64.
abbrev pub Fits : Books → Type 0
Fits b =
    ((totals each b).claims + (totals each b).staged + (totals each b).live ≤ u64_max)
    × ((totals plain b).staged + (totals plain b).live + (totals plain b).retired ≤ u64_max)

-- Every version counts the bytes of its replicas.
abbrev pub Exact : Books → Type 0
Exact b =
    ((totals drift b).staged ≡ 0)
    × ((totals drift b).live ≡ 0)
    × ((totals drift b).retired ≡ 0)
    × ((totals size b).staged ≡ (totals plain b).staged)
    × ((totals size b).live ≡ (totals plain b).live)
    × ((totals size b).retired ≡ (totals plain b).retired)

memory_size-le : (v : Version) → memory_size v ≤ v.bytes
memory_size-le v = elim (Bool-cases (in_memory v)) [
  | inl e ↦ rw e (omega arith)
  | inr e ↦ rw e (omega arith)
]

retired_memory-le :
    (rs : List RetiredObject)
    → sum_by (λ r. memory_size r.version) rs ≤ sum_by (λ r. size r.version) rs
retired_memory-le [] = omega arith
retired_memory-le (r ∷ rs) = omega (arith, memory_size-le r.version, retired_memory-le rs)

-- The counters after a move, from what they were.
module _ (b b' : Books) (fits : Fits b) (fits' : Fits b') (exact : Exact b) where
  -- A version that is staged counts what its replicas reserve.
  Counted-drift : (v : Version) → Counted v → plain v ≤ u64_max → drift v ≡ 0
  Counted-drift v whole h = omega (arith, whole, total_reserved-plain v.replicas h)

  -- The weights that the bytes of a version are compared by.
  abbrev Weighed : Move → Type 0
  Weighed m =
      Balanced drift m (totals drift b) (totals drift b')
      × Balanced size m (totals size b) (totals size b')
      × Balanced plain m (totals plain b) (totals plain b')
      × Exact b
      × Fits b
      × Fits b'

  weighed : (m : Move) → Step b m b' → Weighed m
  weighed m step =
      (step.balanced drift, step.balanced size, step.balanced plain, exact, fits, fits')

  -- The part that is taken off, and what is left, of a version that counts its bytes.
  Pruned-parts :
      (gone : ReplicaSet) (old v : Version)
      → Pruned gone old v
      → drift old ≡ 0
      → plain old ≤ u64_max
      → (drift v ≡ 0) × (old.bytes ≡ v.bytes + total_reserved gone)
  Pruned-parts gone old v (_, fewer, parts) none_off fit =
      let part = total_reserved-plain gone (omega (arith, parts, fit)) in
      (omega (arith, fewer, parts, none_off, part), omega (arith, fewer, parts, none_off, part))

  prune-parts :
      (gone : ReplicaSet) (old v : Version)
      → Step b (prune gone old v) b'
      → (drift v ≡ 0) × (old.bytes ≡ v.bytes + total_reserved gone)
  prune-parts gone old v step =
      let drifts = step.balanced drift in
      let plains = step.balanced plain in
      Pruned-parts gone old v step.addressed.1 (omega (arith, drifts, exact))
        (omega (arith, plains, fits))

  pub Step-Exact : (m : Move) → Step b m b' → Exact b'
  Step-Exact stay step = omega (arith, weighed stay step)
  Step-Exact claim step = omega (arith, weighed claim step)
  Step-Exact unclaim step = omega (arith, weighed unclaim step)
  Step-Exact (stage v) step =
      let fine = Counted-drift v step.addressed.2 (omega (arith, weighed (stage v) step)) in
      omega (arith, weighed (stage v) step, fine)
  Step-Exact (stage_lost v) step =
      let fine = Counted-drift v step.addressed.2 (omega (arith, weighed (stage_lost v) step)) in
      omega (arith, weighed (stage_lost v) step, fine)
  Step-Exact (publish v) step = omega (arith, weighed (publish v) step)
  Step-Exact (replace v old) step = omega (arith, weighed (replace v old) step)
  Step-Exact (abort v) step = omega (arith, weighed (abort v) step)
  Step-Exact (retire v) step = omega (arith, weighed (retire v) step)
  Step-Exact (prune gone old v) step =
      omega (arith, weighed (prune gone old v) step, (prune-parts gone old v step).0)
  Step-Exact (reclaim v) step = omega (arith, weighed (reclaim v) step)

module _ (b b' : Books) (fits : Fits b) (fits' : Fits b') (exact : Exact b) (says : Matches b) where
  -- What is known of the numbers around a move.
  abbrev Known : Move → Type 0
  Known m =
      Balanced each m (totals each b) (totals each b')
      × Balanced size m (totals size b) (totals size b')
      × Balanced memory_size m (totals memory_size b) (totals memory_size b')
      × Says b.counters b
      × Fits b
      × Fits b'
      × Exact b
      × Exact b'
      × ((totals memory_size b').retired ≤ (totals size b').retired)

  known : (m : Move) → Step b m b' → Known m
  known m step = (
    step.balanced each,
    step.balanced size,
    step.balanced memory_size,
    says,
    fits,
    fits',
    exact,
    Step-Exact b b' fits fits' exact m step,
    retired_memory-le b'.retired,
  )

  claim-Says : Step b claim b' → Says (count_move claim b.counters) b'
  unfolding on_claim
  claim-Says step = omega (arith, known claim step)

  unclaim-Says : Step b unclaim b' → Says (count_move unclaim b.counters) b'
  unfolding on_claim_dropped
  unclaim-Says step = omega (arith, known unclaim step)

  stage-Says : (v : Version) → Step b (stage v) b' → Says (count_move (stage v) b.counters) b'
  unfolding on_stage
  stage-Says v step = omega (arith, known (stage v) step)

  stage_lost-Says :
      (v : Version) → Step b (stage_lost v) b' → Says (count_move (stage_lost v) b.counters) b'
  unfolding on_stage on_abort_pending
  stage_lost-Says v step = elim (Bool-cases (in_memory v)) [
    | inl e ↦ ground (arith, e, known (stage_lost v) step)
    | inr e ↦ ground (arith, e, known (stage_lost v) step)
  ]

  publish-Says : (v : Version) → Step b (publish v) b' → Says (count_move (publish v) b.counters) b'
  unfolding on_commit_new
  publish-Says v step = omega (arith, known (publish v) step)

  replace-Says :
      (v : Version) (old : Version)
      → Step b (replace v old) b'
      → Says (count_move (replace v old) b.counters) b'
  unfolding on_commit_replacing
  replace-Says v old step = elim (Bool-cases (in_memory old)) [
    | inl e ↦ ground (arith, e, known (replace v old) step)
    | inr e ↦ ground (arith, e, known (replace v old) step)
  ]

  abort-Says : (v : Version) → Step b (abort v) b' → Says (count_move (abort v) b.counters) b'
  unfolding on_abort_pending
  abort-Says v step = elim (Bool-cases (in_memory v)) [
    | inl e ↦ ground (arith, e, known (abort v) step)
    | inr e ↦ ground (arith, e, known (abort v) step)
  ]

  retire-Says : (v : Version) → Step b (retire v) b' → Says (count_move (retire v) b.counters) b'
  unfolding on_retire_published
  retire-Says v step = elim (Bool-cases (in_memory v)) [
    | inl e ↦ ground (arith, e, known (retire v) step)
    | inr e ↦ ground (arith, e, known (retire v) step)
  ]

  prune-Says :
      (gone : ReplicaSet) (old v : Version)
      → Step b (prune gone old v) b'
      → Says (count_move (prune gone old v) b.counters) b'
  unfolding on_prune_published
  prune-Says gone old v step =
      let parts = (prune-parts b b' fits fits' exact gone old v step).1 in
      omega (arith, known (prune gone old v) step, parts)

  reclaim-Says : (v : Version) → Step b (reclaim v) b' → Says (count_move (reclaim v) b.counters) b'
  unfolding on_reclaim
  reclaim-Says v step = elim (Bool-cases (in_memory v)) [
    | inl e ↦ ground (arith, e, known (reclaim v) step)
    | inr e ↦ ground (arith, e, known (reclaim v) step)
  ]

  Step-Says : (m : Move) → Step b m b' → Says (count_move m b.counters) b'
  Step-Says stay step =
      omega (arith, step.balanced each, step.balanced size, step.balanced memory_size, says)
  Step-Says claim step = claim-Says step
  Step-Says unclaim step = unclaim-Says step
  Step-Says (stage v) step = stage-Says v step
  Step-Says (stage_lost v) step = stage_lost-Says v step
  Step-Says (publish v) step = publish-Says v step
  Step-Says (replace v old) step = replace-Says v old step
  Step-Says (abort v) step = abort-Says v step
  Step-Says (retire v) step = retire-Says v step
  Step-Says (prune gone old v) step = prune-Says gone old v step
  Step-Says (reclaim v) step = reclaim-Says v step

  pub Step-Matches : (m : Move) → Step b m b' → Matches b'
  Step-Matches m step = subst (λ c. Says c b') (sym step.counted) (Step-Says m step)
