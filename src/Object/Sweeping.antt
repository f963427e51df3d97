-- ===== src/Object/Sweeping.antt =====
-- What a whole sweep of the liveness flags reaches: src/object/catalog/collector.rs.
pub mod Candidates
pub mod Rounds
use cakemaster.Base.{
  ℕ, zero, suc, ◌+◌, ◌-◌, ◌≤◌, Bool, true, false, not, ◌&&◌, ◌||◌, Option, none, some, List, [],
  ◌∷◌, ◌++◌, ◌≡◌, ◌⊎◌, inl, inr, refl, sym, ◌∙◌, ap, arith, eqb, eqb_iff, is_some, Bool-cases,
  Option-cases, List-cases, subst, nat_eq, min, max,
}
use mathlib.Core.Option.{some_inj}
use cakemaster.Base.Lists.{length, In, append_assoc, append_nil}
use cakemaster.Base.Table.{get, insert, get-insert}
use cakemaster.Object.Replicas.{
  ReplicaSet, every_live, all_live, prune_invalidated, partition_by_liveness, prune_all_live,
  prune_all_stale, prune_mixed, live_part, stale_part,
}
use cakemaster.Object.Catalog.Defs.{Published, Slot, Catalog, GcCandidate, put_slot, upgrade}
use cakemaster.Object.Catalog.Queues.{queue_of, with_queue, remaining_of, with_remaining}
use cakemaster.Object.Catalog.Write.{enqueue_if_empty}
use cakemaster.Object.Catalog.Collect.{emptied_slot, put_retired, retire_published, push_candidate}
use cakemaster.Object.Catalog.Sweep.{
  begin_if_requested, sweep_is_incomplete, pruned_slot, put_pruned, sweep_published,
  sweep_candidate, sweep_queue, retire_invalidated_published,
}
use cakemaster.Object.Ledger.Write.{get-upgrade}
use cakemaster.Object.Ledger.Sweep.{prune-cases}
use cakemaster.Object.Sweeping.Candidates.{Settled}
use cakemaster.Object.Sweeping.Rounds.{sweep_queue-keeps, sweep_queue-settles, sweep_queue-counts}

append_nil_of : (q : List GcCandidate) → q ≡ q ++ []
append_nil_of q = sym (append_nil q)

full_sweep-Settled :
    (s : Catalog) (live : ℕ → Bool) (now budget : ℕ)
    → length s.young ≤ s.young_remaining
    → length s.protected ≤ s.protected_remaining
    → s.young_remaining + s.protected_remaining ≤ budget
    → let t = (retire_invalidated_published s live now budget).0 in
      (sweep_is_incomplete t ≡ false)
      × ((c : GcCandidate) → In c s.young ⊎ In c s.protected → Settled live t c)
unfolding retire_invalidated_published
full_sweep-Settled s live now budget young protected enough =
    let rounds = min s.young_remaining budget in
    let first = sweep_queue rounds s live false now in
    let rounds' = min first.0.protected_remaining (budget - first.1) in
    let (other, left, scanned, done) = sweep_queue-counts live now rounds s false in
    let (_, left', _, done') = sweep_queue-counts live now rounds' first.0 true in
    let all_young : s.young_remaining ≤ rounds = ground (arith, enough) in
    let all_protected : s.protected_remaining ≤ rounds' = ground (arith, enough, left, scanned) in
    let none_young = left' ∙ done all_young in
    let none_protected = done' (omega (arith, left, all_protected)) in
    (
      ground (arith, none_young, none_protected),
      λ c member. elim member [
        | inl here ↦ sweep_queue-keeps live now rounds' first.0 true c (
            sweep_queue-settles live now rounds s false s.young [] c (append_nil_of s.young)
              (omega (arith, young, all_young)) here)
        | inr here ↦
            sweep_queue-settles live now rounds' first.0 true s.protected [] c
              (other ∙ append_nil_of s.protected) (omega (arith, protected, all_protected)) here
      ],
    )

-- A sweep that was asked for, with a budget for all candidates that the queues hold, comes to its end in one
-- step, and then each of them is settled: if its version is still published, all its replicas are live, or
-- another write of the object is active.
pub begun_sweep-Settled :
    (s : Catalog) (live : ℕ → Bool) (now budget : ℕ)
    → s.liveness_requested ≡ true
    → (begin_if_requested s).young_remaining + (begin_if_requested s).protected_remaining ≤ budget
    → let t = (retire_invalidated_published (begin_if_requested s) live now budget).0 in
      (sweep_is_incomplete t ≡ false)
      × ((c : GcCandidate) → In c s.young ⊎ In c s.protected → Settled live t c)
unfolding begin_if_requested retire_invalidated_published
begun_sweep-Settled s live now budget asked enough =
    let begun : Catalog = record s {
      liveness_requested = false;
      young_remaining = max s.young_remaining (length s.young);
      protected_remaining = max s.protected_remaining (length s.protected);
    } in
    let same : begun ≡ begin_if_requested s = ground (arith, asked) in
    let fit : begun.young_remaining + begun.protected_remaining ≤ budget =
      subst (λ u. u.young_remaining + u.protected_remaining ≤ budget) (sym same) enough in
    subst
      (λ u.
        let t = (retire_invalidated_published u live now budget).0 in
        (sweep_is_incomplete t ≡ false)
        × ((c : GcCandidate) → In c s.young ⊎ In c s.protected → Settled live t c))
      same (full_sweep-Settled begun live now budget (ground arith) (ground arith) fit)
