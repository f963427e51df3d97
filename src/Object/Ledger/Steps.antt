-- ===== src/Object/Ledger/Steps.antt =====
-- One move of the ledger for each change of a slot.
use cakemaster.Base.{
  ℕ, suc, ◌+◌, ◌<◌, none, some, List, [], ◌∷◌, ◌++◌, ◌≡◌, inl, inr, refl, arith, nat_eq, subst, sym,
  ap, ◌∙◌,
}
use cakemaster.Base.Lists.{sum_by, sum_by-append}
use cakemaster.Base.Table.{
  get, insert, insert_cases, sum_values, sum_values-insert_present, sum_values-insert_fresh,
  sum_values-get_le,
}
use cakemaster.Object.Replicas.{ReplicaSet}
use cakemaster.Object.Catalog.Counters.{on_claim, on_claim_dropped, on_stage}
use cakemaster.Object.Catalog.Defs.{
  Version, Published, claimed, staged, ActiveTransaction, Slot, RetiredObject,
}
use cakemaster.Object.Ledger.Defs.{
  Books, slot_claims, slot_staged, slot_live, Step, Numbered, stay, claim, unclaim, stage,
  stage_lost, publish, replace, abort, retire, prune, reclaim, count_move, Counted, Pruned,
}

-- A change of the slot `k`.
module _ (b : Books) (k : ℕ) (old new : Slot) (here : get k b.slots ≡ some old) where
  put-Numbered :
      Numbered b
      → (j : ℕ) (slot : Slot) → get j (insert k new b.slots) ≡ some slot
      → j < b.next_slot
  put-Numbered num j slot found = elim (insert_cases k j new b.slots found) [
    | inl (same, _) ↦ subst (λ i. i < b.next_slot) (sym same) (num k old here)
    | inr (_, before) ↦ num j slot before
  ]

  claims_change :
      sum_values slot_claims (insert k new b.slots) + slot_claims old
      ≡ sum_values slot_claims b.slots + slot_claims new
  claims_change = sum_values-insert_present slot_claims k new b.slots here

  staged_change :
      (w : Version → ℕ)
      → sum_values (slot_staged w) (insert k new b.slots) + slot_staged w old
        ≡ sum_values (slot_staged w) b.slots + slot_staged w new
  staged_change w = sum_values-insert_present (slot_staged w) k new b.slots here

  live_change :
      (w : Version → ℕ)
      → sum_values (slot_live w) (insert k new b.slots) + slot_live w old
        ≡ sum_values (slot_live w) b.slots + slot_live w new
  live_change w = sum_values-insert_present (slot_live w) k new b.slots here

  pub put_stay :
      new.active ≡ old.active
      → ((w : Version → ℕ) → slot_live w new ≡ slot_live w old)
      → Step b stay (record b { slots = insert k new b.slots })
  put_stay same_active same_live = record {
    balanced = λ w.
        ground (arith, same_active, same_live w, claims_change, staged_change w, live_change w);
    counted = refl;
    addressed = refl;
    numbered = put-Numbered;
  }

  pub put_claim :
      {active : ActiveTransaction}
      → old.active ≡ none
      → new.active ≡ some active
      → active.phase ≡ claimed
      → new.committed ≡ old.committed
      → Step b claim (record b { slots = insert k new b.slots; counters = on_claim b.counters })
  put_claim before after phase same = record {
    balanced = λ w.
        ground (arith, before, after, phase, same, claims_change, staged_change w, live_change w);
    counted = refl;
    addressed = refl;
    numbered = put-Numbered;
  }

  pub put_retire :
      {p : Published} (at : ℕ)
      → old.committed ≡ some p
      → new.committed ≡ none
      → new.active ≡ old.active
      → Step b (retire p.version) (record b {
        slots = insert k new b.slots;
        retired = b.retired ++ (record { version = p.version; reclaim_after = at } ∷ []);
        counters = count_move (retire p.version) b.counters;
      })
  put_retire {p} at before after same = record {
    balanced = λ w. ground (
      arith,
      before,
      after,
      same,
      claims_change,
      staged_change w,
      live_change w,
      sum_by-append (λ r. w r.version) b.retired
          (record { version = p.version; reclaim_after = at } ∷ []),
    );
    counted = refl;
    addressed = refl;
    numbered = put-Numbered;
  }

  pub put_prune :
      {p q : Published} (gone : ReplicaSet)
      → old.committed ≡ some p
      → new.committed ≡ some q
      → new.active ≡ old.active
      → Pruned gone p.version q.version
      → Step b (prune gone p.version q.version) (record b {
        slots = insert k new b.slots;
        counters = count_move (prune gone p.version q.version) b.counters;
      })
  put_prune {p} {q} gone before after same pruned = record {
    balanced = λ w. ground (
      arith,
      before,
      after,
      same,
      claims_change,
      staged_change w,
      live_change w,
      sum_values-get_le (slot_live w) k b.slots here,
    );
    counted = refl;
    addressed = (refl, pruned);
    numbered = put-Numbered;
  }

  -- The moves from a claimed transaction.
  module _ {active : ActiveTransaction} (before : old.active ≡ some active)
      (phase : active.phase ≡ claimed) (same : new.committed ≡ old.committed) where
    pub put_unclaim :
        new.active ≡ none
        → Step b unclaim
            (record b { slots = insert k new b.slots; counters = on_claim_dropped b.counters })
    put_unclaim after = record {
      balanced = λ w.
          ground (arith, before, after, phase, same, claims_change, staged_change w, live_change w);
      counted = refl;
      addressed = refl;
      numbered = put-Numbered;
    }

    pub put_stage :
        {next : ActiveTransaction} (v : Version)
        → v.address ≡ b.next_address
        → Counted v
        → new.active ≡ some next
        → next.phase ≡ staged v
        → Step b (stage v) (record b {
          slots = insert k new b.slots;
          counters = on_stage v.bytes b.counters;
          next_address = suc b.next_address;
        })
    put_stage v fresh whole after next_phase = record {
      balanced = λ w. ground (
        arith,
        before,
        after,
        phase,
        next_phase,
        same,
        claims_change,
        staged_change w,
        live_change w,
      );
      counted = refl;
      addressed = (fresh, refl, whole);
      numbered = put-Numbered;
    }

  -- The moves from a staged transaction.
  module _ {active : ActiveTransaction} {v : Version} (before : old.active ≡ some active)
      (phase : active.phase ≡ staged v) (after : new.active ≡ none) where
    pub put_abort :
        (at : ℕ)
        → new.committed ≡ old.committed
        → Step b (abort v) (record b {
          slots = insert k new b.slots;
          retired = b.retired ++ (record { version = v; reclaim_after = at } ∷ []);
          counters = count_move (abort v) b.counters;
        })
    put_abort at same = record {
      balanced = λ w. ground (
        arith,
        before,
        after,
        phase,
        same,
        claims_change,
        staged_change w,
        live_change w,
        sum_by-append (λ r. w r.version) b.retired
            (record { version = v; reclaim_after = at } ∷ []),
      );
      counted = refl;
      addressed = refl;
      numbered = put-Numbered;
    }

    pub put_publish :
        {p : Published}
        → p.version ≡ v
        → old.committed ≡ none
        → new.committed ≡ some p
        → Step b (publish v) (record b {
          slots = insert k new b.slots;
          counters = count_move (publish v) b.counters;
        })
    put_publish is empty full = record {
      balanced = λ w. ground (
        arith,
        before,
        after,
        phase,
        is,
        empty,
        full,
        claims_change,
        staged_change w,
        live_change w,
      );
      counted = refl;
      addressed = refl;
      numbered = put-Numbered;
    }

    pub put_replace :
        {p q : Published} (at : ℕ)
        → p.version ≡ v
        → old.committed ≡ some q
        → new.committed ≡ some p
        → Step b (replace v q.version) (record b {
          slots = insert k new b.slots;
          retired = b.retired ++ (record { version = q.version; reclaim_after = at } ∷ []);
          counters = count_move (replace v q.version) b.counters;
        })
    put_replace {p} {q} at is empty full = record {
      balanced = λ w. ground (
        arith,
        before,
        after,
        phase,
        is,
        empty,
        full,
        claims_change,
        staged_change w,
        live_change w,
        sum_by-append (λ r. w r.version) b.retired
            (record { version = q.version; reclaim_after = at } ∷ []),
      );
      counted = refl;
      addressed = refl;
      numbered = put-Numbered;
    }

-- A slot with the next number.
pub new_claim :
    (b : Books) (slot : Slot) {active : ActiveTransaction}
    → get b.next_slot b.slots ≡ none
    → slot.active ≡ some active
    → active.phase ≡ claimed
    → slot.committed ≡ none
    → Step b claim (record b {
      slots = insert b.next_slot slot b.slots;
      counters = on_claim b.counters;
      next_slot = suc b.next_slot;
    })
new_claim b slot fresh now phase empty = record {
  balanced = λ w. ground (
    arith,
    now,
    phase,
    empty,
    sum_values-insert_fresh slot_claims b.next_slot slot b.slots fresh,
    sum_values-insert_fresh (slot_staged w) b.next_slot slot b.slots fresh,
    sum_values-insert_fresh (slot_live w) b.next_slot slot b.slots fresh,
  );
  counted = refl;
  addressed = refl;
  numbered = λ num j other found. elim (insert_cases b.next_slot j slot b.slots found) [
    | inl (same, _) ↦ omega (arith, same)
    | inr (_, before) ↦ omega (arith, num j other before)
  ];
}

pub take_retired :
    (b : Books) (r : RetiredObject) (rest : List RetiredObject)
    → b.retired ≡ r ∷ rest
    → Step b
        (reclaim r.version)
        (record b { retired = rest; counters = count_move (reclaim r.version) b.counters })
take_retired b r rest whole = record {
  balanced = λ w. ground (arith, ap (sum_by (λ x. w x.version)) whole);
  counted = refl;
  addressed = refl;
  numbered = λ num. num;
}

-- A retired version that goes back to the end of its queue.
pub rotate_retired :
    (b : Books) (r : RetiredObject) (rest : List RetiredObject)
    → b.retired ≡ r ∷ rest
    → Step b stay (record b { retired = rest ++ (r ∷ []) })
rotate_retired b r rest whole = record {
  balanced = λ w.
      ground (
        arith,
        ap (sum_by (λ x. w x.version)) whole,
        sum_by-append (λ x. w x.version) rest (r ∷ []),
      );
  counted = refl;
  addressed = refl;
  numbered = λ num. num;
}

pub no_change : (b : Books) → Step b stay b
no_change b = record {
  balanced = λ w. (refl, refl, refl, refl);
  counted = refl;
  addressed = refl;
  numbered = λ num. num;
}

-- A staging and the abort of the same version, as one move.
pub staged_and_lost :
    (b c d : Books) (v : Version)
    → Step b (stage v) c
    → Step c (abort v) d
    → Step b (stage_lost v) d
staged_and_lost b c d v first second = record {
  balanced = λ w. omega (arith, first.balanced w, second.balanced w);
  counted = rw (second.counted, first.counted) refl;
  addressed = (first.addressed.0, second.addressed ∙ first.addressed.1, first.addressed.2);
  numbered = λ num. second.numbered (first.numbered num);
}
