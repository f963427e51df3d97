-- ===== src/Client/Invariant/Frame.antt =====
-- Changing one entry of a registry keeps the invariant: the rules that every operation goes by.
use cakemaster.Base.{
  ℕ, ◌≤◌, ◌≡◌, ◌≢◌, refl, sym, ap, ◌∙◌, ◌⊎◌, inl, inr, Bool, some, List, [], ◌∷◌, arith, Bool-cases,
  ◌==◌,
}
use cakemaster.Base.Lists.{length, In}
use cakemaster.Base.Table.{get, insert, remove, insert_cases, remove_cases}
use cakemaster.Identity.{ClientId, uuid_eq, uuid_beq_iff}
use cakemaster.Client.Types.{
  Session, graceful_unmount, heartbeat_expired, server_shutdown, ready, queued, running,
  ClientPhase, cleanup_pending, ClientEntry, DeadlineRecord, Registry, deadline_lt, push_deadline,
}
use cakemaster.Client.Invariant.Defs.{Dated, Tracked, EntryInv, Inv}

pub In-push_self : (d : DeadlineRecord) (xs : List DeadlineRecord) → In d (push_deadline d xs)
unfolding push_deadline
In-push_self d [] = inl refl
In-push_self d (x ∷ xs) = elim (Bool-cases (deadline_lt x d)) [
  | inl lt ↦ rw lt (inr (In-push_self d xs))
  | inr ge ↦ rw ge (inl refl)
]

pub In-push :
    (x d : DeadlineRecord) (xs : List DeadlineRecord) → In x xs → In x (push_deadline d xs)
unfolding push_deadline
In-push x d [] h = absurd h
In-push x d (y ∷ xs) (inl e) = elim (Bool-cases (deadline_lt y d)) [
  | inl lt ↦ rw lt (inl e)
  | inr ge ↦ rw ge (inr (inl e))
]
In-push x d (y ∷ xs) (inr h) = elim (Bool-cases (deadline_lt y d)) [
  | inl lt ↦ rw lt (inr (In-push x d xs h))
  | inr ge ↦ rw ge (inr (inr h))
]

-- What a step that touches the client `k` and the flag `cell` leaves to all others.
pub record Frame (r r' : Registry) (k : ClientId) (cell : ℕ) : Type 0 where
  pub dates : (d : DeadlineRecord) → d.client_id ≢ k → In d r.deadlines → In d r'.deadlines
  pub queue : (s : Session) → s.client_id ≢ k → In s r.cleanup_ready → In s r'.cleanup_ready
  pub generations : r.next_generation ≤ r'.next_generation
  pub cells : r.next_guard ≤ r'.next_guard
  pub flags : (c : ℕ) → c ≢ cell → r'.guards c ≡ r.guards c

module _ {r r' : Registry} {k : ClientId} {cell : ℕ} (fr : Frame r r' k cell) where
  Dated-frame :
      (e : ClientEntry) → e.session.client_id ≢ k → Dated r.deadlines e → Dated r'.deadlines e
  Dated-frame e n h = record {
    due = h.due;
    held = fr.dates h.due (λ q. n (sym h.same_client ∙ q)) h.held;
    same_client = h.same_client;
    same_generation = h.same_generation;
    in_time = h.in_time;
  }

  Tracked-frame :
      (e : ClientEntry) (p : ClientPhase)
      → e.session.client_id ≢ k
      → Tracked r.deadlines r.cleanup_ready e p
      → Tracked r'.deadlines r'.cleanup_ready e p
  Tracked-frame e ClientPhase.active n h = Dated-frame e n h
  Tracked-frame e (cleanup_pending reason running) n h = tt
  Tracked-frame e (cleanup_pending reason queued) n h = fr.queue e.session n h
  Tracked-frame e (cleanup_pending heartbeat_expired ready) n h = Dated-frame e n h
  Tracked-frame e (cleanup_pending graceful_unmount ready) n h = absurd h
  Tracked-frame e (cleanup_pending server_shutdown ready) n h = absurd h

  EntryInv-frame :
      (j : ClientId) (f : ClientEntry)
      → j ≢ k
      → f.guard.cell ≢ cell
      → EntryInv r j f
      → EntryInv r' j f
  EntryInv-frame j f n c h = record {
    keyed = h.keyed;
    older = omega (arith, h.older, fr.generations);
    guarded = h.guarded;
    allocated = omega (arith, h.allocated, fr.cells);
    flagged = fr.flags f.guard.cell c ∙ h.flagged;
    tracked = Tracked-frame f f.phase (λ q. n (sym h.keyed ∙ q)) h.tracked;
  }

  -- An entry is put at `k`, its guard at `cell`.
  pub put-Inv :
      (e' : ClientEntry)
      → Inv r
      → r'.entries ≡ insert k e' r.entries
      → length r'.entries ≤ r'.config.max_clients
      → e'.guard.cell ≡ cell
      → ((j : ClientId) (f : ClientEntry) → get j r.entries ≡ some f → j ≢ k → f.guard.cell ≢ cell)
      → EntryInv r' k e'
      → Inv r'
  put-Inv e' v same small owns others new = record {
    each = λ j f h. elim (found j f h) [
      | inl (here, is) ↦ rw (here, is) new
      | inr (away, old) ↦ EntryInv-frame j f away (others j f old away) (v.each j f old)
    ];
    apart = λ i j f g hf hg q. elim (found i f hf) [
      | inl (i_here, f_is) ↦ elim (found j g hg) [
        | inl (j_here, g_is) ↦ i_here ∙ sym j_here
        | inr (j_away, j_old) ↦
            absurd
              (others j g j_old j_away (sym q ∙ ap (λ (x : ClientEntry). x.guard.cell) f_is ∙ owns))
      ]
      | inr (i_away, i_old) ↦ elim (found j g hg) [
        | inl (j_here, g_is) ↦
            absurd
              (others i f i_old i_away (q ∙ ap (λ (x : ClientEntry). x.guard.cell) g_is ∙ owns))
        | inr (j_away, j_old) ↦ v.apart i j f g i_old j_old q
      ]
    ];
    within = small;
  }
    where
      found :
          (j : ClientId) (f : ClientEntry)
          → get j r'.entries ≡ some f
          → ((j ≡ k) × (f ≡ e')) ⊎ ((j ≢ k) × (get j r.entries ≡ some f))
      found j f h = insert_cases k j e' r.entries (rw same at h)

  -- The entry at `k` is taken out.
  pub remove-Inv :
      Inv r
      → r'.entries ≡ remove k r.entries
      → length r'.entries ≤ r'.config.max_clients
      → ((j : ClientId) (f : ClientEntry) → get j r.entries ≡ some f → j ≢ k → f.guard.cell ≢ cell)
      → Inv r'
  remove-Inv v same small others = record {
    each = λ j f h.
        let (away, old) = found j f h in
        EntryInv-frame j f away (others j f old away) (v.each j f old);
    apart = λ i j f g hf hg q. v.apart i j f g (found i f hf).1 (found j g hg).1 q;
    within = small;
  }
    where
      found :
          (j : ClientId) (f : ClientEntry)
          → get j r'.entries ≡ some f
          → (j ≢ k) × (get j r.entries ≡ some f)
      found j f h = remove_cases k j r.entries (rw same at h)

  -- No entry changes; the one at `k`, if any, is looked at again.
  pub same-Inv :
      Inv r
      → r'.entries ≡ r.entries
      → r'.config ≡ r.config
      → r'.guards ≡ r.guards
      → ((e : ClientEntry)
          → get k r.entries ≡ some e
          → Tracked r'.deadlines r'.cleanup_ready e e.phase)
      → Inv r'
  same-Inv v same conf flags there = record {
    each = λ j f h.
        let old = v.each j f (rw same at h) in
        record {
          keyed = old.keyed;
          older = omega (arith, old.older, fr.generations);
          guarded = old.guarded;
          allocated = omega (arith, old.allocated, fr.cells);
          flagged = ap (λ (g : ℕ → Bool). g f.guard.cell) flags ∙ old.flagged;
          tracked = elim (Bool-cases (j == k)) [
            | inl hit ↦ there f (rw ((uuid_beq_iff j k).0 hit) at (rw same at h))
            | inr miss ↦
                Tracked-frame f f.phase
                  (λ q. ground (arith, (uuid_beq_iff j k).1 (sym old.keyed ∙ q))) old.tracked
          ];
        };
    apart = λ i j f g hf hg q. v.apart i j f g (rw same at hf) (rw same at hg) q;
    within = rw (same, conf) v.within;
  }

-- The flag of an entry is no other entry's.
pub others_of_Inv :
    {r : Registry} (v : Inv r) (k : ClientId) (e : ClientEntry)
    → get k r.entries ≡ some e
    → (j : ClientId) (f : ClientEntry) → get j r.entries ≡ some f
    → j ≢ k
    → f.guard.cell ≢ e.guard.cell
others_of_Inv v k e h j f old away q = away (v.apart j k f e old h q)
