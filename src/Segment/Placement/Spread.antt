-- ===== src/Segment/Placement/Spread.antt =====
-- What a placement returns: replicas in different failure domains, as many as the request asks for.
use cakemaster.Base.{
  ℕ, ◌≤◌, ◌<◌, false, some, List, [], ◌∷◌, ◌++◌, ◌≡◌, ◌⊎◌, inl, inr, refl, sym, ap, ◌∙◌, subst,
  arith, Result, ok, err, Bool-cases, eqb, nat_eq,
}
use cakemaster.Base.Lists.{length, length-append, All, All-append, All-mono, In}
use cakemaster.Segment.Allocator.{OffsetAllocator}
use cakemaster.Segment.Entry.{SegmentEntry, Reservation}
use cakemaster.Segment.Pool.Defs.{SegmentPool, SegmentHandle, reserve}
use cakemaster.Segment.Pool.History.{PoolCommand, pool_run}
use cakemaster.Segment.Placement.Defs.{
  PlacementRequest, all_or_nothing, best_effort, Candidate, DomainKey, segment_key, owner_key,
  by_segment, by_owner, FailureDomain, domain_key, key_eq, is_member, PlacementError, zero_size,
  zero_replicas, insufficient_replicas, reserve_failed,
}
use cakemaster.Segment.Placement.Policy.{PlacementPolicy, snapshot}
use cakemaster.Segment.Placement.Loop.{
  Placed, LoopState, key_of, placed_on, reserve_replicas, reserve_loop,
}
use cakemaster.Segment.Placement.Rule.{Final, IsFatal, reserve_loop-Final}
use cakemaster.Segment.Placement.Sets.{All-at, Distinct, Distinct-append_one, All-In, is_member-All}
use cakemaster.Segment.Pool.Reserving.{reserve_inv}
use cakemaster.Segment.Pool.Reachable.{HasSpec, SpecAt-Preserved}
use cakemaster.Segment.Pool.Calls.{pool_run-keeps, reserve-keeps}
use cakemaster.Segment.Invariant.Specs.{SpecAt}
use cakemaster.Segment.Types.{SegmentSpec, ReserveError}
use mathlib.Core.Option.{some_inj}

module _ (o : OffsetAllocator) where
  -- A reservation is of the incarnation that was asked, whose specification is known.
  reserve-granted :
      (s t : SegmentPool o) (c : Candidate) (bytes : ℕ) (r : Reservation o)
      → HasSpec o c.handle.entry c.spec s
      → reserve o s c.handle bytes ≡ some (t, ok r)
      → (r.reserved_region.size ≡ bytes) × (r.segment ≡ c.spec)
  reserve-granted s t c bytes r (_, (f, there, is)) h =
      elim (reserve_inv o s t c.handle bytes (ok r) h) [
        | inl (same, foreign) ↦ absurd (ground (arith, foreign))
        | inr (e, e', z, same, answer) ↦
            let found : f ≡ e = some_inj.0 (sym there ∙ z) in
            (answer.2.0, answer.2.1 ∙ sym (ap (λ (x : SegmentEntry o). x.spec) found) ∙ is)
      ]

  -- The failure domain of a segment.
  abbrev pub domain_of : PlacementRequest → SegmentSpec → DomainKey
  domain_of request spec = elim request.replicas.failure_domain [
    | by_segment ↦ segment_key spec.identity.id
    | by_owner ↦ owner_key spec.identity.owner
  ]

  key_of-domain_of :
      (request : PlacementRequest) (c : Candidate) → key_of o request c ≡ domain_of request c.spec
  key_of-domain_of request c = by_case request.replicas.failure_domain
    where
      by_case :
          (f : FailureDomain)
          → domain_key c f ≡ elim f [
            | by_segment ↦ segment_key c.spec.identity.id
            | by_owner ↦ owner_key c.spec.identity.owner
          ]
      by_case by_segment = refl
      by_case by_owner = refl

  -- The failure domains of the segments that the reservations are of.
  abbrev pub keys_of : PlacementRequest → List (Placed o) → List DomainKey
  keys_of request [] = []
  keys_of request (x ∷ xs) = domain_of request x.reservation.segment ∷ keys_of request xs

  keys_of-append :
      (request : PlacementRequest) (xs : List (Placed o)) (x : Placed o)
      → keys_of request (xs ++ x ∷ [])
        ≡ keys_of request xs ++ domain_of request x.reservation.segment ∷ []
  keys_of-append request [] x = refl
  keys_of-append request (y ∷ ys) x =
      ap (λ l. domain_of request y.reservation.segment ∷ l) (keys_of-append request ys x)

  -- A replica on one of the candidates: on its incarnation, of its segment, and of the size that was
  -- asked for.
  abbrev pub Fits : PlacementRequest → List Candidate → Placed o → Type 0
  Fits request candidates x =
      (c : Candidate) × In c candidates
      × (x.attachment ≡ c.handle.entry)
      × (x.reservation.segment ≡ c.spec)
      × (x.reservation.reserved_region.size ≡ request.allocation.bytes)

  -- The candidates are handles of incarnations of the pool, each with its specification.
  abbrev pub Known : List Candidate → SegmentPool o → Type 0
  Known candidates s = All (λ c. HasSpec o c.handle.entry c.spec s) candidates

  -- What an answer to a request says, where the policy ordered the candidates.
  abbrev pub Spread :
      PlacementRequest → List Candidate → Result PlacementError (List (Placed o)) → Type 0
  Spread request candidates (ok placed) =
      Distinct (keys_of request placed)
      × All (Fits request candidates) placed
      × ((length placed ≡ request.replicas.count)
          ⊎ ((length placed < request.replicas.count) × (request.fulfillment ≡ best_effort)))
  Spread request candidates (err zero_size) = request.allocation.bytes ≡ 0
  Spread request candidates (err zero_replicas) = request.replicas.count ≡ 0
  Spread request candidates (err (insufficient_replicas requested allocated)) =
      (requested ≡ request.replicas.count)
      × (allocated < request.replicas.count)
      × (request.fulfillment ≡ all_or_nothing)
  Spread request candidates (err (reserve_failed e)) = IsFatal o request e

  module _ (request : PlacementRequest) (candidates : List Candidate) where
    record InLoop (a : LoopState o) : Type 0 where
      set : a.domains ≡ keys_of request a.placed
      apart : Distinct (keys_of request a.placed)
      fit : All (Fits request candidates) a.placed
      known : Known candidates a.pool

    pool_run-Known :
        (s t : SegmentPool o) (calls : List (PoolCommand o))
        → Known candidates s
        → pool_run o s calls ≡ some t
        → Known candidates t
    pool_run-Known s t calls k ran =
        All-mono
          (λ c h.
            pool_run-keeps o (SpecAt o c.handle.entry c.spec)
              (SpecAt-Preserved o c.handle.entry c.spec) calls s t h ran)
          candidates k

    reserve-Known :
        (s t : SegmentPool o) (c : SegmentHandle) (r : Result ReserveError (Reservation o))
        → Known candidates s
        → reserve o s c request.allocation.bytes ≡ some (t, r)
        → Known candidates t
    reserve-Known s t c r k done =
        All-mono
          (λ d h.
            reserve-keeps o (SpecAt o d.handle.entry d.spec)
              (SpecAt-Preserved o d.handle.entry d.spec) s t c request.allocation.bytes r h done)
          candidates k

    placed_on-InLoop :
        (a : LoopState o) (c : Candidate) (s : SegmentPool o) (r : Reservation o)
        → In c candidates
        → InLoop a
        → is_member (key_of o request c) a.domains ≡ false
        → reserve o a.pool c.handle request.allocation.bytes ≡ some (s, ok r)
        → InLoop (placed_on o request a c s r)
    unfolding placed_on
    placed_on-InLoop a c s r k i new done =
        let x : Placed o = record { attachment = c.handle.entry; reservation = r } in
        let here = All-at (λ d. HasSpec o d.handle.entry d.spec a.pool) c candidates i.known k in
        let (size, is) = reserve-granted a.pool s c request.allocation.bytes r here done in
        let key = key_of o request c in
        let old = keys_of request a.placed in
        let same : domain_of request r.segment ≡ key =
          ap (domain_of request) is ∙ sym (key_of-domain_of request c) in
        let e : keys_of request (a.placed ++ x ∷ []) ≡ old ++ key ∷ [] =
          keys_of-append request a.placed x ∙ ap (λ d. old ++ d ∷ []) same in
        record {
          set = ap (λ l. l ++ key ∷ []) i.set ∙ sym e;
          apart = subst Distinct (sym e) (
              Distinct-append_one key old i.apart
                (is_member-All key old (subst (λ l. is_member key l ≡ false) i.set new)));
          fit =
              All-append (Fits request candidates) a.placed (x ∷ []) i.fit
                ((c, k, refl, is, size), tt);
          known = reserve-Known a.pool s c.handle (ok r) i.known done;
        }

    abbrev Open : LoopState o → Type 0
    Open a = InLoop a × (length a.placed < request.replicas.count)

    abbrev Closed : LoopState o → Type 0
    Closed a = InLoop a × (length a.placed ≤ request.replicas.count)

    Final-Spread :
        (t : SegmentPool o) (r : Result PlacementError (List (Placed o)))
        → Final o request Open Closed t r
        → Spread request candidates r
    Final-Spread t (ok placed) (b, same, e, inl (closed, full)) =
        let size : length b.placed ≡ request.replicas.count = ground (arith, full) in
        (
          subst (λ l. Distinct (keys_of request l)) (sym e) closed.0.apart,
          subst (λ l. All (Fits request candidates) l) (sym e) closed.0.fit,
          inl (ap length e ∙ size),
        )
    Final-Spread t (ok placed) (b, same, e, inr (more, best)) = (
      subst (λ l. Distinct (keys_of request l)) (sym e) more.0.apart,
      subst (λ l. All (Fits request candidates) l) (sym e) more.0.fit,
      inr (subst (λ l. length l < request.replicas.count) (sym e) more.1, best),
    )
    Final-Spread t (err zero_size) (b, more, drops, cause) = absurd cause
    Final-Spread t (err zero_replicas) (b, more, drops, cause) = absurd cause
    Final-Spread t (err (insufficient_replicas n m)) (b, more, drops, cause) =
        (cause.0, subst (λ k. k < request.replicas.count) (sym cause.1) more.1, cause.2)
    Final-Spread t (err (reserve_failed e)) (b, more, drops, cause) = cause

    loop-Spread :
        (others : ℕ → List (PoolCommand o)) (s t : SegmentPool o)
        (r : Result PlacementError (List (Placed o)))
        → 0 < request.replicas.count
        → Known candidates s
        → reserve_loop o others request candidates (record { pool = s; domains = []; placed = [] })
          ≡ some (t, r)
        → Spread request candidates r
    unfolding placed_on
    loop-Spread others s t r some_replica known h = Final-Spread t r (
        reserve_loop-Final o request Open Closed (λ c. In c candidates) (λ calls. Unit {0})
          (λ a u calls _ p ran. (
            record {
              set = p.0.set;
              apart = p.0.apart;
              fit = p.0.fit;
              known = pool_run-Known a.pool u calls p.0.known ran;
            },
            p.1,
          ))
          (λ a c u e p done. (
            record {
              set = p.0.set;
              apart = p.0.apart;
              fit = p.0.fit;
              known = reserve-Known a.pool u c.handle (err e) p.0.known done;
            },
            p.1,
          ))
          (λ a c u x k p new done. (
            placed_on-InLoop a c u x k p.0 new done,
            omega (
              arith,
              p.1,
              length-append a.placed (record { attachment = c.handle.entry; reservation = x } ∷ []),
            ),
          ))
          (λ b q open_. (q.0, ground (arith, q.1, open_))) others candidates
          (record { pool = s; domains = []; placed = [] }) t r (λ n. tt)
          (All-In candidates candidates (λ x h. h))
          (record { set = refl; apart = tt; fit = tt; known = known }, some_replica) h)

  -- Whatever other threads do to the pool between two reservations, and for a policy that orders handles of
  -- incarnations of the pool: each reservation that a call returns is on the incarnation and of the segment
  -- of a candidate that the policy ordered, and has the requested size; the segments that the reservations
  -- are of are in different failure domains; and their number is the requested one, or less if the request
  -- accepts its best effort. A call that fails for too few replicas has found fewer than requested, and the
  -- request was all or nothing; the other refusals are of a size or a number of zero, or hand on an error of
  -- the pool, which is never that a segment does not accept or has no space.
  pub reserve_replicas-Spread :
      (others : ℕ → List (PoolCommand o)) (policy : PlacementPolicy) (s t : SegmentPool o)
      (request : PlacementRequest) (r : Result PlacementError (List (Placed o)))
      → Known (policy.order (snapshot o s) request) s
      → reserve_replicas o others policy s request ≡ some (t, r)
      → Spread request (policy.order (snapshot o s) request) r
  unfolding reserve_replicas
  reserve_replicas-Spread others policy s t request r known h =
      elim (Bool-cases (eqb request.allocation.bytes 0)) [
        | inl q ↦
            let same : err zero_size ≡ r = ground (arith, q, h) in
            subst (Spread request (policy.order (snapshot o s) request)) same (ground (arith, q))
        | inr q ↦ elim (Bool-cases (eqb request.replicas.count 0)) [
          | inl z ↦
              let same : err zero_replicas ≡ r = ground (arith, q, z, h) in
              subst (Spread request (policy.order (snapshot o s) request)) same (ground (arith, z))
          | inr z ↦
              loop-Spread request (policy.order (snapshot o s) request) others s t r
                (ground (arith, z)) known (ground (arith, q, z, h))
        ]
      ]
