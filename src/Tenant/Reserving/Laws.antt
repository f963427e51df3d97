-- ===== src/Tenant/Reserving/Laws.antt =====
-- A reservation that is granted under contention was the atomic one at its exchange: src/object/tenant/quota.rs.
use cakemaster.Base.{
  ℕ, zero, suc, ◌+◌, ◌%◌, ◌≤◌, ◌⊎◌, Bool, true, false, not, ◌&&◌, some, List, [], ◌∷◌, ◌≡◌, inl,
  inr, if◌then◌else◌, refl, sym, ◌∙◌, ap, arith, subst, eqb, eqb_iff, ltb, Bool-cases, Option-cases,
  u64_max, checked_add, wrapping_add, Result, ok, err,
}
use native.Mathlib.Nat.{mod-eq_of_lt}
use cakemaster.Base.Lists.{length}
use cakemaster.Tenant.Account.{QuotaAccount, QuotaExceeded, reserve_demand}
use cakemaster.Tenant.Reserving.{
  Reserver, starting, granted, undoing, epoch_read, added, effective_read, trying, refused,
  Administrator, idle, stored, changing, Contention, exceeded, attempt, reserver_step, Interference,
  policy_begins, other_demand, policy_goes_on, set_effective_step, begin_policy, interfere,
  own_step, ContentionStep, own, others, contention_step, contend, interfere_all, call_reserve,
}

-- The policy changes exactly while the epoch is odd.
abbrev Parity : ℕ → Administrator → Type 0
Parity epoch idle = epoch % 2 ≡ 0
Parity epoch stored = epoch % 2 ≡ 1
Parity epoch (changing effective) = epoch % 2 ≡ 1

-- What the locals of the loop say of the account, as long as the epoch is the one that was read.
abbrev Fresh : QuotaAccount → ℕ → Type 0
Fresh a epoch = (epoch % 2 ≡ 0) × (epoch ≤ a.policy_epoch)

abbrev Read : QuotaAccount → Reserver → Type 0
Read a (epoch_read epoch) = Fresh a epoch
Read a (added epoch) = Fresh a epoch
Read a (effective_read epoch effective) =
    Fresh a epoch × (a.policy_epoch ≡ epoch → effective ≡ a.effective)
Read a (trying epoch effective demand) =
    Fresh a epoch × (a.policy_epoch ≡ epoch → effective ≡ a.effective)
Read a _ = Unit

abbrev pub Fenced : Contention → Type 0
Fenced w = Parity w.account.policy_epoch w.administrator × Read w.account w.reserver

no_wrap : (n : ℕ) → n + 1 ≤ u64_max → wrapping_add n 1 ≡ n + 1
no_wrap n h = mod-eq_of_lt (omega (arith, h))

-- The demand is not part of what was read.
Read-demand :
    (a : QuotaAccount) (r : Reserver) (demand : ℕ)
    → Read a r
    → Read (record a { demand = demand }) r
Read-demand a (epoch_read epoch) demand h = h
Read-demand a (added epoch) demand h = h
Read-demand a (effective_read epoch effective) demand h = h
Read-demand a (trying epoch effective other) demand h = h
Read-demand a starting demand h = tt
Read-demand a granted demand h = tt
Read-demand a undoing demand h = tt
Read-demand a (refused e) demand h = tt

-- A later epoch, and an odd one, are not the one that was read.
Read-later :
    (a b : QuotaAccount) (r : Reserver) → b.policy_epoch ≡ a.policy_epoch + 1 → Read a r → Read b r
Read-later a b (epoch_read epoch) later (even, before) = (even, omega (arith, before, later))
Read-later a b (added epoch) later (even, before) = (even, omega (arith, before, later))
Read-later a b (effective_read epoch effective) later ((even, before), _) =
    ((even, omega (arith, before, later)), λ same. absurd (omega (arith, before, later, same)))
Read-later a b (trying epoch effective demand) later ((even, before), _) =
    ((even, omega (arith, before, later)), λ same. absurd (omega (arith, before, later, same)))
Read-later a b starting later h = tt
Read-later a b granted later h = tt
Read-later a b undoing later h = tt
Read-later a b (refused e) later h = tt

Read-stored :
    (a b : QuotaAccount) (r : Reserver)
    → b.policy_epoch ≡ a.policy_epoch
    → a.policy_epoch % 2 ≡ 1
    → Read a r
    → Read b r
Read-stored a b (epoch_read epoch) same odd (even, before) = (even, omega (arith, before, same))
Read-stored a b (added epoch) same odd (even, before) = (even, omega (arith, before, same))
Read-stored a b (effective_read epoch effective) same odd ((even, before), _) = (
  (even, omega (arith, before, same)),
  λ now. absurd (omega (arith, even, odd, ap (λ n. n % 2) (sym same ∙ now))),
)
Read-stored a b (trying epoch effective demand) same odd ((even, before), _) = (
  (even, omega (arith, before, same)),
  λ now. absurd (omega (arith, even, odd, ap (λ n. n % 2) (sym same ∙ now))),
)
Read-stored a b starting same odd h = tt
Read-stored a b granted same odd h = tt
Read-stored a b undoing same odd h = tt
Read-stored a b (refused e) same odd h = tt

-- A step of another thread moves the epoch by one at most, never back, while no u64 overflows.
abbrev Advances : Contention → Contention → Type 0
Advances w v =
    (w.account.policy_epoch ≤ v.account.policy_epoch)
    × (v.account.policy_epoch ≤ w.account.policy_epoch + 1)

next_odd : (n : ℕ) → n % 2 ≡ 0 → (n + 1) % 2 ≡ 1
next_odd n even = omega (arith, even)

next_even : (n : ℕ) → n % 2 ≡ 1 → (n + 1) % 2 ≡ 0
next_even n odd = omega (arith, odd)

interfere-Fenced :
    (i : Interference) (a : QuotaAccount) (r : Reserver) (d : Administrator)
    → a.policy_epoch + 1 ≤ u64_max
    → let w : Contention = record { account = a; reserver = r; administrator = d } in
      Fenced w
      → Fenced (interfere i w) × Advances w (interfere i w) × ((interfere i w).reserver ≡ r)
unfolding interfere set_effective_step begin_policy
interfere-Fenced (other_demand demand) a r d room (parity, read) =
    ((parity, Read-demand a r demand read), (omega arith, omega arith), refl)
interfere-Fenced (policy_begins effective) a r idle room (even, read) =
    let same = no_wrap a.policy_epoch room in
    let b : QuotaAccount = record a { policy_epoch = wrapping_add a.policy_epoch 1 } in
    (
      (
        subst (λ n. n % 2 ≡ 1) (sym same) (next_odd a.policy_epoch even),
        Read-later a b r same read,
      ),
      (omega (arith, same), omega (arith, same)),
      refl,
    )
interfere-Fenced (policy_begins effective) a r stored room h = (h, (omega arith, omega arith), refl)
interfere-Fenced (policy_begins effective) a r (changing other) room h =
    (h, (omega arith, omega arith), refl)
interfere-Fenced policy_goes_on a r idle room h = (h, (omega arith, omega arith), refl)
interfere-Fenced policy_goes_on a r (changing effective) room (odd, read) =
    let b : QuotaAccount = record a { effective = effective } in
    ((odd, Read-stored a b r refl odd read), (omega arith, omega arith), refl)
interfere-Fenced policy_goes_on a r stored room (odd, read) =
    let same = no_wrap a.policy_epoch room in
    let b : QuotaAccount = record a { policy_epoch = wrapping_add a.policy_epoch 1 } in
    (
      (
        subst (λ n. n % 2 ≡ 0) (sym same) (next_even a.policy_epoch odd),
        Read-later a b r same read,
      ),
      (omega (arith, same), omega (arith, same)),
      refl,
    )

-- What an attempt comes to: a refusal, another round, or the exchange.
abbrev Exchanged : ℕ → QuotaAccount → ℕ → ℕ → ℕ → QuotaAccount × Reserver → Type 0
Exchanged bytes a epoch effective demand r =
    (next : ℕ) × (checked_add demand bytes ≡ some next)
    × (ltb effective next ≡ false)
    × (a.demand ≡ demand)
    × (r ≡ (record a { demand = next }, added epoch))

attempt-cases :
    (bytes : ℕ) (a : QuotaAccount) (epoch effective demand : ℕ) (spurious : Bool)
    → let r = attempt bytes a epoch effective demand spurious in
      (r ≡ (a, refused (exceeded bytes demand effective)))
      ⊎ (r ≡ (a, trying epoch effective a.demand))
      ⊎ Exchanged bytes a epoch effective demand r
attempt-cases bytes a epoch effective demand spurious =
    elim (Option-cases (checked_add demand bytes)) [
      | inl over ↦ inl (ground (arith, over))
      | inr (next, sum) ↦ elim (Bool-cases (ltb effective next)) [
        | inl more ↦ inl (ground (arith, sum, more))
        | inr fits ↦ elim (Bool-cases (eqb a.demand demand && not spurious)) [
          | inr lost ↦ inr (inl (ground (arith, sum, fits, lost)))
          | inl mine ↦
              inr (inr (next, sum, fits, ground (arith, mine), ground (arith, sum, fits, mine)))
        ]
      ]
    ]

-- The reservation's own steps read what is there, or change the demand only.
own-Read :
    (bytes : ℕ) (a : QuotaAccount) (r : Reserver) (spurious : Bool)
    → Read a r
    → let next = reserver_step bytes a r spurious in
      Read next.0 next.1 × (next.0.policy_epoch ≡ a.policy_epoch)
unfolding reserver_step
own-Read bytes a starting spurious h = elim (Bool-cases (eqb (a.policy_epoch % 2) 0)) [
  | inl even ↦ rw even ((ground (arith, even), omega arith), refl)
  | inr odd ↦ rw odd (tt, refl)
]
own-Read bytes a (epoch_read epoch) spurious h = ((h, λ _. refl), refl)
own-Read bytes a (effective_read epoch effective) spurious h = (h, refl)
own-Read bytes a (trying epoch effective demand) spurious (fresh, same) =
    let Fine =
      λ (r : QuotaAccount × Reserver). Read r.0 r.1 × (r.0.policy_epoch ≡ a.policy_epoch) in
    elim (attempt-cases bytes a epoch effective demand spurious) [
      | inl no_room ↦ subst Fine (sym no_room) (tt, refl)
      | inr (inl again) ↦ subst Fine (sym again) ((fresh, same), refl)
      | inr (inr (next, _, _, _, done)) ↦ subst Fine (sym done) (fresh, refl)
    ]
own-Read bytes a (added epoch) spurious h = elim (Bool-cases (eqb a.policy_epoch epoch)) [
  | inl same ↦ rw same (tt, refl)
  | inr other ↦ rw other (tt, refl)
]
own-Read bytes a undoing spurious h = (tt, refl)
own-Read bytes a granted spurious h = (tt, refl)
own-Read bytes a (refused e) spurious h = (tt, refl)

step-Fenced :
    (bytes : ℕ) (x : ContentionStep) (w : Contention)
    → w.account.policy_epoch + 1 ≤ u64_max
    → Fenced w
    → Fenced (contention_step bytes x w) × Advances w (contention_step bytes x w)
unfolding contention_step own_step
step-Fenced bytes (own spurious) w room (parity, read) =
    let (after, same) = own-Read bytes w.account w.reserver spurious read in
    (
      (subst (λ n. Parity n w.administrator) (sym same) parity, after),
      (omega (arith, same), omega (arith, same)),
    )
step-Fenced bytes (others i) w room h =
    let next = interfere-Fenced i w.account w.reserver w.administrator room h in (next.0, next.1)

contend-Fenced :
    (bytes : ℕ) (xs : List ContentionStep) (w : Contention)
    → w.account.policy_epoch + length xs ≤ u64_max
    → Fenced w
    → Fenced (contend bytes xs w)
      × ((contend bytes xs w).account.policy_epoch ≤ w.account.policy_epoch + length xs)
unfolding contend
contend-Fenced bytes [] w room h = (h, omega arith)
contend-Fenced bytes (x ∷ xs) w room h =
    let (next, (_, less)) = step-Fenced bytes x w (omega (arith, room)) h in
    let (last, bound) =
      contend-Fenced bytes xs (contention_step bytes x w) (omega (arith, room, less)) next in
    (last, omega (arith, bound, less))

-- While others go on, the epoch does not go back, and the reservation stays where it is.
interfere_all-Advances :
    (is : List Interference) (w : Contention)
    → w.account.policy_epoch + length is ≤ u64_max
    → Fenced w
    → (w.account.policy_epoch ≤ (interfere_all is w).account.policy_epoch)
      × ((interfere_all is w).reserver ≡ w.reserver)
unfolding interfere_all
interfere_all-Advances [] w room h = (omega arith, refl)
interfere_all-Advances (i ∷ is) w room h =
    let (next, (more, less), same) =
      interfere-Fenced i w.account w.reserver w.administrator (omega (arith, room)) h in
    let (later, still) =
      interfere_all-Advances is (interfere i w) (omega (arith, room, less)) next in
    (omega (arith, later, more), still ∙ same)

-- Where the exchange is made with the epoch that was read, it is the atomic reservation.
exchange-atomic :
    (bytes : ℕ) (a : QuotaAccount) (epoch effective demand : ℕ) (spurious : Bool)
    → (reserver_step bytes a (trying epoch effective demand) spurious).1 ≡ added epoch
    → effective ≡ a.effective
    → reserve_demand a bytes ≡ ok (reserver_step bytes a (trying epoch effective demand) spurious).0
unfolding reserver_step reserve_demand
exchange-atomic bytes a epoch effective demand spurious done same =
    elim (attempt-cases bytes a epoch effective demand spurious) [
      | inl no_room ↦ absurd (ground (arith, done, no_room))
      | inr (inl again) ↦ absurd (ground (arith, done, again))
      | inr (inr (next, sum, fits, here, is)) ↦ ground (arith, sum, fits, here, same, is)
    ]

-- The last look at the epoch grants the reservation only if it is the one that was read.
granted-epoch :
    (bytes : ℕ) (a : QuotaAccount) (r : Reserver) (epoch : ℕ) (spurious : Bool)
    → r ≡ added epoch
    → (reserver_step bytes a r spurious).1 ≡ granted
    → a.policy_epoch ≡ epoch
unfolding reserver_step
granted-epoch bytes a r epoch spurious is done =
    let looked : (reserver_step bytes a (added epoch) spurious).1 ≡ granted =
      subst (λ x. (reserver_step bytes a x spurious).1 ≡ granted) is done in
    elim (Bool-cases (eqb a.policy_epoch epoch)) [
      | inl same ↦ (eqb_iff a.policy_epoch epoch).0 same
      | inr other ↦ absurd (ground (arith, looked, other))
    ]

-- Whatever other threads do between the operations of a reservation, and however often its weak exchange
-- fails: when it is granted, then what its last exchange did to the account is exactly what the whole
-- reservation does in one step, in the account as it stood there. So the demand that it left was within
-- the quota in force. The operations together change the epoch less than 2^64 times.
pub granted_atomically :
    (bytes : ℕ) (a : QuotaAccount) (before : List ContentionStep) (between : List Interference)
    (epoch effective demand : ℕ) (first second : Bool)
    → a.policy_epoch % 2 ≡ 0
    → a.policy_epoch + length before + length between ≤ u64_max
    → let w = contend bytes before (call_reserve a) in
      w.reserver ≡ trying epoch effective demand
      → (own_step bytes first w).reserver ≡ added epoch
      → (own_step bytes second (interfere_all between (own_step bytes first w))).reserver ≡ granted
      → reserve_demand w.account bytes ≡ ok (own_step bytes first w).account
unfolding own_step
granted_atomically bytes a before between epoch effective demand first second even room at_try
      at_add at_grant =
    let w = contend bytes before (call_reserve a) in
    let w' = own_step bytes first w in
    let w'' = interfere_all between w' in
    let (fenced, bound) =
      contend-Fenced bytes before (call_reserve a) (omega (arith, room)) (even, tt) in
    let read : Read w.account (trying epoch effective demand) =
      subst (λ r. Read w.account r) at_try fenced.1 in
    let (after, kept) = own-Read bytes w.account w.reserver first fenced.1 in
    let fenced' : Fenced w' = (subst (λ n. Parity n w.administrator) (sym kept) fenced.0, after) in
    let (later, still) =
      interfere_all-Advances between w' (omega (arith, room, bound, kept)) fenced' in
    let last =
      granted-epoch bytes w''.account w''.reserver epoch second (still ∙ at_add) at_grant in
    let now : w.account.policy_epoch ≡ epoch = omega (arith, read.0.1, later, last, kept) in
    subst
      (λ r.
        (reserver_step bytes w.account r first).1 ≡ added epoch
        → reserve_demand w.account bytes ≡ ok (reserver_step bytes w.account r first).0)
      (sym at_try)
      (λ done. exchange-atomic bytes w.account epoch effective demand first done (read.1 now))
      at_add

-- What the whole reservation answers, as the loop shows it.
abbrev pub Answered : QuotaAccount → Result QuotaExceeded QuotaAccount → Contention → Type 0
Answered a (ok b) w = (w.reserver ≡ granted) × (w.account ≡ b)
Answered a (err e) w = (w.reserver ≡ refused e) × (w.account ≡ a)

-- So many failures of the weak exchange without a cause, and then the given operations.
abbrev pub failures : ℕ → List ContentionStep → List ContentionStep
failures zero xs = xs
failures (suc n) xs = own true ∷ failures n xs

-- The operations of a reservation that is alone.
abbrev pub undisturbed : ℕ → List ContentionStep
undisturbed n = own false ∷ own false ∷ own false ∷ failures n (own false ∷ own false ∷ [])

-- The last operation, from what the attempt came to.
abbrev looked : ℕ → QuotaAccount × Reserver → Contention
looked bytes r =
    contend bytes (own false ∷ []) (record { account = r.0; reserver = r.1; administrator = idle })

attempt-Answered :
    (bytes : ℕ) (a : QuotaAccount)
    → Answered a
        (reserve_demand a bytes)
        (looked bytes (attempt bytes a a.policy_epoch a.effective a.demand false))
unfolding contend contention_step own_step reserver_step reserve_demand
attempt-Answered bytes a =
    let r = attempt bytes a a.policy_epoch a.effective a.demand false in
    let refusal = exceeded bytes a.demand a.effective in
    let Goal = λ (x : Result QuotaExceeded QuotaAccount) (q : QuotaAccount × Reserver).
      Answered a x (looked bytes q) in
    let same : eqb a.demand a.demand ≡ true = (eqb_iff a.demand a.demand).1 refl in
    let still : eqb a.policy_epoch a.policy_epoch ≡ true =
      (eqb_iff a.policy_epoch a.policy_epoch).1 refl in
    elim (Option-cases (checked_add a.demand bytes)) [
      | inl over ↦
          let answer : err refusal ≡ reserve_demand a bytes = ground (arith, over) in
          let ends : (a, refused refusal) ≡ r = ground (arith, over) in
          subst (λ x. Goal x r) answer (subst (λ q. Goal (err refusal) q) ends (refl, refl))
      | inr (next, sum) ↦ elim (Bool-cases (ltb a.effective next)) [
        | inl more ↦
            let answer : err refusal ≡ reserve_demand a bytes = ground (arith, sum, more) in
            let ends : (a, refused refusal) ≡ r = ground (arith, sum, more) in
            subst (λ x. Goal x r) answer (subst (λ q. Goal (err refusal) q) ends (refl, refl))
        | inr fits ↦
            let b : QuotaAccount = record a { demand = next } in
            let answer : ok b ≡ reserve_demand a bytes = ground (arith, sum, fits) in
            let ends : (b, added a.policy_epoch) ≡ r = ground (arith, sum, fits, same) in
            subst (λ x. Goal x r) answer (subst (λ q. Goal (ok b) q) ends (rw still (refl, refl)))
      ]
    ]

-- A refusal is the end.
refused-contend :
    (bytes : ℕ) (n : ℕ) (a : QuotaAccount) (e : QuotaExceeded)
    → let w : Contention = record { account = a; reserver = refused e; administrator = idle } in
      contend bytes (failures n (own false ∷ own false ∷ [])) w ≡ w
unfolding contend contention_step own_step reserver_step
refused-contend bytes zero a e = refl
refused-contend bytes (suc n) a e = refused-contend bytes n a e

-- From the first attempt on.
abbrev first_try : QuotaAccount → Contention
first_try a = record {
  account = a;
  reserver = trying a.policy_epoch a.effective a.demand;
  administrator = idle;
}

abbrev after_attempt : QuotaAccount × Reserver → Contention
after_attempt r = record { account = r.0; reserver = r.1; administrator = idle }

-- An attempt whose exchange may fail without a cause refuses as the whole reservation does, or leaves
-- things as they were.
spurious_attempt :
    (bytes : ℕ) (a : QuotaAccount)
    → let r = attempt bytes a a.policy_epoch a.effective a.demand true in
      (((e : QuotaExceeded) × (reserve_demand a bytes ≡ err e) × (r ≡ (a, refused e)))
        ⊎ (r ≡ (a, trying a.policy_epoch a.effective a.demand)))
unfolding reserve_demand
spurious_attempt bytes a =
    let refusal = exceeded bytes a.demand a.effective in
    elim (Option-cases (checked_add a.demand bytes)) [
      | inl over ↦ inl (refusal, ground (arith, over), ground (arith, over))
      | inr (next, sum) ↦ elim (Bool-cases (ltb a.effective next)) [
        | inl more ↦ inl (refusal, ground (arith, sum, more), ground (arith, sum, more))
        | inr fits ↦ inr (ground (arith, sum, fits))
      ]
    ]

tries-Answered :
    (bytes n : ℕ) (a : QuotaAccount)
    → Answered a
        (reserve_demand a bytes)
        (contend bytes (failures n (own false ∷ own false ∷ [])) (first_try a))
unfolding contend contention_step own_step reserver_step
tries-Answered bytes zero a = attempt-Answered bytes a
tries-Answered bytes (suc n) a =
    let rest = failures n (own false ∷ own false ∷ []) in
    let r = attempt bytes a a.policy_epoch a.effective a.demand true in
    let Goal = λ (x : Result QuotaExceeded QuotaAccount) (w : Contention). Answered a x w in
    elim (spurious_attempt bytes a) [
      | inl (e, no_room, ends) ↦
          let same : (after_attempt (a, refused e)) ≡ contend bytes rest (after_attempt r) =
            sym (refused-contend bytes n a e)
            ∙ ap (λ q. contend bytes rest (after_attempt q)) (sym ends) in
          subst (λ w. Goal (reserve_demand a bytes) w) same
            (subst (λ x. Goal x (after_attempt (a, refused e))) (sym no_room) (refl, refl))
      | inr back ↦
          subst (λ q. Goal (reserve_demand a bytes) (contend bytes rest (after_attempt q)))
            (sym back) (tries-Answered bytes n a)
    ]

-- With no other thread and no change of the policy under way, a reservation whose weak exchange fails n
-- times without a cause ends after n + 5 operations, whatever n is, and answers and leaves what the whole
-- reservation does in one step: it is granted or refused alike, with the same numbers in the refusal.
pub reserve_alone :
    (bytes n : ℕ) (a : QuotaAccount)
    → a.policy_epoch % 2 ≡ 0
    → Answered a (reserve_demand a bytes) (contend bytes (undisturbed n) (call_reserve a))
unfolding contend contention_step own_step reserver_step reserve_demand
reserve_alone bytes n a even =
    let start : eqb (a.policy_epoch % 2) 0 ≡ true = (eqb_iff (a.policy_epoch % 2) 0).1 even in
    subst
      (λ b. Answered a (reserve_demand a bytes) (
        contend bytes (own false ∷ own false ∷ failures n (own false ∷ own false ∷ [])) (record {
          account = a;
          reserver = if b then epoch_read a.policy_epoch else starting;
          administrator = idle;
        })))
      (sym start) (tries-Answered bytes n a)
