-- ===== src/Tenant/Registry/Fencing.antt =====
-- What is granted of a tenant that is removed, under every interleaving of the steps of Admission.antt: no
-- byte. A reservation of no bytes may outlast the tenant.
use cakemaster.Base.{
  ℕ, ◌+◌, ◌≤◌, ◌&&◌, some, List, [], ◌∷◌, ◌≡◌, refl, ap, ◌∙◌, subst, inl, inr, arith, eqb, leb,
  Bool-cases, Option-cases, Result-cases,
}
use mathlib.Core.Option.{some_inj}
use cakemaster.Tenant.Account.{QuotaAccount, reserve_demand, release_reserved, set_effective}
use cakemaster.Tenant.Charges.{reserve_demand_lem}
use cakemaster.Tenant.Registry.Words.{
  registered_state, closing_state, removed_state, max_generation, tenant_version, tenant_generation,
  tenant_state, with_tenant_state, tenant_version_lem, with_tenant_state_lem,
}
use cakemaster.Tenant.Registry.Admission.{
  Administration, idle, deleting, activating, Admission, AdmissionStep, adding, looking,
  giving_back, closing, inspecting, reviving, publishing, changing_effective, take_at,
  add_reservation, look, start_delete, finish_delete, start_revival, publish_version,
  admission_step, admission_run, new_admission,
}
use cakemaster.Tenant.Registry.Fit.{
  sum, WordsFit, AdmissionInv, take_at-sum, take_at-All, WordsFit-less, WordsFit-registered,
}

add_reservation-Inv :
    (a b : Admission) (bytes expected : ℕ)
    → AdmissionInv a
    → add_reservation a bytes expected ≡ some b
    → AdmissionInv b
unfolding add_reservation
add_reservation-Inv a b bytes expected i h =
    elim (Bool-cases (eqb (tenant_state expected) registered_state)) [
      | inr q ↦ absurd (ground (arith, q, h))
      | inl q ↦ elim (Result-cases (reserve_demand a.memory bytes)) [
        | inl (e, z) ↦ let same : a ≡ b = ground (arith, q, z, h) in subst AdmissionInv same i
        | inr (memory, z) ↦
            let same : record a { memory = memory; checking = (bytes, expected) ∷ a.checking } ≡ b =
              ground (arith, q, z, h) in
            let more =
              ap (λ (m : QuotaAccount). m.demand) (reserve_demand_lem a.memory memory bytes z).0 in
            subst AdmissionInv same (record {
              balance = omega (arith, more, i.balance);
              handles = (ground (arith, q), i.handles);
              words = i.words;
            })
      ]
    ]

look-Inv :
    (a : Admission) (n : ℕ) (x : ℕ × ℕ) (rest : List (ℕ × ℕ))
    → AdmissionInv a
    → take_at n a.checking ≡ some (x, rest)
    → AdmissionInv (look a x rest)
unfolding look release_reserved
look-Inv a n (bytes, expected) rest i h =
    let s = take_at-sum (λ x. x.0) n a.checking (bytes, expected) rest h in
    let k =
      take_at-All (λ x. tenant_state x.1 ≡ registered_state) n a.checking (bytes, expected) rest
        i.handles h in
    elim (Bool-cases (eqb a.version expected)) [
      | inl q ↦
          let same : a.version ≡ expected = ground (arith, q) in
          rw q (record {
            balance = omega (arith, s, i.balance);
            handles = k.1;
            words =
                WordsFit-registered a.administration a.version (sum a.granted)
                  (bytes + sum a.granted) (ap tenant_state same ∙ k.0) i.words;
          })
      | inr q ↦
          rw q (record { balance = omega (arith, s, i.balance); handles = k.1; words = i.words })
    ]

start_delete-Inv :
    (w : Administration) (a b : Admission)
    → a.administration ≡ w
    → AdmissionInv a
    → start_delete w a ≡ some b
    → AdmissionInv b
unfolding start_delete
start_delete-Inv idle a b e i h =
    elim (Bool-cases (eqb (tenant_state a.version) registered_state)) [
      | inr q ↦ absurd (ground (arith, q, h))
      | inl q ↦
          let same : record a {
            version = with_tenant_state a.version closing_state;
            administration = deleting a.version;
          }
              ≡ b =
            ground (arith, q, h) in
          subst AdmissionInv same (record {
            balance = i.balance;
            handles = i.handles;
            words = (
              (with_tenant_state_lem a.version closing_state (omega arith)).1,
              ground (arith, q),
            );
          })
    ]
start_delete-Inv (deleting v) a b e i h = absurd cc
start_delete-Inv (activating v) a b e i h = absurd cc

finish_delete-Inv :
    (w : Administration) (a b : Admission)
    → a.administration ≡ w
    → AdmissionInv a
    → finish_delete w a ≡ some b
    → AdmissionInv b
unfolding finish_delete
finish_delete-Inv (deleting v) a b e i h =
    let words : WordsFit (deleting v) a.version (sum a.granted) =
      subst (λ w. WordsFit w a.version (sum a.granted)) e i.words in
    elim (Bool-cases (eqb a.memory.demand 0)) [
      | inl q ↦
          let same : record a { version = with_tenant_state v removed_state; administration = idle }
              ≡ b =
            ground (arith, q, h) in
          subst AdmissionInv same (record {
            balance = i.balance;
            handles = i.handles;
            words = inr (
              (with_tenant_state_lem v removed_state (omega arith)).1,
              ground (arith, q, i.balance),
            );
          })
      | inr q ↦
          let same : record a { version = v; administration = idle } ≡ b = ground (arith, q, h) in
          subst AdmissionInv same
            (record { balance = i.balance; handles = i.handles; words = inl words.1 })
    ]
finish_delete-Inv idle a b e i h = absurd cc
finish_delete-Inv (activating v) a b e i h = absurd cc

start_revival-Inv :
    (w : Administration) (a b : Admission)
    → a.administration ≡ w
    → AdmissionInv a
    → start_revival w a ≡ some b
    → AdmissionInv b
unfolding start_revival
start_revival-Inv idle a b e i h =
    let g = tenant_generation a.version + 1 in
    elim (Bool-cases (
      eqb (tenant_state a.version) removed_state
      && eqb a.memory.demand 0
      && leb g max_generation)) [
        | inr q ↦ absurd (ground (arith, q, h))
        | inl q ↦
            let fits : g ≤ max_generation = ground (arith, q) in
            let same : record a {
              version = tenant_version g closing_state;
              administration = activating (tenant_version g registered_state);
            }
                ≡ b =
              ground (arith, q, h) in
            subst AdmissionInv same (record {
              balance = i.balance;
              handles = i.handles;
              words = (
                (tenant_version_lem g closing_state fits (omega arith)).1,
                (tenant_version_lem g registered_state fits (omega arith)).1,
                ground (arith, q, i.balance),
              );
            })
      ]
start_revival-Inv (deleting v) a b e i h = absurd cc
start_revival-Inv (activating v) a b e i h = absurd cc

publish_version-Inv :
    (w : Administration) (a b : Admission)
    → a.administration ≡ w
    → AdmissionInv a
    → publish_version w a ≡ some b
    → AdmissionInv b
unfolding publish_version
publish_version-Inv (activating v) a b e i h =
    let words : WordsFit (activating v) a.version (sum a.granted) =
      subst (λ w. WordsFit w a.version (sum a.granted)) e i.words in
    let same : record a { version = v; administration = idle } ≡ b = ground (arith, h) in
    subst AdmissionInv same
      (record { balance = i.balance; handles = i.handles; words = inl words.1 })
publish_version-Inv idle a b e i h = absurd cc
publish_version-Inv (deleting v) a b e i h = absurd cc

admission_step-Inv :
    (a b : Admission) (c : AdmissionStep)
    → AdmissionInv a
    → admission_step a c ≡ some b
    → AdmissionInv b
unfolding admission_step release_reserved set_effective
admission_step-Inv a b (adding bytes expected) i h = add_reservation-Inv a b bytes expected i h
admission_step-Inv a b (looking n) i h = elim (Option-cases (take_at n a.checking)) [
  | inl q ↦ absurd (ground (arith, q, h))
  | inr ((x, rest), q) ↦
      let same : look a x rest ≡ b = ground (arith, q, h) in
      subst AdmissionInv same (look-Inv a n x rest i q)
]
admission_step-Inv a b (giving_back n) i h = elim (Option-cases (take_at n a.granted)) [
  | inl q ↦ absurd (ground (arith, q, h))
  | inr ((bytes, rest), q) ↦
      let s = take_at-sum (λ n. n) n a.granted bytes rest q in
      let same : record a { memory = release_reserved a.memory bytes; granted = rest } ≡ b =
        ground (arith, q, h) in
      subst AdmissionInv same (record {
        balance = omega (arith, s, i.balance);
        handles = i.handles;
        words =
            WordsFit-less a.administration a.version (sum a.granted) (sum rest) (omega (arith, s))
              i.words;
      })
]
admission_step-Inv a b closing i h = start_delete-Inv a.administration a b refl i h
admission_step-Inv a b inspecting i h = finish_delete-Inv a.administration a b refl i h
admission_step-Inv a b reviving i h = start_revival-Inv a.administration a b refl i h
admission_step-Inv a b publishing i h = publish_version-Inv a.administration a b refl i h
admission_step-Inv a b (changing_effective bytes) i h =
    subst AdmissionInv (some_inj.0 h)
      (record { balance = i.balance; handles = i.handles; words = i.words })

run-Inv :
    (cs : List AdmissionStep) (a b : Admission)
    → AdmissionInv a
    → admission_run a cs ≡ some b
    → AdmissionInv b
unfolding admission_run
run-Inv [] a b i h = subst AdmissionInv (some_inj.0 h) i
run-Inv (c ∷ cs) a b i h = elim (Option-cases (admission_step a c)) [
  | inl q ↦ absurd (ground (arith, q, h))
  | inr (u, q) ↦ run-Inv cs u b (admission_step-Inv a u c i q) (ground (arith, q, h))
]

-- From the insertion of a tenant on, under every interleaving of reservations, their release, new
-- effective quotas and the administration, where a reservation is two steps (all of `reserve_demand`, and
-- the look at the version), a new effective quota is one, and no reservation is resized: the demand of
-- the account is the sum of the bytes granted and of those between the two steps, the handles of these
-- are of a registered tenant, and no byte is granted of a tenant that is removed or that is being
-- registered again.
pub admission_run-Inv :
    (requested : ℕ) (cs : List AdmissionStep) (b : Admission)
    → admission_run (new_admission requested) cs ≡ some b
    → AdmissionInv b
admission_run-Inv requested cs b h =
    run-Inv cs (new_admission requested) b
      (record {
        balance = refl;
        handles = tt;
        words = (
          (tenant_version_lem 1 closing_state (omega arith) (omega arith)).1,
          (tenant_version_lem 1 registered_state (omega arith) (omega arith)).1,
          refl,
        );
      })
      h
