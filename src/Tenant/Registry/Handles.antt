-- ===== src/Tenant/Registry/Handles.antt =====
-- The calls of the registry let the version of a tenant only grow.
use cakemaster.Base.{
  ℕ, ◌+◌, ◌*◌, ◌≤◌, Option, none, some, ◌≡◌, ◌∙◌, refl, sym, ap, subst, inl, inr, arith,
  if◌then◌else◌, eqb, leb, leb→le, ok, Bool-cases, Option-cases, Result-cases, ◌==◌,
}
use mathlib.Core.Option.{some_inj}
use cakemaster.Base.Table.{Table, get, insert}
use cakemaster.Identity.{string_eq}
use cakemaster.Tenant.Account.{set_effective}
use cakemaster.Tenant.Registry.Words.{
  registered_state, removed_state, max_generation, tenant_version, tenant_generation, tenant_state,
  with_tenant_state, with_tenant_state_lem,
}
use cakemaster.Tenant.Registry.Defs.{TenantId, TenantEntry, TenantRegistry, recompute_with_capacity}
use cakemaster.Tenant.Registry.Calls.{
  put_tenant, is_empty_entry, prepare_upsert, set_version, upsert, delete,
}
use cakemaster.Tenant.Registry.Versions.{
  version_of, version_at, version_at-insert, version_at-recompute, version_at-set_version, found_of,
  rank, Past, final_version, rank-tenant_version,
}

prepare_upsert-rank :
    (r : TenantRegistry) (requested next : ℕ) (e e' : TenantEntry) (publish : Option ℕ)
    → prepare_upsert r requested (some e) ≡ ok (e', next, publish)
    → rank e.version ≤ rank (final_version e' publish)
unfolding prepare_upsert
prepare_upsert-rank r requested next e e' publish h =
    elim (Bool-cases (eqb (tenant_state e.version) registered_state)) [
      | inl q ↦
          let none_published : none ≡ publish = ground (arith, q, h) in
          let same : e'.version ≡ e.version = ground (arith, q, h) in
          subst (λ p. rank e.version ≤ rank (final_version e' p)) none_published
            (omega (arith, ap rank same))
      | inr q ↦ elim (Bool-cases (eqb (tenant_state e.version) removed_state)) [
        | inr z ↦ absurd (ground (arith, q, z, h))
        | inl z ↦ elim (Bool-cases (is_empty_entry e)) [
          | inr w ↦ absurd (ground (arith, q, z, w, h))
          | inl w ↦ elim (Bool-cases (leb (tenant_generation e.version + 1) max_generation)) [
            | inr x ↦ absurd (ground (arith, q, z, w, x, h))
            | inl x ↦
                let published : some
                      (tenant_version (tenant_generation e.version + 1) registered_state)
                    ≡ publish =
                  ground (arith, q, z, w, x, h) in
                subst (λ p. rank e.version ≤ rank (final_version e' p)) published
                  (ground (
                    arith,
                    q,
                    x,
                    rank-tenant_version (tenant_generation e.version + 1)
                        (leb→le (tenant_generation e.version + 1) max_generation x),
                  ))
          ]
        ]
      ]
    ]

version_at-published :
    (capacity epoch : ℕ) (p : TenantRegistry) (d : Table TenantId TenantEntry) (id j : TenantId)
    (e : TenantEntry) (publish : Option ℕ)
    → p.directory ≡ insert id e d
    → version_at j (set_version id publish (recompute_with_capacity capacity epoch p)).directory
      ≡ (if id == j then some (final_version e publish) else version_at j d)
unfolding set_version
version_at-published capacity epoch p d id j e none same =
    version_at-recompute capacity epoch p j ∙ ap (version_at j) same ∙ version_at-insert id j e d
version_at-published capacity epoch p d id j e (some v) same =
    let q = recompute_with_capacity capacity epoch p in
    let at = λ (k : TenantId).
      version_at-recompute capacity epoch p k
      ∙ ap (version_at k) same
      ∙ version_at-insert id k e d in
    let here =
      found_of id q.directory e.version
        (ground (arith, at id, (string_eq.equal_iff id id).1 refl)) in
    ground (arith, version_at-set_version id j v q here.0 here.1, at j)

pub delete-version :
    (capacity epoch : ℕ) (r t : TenantRegistry) (id j : TenantId)
    → delete (capacity, epoch) r id ≡ ok t
    → (e : TenantEntry) × (get id r.directory ≡ some e)
      × (tenant_state e.version ≡ registered_state)
      × (version_at j t.directory ≡ (
          if id == j
          then some (with_tenant_state e.version removed_state)
          else version_at j r.directory))
unfolding delete
delete-version capacity epoch r t id j h = elim (Bool-cases r.single) [
  | inl q ↦ absurd (ground (arith, q, h))
  | inr q ↦ elim (Option-cases (get id r.directory)) [
    | inl z ↦ absurd (ground (arith, q, z, h))
    | inr (e, z) ↦ elim (Bool-cases (eqb (tenant_state e.version) registered_state)) [
      | inr w ↦ absurd (ground (arith, q, z, w, h))
      | inl w ↦ elim (Bool-cases (is_empty_entry e)) [
        | inr x ↦ absurd (ground (arith, q, z, w, x, h))
        | inl x ↦
            let gone : TenantEntry = record e {
              version = with_tenant_state e.version removed_state;
              memory = set_effective e.memory 0;
            } in
            let same : recompute_with_capacity capacity epoch (put_tenant r id gone) ≡ t =
              ground (arith, q, z, w, x, h) in
            (
              e,
              z,
              ground (arith, w),
              subst
                  (λ (u : TenantRegistry).
                    version_at j u.directory
                    ≡ (if id == j then some gone.version else version_at j r.directory))
                  same
                  (version_at-recompute capacity epoch (put_tenant r id gone) j
                    ∙ version_at-insert id j gone r.directory),
            )
      ]
    ]
  ]
]

pub rank-removed : (v : ℕ) → rank (with_tenant_state v removed_state) ≡ tenant_generation v * 2 + 1
rank-removed v =
    let l = with_tenant_state_lem v removed_state (omega arith) in ground (arith, l.0, l.1)

module _ (g : ℕ) where
  pub Past-same :
      (r t : TenantRegistry) (j : TenantId)
      → version_at j t.directory ≡ version_at j r.directory
      → Past g r j
      → Past g t j
  Past-same r t j same (v, at, more) = (v, same ∙ at, more)

  pub published-Past :
      (r t : TenantRegistry) (id j : TenantId) (v : ℕ)
      → version_at j t.directory ≡ (if id == j then some v else version_at j r.directory)
      → (version_at id r.directory ≡ version_at j r.directory → g ≤ rank v)
      → Past g r j
      → Past g t j
  published-Past r t id j v at more (w, old, past) = elim (Bool-cases (id == j)) [
    | inl q ↦
        let same : id ≡ j = (string_eq.equal_iff id j).0 q in
        (v, ground (arith, at, q), more (ap (λ k. version_at k r.directory) same))
    | inr q ↦ (w, ground (arith, at, q, old), past)
  ]

  pub upsert-Past :
      (capacity epoch : ℕ) (r t : TenantRegistry) (id j : TenantId) (requested : ℕ)
      → upsert (capacity, epoch) r id requested ≡ ok t
      → Past g r j
      → Past g t j
  unfolding upsert
  upsert-Past capacity epoch r t id j requested h past = elim (Bool-cases r.single) [
    | inl q ↦ absurd (ground (arith, q, h))
    | inr q ↦ elim (Result-cases (prepare_upsert r requested (get id r.directory))) [
      | inl (e, z) ↦ absurd (ground (arith, q, z, h))
      | inr ((e, next, publish), z) ↦
          let p : TenantRegistry = record (put_tenant r id e) { next_namespace = next } in
          let same : set_version id publish (recompute_with_capacity capacity epoch p) ≡ t =
            ground (arith, q, z, h) in
          subst (λ u. Past g u j) same
            (published-Past r (set_version id publish (recompute_with_capacity capacity epoch p)) id
              j (final_version e publish)
              (version_at-published capacity epoch p r.directory id j e publish refl)
              (λ k.
                let old = found_of id r.directory past.0 (k ∙ past.1) in
                let ranks =
                  prepare_upsert-rank r requested next old.0 e publish
                    (ap (prepare_upsert r requested) (sym old.1) ∙ z) in
                omega (arith, past.2, ranks, ap rank old.2))
              past)
    ]
  ]

  pub delete-Past :
      (capacity epoch : ℕ) (r t : TenantRegistry) (id j : TenantId)
      → delete (capacity, epoch) r id ≡ ok t
      → Past g r j
      → Past g t j
  delete-Past capacity epoch r t id j h past =
      let d = delete-version capacity epoch r t id j h in
      published-Past r t id j (with_tenant_state d.0.version removed_state) d.3
        (λ k.
          let v : d.0.version ≡ past.0 = some_inj.0 (sym (ap version_of d.1) ∙ k ∙ past.1) in
          ground (arith, rank-removed d.0.version, d.2, past.2, ap rank v))
        past
