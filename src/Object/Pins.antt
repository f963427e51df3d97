-- ===== src/Object/Pins.antt =====
-- The pins of a version, from the request to the expiry.
use cakemaster.Base.{
  ℕ, ◌≤◌, Bool, false, Option, none, some, ◌≡◌, inl, inr, refl, arith, ltb, leb, eqb,
  saturating_add, ◌||◌, Bool-cases, ok, not, ◌&&◌,
}
use cakemaster.Object.Access.{
  SoftPinAction, preserve, enable, disable, AccessControl, ResolvedPinRequest, ObjectCatalogConfig,
  ObjectPinRequest, validate_config, resolve_pin_request, resolve_ttl, is_soft_pinned, for_commit,
  committed_soft_pin, base_hard_pinned, expire_soft_pin,
}

-- Whether the version that is replaced is soft-pinned.
abbrev pub base_soft_pinned : Option AccessControl → ℕ → Bool
base_soft_pinned none now = false
base_soft_pinned (some base) now = is_soft_pinned base now

-- What a commit at `now` with the action makes of the soft pin, seen at the time `t`.
abbrev pub pinned_after : Option AccessControl → SoftPinAction → ℕ → ℕ → ℕ → Bool
pinned_after base preserve ttl now t = base_soft_pinned base t
pinned_after base enable ttl now t = not (eqb ttl 0) && ltb t (saturating_add now ttl)
pinned_after base disable ttl now t = false

pinned_lem :
    (base : Option AccessControl) (pins : ResolvedPinRequest) (action : SoftPinAction) (now t : ℕ)
    (a : AccessControl)
    → now ≤ t
    → a.soft_pin_word ≡ committed_soft_pin base pins action now
    → is_soft_pinned a t ≡ pinned_after base action pins.ttl_ticks now t
pinned_lem none pins preserve now t a h q = ground (arith, h, q)
pinned_lem (some base) pins preserve now t a h q = ground (arith, h, q)
pinned_lem base pins enable now t a h q = ground (arith, h, q)
pinned_lem base pins disable now t a h q = ground (arith, h, q)

-- From the commit on, the new version is soft-pinned exactly as the action says: with `preserve` while
-- the old version would have been, with `enable` for the time to live, which pins nothing when it is 0,
-- and never with `disable`. It is hard-pinned when the old version was or the request says so, and it
-- starts without a lease.
pub for_commit_lem :
    (base : Option AccessControl) (pins : ResolvedPinRequest) (now t : ℕ)
    → now ≤ t
    → (is_soft_pinned (for_commit base pins now) t
        ≡ pinned_after base pins.action pins.ttl_ticks now t)
      × ((for_commit base pins now).hard_pinned ≡ (base_hard_pinned base || pins.hard_pin))
      × ((for_commit base pins now).lease_word ≡ 0)
unfolding for_commit
for_commit_lem base pins now t h =
    (pinned_lem base pins pins.action now t (for_commit base pins now) h refl, refl, refl)

-- The expiry of a soft pin never takes away a pin that is still in force, also when the pin was renewed
-- after the deadline was queued; it reports whether the deadline had passed and was still the current
-- one.
pub expire_soft_pin_lem :
    (a : AccessControl) (expected now t : ℕ)
    → now ≤ t
    → (is_soft_pinned (expire_soft_pin a expected now).1 t ≡ is_soft_pinned a t)
      × ((expire_soft_pin a expected now).0 ≡ (leb expected now && eqb a.soft_pin_word expected))
unfolding expire_soft_pin
expire_soft_pin_lem a expected now t h = elim (Bool-cases (leb expected now)) [
  | inl e ↦ elim (Bool-cases (eqb a.soft_pin_word expected)) [
    | inl f ↦ rw (e, f) (ground (arith, e, f, h), refl)
    | inr f ↦ rw (e, f) (refl, refl)
  ]
  | inr e ↦ rw e (refl, refl)
]

default_within :
    (c : ObjectCatalogConfig) (u : Unit {0})
    → validate_config c ≡ ok u
    → c.default_soft_pin_ttl_ticks ≤ c.max_soft_pin_ttl_ticks
unfolding validate_config
default_within c u h = ground (arith, h)

resolve_ttl_default :
    (c : ObjectCatalogConfig) (action : SoftPinAction)
    → c.default_soft_pin_ttl_ticks ≤ c.max_soft_pin_ttl_ticks
    → (n : ℕ) × (resolve_ttl c action none ≡ ok n) × (n ≤ c.max_soft_pin_ttl_ticks)
resolve_ttl_default c preserve h = (0, refl, omega arith)
resolve_ttl_default c disable h = (0, refl, omega arith)
resolve_ttl_default c enable h = (c.default_soft_pin_ttl_ticks, ground (arith, h), h)

-- With an accepted configuration a request that names no time to live is never refused, whatever its
-- action, and the time to live it gets is within the maximum.
pub resolve_pin_request_lem :
    (c : ObjectCatalogConfig) (request : ObjectPinRequest) (u : Unit {0})
    → validate_config c ≡ ok u
    → request.soft_pin_ttl_ticks ≡ none
    → (r : ResolvedPinRequest) × (resolve_pin_request c request ≡ ok r)
      × (r.ttl_ticks ≤ c.max_soft_pin_ttl_ticks)
      × (r.action ≡ request.soft_pin_action)
      × (r.hard_pin ≡ request.with_hard_pin)
unfolding resolve_pin_request
resolve_pin_request_lem c request u h free =
    let ticks = resolve_ttl_default c request.soft_pin_action (default_within c u h) in
    (
      record {
        action = request.soft_pin_action;
        ttl_ticks = ticks.0;
        hard_pin = request.with_hard_pin;
      },
      rw (free, ticks.1) refl,
      ticks.2,
      refl,
      refl,
    )
