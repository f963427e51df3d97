-- ===== src/Segment/Placement/Defs.antt =====
-- src/segment/placement.rs: placement requests, failure domains and errors.
use Prim.Native.String.{String}
use cakemaster.Base.{ℕ, Bool, true, false, ◌||◌, List, [], ◌∷◌, ◌++◌, Eq, ◌==◌, ◌≡◌, ◌↔◌, ap}
use cakemaster.Identity.{SegmentId, ClientId, uuid_eq}
use cakemaster.Segment.Types.{SegmentSpec, ReserveError}
use cakemaster.Segment.Pool.Defs.{SegmentHandle}

pub data FulfillmentPolicy : Type 0 where
  all_or_nothing best_effort : FulfillmentPolicy

pub data FailureDomain : Type 0 where
  by_segment by_owner : FailureDomain

pub record AllocationSpec : Type 0 where
  pub bytes : ℕ

pub record ReplicaPolicy : Type 0 where
  pub count : ℕ
  pub failure_domain : FailureDomain

pub record PlacementConstraints : Type 0 where
  pub preferred_names : List String
  pub excluded_segments : List SegmentId

-- There is one replica class, so the field for it is left out.
pub record PlacementRequest : Type 0 where
  pub allocation : AllocationSpec
  pub replicas : ReplicaPolicy
  pub fulfillment : FulfillmentPolicy
  pub constraints : PlacementConstraints

abbrev pub replica_policy : ℕ → ReplicaPolicy
replica_policy count = record { count = count; failure_domain = by_segment }

abbrev pub across : ReplicaPolicy → FailureDomain → ReplicaPolicy
across policy domain = record policy { failure_domain = domain }

abbrev pub with_preferred_names : PlacementConstraints → List String → PlacementConstraints
with_preferred_names c names = record c { preferred_names = names }

abbrev pub excluding : PlacementConstraints → List SegmentId → PlacementConstraints
excluding c segments = record c { excluded_segments = c.excluded_segments ++ segments }

abbrev pub placement_request : AllocationSpec → ReplicaPolicy → PlacementRequest
placement_request allocation replicas = record {
  allocation = allocation;
  replicas = replicas;
  fulfillment = all_or_nothing;
  constraints = record { preferred_names = []; excluded_segments = [] };
}

abbrev pub with_fulfillment : PlacementRequest → FulfillmentPolicy → PlacementRequest
with_fulfillment request policy = record request { fulfillment = policy }

abbrev pub constrained_by : PlacementRequest → PlacementConstraints → PlacementRequest
constrained_by request constraints = record request { constraints = constraints }

-- A handle with the specification of its entry, which nothing changes.
pub record Candidate : Type 0 where
  pub handle : SegmentHandle
  pub spec : SegmentSpec

pub data DomainKey : Type 0 where
  segment_key : SegmentId → DomainKey
  owner_key : ClientId → DomainKey

abbrev pub domain_key : Candidate → FailureDomain → DomainKey
domain_key c by_segment = segment_key c.spec.identity.id
domain_key c by_owner = owner_key c.spec.identity.owner

abbrev key_beq : DomainKey → DomainKey → Bool
key_beq (segment_key a) (segment_key b) = a == b
key_beq (owner_key a) (owner_key b) = a == b
key_beq _ _ = false

pub key_beq_iff : (a b : DomainKey) → (key_beq a b ≡ true) ↔ (a ≡ b)
key_beq_iff (segment_key a) (segment_key b) =
    ((λ h. ap segment_key ((uuid_eq.equal_iff a b).0 h)), (λ h. (uuid_eq.equal_iff a b).1 (cc)))
key_beq_iff (owner_key a) (owner_key b) =
    ((λ h. ap owner_key ((uuid_eq.equal_iff a b).0 h)), (λ h. (uuid_eq.equal_iff a b).1 (cc)))
key_beq_iff (segment_key a) (owner_key b) = ((λ h. absurd cc), (λ h. absurd cc))
key_beq_iff (owner_key a) (segment_key b) = ((λ h. absurd cc), (λ h. absurd cc))

instance abbrev pub key_eq : Eq DomainKey
key_eq = record { equal = key_beq; equal_iff = key_beq_iff }

-- `HashSet::contains`, on the elements of the set.
unfoldable pub is_member : {A : Type 0} → ⦃e : Eq A⦄ → A → List A → Bool
is_member a [] = false
is_member a (x ∷ xs) = x == a || is_member a xs

pub data PlacementError : Type 0 where
  zero_size zero_replicas : PlacementError
  insufficient_replicas : ℕ → ℕ → PlacementError
  reserve_failed : ReserveError → PlacementError
