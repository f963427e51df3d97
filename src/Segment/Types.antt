-- ===== src/Segment/Types.antt =====
-- src/segment/descriptor.rs, transport.rs, spec.rs, stats.rs and error.rs: what describes a segment,
-- and the errors of the pool.
use Prim.Native.String.{String}
use cakemaster.Base.{ℕ, Bool, true, false, ◌&&◌, Option, ◌==◌, ◌≡◌, refl, eqb, checked_add}
use cakemaster.Identity.{SegmentId, ClientId, uuid_eq, string_eq, SegmentIdentity}

pub record MemoryRegion : Type 0 where
  pub base : ℕ
  pub size : ℕ

-- `MemoryRegion::end`.
abbrev pub region_end : MemoryRegion → Option ℕ
region_end region = checked_add region.base region.size

pub data TransportProtocol : Type 0 where
  tcp rdma cxl nvme_of : TransportProtocol
  custom : String → TransportProtocol

abbrev pub as_str : TransportProtocol → String
as_str tcp = "tcp"
as_str rdma = "rdma"
as_str cxl = "cxl"
as_str nvme_of = "nvmeof"
as_str (custom protocol) = protocol

pub record TransportEndpoint : Type 0 where
  pub protocol : TransportProtocol
  pub endpoint : String

-- `ReplicaClass` has the one class Memory, so `replica_class` filters nothing.
pub record SegmentSpec : Type 0 where
  pub identity : SegmentIdentity
  pub region : MemoryRegion
  pub transport : TransportEndpoint

pub data SegmentState : Type 0 where
  accepting quiesced removed : SegmentState

pub data AttachError : Type 0 where
  nil_segment_id nil_owner_id empty_name zero_base_address empty_transport_endpoint : AttachError
  invalid_transport_protocol : String → AttachError
  incompatible_transport_protocol : TransportProtocol → AttachError
  zero_size address_overflow : AttachError
  conflicting_segment_id overlapping_address_range : SegmentId → AttachError

pub data SegmentStateError : Type 0 where
  not_found : SegmentId → SegmentStateError
  owner_mismatch : SegmentId → ClientId → ClientId → SegmentStateError
  still_accepting : SegmentId → SegmentStateError

pub data ReserveError : Type 0 where
  zero_bytes foreign_candidate : ReserveError
  unknown_segment not_accepting out_of_space overflowed_address : SegmentId → ReserveError

-- The derived `PartialEq` of the parts of a specification.
abbrev pub protocol_beq : TransportProtocol → TransportProtocol → Bool
protocol_beq tcp tcp = true
protocol_beq rdma rdma = true
protocol_beq cxl cxl = true
protocol_beq nvme_of nvme_of = true
protocol_beq (custom a) (custom b) = a == b
protocol_beq _ _ = false

abbrev pub transport_beq : TransportEndpoint → TransportEndpoint → Bool
transport_beq a b = protocol_beq a.protocol b.protocol && a.endpoint == b.endpoint

abbrev pub identity_beq : SegmentIdentity → SegmentIdentity → Bool
identity_beq a b = a.id == b.id && a.owner == b.owner && a.name == b.name && a.host_id == b.host_id

abbrev pub spec_beq : SegmentSpec → SegmentSpec → Bool
spec_beq a b =
    identity_beq a.identity b.identity
    && (eqb a.region.base b.region.base && eqb a.region.size b.region.size)
    && transport_beq a.transport b.transport

pub protocol_beq_refl : (a : TransportProtocol) → protocol_beq a a ≡ true
protocol_beq_refl tcp = refl
protocol_beq_refl rdma = refl
protocol_beq_refl cxl = refl
protocol_beq_refl nvme_of = refl
protocol_beq_refl (custom a) = (string_eq.equal_iff a a).1 refl
