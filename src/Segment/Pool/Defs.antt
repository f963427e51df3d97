-- ===== src/Segment/Pool/Defs.antt =====
-- src/segment/pool.rs: the operations of `SegmentPool`. Each holds the catalog's lock for its whole
-- effect on the catalog, so it is one function on the state. The outer none is a panic.
use cakemaster.Base.{
  ℕ, Bool, not, ◌&&◌, ◌||◌, Option, none, some, List, [], ◌∷◌, if◌then◌else◌, eqb, leb, ltb, nat_eq,
  wrapping_add, saturating_add, Result, ok, err, ◌>>=◌, ◌==◌,
}
use cakemaster.Base.Table.{get}
use cakemaster.Identity.{SegmentId, ClientId, uuid_eq, is_nil, string_eq}
use cakemaster.Segment.Types.{
  SegmentSpec, MemoryRegion, TransportEndpoint, region_end, as_str, AttachError, nil_segment_id,
  nil_owner_id, empty_name, zero_base_address, empty_transport_endpoint, invalid_transport_protocol,
  incompatible_transport_protocol, zero_size, address_overflow, SegmentStateError, ReserveError,
  foreign_candidate, zero_bytes, unknown_segment,
}
use cakemaster.Segment.Transport.{parse_protocol}
use cakemaster.Segment.Allocator.{OffsetAllocator}
use cakemaster.Segment.Entry.{Reservation, reserve_entry, drop_reservation}
use cakemaster.Segment.Catalog.Defs.{
  Catalog, empty_catalog, put_entry, quiesce_segment, reactivate_segment, reactivate_many,
}
use cakemaster.Segment.Catalog.Attach.{AttachOutcome, attached, already_attached, attach_segment}
use cakemaster.Segment.Catalog.Remove.{remove_segment, invalidate_owners}

unfoldable pub validate_direct_range :
    MemoryRegion → TransportEndpoint → Result {0, 0} AttachError Unit
validate_direct_range region transport =
    if transport.endpoint == ""
    then err empty_transport_endpoint
    else elim (parse_protocol (as_str transport.protocol)) [
      | none ↦ err (invalid_transport_protocol (as_str transport.protocol))
      | some _ ↦
          if eqb region.size 0
          then err zero_size
          else elim (region_end region) [ none ↦ err address_overflow | some _ ↦ ok tt ]
    ]

unfoldable pub validate_spec : SegmentSpec → Result {0, 0} AttachError Unit
unfolding validate_direct_range
validate_spec spec =
    if is_nil spec.identity.id
    then err nil_segment_id
    else if is_nil spec.identity.owner
    then err nil_owner_id
    else if spec.identity.name == ""
    then err empty_name
    else if as_str spec.transport.protocol == "cxl" || as_str spec.transport.protocol == "nvmeof"
    then err (incompatible_transport_protocol spec.transport.protocol)
    else if eqb spec.region.base 0
    then err zero_base_address
    else validate_direct_range spec.region spec.transport

-- A handle: the pool that issued it, and the attachment.
pub record SegmentHandle : Type 0 where
  pub pool_id : ℕ
  pub entry : ℕ

-- `SegmentIncarnation::matches` and `same_as`. An attachment's number is not used again, as the weak
-- pointer keeps the address.
abbrev pub incarnation_matches : SegmentHandle → SegmentHandle → Bool
incarnation_matches a b = eqb a.pool_id b.pool_id && eqb a.entry b.entry

-- The bounds of `SegmentPool::with_config`.
abbrev pub valid_max_nodes : ℕ → Bool
valid_max_nodes max_nodes = leb 3 max_nodes && ltb max_nodes 4294967294

abbrev outcome_entry : AttachOutcome → ℕ
outcome_entry (attached p) = p
outcome_entry (already_attached p) = p

module _ (o : OffsetAllocator) where
  pub record SegmentPool : Type 0 where
    pub pool_id : ℕ
    pub max_allocator_nodes : ℕ
    pub catalog : Catalog o
    pub direct_capacity_epoch : ℕ
    pub invalidation_epoch : ℕ

  -- `SegmentPool::with_config`, with the number that the pool got.
  unfoldable pub new_pool : ℕ → ℕ → Option SegmentPool
  new_pool pool_id max_nodes =
      if valid_max_nodes max_nodes
      then some (record {
        pool_id = pool_id;
        max_allocator_nodes = max_nodes;
        catalog = empty_catalog o;
        direct_capacity_epoch = 0;
        invalidation_epoch = 0;
      })
      else none

  -- `update_direct_catalog`, after the operation succeeded.
  unfoldable pub publish : SegmentPool → Catalog o → SegmentPool
  publish s c = record s {
    catalog = c;
    direct_capacity_epoch = wrapping_add s.direct_capacity_epoch 1;
  }

  unfoldable pub attached_pool :
      SegmentPool → AttachOutcome × Catalog o → AttachOutcome × SegmentPool
  unfolding publish
  attached_pool s r = (r.0, publish s r.1)

  unfoldable pub attach :
      SegmentPool → SegmentSpec → Option (Result AttachError (AttachOutcome × SegmentPool))
  unfolding attached_pool
  attach s spec = elim (validate_spec spec) [
    | err e ↦ some (err e)
    | ok _ ↦ elim (attach_segment o s.catalog spec s.max_allocator_nodes) [
      | none ↦ none
      | some r ↦ some (r >>= (λ a. ok (attached_pool s a)))
    ]
  ]

  -- The quiescing of a new attachment must succeed.
  unfoldable pub quiesce_new :
      ClientId → SegmentId → AttachOutcome × Catalog o → Option (AttachOutcome × Catalog o)
  quiesce_new owner id (attached p, c) = elim (quiesce_segment o c owner id) [
    | err _ ↦ none
    | ok c' ↦ some (attached p, c')
  ]
  quiesce_new owner id (already_attached p, c) = some (already_attached p, c)

  unfoldable pub attach_quiesced :
      SegmentPool → SegmentSpec → Option (Result AttachError (AttachOutcome × SegmentPool))
  unfolding attached_pool quiesce_new
  attach_quiesced s spec = elim (validate_spec spec) [
    | err e ↦ some (err e)
    | ok _ ↦ elim (attach_segment o s.catalog spec s.max_allocator_nodes) [
      | none ↦ none
      | some (err e) ↦ some (err e)
      | some (ok a) ↦ elim (quiesce_new spec.identity.owner spec.identity.id a) [
        | none ↦ none
        | some b ↦ some (ok (attached_pool s b))
      ]
    ]
  ]

  unfoldable pub quiesce : SegmentPool → ClientId → SegmentId → Result SegmentStateError SegmentPool
  unfolding publish
  quiesce s owner id = quiesce_segment o s.catalog owner id >>= (λ c. ok (publish s c))

  unfoldable pub reactivate :
      SegmentPool → ClientId → SegmentId → Result SegmentStateError SegmentPool
  unfolding publish
  reactivate s owner id = reactivate_segment o s.catalog owner id >>= (λ c. ok (publish s c))

  unfoldable pub reactivate_batch :
      SegmentPool → ClientId → List SegmentId → Result SegmentStateError SegmentPool
  unfolding publish
  reactivate_batch s owner [] = ok s
  reactivate_batch s owner (id ∷ ids) =
      reactivate_many o s.catalog owner (id ∷ ids) >>= (λ c. ok (publish s c))

  unfoldable pub invalidated : SegmentPool → SegmentPool
  invalidated s = record s { invalidation_epoch = wrapping_add s.invalidation_epoch 1 }

  unfoldable pub remove : SegmentPool → ClientId → SegmentId → Result SegmentStateError SegmentPool
  unfolding publish invalidated
  remove s owner id = remove_segment o s.catalog owner id >>= (λ c. ok (invalidated (publish s c)))

  unfoldable pub invalidate_pool_owners : SegmentPool → List ClientId → Option (SegmentPool × ℕ)
  unfolding publish invalidated
  invalidate_pool_owners s owners = elim (invalidate_owners o s.catalog owners) [
    | none ↦ none
    | some r ↦
        if eqb r.1 0
        then some (record s { catalog = r.0 }, 0)
        else some (invalidated (publish s r.0), r.1)
  ]

  -- `SegmentPool::reserve`; a handle keeps its entry in the store.
  unfoldable pub reserve :
      SegmentPool → SegmentHandle → ℕ → Option (SegmentPool × Result ReserveError (Reservation o))
  unfolding put_entry
  reserve s candidate bytes =
      if not (eqb candidate.pool_id s.pool_id)
      then some (s, err foreign_candidate)
      else elim (get candidate.entry s.catalog.entries) [
        | none ↦ none
        | some e ↦ elim (reserve_entry o e bytes) [
          | none ↦ none
          | some r ↦ some (record s { catalog = put_entry o s.catalog candidate.entry r.0 }, r.1)
        ]
      ]

  unfoldable pub reserve_on :
      SegmentPool → SegmentId → ℕ → Option (SegmentPool × Result ReserveError (Reservation o))
  unfolding reserve
  reserve_on s id bytes =
      if eqb bytes 0 then some (s, err zero_bytes) else elim (get id s.catalog.segments) [
        | none ↦ some (s, err (unknown_segment id))
        | some p ↦ reserve s (record { pool_id = s.pool_id; entry = p }) bytes
      ]

  -- The drop of a reservation of the attachment `p`.
  unfoldable pub release_reservation : SegmentPool → ℕ → Reservation o → Option SegmentPool
  unfolding put_entry
  release_reservation s p reservation = elim (get p s.catalog.entries) [
    | none ↦ none
    | some e ↦ elim (drop_reservation o e reservation) [
      | none ↦ none
      | some e' ↦ some (record s { catalog = put_entry o s.catalog p e' })
    ]
  ]

  -- `summarize_capacity` of the current candidates.
  unfoldable pub sum_capacity : SegmentPool → List ℕ → ℕ → ℕ
  sum_capacity s [] acc = acc
  sum_capacity s (p ∷ ps) acc = elim (get p s.catalog.entries) [
    | none ↦ sum_capacity s ps acc
    | some e ↦ sum_capacity s ps (saturating_add acc e.allocator.managed_capacity)
  ]

  abbrev pub capacity : SegmentPool → ℕ
  capacity s = sum_capacity s s.catalog.direct 0
