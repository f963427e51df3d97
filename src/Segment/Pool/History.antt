-- ===== src/Segment/Pool/History.antt =====
-- A history of calls on a pool, as its write lock orders them.
use cakemaster.Base.{ℕ, Option, none, some, List, [], ◌∷◌, Result, ok, err}
use cakemaster.Identity.{SegmentId, ClientId}
use cakemaster.Segment.Types.{SegmentSpec, AttachError, SegmentStateError}
use cakemaster.Segment.Allocator.{OffsetAllocator}
use cakemaster.Segment.Entry.{Reservation}
use cakemaster.Segment.Catalog.Attach.{AttachOutcome}
use cakemaster.Segment.Pool.Defs.{
  SegmentPool, SegmentHandle, attach, attach_quiesced, quiesce, reactivate, reactivate_batch,
  remove, invalidate_pool_owners, reserve, reserve_on, release_reservation,
}

module _ (o : OffsetAllocator) where
  -- The calls of the pool's public functions, and the drop of a reservation of an attachment.
  pub data PoolCommand : Type 0 where
    attaching attaching_quiesced : SegmentSpec → PoolCommand
    quiescing reactivating removing : ClientId → SegmentId → PoolCommand
    reactivating_many : ClientId → List SegmentId → PoolCommand
    invalidating : List ClientId → PoolCommand
    reserving : SegmentHandle → ℕ → PoolCommand
    reserving_on : SegmentId → ℕ → PoolCommand
    dropping : ℕ → Reservation o → PoolCommand

  unfoldable pub after_attach :
      SegmentPool o
      → Option (Result AttachError (AttachOutcome × SegmentPool o))
      → Option (SegmentPool o)
  after_attach s none = none
  after_attach s (some (ok (outcome, s'))) = some s'
  after_attach s (some (err e)) = some s

  unfoldable pub first_of {ℓ} : {A : Type ℓ} → Option (SegmentPool o × A) → Option (SegmentPool o)
  first_of none = none
  first_of (some (s, a)) = some s

  unfoldable pub after_change :
      SegmentPool o → Result SegmentStateError (SegmentPool o) → Option (SegmentPool o)
  after_change s (ok s') = some s'
  after_change s (err e) = some s

  -- None is a panic.
  unfoldable pub pool_step : SegmentPool o → PoolCommand → Option (SegmentPool o)
  unfolding after_attach first_of after_change
  pool_step s (attaching spec) = after_attach s (attach o s spec)
  pool_step s (attaching_quiesced spec) = after_attach s (attach_quiesced o s spec)
  pool_step s (quiescing owner id) = after_change s (quiesce o s owner id)
  pool_step s (reactivating owner id) = after_change s (reactivate o s owner id)
  pool_step s (removing owner id) = after_change s (remove o s owner id)
  pool_step s (reactivating_many owner ids) = after_change s (reactivate_batch o s owner ids)
  pool_step s (invalidating owners) = first_of (invalidate_pool_owners o s owners)
  pool_step s (reserving candidate bytes) = first_of (reserve o s candidate bytes)
  pool_step s (reserving_on id bytes) = first_of (reserve_on o s id bytes)
  pool_step s (dropping p reservation) = release_reservation o s p reservation

  unfoldable pub pool_run : SegmentPool o → List PoolCommand → Option (SegmentPool o)
  unfolding pool_step
  pool_run s [] = some s
  pool_run s (c ∷ cs) = elim (pool_step s c) [ none ↦ none | some s' ↦ pool_run s' cs ]
