-- ===== src/Lib.antt =====
-- Cakemaster: the master of a distributed object store. It keeps client sessions alive by
-- heartbeats, pools the memory segments that the clients mount, places the replicas of objects on
-- them, and holds each tenant to its share of the memory.
--
-- What is modelled, and where:
--   * Base: what the modules share. Numbers are the native ones; a u64 keeps its checked,
--     saturating and wrapping operations (Base/Words), a `HashMap` is an association list with one
--     entry for each key, in the order of insertion (Base/Table).
--   * Identity: src/segment/identity.rs, the identifiers of segments and clients.
--   * Client: src/client/lifecycle.rs, config.rs and error.rs. `Registry` is the state behind the
--     registry's mutex, `activate`, `heartbeat`, `rollback_activation`, `begin_drain`, `finish` and
--     `release_cleanup` are its operations, and `claim_due_cleanups` (Client/Scan) is the scan for
--     expired sessions. The flags that the guards share with the registry stand in a store by their
--     cell. A `World` is the registry with the claims that are outstanding, and a history of
--     `Command`s is what threads make of it, in the order of the mutex. Time is a number that each
--     command brings, in any order. Client/Invariant, Claims, World and Progress have the proofs.
--   * Tenant: src/object/tenant/quota.rs, the counters of one account (Tenant/Account), each
--     function the effect of one call that no other thread interrupts, and
--     `distribute_effective_quota` (Tenant/Shares), the split of the capacity. Tenant/Reserving has
--     the loop of `reserve_demand` while other threads change the policy and the demand, one atomic
--     operation at a time. Tenant/Registry is src/object/tenant/registry.rs: the calls of the
--     registry in the order of its mutex (Calls), their histories (History), and the race of
--     reservations with the administration of one tenant (Admission): each store and each look at
--     the version in `reserve_checked`, `delete` and `upsert` is a step, and so is the whole of
--     `reserve_demand` and of `set_effective`; the resize of a reservation is none. A handle's entry is the
--     tenant's id, as tenants stay in the directory; what the pool answers is an argument.
--   * Segment: src/segment. Segment/Types, Transport and Allocator have the descriptors, the
--     protocol names and the byte allocator; Segment/Entry is one mounted incarnation with its
--     state and the flag that its leases share; Segment/Catalog is pool/catalog.rs and Segment/Pool
--     is pool.rs with its two epochs. The incarnations are shared by reference counts, so they
--     stand in a store by number, and the catalog, the handles and the reservations hold the
--     number: a handle still sees an incarnation that was removed. `pool_run` is a history of calls
--     in the order of the pool's lock. Segment/Placement is placement.rs: Policy has the order of
--     the candidates, Loop the reservation of the replicas, for any policy. Other threads may call
--     the pool between two reservations (`others`); the statistics of the candidates are those at
--     the snapshot, and the policy's sort is an insertion sort by the same comparison.
--     Segment/Stats has the statistics that segments and the pool report, Segment/Batch the release
--     of many allocations at once.
--   * Object: src/object. Object/Access has config.rs and the access control of a version
--     (catalog/version.rs); `acquire_lease` takes the values that its failed exchanges find as a
--     list, so that it holds for every interference. Object/Identity and Replicas have identity.rs,
--     content.rs, write.rs and replica.rs. Object/Catalog is the catalog: Counters and Defs are
--     catalog.rs, Write and Publish are catalog/write.rs (`begin_write`, `stage`, `commit`,
--     `abort`, the dropped claim), Collect is catalog/read.rs and collector.rs (reads, removal,
--     eviction, expiry, reclamation), Sweep the pruning of dead replicas, Scoped the eviction for
--     the debts of tenants, Revoke the end of a session's writes, Cycle one step of the collector
--     (`collect_step_inner`), and Reads many reads and the statistics. The slots stand in a store
--     by number, which the index and the weak pointers hold; a version is a value with the address
--     that `Arc::ptr_eq` compares. An operation is the effect of one call under its slot's lock;
--     what a reader writes to the lease between an eviction's checks and its last look is an
--     argument (`late`), as are the flags of the segments' leases (`live`), whether a version still
--     has a reference (`held`) and whether a queue holds the last one (`unique`). Object/Survival,
--     Sweeping and Revocation have what a step of the collector spares, what a sweep reaches and
--     what a revocation takes. Object/Ledger has the abstract ledger of versions that are staged,
--     live or retired, which every call refines by moves, and the histories of `CatalogCall`s.
--     Object/Watermark is eviction.rs, the controller that switches the eviction on and off between
--     two watermarks.
--   * Rpc: crates/coro-rpc/src/protocol.rs, the headers (Rpc/Headers), the frames and the codecs
--     (Rpc/Frame). The codecs of requests and responses are the same code over a `HeaderFormat`,
--     whose laws (`HeaderLaws`) both headers fill. A buffer is the list of its bytes, and a decoder
--     returns the rest.
--
-- Bounds: the scan of the registry recurs on its budget, which the code counts down as well. The
-- loop that finds the quantum of an allocator recurs on 32, the most rounds that a u64 capacity
-- needs. The collector's loops recur on the number of rounds that the code computes from the queue
-- and the budget. All other recursions follow a list. A place where the code panics (`expect`, an
-- unbalanced counter of an allocator) is none in the model.
--
-- The crate `offset-allocator` is the parameter `OffsetAllocator`, a record of its operations;
-- nothing is assumed of them. Randomness, the clock and the source of pool numbers are arguments.
--
-- Not modelled: the managers that compose these parts, since they are asynchronous and mostly pass
-- calls on; the rest of crates/coro-rpc (struct_pack, sockets and sessions), the server's threads
-- and timers, logging, the code generator and the benchmarks. In the modelled parts, Debug and
-- Display output, the views of a version, the report of a collector step and the grouping of a
-- batch of releases by allocator are left out.
pub mod Base
pub mod Identity
pub mod Client
pub mod Tenant
pub mod Segment
pub mod Object
pub mod Rpc
