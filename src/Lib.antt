-- ===== src/Lib.antt =====
-- par-buffer-pool lends scratch buffers to the tasks of parallel loops and takes them back when a
-- guard is dropped. It has two pools. `BufferPool` (src/buffer.rs) is shared by all threads: its
-- idle buffers lie in shards, one per thread in the common case, and in a reserve, each behind a
-- mutex. `ThreadLocalPool` (src/local.rs) has one slot per thread and pool, in a registry of the
-- thread that holds the boxed buffers of all element types.
--
-- Files and code:
--   Base               words of 64 bits, lists, and code that changes a state and may panic
--   Sharding           MIN_SHARDS, shard_count, NEXT_TID, TID, tid and the index of `shard`
--   Buffer.State       Shard, lock_pile, PoolInner, BufferPool, PoolStats and the guards' types
--   Buffer.Inner       impl PoolInner: shard, pop_shard, pop_reserve, unpark, cap_allows, recycle,
--                      stock_reserve, count_idle
--   Buffer.Guard       SharedPooled, SharedPooledOwned, and the reference count of the `Arc`
--   Buffer.Pool        impl BufferPool: new, with_max_idle, with_reset, prefill, get, get_owned,
--                      with, put, idle_len, drain, stats, clone, default; PoolStats::reuses
--   Buffer.Weights, Buffer.Invariant, Buffer.Behaviour, and the children of Buffer.Pool: proofs
--   Buffer.Client      a program of many threads that uses one pool, as a step relation; its
--                      children hold the proofs, and Stats those about the statistics
--   Buffer.Concurrent  get, recycle and drain as steps that calls on many threads interleave; its
--                      children hold the proofs
--   Buffer.Crew        worker threads that lease one buffer at a time in a parallel loop, on the steps
--                      of Buffer.Concurrent; its children hold the proofs
--   Buffer.Contract    what a pool promises, with its idle buffers as a bag (a list up to order,
--                      Buffer.Bags), and the refinement
--   DrainReduce        examples/drain_reduce.rs: its parallel loop, the drain and the assertions;
--                      its children hold the proofs
--   ScopedThreads      examples/scoped_threads.rs: the rows, the threads and the assertions
--   NonStaticInit      examples/non_static_init.rs: the frames, the serial check and the assertions
--   RayonScratch       examples/rayon_scratch.rs: the blobs, their encoding and the assertion
--   PairScores         examples/pair_scores.rs: the pairs and the work on a matrix
--   SizeBuckets        examples/size_buckets.rs: AnySizeScratch, ClassScratch and their leases; Tasks
--                      has the sizes and the loop of `run`, the other children hold the proofs
--   Local.State        Erased, Slot, Registry, ThreadLocalPool, LocalInner, NEXT_ID, DROP_EPOCH
--   Local.Registry     with_registry, slot_for
--   Local.Pool         impl ThreadLocalPool (names end in _local where Buffer.Pool has the same
--                      name), LocalInner::drop, LocalPooled, and the exit of a thread
--   Local.Threads      a program of many threads that uses many pools, as a step relation
--   Local.Casts, With, Typed, Safety, RoundTrip, Reclaim: proofs
--   Examples in Sharding, Buffer, Local and those of the examples: runs at concrete inputs
--
-- How the code is modelled:
-- * A `usize` has 64 bits. `fetch_add` and `fetch_sub` wrap; theorems that need a counter not to
--   wrap say so. Fuel occurs twice: `next_power_of_two` doubles at most 64 times, since a `usize`
--   has 64 powers of two, and gives 0 past the largest, as a build without overflow checks does;
--   `trailing_zeros` halves at most 64 times, since a `usize` has 64 bits.
-- * An operation is a function from the state to a result and the new state. The result says
--   whether the call returned or panicked, and a panic keeps the changes made before it. Guards
--   and handles that a panic drops are dropped.
-- * A panic while another one unwinds aborts the real process; here it is a panic like others.
-- * The closures of the user (`init`, `reset`, the closure of `with`) are parameters: what one
--   does may depend on how often it ran before, and it may panic. They do not call the pool.
-- * `available_parallelism` is a parameter, `none` where it fails. Threads are numbers, and each
--   operation takes the one that runs it.
-- * In Buffer.Client, Buffer.Contract and Local.Threads each call runs to its end before the next
--   one starts, on whichever thread. In Buffer.Concurrent leases, returns and drains overlap. One
--   step of a call there is one atomic read-modify-write, one access to a pile under its lock, or
--   one run of user code; an id that a thread takes from `NEXT_TID` is part of its first access to a
--   shard, since only that thread reads its cell. Handles stay alive there, and memory orderings do
--   not matter for single atomics and locks.
-- * `prefill`, `with_max_idle` and `with_reset` are operations of Buffer.Pool. They are not steps of
--   the programs of Buffer.Client, Buffer.Concurrent and Buffer.Crew, which start with a pool that
--   has been built.
-- * `stats` loads two counters one after the other. stats_between takes what other threads do to the
--   pool between the loads, and stats is the call with nothing between.
-- * A mutex keeps whether it is poisoned; `lock_pile` recovers its value in either case.
-- * `dropped` and `released` collect the buffers that the pools drop. Destructors of buffers
--   are not modelled otherwise; they do not call the pools.
-- * An `Arc<AtomicBool>` is the address of its flag; `Arc::ptr_eq` compares addresses.
-- * The types that a program stores, their `TypeId`s, and a decision whether two are equal are a
--   parameter of the model of src/local.rs. A downcast compares the ids.
-- * In DrainReduce the items and the partial sums are natural numbers: an `f64` adds whole numbers
--   exactly below 2^53. Rayon may run any item on any thread at any time.
-- * In Buffer.Crew a worker that is free takes an item that the schedule lets its thread take; what
--   the body of the loop does to its buffer is one step, between the lease and the return. A worker
--   whose body panics drops its guard and goes on. Handles are not counted there, since no step of
--   a lease or of a return reads the count.
-- * In NonStaticInit, PairScores and SizeBuckets.Tasks the type `f64`, its literals and operations are parameters; that
--   no expected loudness is a NaN is a hypothesis. Rayon may run any item on any worker thread. A `String` in ScopedThreads and RayonScratch is the list of
--   its characters, and its length counts the bytes of their UTF-8.
-- * In SizeBuckets the elements of the vectors are of any type of 8 bytes, and a `Vec` is the list of
--   them: `clear`, `resize` and `with_capacity` are what the standard library documents, with the
--   panic past isize::MAX bytes. Capacities are left out otherwise: a vector that grows may ask for
--   twice its capacity, which can be past that limit too, but not where the vectors have at most
--   2^59 elements. A subtraction below 0 panics or wraps, as overflow checks are on or off.
-- * The feature `stats` is on, and `debug_assert!` is a panic.
--
-- Not modelled: `Debug`, `Send`, `Sync` and lifetimes (the compiler checks them; the step
-- relations carry what the borrow checker guarantees), the cache-line padding of shards, memory
-- orderings, the loop of size_buckets over ClassScratch, the examples detach_collect, alloc_bench
-- and local_static_bench, the sums and the printing of the other examples, the tests, the
-- documentation modules of src/lib.rs, and the benchmarks in bench-compare.
pub mod Base
pub mod Sharding
pub mod Buffer
pub mod Local
pub mod DrainReduce
pub mod SizeBuckets
pub mod ScopedThreads
pub mod NonStaticInit
pub mod RayonScratch
pub mod PairScores
