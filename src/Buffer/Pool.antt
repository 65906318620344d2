-- ===== src/Buffer/Pool.antt =====
-- src/buffer.rs: the public operations of `BufferPool` and `PoolStats`. The `stats` feature is on.
-- The first argument `i` is the thread that calls.
pub mod Lease
pub mod With
pub mod Drain
pub mod Build
use mathlib.Core.Option
use par_buffer_pool.Base.{
  ℕ, zero, suc, ◌+◌, ◌-◌, Bool, true, false, not, Option, none, some, List, [], ◌∷◌, ◌++◌, ◌==◌,
  leb, if◌then◌else◌, length, replicate,
}
use par_buffer_pool.Base.Words.{fetch_add, fetch_sub, usize_max}
use par_buffer_pool.Base.Effect.{
  Outcome, returned, panicked, Op, pure, expect, modify, ◌>>=◌, ◌>>◌, and_then,
}
use par_buffer_pool.Sharding.{Threads, shard_count}
use par_buffer_pool.Buffer.State.{
  Mutex, lock_pile, write_pile, InitFn, ResetFn, PoolInner, Machine, PoolStats, SharedPooled,
  SharedPooledOwned,
}
use par_buffer_pool.Buffer.Inner.{
  set_shards, set_reserve, set_parked, pop_shard, pop_reserve, recycle, stock_reserve, count_idle,
}
use par_buffer_pool.Buffer.Guard.{arc_clone, release_handle, finally, drop_guard, deref_mut}

-- `PoolStats::reuses`: where `allocations` is larger the subtraction panics in a build with
-- overflow checks, and wraps in one without.
unfoldable pub reuses : Bool → PoolStats → Outcome ℕ
reuses overflow_checks st =
    if leb st.allocations st.leases
    then returned (st.leases - st.allocations)
    else if overflow_checks
    then panicked
    else returned (fetch_sub st.leases st.allocations)

module _ {ℓ} {T : Type ℓ} where
  unfoldable pub empty_pile : Mutex (List T)
  empty_pile = record { poisoned = false; value = [] }

  -- `parallelism` is the machine's answer to `available_parallelism`.
  unfoldable pub new : Threads → Option ℕ → InitFn T → Machine T
  unfolding empty_pile
  new threads parallelism init =
      let shards = replicate (shard_count parallelism) empty_pile in
      record {
        inner = record {
          shards = shards;
          shard_mask = length shards - 1;
          reserve = empty_pile;
          init = init;
          reset = none;
          max_idle = usize_max;
          parked = none;
          leases = 0;
          allocations = 0;
        };
        threads = threads;
        strong = 1;
        init_runs = 0;
        reset_runs = 0;
        dropped = [];
      }

  -- `Default for BufferPool`: the initializer is `T::default`.
  abbrev default : Threads → Option ℕ → InitFn T → Machine T
  default threads parallelism default_value = new threads parallelism default_value

  -- `Arc::get_mut(..).expect(..)` in a method that owns its handle: a panic drops the handle.
  unfoldable pub expect_unique : Op (Machine T) (Unit {0})
  expect_unique s = if s.strong == 1 then (returned tt, s) else (panicked, release_handle s)

  unfoldable pub with_max_idle : ℕ → Op (Machine T) (Unit {0})
  unfolding expect_unique
  with_max_idle n = do
    expect_unique
    modify (λ s. record s { inner = record s.inner { max_idle = n } })
    modify (λ s. set_parked (if not (n == usize_max) then some (count_idle s.inner) else none) s)

  unfoldable pub with_reset : ResetFn T → Op (Machine T) (Unit {0})
  unfolding expect_unique
  with_reset reset = do
    expect_unique
    modify (λ s. record s { inner = record s.inner { reset = some reset } })

  -- Counts an allocation and runs the initializer.
  unfoldable pub allocate : Op (Machine T) T
  allocate = do
    modify (λ s. record s { inner = record s.inner { allocations = fetch_add s.allocations 1 } })
    λ s. (s.init s.init_runs, record s { init_runs = s.init_runs + 1 })

  unfoldable pub prefill_loop : ℕ → Op (Machine T) (Unit {0})
  prefill_loop zero = pure tt
  prefill_loop (suc n) = do buffer ← allocate; stock_reserve buffer; prefill_loop n

  abbrev pub drop_on_panic : Outcome (Unit {0}) × Machine T → Outcome (Unit {0}) × Machine T
  drop_on_panic (returned u, s) = (returned u, s)
  drop_on_panic (panicked, s) = (panicked, release_handle s)

  -- The method owns the handle, which a panic drops.
  unfoldable pub prefill : ℕ → Op (Machine T) (Unit {0})
  unfolding prefill_loop
  prefill n s = drop_on_panic (prefill_loop n s)

  abbrev or_reserve : Option T → Op (Machine T) (Option T)
  or_reserve none = pop_reserve
  or_reserve (some b) = pure (some b)

  abbrev or_allocate : Option T → Op (Machine T) T
  or_allocate none = allocate
  or_allocate (some b) = pure b

  unfoldable pub get : ℕ → Op (Machine T) (SharedPooled T)
  get i = do
    modify (λ s. record s { inner = record s.inner { leases = fetch_add s.leases 1 } })
    popped ← pop_shard i
    found ← or_reserve popped
    buffer ← or_allocate found
    pure (record { buffer = some buffer })

  unfoldable pub get_owned : ℕ → Op (Machine T) (SharedPooledOwned T)
  unfolding get
  get_owned i = do
    lease ← get i
    arc_clone
    drop_guard i (record { buffer = none })
    pure (record { buffer = lease.buffer })

  -- The end of `with`: the guard is dropped on the way out, whether `f` returned or unwinds.
  unfoldable pub with {κ} : {R : Type κ} → ℕ → (T → T × Outcome R) → Op (Machine T) R
  unfolding get
  with i f = do
    lease ← get i
    (changed, result) ← deref_mut lease f
    drop_guard i changed
    λ s. (result, s)

  unfoldable pub put : ℕ → T → Op (Machine T) (Unit {0})
  put i buffer = recycle i buffer

  unfoldable pub idle_len : Machine T → ℕ
  idle_len s = count_idle s.inner

  -- Swaps each pile for an empty one; the count of what was taken, and the buffers so far.
  unfoldable pub take_piles :
      List (Mutex (List T)) → ℕ → List T → List (Mutex (List T)) × ℕ × List T
  take_piles [] taken drained = ([], taken, drained)
  take_piles (m ∷ ms) taken drained =
      let (rest, n, all) =
        take_piles ms (fetch_add taken (length (lock_pile m))) (drained ++ lock_pile m) in
      (write_pile m [] ∷ rest, n, all)

  unfoldable pub drain : Op (Machine T) (List T)
  unfolding take_piles lock_pile
  drain s =
      let (shards, taken, drained) = take_piles s.shards 0 [] in
      let pile = lock_pile s.reserve in
      let all_taken = fetch_add taken (length pile) in
      (
        returned (drained ++ pile),
        set_parked (Option.map (λ p. fetch_sub p all_taken) s.parked)
            (set_reserve [] (set_shards shards s)),
      )

  -- `stats` loads the two counters one after the other; `others` is what the other threads do to the
  -- pool between the loads.
  abbrev pub stats_between : (Machine T → Machine T) → Machine T → PoolStats
  stats_between others s = record { leases = s.leases; allocations = (others s).allocations }

  -- `stats` where no other thread comes between the loads.
  unfoldable pub stats : Machine T → PoolStats
  stats s = stats_between (λ t. t) s

  -- `Clone for BufferPool`, and the drop of a handle.
  unfoldable pub clone : Op (Machine T) (Unit {0})
  clone = arc_clone

  unfoldable pub drop_pool : Op (Machine T) (Unit {0})
  drop_pool = modify release_handle
