-- ===== src/Buffer/Inner.antt =====
-- src/buffer.rs: `impl PoolInner`, the steps behind the operations of a pool. The first argument
-- `i` is the thread that runs the code.
pub mod Forms
use mathlib.Core.Option
use par_buffer_pool.Base.{
  ℕ, ◌+◌, Bool, true, false, Option, none, some, List, [], ◌∷◌, leb, if◌then◌else◌, is_some, length,
  get_elem?, set, push, pop,
}
use par_buffer_pool.Base.Words.{fetch_add, fetch_sub}
use par_buffer_pool.Base.Effect.{
  Outcome, returned, panicked, Op, pure, expect, modify, ◌>>=◌, ◌>>◌, and_then,
}
use par_buffer_pool.Sharding.{tid, after_tid, shard_index}
use par_buffer_pool.Buffer.State.{Mutex, lock_pile, write_pile, ResetFn, PoolInner, Machine}

module _ {ℓ} {T : Type ℓ} where
  -- Changes to one field.
  abbrev pub set_shards : List (Mutex (List T)) → Machine T → Machine T
  set_shards xs s = record s { inner = record s.inner { shards = xs } }

  abbrev pub set_reserve : List T → Machine T → Machine T
  set_reserve xs s = record s { inner = record s.inner { reserve = write_pile s.reserve xs } }

  abbrev pub set_parked : Option ℕ → Machine T → Machine T
  set_parked p s = record s { inner = record s.inner { parked = p } }

  abbrev pub discard : T → Machine T → Machine T
  discard b s = record s { dropped = b ∷ s.dropped }

  -- `&self.shards[tid() & self.shard_mask]`: the index with the pile; out of bounds is a panic.
  unfoldable pub shard : ℕ → Op (Machine T) (ℕ × Mutex (List T))
  shard i s =
      let k = shard_index s.threads i s.shard_mask in
      expect (Option.map (λ m. (k, m)) (get_elem? s.shards k))
        (record s { threads = after_tid s.threads i })

  unfoldable pub unpark : ℕ → Op (Machine T) (Unit {0})
  unpark n = modify (λ s. set_parked (Option.map (λ p. fetch_sub p n) s.parked) s)

  abbrev pub unpark_popped : Option T → Op (Machine T) (Unit {0})
  unpark_popped none = pure tt
  unpark_popped (some b) = unpark 1

  unfoldable pub pop_shard : ℕ → Op (Machine T) (Option T)
  unfolding shard unpark lock_pile
  pop_shard i = do
    (k, m) ← shard i
    let (popped, rest) = pop (lock_pile m)
    modify (λ s. set_shards (set s.shards k (write_pile m rest)) s)
    unpark_popped popped
    pure popped

  unfoldable pub pop_reserve : Op (Machine T) (Option T)
  unfolding unpark lock_pile
  pop_reserve s =
      (do
        let (popped, rest) = pop (lock_pile s.reserve)
        modify (set_reserve rest)
        unpark_popped popped
        pure popped)
        s

  -- Claims a slot of the count, and gives it back where the pool is full.
  claim : ℕ → ℕ → Machine T → Bool × Machine T
  claim cap p s =
      if leb cap p
      then (false, set_parked (some (fetch_sub (fetch_add p 1) 1)) s)
      else (true, set_parked (some (fetch_add p 1)) s)

  unfoldable pub cap_allows : Op (Machine T) Bool
  unfolding claim
  cap_allows s = elim s.parked [
    | none ↦ (returned true, s)
    | some p ↦ (returned (claim s.max_idle p s).0, (claim s.max_idle p s).1)
  ]

  -- `if let Some(reset) = &self.reset { reset(&mut buffer) }`; a panic drops the buffer.
  unfoldable pub run_hook : T × Outcome (Unit {0}) → Op (Machine T) T
  run_hook (b, returned _) s = (returned b, record s { reset_runs = s.reset_runs + 1 })
  run_hook (b, panicked) s = (panicked, discard b (record s { reset_runs = s.reset_runs + 1 }))

  unfoldable pub reset_with : Option (ResetFn T) → T → Op (Machine T) T
  unfolding run_hook
  reset_with none b s = (returned b, s)
  reset_with (some hook) b s = run_hook (hook s.reset_runs b) s

  unfoldable pub run_reset : T → Op (Machine T) T
  unfolding reset_with
  run_reset b s = reset_with s.reset b s

  -- `lock_pile(&self.shard().0).push(buffer)`
  unfoldable pub park : ℕ → T → Op (Machine T) (Unit {0})
  unfolding shard lock_pile
  park i b = do
    (k, m) ← shard i
    modify (λ s. set_shards (set s.shards k (write_pile m (push (lock_pile m) b))) s)

  unfoldable pub recycle : ℕ → T → Op (Machine T) (Unit {0})
  unfolding run_reset cap_allows park
  recycle i buffer = do
    b ← run_reset buffer
    allowed ← cap_allows
    if allowed then park i b else modify (discard b)

  unfoldable pub stock_reserve : T → Op (Machine T) (Unit {0})
  unfolding run_reset cap_allows lock_pile
  stock_reserve buffer = do
    b ← run_reset buffer
    allowed ← cap_allows
    modify (λ s. if allowed then set_reserve (push (lock_pile s.reserve) b) s else discard b s)

  -- `.map(|shard| lock_pile(&shard.0).len()).sum::<usize>()`
  unfoldable pub sum_lens : ℕ → List (Mutex (List T)) → ℕ
  sum_lens acc [] = acc
  sum_lens acc (m ∷ ms) = sum_lens (fetch_add acc (length (lock_pile m))) ms

  unfoldable pub count_idle : PoolInner T → ℕ
  unfolding sum_lens lock_pile
  count_idle p = fetch_add (sum_lens 0 p.shards) (length (lock_pile p.reserve))
