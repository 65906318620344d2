-- ===== src/Buffer/Contract/Examples.antt =====
-- src/buffer.rs: the contract at concrete inputs.
use par_buffer_pool.Base.{ℕ, some, List, [], ◌∷◌, ◌≡◌, refl}
use par_buffer_pool.Base.Words.{fetch_sub}
use par_buffer_pool.Base.Effect.{returned}
use par_buffer_pool.Sharding.{shard_index, tid, after_tid}
use par_buffer_pool.Buffer.State.{Machine}
use par_buffer_pool.Buffer.Inner.{recycle, pop_shard, pop_reserve}
use par_buffer_pool.Buffer.Pool.{get, put, drain, allocate}
use par_buffer_pool.Buffer.Examples.{small, clear, small-IsWellFormed}
use par_buffer_pool.Buffer.Contract.{
  Command, lease, give_back, take_all, Trace, perform_all, terms, idle_bag,
}
use par_buffer_pool.Buffer.Contract.Refines.{pool_refines}

abbrev pool : Machine ℕ
pool = small (some clear)

-- Thread 4 leases twice, and returns one buffer; then the pool is drained.
abbrev calls : List (Command ℕ)
calls = lease 4 ∷ lease 4 ∷ give_back 4 9 ∷ take_all ∷ []

answers :
    (perform_all calls pool).0
    ≡ returned (5 ∷ []) ∷ returned (100 ∷ []) ∷ returned [] ∷ returned (0 ∷ 7 ∷ []) ∷ []
unfolding perform_all get put drain recycle shard_index tid pop_shard pop_reserve after_tid allocate
    fetch_sub
answers = refl

pool_refines_example :
    Trace
      (terms pool)
      (idle_bag pool)
      calls
      (perform_all calls pool).0
      (idle_bag (perform_all calls pool).1)
pool_refines_example = pool_refines calls pool (small-IsWellFormed (some clear))
