-- ===== src/Buffer/Client/Examples.antt =====
-- src/buffer.rs: the statistics of a program that gives a pool a buffer of its own.
use par_buffer_pool.Base.{ℕ, ◌+◌, ◌-◌, ◌≤◌, true, none, [], ◌≡◌, refl, arith, length}
use par_buffer_pool.Base.Effect.{returned}
use par_buffer_pool.Sharding.{no_ids}
use par_buffer_pool.Buffer.State.{Machine}
use par_buffer_pool.Buffer.Pool.{new, stats, stats_between, reuses}
use par_buffer_pool.Buffer.Examples.{count_up}
use par_buffer_pool.Buffer.Client.{Client, Reach, here, next, supply, put_back, lease}
use par_buffer_pool.Buffer.Client.Stats.{
  steps, all_steps, Later, same, after, new-IsFresh, allocations_bound, reuses_returns,
}

abbrev fresh : Machine ℕ
fresh = new no_ids none count_up

abbrev Same : ℕ → ℕ → Type 0
Same b b' = b ≡ b'

-- The buffer 9 is put into the pool, and two leases follow.
abbrev donated : (c : Client ℕ) × Reach Same fresh c
donated =
    let put = next (next here (supply 9)) (put_back 4 9 [] [] (omega arith) refl) in
    (_, next (next put (lease 4 (omega arith))) (lease 4 (omega arith)))

allocations_bound_example :
    length donated.0.borrowed + length donated.0.owned + length donated.0.detached
    ≤ (stats donated.0.machine).allocations + 1
unfolding steps
allocations_bound_example =
    allocations_bound (new-IsFresh no_ids none count_up) donated.1 (omega arith)

-- The program brings a buffer between the two loads.
abbrev brought : (d : Client ℕ) × Later Same donated.0 d
brought = (_, after same (supply 7))

reuses_returns_example :
    reuses true (stats_between (λ t. brought.0.machine) donated.0.machine)
    ≡ returned (donated.0.machine.leases - brought.0.machine.allocations)
unfolding all_steps
reuses_returns_example =
    reuses_returns (new-IsFresh no_ids none count_up) donated.1 brought.1 (omega arith) refl true
