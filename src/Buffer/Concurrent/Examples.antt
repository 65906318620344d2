-- ===== src/Buffer/Concurrent/Examples.antt =====
-- src/buffer.rs: overlapping calls at concrete inputs.
use par_buffer_pool.Base.{ℕ, ◌+◌, ◌≤◌, none, [], ◌∷◌, ◌≡◌, refl, arith, total}
use par_buffer_pool.Sharding.{shard_index, tid}
use par_buffer_pool.Buffer.State.{Machine}
use par_buffer_pool.Buffer.Weights.{idle_weight, idle}
use par_buffer_pool.Buffer.Invariant.{made}
use par_buffer_pool.Buffer.Pool
use par_buffer_pool.Buffer.Inner.{recycle}
use par_buffer_pool.Buffer.Examples.{small, small-IsWellFormed, own_value}
use par_buffer_pool.Buffer.Concurrent.{
  Call, System, Reach, here, next, start, run, begin_get, tick, counting_lease, popping_shard,
  popping_reserve, unparking, resetting, sweeping,
}
use par_buffer_pool.Buffer.Concurrent.Consistent.{call_weight, call_owed, call_refused}
use par_buffer_pool.Buffer.Concurrent.Sound.{overlapping_cap_holds, overlapping_conservation}
use par_buffer_pool.Buffer.Concurrent.Alone.{ticks, ended, leased_buffers, no_buffers, calls_alone}
use par_buffer_pool.Buffer.Concurrent.Progress.{IsEnded, interrupted, calls_end}

abbrev pool : Machine ℕ
pool = small none

abbrev first : Call ℕ
first = record { thread = 4; phase = counting_lease }

abbrev second : Call ℕ
second = record { thread = 6; phase = counting_lease }

-- The first call has found its shard empty when the second one begins.
abbrev overlapping : System ℕ
overlapping = record (start pool) {
  machine = (tick 4 popping_reserve (tick 4 popping_shard (tick 4 counting_lease pool).1).1).1;
  calls = record { thread = 4; phase = unparking 5 } ∷ second ∷ [];
}

overlapping-Reach : Reach pool overlapping
unfolding tick shard_index tid
overlapping-Reach =
    next
      (next
        (next (next (next here (begin_get 6 (omega arith))) (begin_get 4 (omega arith)))
          (run first [] (second ∷ []) refl))
        (run (record first { phase = popping_shard }) [] (second ∷ []) refl))
      (run (record first { phase = popping_reserve }) [] (second ∷ []) refl)

overlapping_cap_holds_example :
    (2
      ≡ idle overlapping.machine
        + total call_owed overlapping.calls
        + total call_refused overlapping.calls)
    × (idle overlapping.machine ≤ 3)
unfolding tick idle_weight shard_index tid
overlapping_cap_holds_example =
    overlapping_cap_holds (small-IsWellFormed none) (omega arith) overlapping-Reach 2 refl

overlapping_conservation_example :
    idle_weight own_value overlapping.machine
      + total own_value overlapping.machine.dropped
      + total (call_weight own_value) overlapping.calls
      + total own_value overlapping.held
      + total own_value overlapping.before
      + made own_value pool
    ≡ idle_weight own_value pool
      + total own_value pool.dropped
      + total own_value overlapping.supplied
      + total own_value overlapping.after
      + made own_value overlapping.machine
unfolding idle_weight
overlapping_conservation_example =
    overlapping_conservation (small-IsWellFormed none) (omega arith) overlapping-Reach own_value tt

calls_alone_example :
    (ticks 5 4 counting_lease pool
      ≡ (ended leased_buffers (Pool.get 4 pool).0, (Pool.get 4 pool).1))
    × (ticks 3 4 (resetting 9) pool ≡ (ended no_buffers (recycle 4 9 pool).0, (recycle 4 9 pool).1))
    × (ticks 5 4 (sweeping 0 0 []) pool
        ≡ (ended (λ bs. bs) (Pool.drain pool).0, (Pool.drain pool).1))
calls_alone_example = calls_alone 4 9 pool (small-IsWellFormed none).sharded

-- Another thread leases a buffer between any two steps.
abbrev another : ℕ → Machine ℕ → Machine ℕ
another k s = (tick 6 popping_reserve s).1

calls_end_example :
    IsEnded (interrupted another 5 4 counting_lease pool).0
    × IsEnded (interrupted another 3 4 (resetting 9) pool).0
    × IsEnded (interrupted another 5 4 (sweeping 0 0 []) pool).0
unfolding tick
calls_end_example =
    calls_end another 4 9 pool (λ k u. (refl, refl)) (small-IsWellFormed none).sharded
