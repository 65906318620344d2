-- ===== src/Buffer/Examples.antt =====
-- src/buffer.rs: a pool at concrete inputs, and runs of its operations.
use par_buffer_pool.Base.{
  ℕ, ◌+◌, ◌-◌, ◌≤◌, ◌<◌, ◌%◌, ◌^◌, true, false, Option, none, some, List, [], ◌∷◌, ◌≡◌, ◌⊎◌, refl,
  sym, arith, total,
}
use par_buffer_pool.Base.Words.{usize_mod, fetch_add, fetch_sub}
use par_buffer_pool.Base.Effect.{Outcome, returned}
use par_buffer_pool.Sharding.{no_ids, shard_index, tid, after_tid}
use par_buffer_pool.Sharding.Ids.{no_ids-IsDense}
use par_buffer_pool.Buffer.State.{Mutex, Machine, InitFn, ResetFn}
use par_buffer_pool.Buffer.Inner.{run_reset, pop_shard, pop_reserve, recycle}
use par_buffer_pool.Buffer.Weights.{idle_weight, idle, one_each}
use par_buffer_pool.Buffer.Guard.{drop_guard}
use par_buffer_pool.Buffer.Invariant.{IsWellFormed, made}
use par_buffer_pool.Buffer.Client.{Client, start, Reach, here, next, lease, give_back}
use par_buffer_pool.Buffer.Client.Ledger.{outside}
use par_buffer_pool.Buffer.Client.Sound.{conservation, cap_holds, references_counted}
use par_buffer_pool.Buffer.Pool.{
  get, with, put, prefill, new, stats, stats_between, reuses, with_max_idle,
}
use par_buffer_pool.Buffer.Pool.Lease.{guard}
use par_buffer_pool.Buffer.Pool.Build.{new_lem, with_max_idle-IsWellFormed}
use par_buffer_pool.Buffer.Behaviour.Calls.{with-returns}
use par_buffer_pool.Buffer.Behaviour.Leases.{get-put}
use par_buffer_pool.Buffer.Behaviour.Prefill.{prefill_lem, reuses-prefill}
use par_buffer_pool.Buffer.Behaviour.Race.{reuses-stats_between}

abbrev pub pile : List ℕ → Mutex (List ℕ)
pile xs = record { poisoned = false; value = xs }

abbrev pub count_up : InitFn ℕ
count_up k = returned (100 + k)

abbrev pub clear : ResetFn ℕ
clear k b = (0, returned tt)

-- Two shards, of which the second was poisoned by a panic, and a cap of three.
abbrev pub small : Option (ResetFn ℕ) → Machine ℕ
small hook = record {
  inner = record {
    shards = pile [] ∷ (record { poisoned = true; value = 7 ∷ [] }) ∷ [];
    shard_mask = 1;
    reserve = pile (5 ∷ []);
    init = count_up;
    reset = hook;
    max_idle = 3;
    parked = some 2;
    leases = 0;
    allocations = 0;
  };
  threads = no_ids;
  strong = 1;
  init_runs = 0;
  reset_runs = 0;
  dropped = [];
}

pub small-IsWellFormed : (hook : Option (ResetFn ℕ)) → IsWellFormed (small hook)
unfolding idle_weight
small-IsWellFormed hook = record {
  sharded = record { power = (1, refl); masked = refl };
  counted = (refl, omega arith);
  capped = omega arith;
}

abbrev leased : Client ℕ
leased = record (start (small none)) { machine = (get 4 (small none)).1; borrowed = 5 ∷ [] }

abbrev given_back : Client ℕ
given_back = record (start (small none)) {
  machine = (drop_guard 6 (record { buffer = some 5 }) (get 4 (small none)).1).1;
}

abbrev Same : ℕ → ℕ → Type 0
Same b b' = b ≡ b'

-- The first thread leases the buffer in the reserve, and the second thread drops the guard.
run : Reach Same (small none) given_back
unfolding get pop_shard pop_reserve shard_index tid
run = next {c = leased} (next here (lease 4 (omega arith))) (give_back 6 5 [] [] refl)

abbrev pub own_value : ℕ → ℕ
own_value b = b

conservation_example :
    idle_weight own_value given_back.machine
      + total own_value given_back.machine.dropped
      + outside own_value given_back
      + made own_value (small none)
    ≡ idle_weight own_value (small none)
      + total own_value []
      + total own_value given_back.supplied
      + made own_value given_back.machine
conservation_example =
    conservation (small-IsWellFormed none) refl run own_value tt (λ b b' e. sym e)

cap_holds_example : (2 ≡ idle given_back.machine) × (idle given_back.machine ≤ 3)
unfolding get pop_shard pop_reserve shard_index tid drop_guard recycle after_tid fetch_add fetch_sub
    idle_weight
cap_holds_example = cap_holds (small-IsWellFormed none) refl (omega arith) run (omega arith) 2 refl

references_counted_example :
    (given_back.machine.strong ≡ 1) × ((given_back.borrowed ≡ []) ⊎ (0 < 1))
references_counted_example = references_counted (small-IsWellFormed none) refl run

get-put_example :
    let (result, v) = get 4 (put 4 9 (small (some clear))).1 in
    (result ≡ returned (guard 0)) × (v.shards ≡ (small (some clear)).shards) × (v.init_runs ≡ 0)
unfolding run_reset
get-put_example =
    get-put 4 9 0 (small (some clear)) (record (small (some clear)) { reset_runs = 1 })
      (small-IsWellFormed (some clear)) no_ids-IsDense (omega arith) refl refl

prefill_lem_example :
    let (result, t) = prefill 4 (small none) in
    (result ≡ returned tt)
    × (idle t ≡ 3)
    × (t.shards ≡ (small none).shards)
    × (t.leases ≡ 0)
    × (t.init_runs ≡ 4)
    × (t.allocations ≡ 4 % usize_mod)
unfolding idle_weight
prefill_lem_example =
    prefill_lem 4 (small none) (small-IsWellFormed none) refl (λ k. (100 + k, refl)) (omega arith)

reuses-prefill_example :
    reuses false (stats (prefill 4 (new no_ids (some 8) count_up)).1) ≡ returned (usize_mod - 4)
reuses-prefill_example =
    reuses-prefill 4 false no_ids (some 8) count_up (λ k. (100 + k, refl)) (omega arith)
      (omega arith)

reuses-stats_between_example :
    reuses false (stats_between (λ t. (get 4 t).1) (new no_ids (some 8) count_up))
    ≡ returned (2 ^ 64 - 1)
unfolding new
reuses-stats_between_example =
    let h = new_lem no_ids (some 8) count_up in
    reuses-stats_between 4 false (new no_ids (some 8) count_up) h.0 (h.1 one_each) refl
      (omega arith)

abbrev add_one : ℕ → ℕ × Outcome ℕ
add_one b = (b + 1, returned b)

with-returns_example :
    (b : ℕ) × ((get 4 (small none)).0 ≡ returned (guard b))
    × ((with 4 add_one (small none)).0 ≡ returned b)
with-returns_example =
    with-returns 4 (small none) (small-IsWellFormed none) add_one refl (λ k. (100 + k, refl))

with_max_idle-IsWellFormed_example :
    let (result, t) = with_max_idle 5 (small none) in
    (result ≡ returned tt)
    × IsWellFormed t
    × (t.max_idle ≡ 5)
    × (t.shards ≡ (small none).shards)
    × (t.reserve ≡ (small none).reserve)
unfolding idle_weight
with_max_idle-IsWellFormed_example =
    with_max_idle-IsWellFormed 5 (small none) (omega arith) refl (omega arith)
      (small-IsWellFormed none)
