-- ===== src/Buffer/Concurrent/Jobs.antt =====
-- src/buffer.rs: what a lease and the return of its buffer have done, by the phase of the call.
use par_buffer_pool.Base.{ℕ, ◌-◌, ◌≤◌, arith, Bool, true, false, Option, none, some, [], ◌∷◌, total}
use par_buffer_pool.Buffer.Weights.{one_each}
use par_buffer_pool.Buffer.Concurrent.{
  Phase, counting_lease, popping_shard, popping_reserve, counting_allocation, initializing, failed,
  unparking, resetting, claiming, giving_back, parking, sweeping, sweeping_reserve, unparking_all,
  finished,
}
use par_buffer_pool.Buffer.Concurrent.Books.{in_flight}

-- A job that waits for its buffer, and one whose item is not added.
abbrev pub waiting : Option Bool → ℕ → ℕ
waiting none n = 0
waiting (some true) n = 1 - n
waiting (some false) n = 0

abbrev pub unadded : Option Bool → ℕ → ℕ
unadded none x = 0
unadded (some true) x = x
unadded (some false) x = 0

module _ {ℓ} {T : Type ℓ} where
  -- Whether a lease or a return is under way, and whether it is a phase of a job at all.
  abbrev pub awaits : Phase T → Option Bool
  awaits counting_lease = some true
  awaits popping_shard = some true
  awaits popping_reserve = some true
  awaits counting_allocation = some true
  awaits initializing = some true
  awaits failed = none
  awaits (unparking b) = some true
  awaits (resetting b) = some false
  awaits (claiming b) = some false
  awaits (giving_back b) = none
  awaits (parking b) = some false
  awaits (sweeping k taken bs) = none
  awaits (sweeping_reserve taken bs) = none
  awaits (unparking_all taken bs) = none
  awaits (finished []) = some false
  awaits (finished (b ∷ [])) = some true
  awaits (finished (b ∷ c ∷ bs)) = none

  abbrev pub carried : Phase T → ℕ
  carried c = total one_each (in_flight c)

  -- The lease is not counted yet.
  abbrev pub uncounted : Phase T → ℕ
  uncounted counting_lease = 1
  uncounted popping_shard = 0
  uncounted popping_reserve = 0
  uncounted counting_allocation = 0
  uncounted initializing = 0
  uncounted failed = 0
  uncounted (unparking b) = 0
  uncounted (resetting b) = 0
  uncounted (claiming b) = 0
  uncounted (giving_back b) = 0
  uncounted (parking b) = 0
  uncounted (sweeping k taken bs) = 0
  uncounted (sweeping_reserve taken bs) = 0
  uncounted (unparking_all taken bs) = 0
  uncounted (finished bs) = 0

  -- The allocation is counted, and the initializer has not run.
  abbrev pub allocating : Phase T → ℕ
  allocating counting_lease = 0
  allocating popping_shard = 0
  allocating popping_reserve = 0
  allocating counting_allocation = 0
  allocating initializing = 1
  allocating failed = 0
  allocating (unparking b) = 0
  allocating (resetting b) = 0
  allocating (claiming b) = 0
  allocating (giving_back b) = 0
  allocating (parking b) = 0
  allocating (sweeping k taken bs) = 0
  allocating (sweeping_reserve taken bs) = 0
  allocating (unparking_all taken bs) = 0
  allocating (finished bs) = 0

  abbrev pub waits : Phase T → ℕ
  waits c = waiting (awaits c) (carried c)

  -- A lease that allocates waits for its buffer.
  pub allocating-le_waits : (c : Phase T) → allocating c ≤ waits c
  allocating-le_waits counting_lease = omega arith
  allocating-le_waits popping_shard = omega arith
  allocating-le_waits popping_reserve = omega arith
  allocating-le_waits counting_allocation = omega arith
  allocating-le_waits initializing = omega arith
  allocating-le_waits failed = omega arith
  allocating-le_waits (unparking b) = omega arith
  allocating-le_waits (resetting b) = omega arith
  allocating-le_waits (claiming b) = omega arith
  allocating-le_waits (giving_back b) = omega arith
  allocating-le_waits (parking b) = omega arith
  allocating-le_waits (sweeping k taken bs) = omega arith
  allocating-le_waits (sweeping_reserve taken bs) = omega arith
  allocating-le_waits (unparking_all taken bs) = omega arith
  allocating-le_waits (finished bs) = omega arith
