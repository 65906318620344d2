-- ===== src/DrainReduce/Books.antt =====
-- examples/drain_reduce.rs: the books of a reduction: items, partial sums and counters.
use par_buffer_pool.Base.{
  ℕ, zero, suc, ◌+◌, ◌-◌, ◌≤◌, ◌%◌, Bool, Option, none, some, List, ◌≡◌, refl, arith, total, length,
}
use par_buffer_pool.Base.Words.{usize_mod, usize_max}
use par_buffer_pool.Buffer.Inner.Forms.{IsSharded}
use par_buffer_pool.Buffer.Weights.{idle_weight, idle, one_each}
use par_buffer_pool.Buffer.Invariant.{made_by}
use par_buffer_pool.Buffer.Concurrent.{
  Phase, counting_lease, popping_shard, popping_reserve, counting_allocation, initializing, failed,
  unparking, resetting, claiming, giving_back, parking, sweeping, sweeping_reserve, unparking_all,
  finished,
}
use par_buffer_pool.Buffer.Concurrent.Books.{in_flight, IsTallied}
use par_buffer_pool.DrainReduce.{zero_init, Job, Reduction}
use par_buffer_pool.Buffer.Concurrent.Jobs.{awaits, uncounted, allocating, waits, unadded}
use par_buffer_pool.DrainReduce.Stages.{IsPlain}

abbrev pub self : ℕ → ℕ
self x = x

-- A phase that no job is in.
abbrev pub stray : Option Bool → ℕ
stray none = 1
stray (some r) = 0

abbrev pub job_weight : (ℕ → ℕ) → Job → ℕ
job_weight w j = total w (in_flight j.phase)

abbrev pub job_unadded : Job → ℕ
job_unadded j = unadded (awaits j.phase) j.item

abbrev pub job_uncounted : Job → ℕ
job_uncounted j = uncounted j.phase

abbrev pub job_allocating : Job → ℕ
job_allocating j = allocating j.phase

abbrev pub job_waits : Job → ℕ
job_waits j = waits j.phase

abbrev pub job_stray : Job → ℕ
job_stray j = stray (awaits j.phase)

-- The books of a reduction of the items `all`.
pub record Books (all : List ℕ) (r : Reduction) : Type 0 where
  pub sharded : IsSharded r.machine
  pub plain : IsPlain r.machine
  pub zeros : r.machine.init ≡ zero_init
  pub uncapped : r.machine.max_idle ≡ usize_max
  pub staged : total job_stray r.jobs ≡ 0
  pub summed :
      idle_weight self r.machine
        + total (job_weight self) r.jobs
        + total job_unadded r.jobs
        + total self r.todo
      ≡ total self all
  pub counted : idle r.machine + total (job_weight one_each) r.jobs ≡ r.machine.init_runs
  pub begun : total job_uncounted r.jobs + length r.todo ≤ length all
  pub leased :
      r.machine.leases ≡ (length all - length r.todo - total job_uncounted r.jobs) % usize_mod
  pub allocated :
      r.machine.allocations ≡ (r.machine.init_runs + total job_allocating r.jobs) % usize_mod
  pub once : r.machine.init_runs + total job_waits r.jobs + length r.todo ≤ length all
  pub worked : r.machine.init_runs ≡ 0 → total job_waits r.jobs + length r.todo ≡ length all

pub made_by-self : (n : ℕ) → made_by self zero_init n ≡ 0
unfolding made_by
made_by-self zero = refl
made_by-self (suc n) = omega (arith, made_by-self n)

pub made_by-one_each : (n : ℕ) → made_by one_each zero_init n ≡ n
unfolding made_by
made_by-one_each zero = refl
made_by-one_each (suc n) = omega (arith, made_by-one_each n)

pub staged-IsTallied : (c : Phase ℕ) (r : Bool) → awaits c ≡ some r → IsTallied c
staged-IsTallied counting_lease r e = tt
staged-IsTallied popping_shard r e = tt
staged-IsTallied popping_reserve r e = tt
staged-IsTallied counting_allocation r e = tt
staged-IsTallied initializing r e = tt
staged-IsTallied failed r e = tt
staged-IsTallied (unparking b) r e = tt
staged-IsTallied (resetting b) r e = tt
staged-IsTallied (claiming b) r e = tt
staged-IsTallied (giving_back b) r e = tt
staged-IsTallied (parking b) r e = tt
staged-IsTallied (sweeping k taken bs) r e = absurd (cc)
staged-IsTallied (sweeping_reserve taken bs) r e = absurd (cc)
staged-IsTallied (unparking_all taken bs) r e = absurd (cc)
staged-IsTallied (finished bs) r e = tt

pub not_stray : (a : Option Bool) → stray a ≡ 0 → (r : Bool) × (a ≡ some r)
not_stray none e = absurd (omega arith)
not_stray (some r) e = (r, refl)
