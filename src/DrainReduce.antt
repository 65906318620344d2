-- ===== src/DrainReduce.antt =====
-- examples/drain_reduce.rs: a parallel sum whose accumulators are the buffers of a pool. The values
-- are numbers that an `f64` holds and adds exactly.
pub mod Stages
pub mod Books
pub mod Steps
pub mod Exact
pub mod Completes
mod Examples
use par_buffer_pool.Base.{
  total, length, leb, ◌==◌, if◌then◌else◌, Bool, ℕ, ◌+◌, Option, List, [], ◌∷◌, ◌++◌, ◌≡◌,
}
use par_buffer_pool.Base.Effect.{returned, Op, gets, assert, ◌>>=◌, ◌>>◌}
use par_buffer_pool.Sharding.{Threads}
use par_buffer_pool.Buffer.State.{Machine, InitFn}
use par_buffer_pool.Buffer.Pool
use par_buffer_pool.Buffer.Concurrent.{Phase, counting_lease, resetting, finished, tick}

-- `|| 0.0f64`
abbrev pub zero_init : InitFn ℕ
zero_init n = returned 0

-- One item of `data.par_iter()` on the thread that it was given to: where it stands in
-- `*pool.get() += x`, from the start of the lease to the end of the guard's drop.
pub record Job : Type 0 where
  pub thread : ℕ
  pub item : ℕ
  pub phase : Phase ℕ

-- The pool, the items that no thread has begun, and those that are being added.
pub record Reduction : Type 0 where
  pub machine : Machine ℕ
  pub todo : List ℕ
  pub jobs : List Job

abbrev pub start : Threads → Option ℕ → List ℕ → Reduction
start threads parallelism data_items = record {
  machine = Pool.new threads parallelism zero_init;
  todo = data_items;
  jobs = [];
}

-- Any thread may begin any item, and any job may take the next step.
pub data Step (r : Reduction) : Reduction → Type 0 where
  begin :
      (i x : ℕ) (xs ys : List ℕ)
      → r.todo ≡ xs ++ (x ∷ ys)
      → Step r (record r {
        todo = xs ++ ys;
        jobs = record { thread = i; item = x; phase = counting_lease } ∷ r.jobs;
      })
  run :
      (j : Job) (xs ys : List Job)
      → r.jobs ≡ xs ++ (j ∷ ys)
      → Step r (record r {
        machine = (tick j.thread j.phase r.machine).1;
        jobs = xs ++ (record j { phase = (tick j.thread j.phase r.machine).0 } ∷ ys);
      })
  -- The lease has ended with the buffer `b`: the job adds its item and drops the guard.
  add_item :
      (j : Job) (b : ℕ) (xs ys : List Job)
      → r.jobs ≡ xs ++ (j ∷ ys)
      → j.phase ≡ finished (b ∷ [])
      → Step r (record r { jobs = xs ++ (record j { phase = resetting (b + j.item) } ∷ ys) })
  end_job :
      (j : Job) (xs ys : List Job)
      → r.jobs ≡ xs ++ (j ∷ ys)
      → j.phase ≡ finished []
      → Step r (record r { jobs = xs ++ ys })

pub data Reach (q : Reduction) : Reduction → Type 0 where
  here : Reach q q
  next : {r t : Reduction} → Reach q r → Step r t → Reach q t

abbrev pub sum : List ℕ → ℕ
sum = total (λ x. x)

-- The rest of `main`: the drain and the assertions.
unfoldable pub conclude : List ℕ → Op (Machine ℕ) (Unit {0})
conclude data_items = do
  partials ← Pool.drain
  assert (sum partials == sum data_items)
  counts ← gets Pool.stats
  assert (counts.leases == length data_items)
  assert (leb 1 counts.allocations)
  assert (length partials == counts.allocations)
