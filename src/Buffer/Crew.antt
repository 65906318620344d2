-- ===== src/Buffer/Crew.antt =====
-- src/buffer.rs with the parallel loops of examples/: worker threads that share a pool. A worker
-- leases one buffer for each item that it takes, works on it, and drops the guard.
pub mod Phases
pub mod Homes
pub mod Turns
pub mod Ticks
pub mod Sound
pub mod Steps
pub mod Bounds
pub mod Results
pub mod Collect
pub mod Outlook
pub mod Completes
mod Examples
use par_buffer_pool.Base.{ℕ, Option, none, some, List, [], ◌∷◌, ◌++◌, ◌≡◌}
use par_buffer_pool.Base.Effect.{Outcome}
use par_buffer_pool.Sharding.{Threads}
use par_buffer_pool.Buffer.State.{Machine, InitFn, ResetFn}
use par_buffer_pool.Buffer.Pool
use par_buffer_pool.Buffer.Concurrent.{Phase, counting_lease, resetting, finished, tick}

-- A worker that is busy leases a buffer for an item, or, without an item, gives one back.
pub data Doing {ℓ} (T : Type ℓ) (X : Type 0) : Type ℓ where
  resting : Doing T X
  busy : Option X → Phase T → Doing T X

pub record Worker {ℓ} (T : Type ℓ) (X : Type 0) : Type ℓ where
  pub thread : ℕ
  pub doing : Doing T X

-- The pool, the items that no worker has taken, and what the work has given for each item.
pub record Crew {ℓ μ} (T : Type ℓ) (X : Type 0) (R : Type μ) : Type (ℓ ⊔ μ) where
  pub machine : Machine T
  pub todo : List X
  pub workers : List (Worker T X)
  pub results : List (X × Outcome R)

-- The body of the loop: what it makes of the buffer that it has leased for an item.
abbrev pub Work {ℓ μ} : Type ℓ → Type 0 → Type μ → Type (ℓ ⊔ μ)
Work T X R = X → T → T × Outcome R

-- Whether a thread may take an item, where the list has the items before it that are left.
abbrev pub Schedule : Type 0 → Type 1
Schedule X = ℕ → List X → X → Type 0

-- Any thread takes any item.
abbrev pub any_item : {X : Type 0} → Schedule X
any_item i before x = Unit {0}

module _ {ℓ} {T : Type ℓ} where
  -- `BufferPool::new(init)`, and `.with_reset(hook)` where there is one.
  abbrev pub build : Threads → Option ℕ → InitFn T → Option (ResetFn T) → Machine T
  build threads parallelism init none = Pool.new threads parallelism init
  build threads parallelism init (some hook) =
      (Pool.with_reset hook (Pool.new threads parallelism init)).1

module _ {ℓ} {T : Type ℓ} {X : Type 0} where
  abbrev pub worker : ℕ → Doing T X → Worker T X
  worker i d = record { thread = i; doing = d }

  abbrev pub all_resting : List ℕ → List (Worker T X)
  all_resting [] = []
  all_resting (i ∷ is) = worker i resting ∷ all_resting is

module _ {ℓ μ} {T : Type ℓ} {X : Type 0} {R : Type μ} where
  abbrev pub start : Machine T → List X → List ℕ → Crew T X R
  start s items threads = record {
    machine = s;
    todo = items;
    workers = all_resting threads;
    results = [];
  }

  -- One step of one worker.
  pub data Step (may : Schedule X) (work : Work T X R) (r : Crew T X R)
      : Crew T X R → Type (ℓ ⊔ μ) where
    take_item :
        (i : ℕ) (x : X) (us vs : List X) (xs ys : List (Worker T X))
        → r.workers ≡ xs ++ (worker i resting ∷ ys)
        → r.todo ≡ us ++ (x ∷ vs)
        → may i us x
        → Step may work r (record r {
          todo = us ++ vs;
          workers = xs ++ (worker i (busy (some x) counting_lease) ∷ ys);
        })
    run :
        (i : ℕ) (o : Option X) (c : Phase T) (xs ys : List (Worker T X))
        → r.workers ≡ xs ++ (worker i (busy o c) ∷ ys)
        → Step may work r (record r {
          machine = (tick i c r.machine).1;
          workers = xs ++ (worker i (busy o (tick i c r.machine).0) ∷ ys);
        })
    -- The lease has ended with the buffer `b`; the guard is dropped whatever the work gives.
    use_buffer :
        (i : ℕ) (x : X) (b : T) (xs ys : List (Worker T X))
        → r.workers ≡ xs ++ (worker i (busy (some x) (finished (b ∷ []))) ∷ ys)
        → Step may work r (record r {
          workers = xs ++ (worker i (busy none (resetting (work x b).0)) ∷ ys);
          results = (x, (work x b).1) ∷ r.results;
        })
    rest :
        (i : ℕ) (xs ys : List (Worker T X))
        → r.workers ≡ xs ++ (worker i (busy none (finished [])) ∷ ys)
        → Step may work r (record r { workers = xs ++ (worker i resting ∷ ys) })

  pub data Reach (may : Schedule X) (work : Work T X R) (q : Crew T X R)
      : Crew T X R → Type (ℓ ⊔ μ) where
    here : Reach may work q q
    next : {r t : Crew T X R} → Reach may work q r → Step may work r t → Reach may work q t
