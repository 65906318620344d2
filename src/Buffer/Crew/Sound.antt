-- ===== src/Buffer/Crew/Sound.antt =====
-- src/buffer.rs with the parallel loops of examples/: the books of a crew.
use par_buffer_pool.Base.{
  ℕ, ◌+◌, ◌-◌, ◌≤◌, ◌<◌, ◌%◌, Option, none, some, List, ◌≡◌, total, length, get_elem?, All,
}
use par_buffer_pool.Base.Words.{usize_mod, usize_max}
use par_buffer_pool.Base.Effect.{Outcome}
use par_buffer_pool.Sharding.{Threads}
use par_buffer_pool.Buffer.State.{Mutex, ResetFn}
use par_buffer_pool.Buffer.Weights.{idle}
use par_buffer_pool.Buffer.Concurrent.{Phase}
use par_buffer_pool.Buffer.Concurrent.Jobs.{uncounted, allocating, carried, waits}
use par_buffer_pool.Buffer.Crew.{Doing, resting, busy, Worker, Crew, Work}
use par_buffer_pool.Buffer.Crew.Phases.{Restores, Leasing, Returning, spare}
use par_buffer_pool.Buffer.Crew.Homes.{place, unassigned}
use par_buffer_pool.Buffer.Crew.Turns.{IsReady}

module _ {ℓ} {T : Type ℓ} {X : Type 0} where
  -- A number that depends on the phase of a worker's call, and is `n` at rest.
  abbrev pub by_phase : (Phase T → ℕ) → ℕ → Doing T X → ℕ
  by_phase f n resting = n
  by_phase f n (busy o c) = f c

  abbrev pub at_call : (Phase T → ℕ) → ℕ → Worker T X → ℕ
  at_call f n w = by_phase f n w.doing

  -- The item that a worker leases a buffer for.
  abbrev pub in_hand : (X → ℕ) → Doing T X → ℕ
  in_hand w resting = 0
  in_hand w (busy none c) = 0
  in_hand w (busy (some x) c) = w x

  abbrev pub hands : (X → ℕ) → Worker T X → ℕ
  hands f w = in_hand f w.doing

  -- The places that a worker leaves in shard `j`.
  abbrev pub slack : Threads → ℕ → ℕ → Worker T X → ℕ
  slack t mask j w = place t mask w.thread j (at_call spare 1 w)

  abbrev pub without_id : Threads → Worker T X → ℕ
  without_id t w = unassigned t w.thread

  abbrev pub Staged : (T → Type ℓ) → Option (ResetFn T) → Doing T X → Type ℓ
  Staged P reset resting = Unit {ℓ}
  Staged P reset (busy none c) = Returning P reset c
  Staged P reset (busy (some x) c) = Leasing P c

  abbrev pub AtWork : (T → Type ℓ) → Option (ResetFn T) → Worker T X → Type ℓ
  AtWork P reset w = Staged P reset w.doing

abbrev pub weigh {μ} : {X : Type 0} {R : Type μ} → (X → ℕ) → X × Outcome R → ℕ
weigh f q = f q.0

module _ {ℓ μ} {T : Type ℓ} {X : Type 0} {R : Type μ} where
  -- A result that the work gives for its item with some buffer that has `P`.
  abbrev pub Given : (T → Type ℓ) → Work T X R → X × Outcome R → Type (ℓ ⊔ μ)
  Given P work q = (b : T) × P b × (q.1 ≡ (work q.0 b).1)

  -- The books of a crew for the items `all`.
  pub record IsSound (P : T → Type ℓ) (work : Work T X R) (all : List X) (size : ℕ) (r : Crew T X R)
      : Type (ℓ ⊔ μ) where
    pub ready : IsReady P r.machine
    pub restores : (x : X) (b : T) → P b → Restores P r.machine.reset (work x b).0
    pub staged : All (AtWork P r.machine.reset) r.workers
    pub sized : total (λ w. 1) r.workers ≡ size
    pub roomy :
        r.machine.threads.next_tid + total (without_id r.machine.threads) r.workers < usize_max
    pub housed :
        (j : ℕ) (m : Mutex (List T))
        → get_elem? r.machine.shards j ≡ some m
        → length m.value ≤ total (slack r.machine.threads r.machine.shard_mask j) r.workers
    pub counted : idle r.machine + total (at_call carried 0) r.workers ≡ r.machine.init_runs
    pub allocated :
        r.machine.allocations
        ≡ (r.machine.init_runs + total (at_call allocating 0) r.workers) % usize_mod
    pub begun : total (at_call uncounted 0) r.workers + length r.todo ≤ length all
    pub leased :
        r.machine.leases
        ≡ (length all - length r.todo - total (at_call uncounted 0) r.workers) % usize_mod
    pub tallied :
        (w : X → ℕ)
        → total w r.todo + total (hands w) r.workers + total (weigh w) r.results ≡ total w all
    pub once : r.machine.init_runs + total (at_call waits 0) r.workers + length r.todo ≤ length all
    pub worked : r.machine.init_runs ≡ 0 → total (weigh (λ x. 1)) r.results ≡ 0
    pub given : All (Given P work) r.results
