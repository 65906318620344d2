-- ===== src/Buffer/State.antt =====
-- src/buffer.rs: the state behind `BufferPool` handles, and the values that pools exchange with
-- the code that uses them.
use par_buffer_pool.Base.{ℕ, Bool, Option, List, if◌then◌else◌}
use par_buffer_pool.Base.Effect.{Outcome}
use par_buffer_pool.Sharding.{Threads}

-- `std::sync::Mutex`: a lock that a panic has poisoned still holds its value.
pub record Mutex {ℓ} (A : Type ℓ) : Type ℓ where
  pub poisoned : Bool
  pub value : A

pub data LockResult {ℓ} (A : Type ℓ) : Type ℓ where
  acquired poison_error : A → LockResult A

module _ {ℓ} {A : Type ℓ} where
  abbrev pub lock : Mutex A → LockResult A
  lock m = if m.poisoned then poison_error m.value else acquired m.value

  abbrev pub unwrap_or_into_inner : LockResult A → A
  unwrap_or_into_inner (acquired v) = v
  unwrap_or_into_inner (poison_error v) = v

  -- What the guard gives access to.
  unfoldable pub lock_pile : Mutex A → A
  lock_pile m = unwrap_or_into_inner (lock m)

  -- A write through the guard.
  abbrev pub write_pile : Mutex A → A → Mutex A
  write_pile m v = record m { value = v }

-- The closures of the user. A closure may answer differently each time that it runs: its answer
-- is a function of how often it ran before. `reset` and `with` change a buffer in place, so they
-- give it back also when they panic.
abbrev pub InitFn {ℓ} : Type ℓ → Type ℓ
InitFn T = ℕ → Outcome T

abbrev pub ResetFn {ℓ} : Type ℓ → Type ℓ
ResetFn T = ℕ → T → T × Outcome (Unit {0})

pub record PoolInner {ℓ} (T : Type ℓ) : Type ℓ where
  pub shards : List (Mutex (List T))
  pub shard_mask : ℕ
  pub reserve : Mutex (List T)
  pub init : InitFn T
  pub reset : Option (ResetFn T)
  pub max_idle : ℕ
  pub parked : Option ℕ
  pub leases : ℕ
  pub allocations : ℕ

-- One pool and what surrounds it: the ids of the threads, the count of the `Arc`, how often each
-- closure ran, and the buffers whose destructor ran.
pub record Machine {ℓ} (T : Type ℓ) : Type ℓ where
  pub inner : PoolInner T
  pub open inner use *
  pub threads : Threads
  pub strong : ℕ
  pub init_runs : ℕ
  pub reset_runs : ℕ
  pub dropped : List T

pub record PoolStats : Type 0 where
  pub leases : ℕ
  pub allocations : ℕ

-- A guard; its buffer is gone after `take`.
pub record SharedPooled {ℓ} (T : Type ℓ) : Type ℓ where
  pub buffer : Option T

-- The guard that also owns one reference of the `Arc`.
pub record SharedPooledOwned {ℓ} (T : Type ℓ) : Type ℓ where
  pub buffer : Option T
