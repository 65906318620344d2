-- ===== src/Buffer/Concurrent.antt =====
-- src/buffer.rs: leases, returns and drains that overlap. A step is one access to shared state:
-- one atomic read-modify-write, or one pile under its lock; no code holds two locks, and user code
-- runs under none.
pub mod Books
pub mod Tick
pub mod Count
pub mod Consistent
pub mod Sound
pub mod Alone
pub mod Progress
pub mod Jobs
mod Examples
use par_buffer_pool.Base.{
  ℕ, ◌+◌, ◌<◌, Option, none, some, List, [], ◌∷◌, ◌++◌, ◌≡◌, leb, if◌then◌else◌, length, get_elem?,
  set, pop,
}
use par_buffer_pool.Base.Words.{fetch_add, usize_mod}
use par_buffer_pool.Base.Effect.{Outcome, returned, panicked}
use par_buffer_pool.Buffer.State.{Mutex, lock_pile, write_pile, Machine}
use par_buffer_pool.Buffer.Inner.{
  set_shards, set_reserve, set_parked, discard, shard, unpark, run_reset, park,
}

-- Where a call stands. `get` starts at `counting_lease`, `recycle` at `resetting`, and `drain` at
-- `sweeping 0 0 []`; `finished` has the buffers that the call hands out.
pub data Phase {ℓ} (T : Type ℓ) : Type ℓ where
  counting_lease popping_shard popping_reserve counting_allocation initializing failed : Phase T
  unparking resetting claiming giving_back parking : T → Phase T
  sweeping : ℕ → ℕ → List T → Phase T
  sweeping_reserve unparking_all : ℕ → List T → Phase T
  finished : List T → Phase T

module _ {ℓ} {T : Type ℓ} where
  abbrev pub after_pop : Phase T → Option T → Phase T
  after_pop otherwise none = otherwise
  after_pop otherwise (some b) = unparking b

  -- `lock_pile(&self.shard().0).pop()`
  abbrev pub shard_popped : Outcome (ℕ × Mutex (List T)) × Machine T → Phase T × Machine T
  shard_popped (returned (k, m), s) =
      let (popped, rest) = pop (lock_pile m) in
      (after_pop popping_reserve popped, set_shards (set s.shards k (write_pile m rest)) s)
  shard_popped (panicked, s) = (failed, s)

  abbrev pub after_init : Outcome T → Phase T
  after_init (returned b) = finished (b ∷ [])
  after_init panicked = failed

  abbrev pub after_reset : Outcome T → Phase T
  after_reset (returned b) = claiming b
  after_reset panicked = failed

  abbrev pub after_park : Outcome (Unit {0}) → Phase T
  after_park (returned u) = finished []
  after_park panicked = failed

  -- `self.parked.fetch_add(1) >= self.max_idle`
  abbrev pub claim_slot : Option ℕ → T → Machine T → Phase T × Machine T
  claim_slot none b s = (parking b, s)
  claim_slot (some p) b s =
      (if leb s.max_idle p then giving_back b else parking b, set_parked (some (fetch_add p 1)) s)

  -- One round of the loop over the shards.
  abbrev pub sweep_pile : ℕ → ℕ → List T → Option (Mutex (List T)) → Machine T → Phase T × Machine T
  sweep_pile k taken bs none s = (sweeping_reserve taken bs, s)
  sweep_pile k taken bs (some m) s = (
    sweeping (k + 1) (fetch_add taken (length (lock_pile m))) (bs ++ lock_pile m),
    set_shards (set s.shards k (write_pile m [])) s,
  )

  -- The next step of a call on thread `i`.
  unfoldable pub tick : ℕ → Phase T → Machine T → Phase T × Machine T
  unfolding shard lock_pile unpark run_reset park
  tick i counting_lease s =
      (popping_shard, record s { inner = record s.inner { leases = fetch_add s.leases 1 } })
  tick i popping_shard s = shard_popped (shard i s)
  tick i popping_reserve s =
      let (popped, rest) = pop (lock_pile s.reserve) in
      (after_pop counting_allocation popped, set_reserve rest s)
  tick i (unparking b) s = (finished (b ∷ []), (unpark 1 s).1)
  tick i counting_allocation s = (
    initializing,
    record s { inner = record s.inner { allocations = fetch_add s.allocations 1 } },
  )
  tick i initializing s =
      (after_init (s.init s.init_runs), record s { init_runs = s.init_runs + 1 })
  tick i (resetting b) s = (after_reset (run_reset b s).0, (run_reset b s).1)
  tick i (claiming b) s = claim_slot s.parked b s
  tick i (giving_back b) s = (finished [], discard b (unpark 1 s).1)
  tick i (parking b) s = (after_park (park i b s).0, (park i b s).1)
  tick i (sweeping k taken bs) s = sweep_pile k taken bs (get_elem? s.shards k) s
  tick i (sweeping_reserve taken bs) s = (
    unparking_all (fetch_add taken (length (lock_pile s.reserve))) (bs ++ lock_pile s.reserve),
    set_reserve [] s,
  )
  tick i (unparking_all taken bs) s = (finished bs, (unpark taken s).1)
  tick i (finished bs) s = (finished bs, s)
  tick i failed s = (failed, s)

-- A call that has begun, on its thread.
pub record Call {ℓ} (T : Type ℓ) : Type ℓ where
  pub thread : ℕ
  pub phase : Phase T

-- The buffers that the program holds, under guards or on its own, those that it has brought, and
-- what it has written: the buffers as they were before each write and after it.
pub record System {ℓ} (T : Type ℓ) : Type ℓ where
  pub machine : Machine T
  pub calls : List (Call T)
  pub held : List T
  pub supplied : List T
  pub before : List T
  pub after : List T

-- Where a cap is kept, the calls that overlap do not take its count past a `usize`.
abbrev pub Room : Option ℕ → ℕ → ℕ → Type 0
Room none cap n = Unit {0}
Room (some p) cap n = cap + n < usize_mod

module _ {ℓ} {T : Type ℓ} where
  abbrev pub start : Machine T → System T
  start s = record { machine = s; calls = []; held = []; supplied = []; before = []; after = [] }

  abbrev pub RoomForCall : System T → Type 0
  RoomForCall y = Room y.machine.parked y.machine.max_idle (length y.calls + 1)

  pub data Step (y : System T) : System T → Type ℓ where
    begin_get :
        (i : ℕ)
        → RoomForCall y
        → Step y (record y { calls = record { thread = i; phase = counting_lease } ∷ y.calls })
    begin_recycle :
        (i : ℕ) (b : T) (xs ys : List T)
        → RoomForCall y
        → y.held ≡ xs ++ (b ∷ ys)
        → Step y (record y {
          calls = record { thread = i; phase = resetting b } ∷ y.calls;
          held = xs ++ ys;
        })
    begin_drain :
        (i : ℕ)
        → RoomForCall y
        → Step y (record y { calls = record { thread = i; phase = sweeping 0 0 [] } ∷ y.calls })
    run :
        (c : Call T) (xs ys : List (Call T))
        → y.calls ≡ xs ++ (c ∷ ys)
        → Step y (record y {
          machine = (tick c.thread c.phase y.machine).1;
          calls = xs ++ (record c { phase = (tick c.thread c.phase y.machine).0 } ∷ ys);
        })
    finish :
        (c : Call T) (bs : List T) (xs ys : List (Call T))
        → y.calls ≡ xs ++ (c ∷ ys)
        → c.phase ≡ finished bs
        → Step y (record y { calls = xs ++ ys; held = bs ++ y.held })
    fail :
        (c : Call T) (xs ys : List (Call T))
        → y.calls ≡ xs ++ (c ∷ ys)
        → c.phase ≡ failed
        → Step y (record y { calls = xs ++ ys })
    write :
        (b b' : T) (xs ys : List T)
        → y.held ≡ xs ++ (b ∷ ys)
        → Step y (record y { held = xs ++ (b' ∷ ys); before = b ∷ y.before; after = b' ∷ y.after })
    supply : (b : T) → Step y (record y { held = b ∷ y.held; supplied = b ∷ y.supplied })

  pub data Reach (s : Machine T) : System T → Type ℓ where
    here : Reach s (start s)
    next : {y z : System T} → Reach s y → Step y z → Reach s z
