-- ===== src/Buffer/Client/Stats.antt =====
-- src/buffer.rs: what `PoolStats` says of a program that began with a new pool.
use par_buffer_pool.Base.{
  ℕ, zero, suc, ◌+◌, ◌-◌, ◌≤◌, ◌<◌, Bool, Option, none, some, List, [], ◌∷◌, ◌++◌, ◌≡◌, refl, ap,
  arith, total, length, leb-eq_true,
}
use par_buffer_pool.Base.Words.{usize_mod}
use par_buffer_pool.Base.Effect.{Outcome, returned, panicked}
use par_buffer_pool.Buffer.State.{Machine, InitFn, ResetFn}
use par_buffer_pool.Buffer.Inner.{recycle}
use par_buffer_pool.Buffer.Guard.{drop_guard, into_inner, drop_owned, into_inner_owned, arc_clone}
use par_buffer_pool.Buffer.Pool.{put, clone, drop_pool, stats, stats_between, reuses, new}
use par_buffer_pool.Buffer.Pool.Drain.{drain_lem}
use par_buffer_pool.Buffer.Pool.Build.{new_lem}
use par_buffer_pool.Sharding.{Threads}
use par_buffer_pool.Buffer.Weights.{idle, one_each, total-one_each}
use par_buffer_pool.Buffer.Invariant.{IsWellFormed, made_by, outcome_weight, Preserves}
use par_buffer_pool.Buffer.Client.{
  Client, Step, lease, lease_owned, give_back, detach, give_back_owned, detach_owned, put_back,
  take_all, supply, write_borrowed, write_owned, clone_handle, drop_handle, Reach, here, next,
}
use par_buffer_pool.Buffer.Client.Ledger.{IsSound}
use par_buffer_pool.Buffer.Client.History.{length-middle, lender}
use par_buffer_pool.Buffer.Client.Sound.{Reach-IsSound, conservation}
use par_buffer_pool.Buffer.Client.Meters.{
  IsMetered, SameMeters, SameMeters-trans, IsMetered-same, get-IsMetered, get_owned-IsMetered,
  recycle-SameMeters, release_handle-SameMeters,
}

module _ {ℓ} {T : Type ℓ} where
  unmoved : {s : Machine T} → SameMeters s s
  unmoved = record { same_allocations = refl; same_leases = refl; same_runs = refl }

  module _ {Writes : T → T → Type ℓ} {s : Machine T} {c : Client T} (h : IsSound Writes s c) where
    owned_alive : (b : T) (xs ys : List T) → c.owned ≡ xs ++ (b ∷ ys) → IsWellFormed c.machine
    owned_alive b xs ys e = h.alive (omega (arith, h.references, length-middle c.owned xs ys b e))

    borrowed_alive : (b : T) (xs ys : List T) → c.borrowed ≡ xs ++ (b ∷ ys) → IsWellFormed c.machine
    borrowed_alive b xs ys e = h.alive (omega (arith, h.references, lender h b xs ys e))

    handle_alive : 0 < c.handles → IsWellFormed c.machine
    handle_alive p = h.alive (omega (arith, h.references))

    Step-IsMetered :
        {d : Client T} (k : ℕ)
        → Step Writes c d
        → IsMetered k c.machine
        → IsMetered (k + 1) d.machine
    unfolding put into_inner drop_owned into_inner_owned drop_guard clone arc_clone drop_pool
    Step-IsMetered k (lease i p) q = get-IsMetered i k c.machine (handle_alive p) q
    Step-IsMetered k (lease_owned i p) q = get_owned-IsMetered i k c.machine (handle_alive p) q
    Step-IsMetered k (give_back i b xs ys e) q =
        IsMetered-same (recycle-SameMeters i b c.machine (borrowed_alive b xs ys e)) (omega arith) q
    Step-IsMetered k (detach i b xs ys e) q = IsMetered-same unmoved (omega arith) q
    Step-IsMetered k (give_back_owned i b xs ys e) q =
        IsMetered-same
          (SameMeters-trans (recycle-SameMeters i b c.machine (owned_alive b xs ys e))
            (release_handle-SameMeters (recycle i b c.machine).1))
          (omega arith) q
    Step-IsMetered k (detach_owned i b xs ys e) q =
        IsMetered-same (release_handle-SameMeters c.machine) (omega arith) q
    Step-IsMetered k (put_back i b xs ys p e) q =
        IsMetered-same (recycle-SameMeters i b c.machine (handle_alive p)) (omega arith) q
    Step-IsMetered k (take_all p) q = rw (drain_lem c.machine (handle_alive p)) (
        IsMetered-same (record { same_allocations = refl; same_leases = refl; same_runs = refl })
          (omega arith) q)
    Step-IsMetered k (supply b) q = IsMetered-same unmoved (omega arith) q
    Step-IsMetered k (write_borrowed b b' xs ys a e) q = IsMetered-same unmoved (omega arith) q
    Step-IsMetered k (write_owned b b' xs ys a e) q = IsMetered-same unmoved (omega arith) q
    Step-IsMetered k (clone_handle p) q =
        IsMetered-same (record { same_allocations = refl; same_leases = refl; same_runs = refl })
          (omega arith) q
    Step-IsMetered k (drop_handle p last) q =
        IsMetered-same (release_handle-SameMeters c.machine) (omega arith) q

  -- The length of a history.
  unfoldable pub steps :
      {Writes : T → T → Type ℓ} {s : Machine T} {c : Client T} → Reach Writes s c → ℕ
  steps here = 0
  steps (next r st) = steps r + 1

  Reach-IsMetered :
      {Writes : T → T → Type ℓ} {s : Machine T} {c : Client T}
      → IsWellFormed s
      → s.strong ≡ 1
      → IsMetered 0 s
      → (r : Reach Writes s c) → IsMetered (steps r) c.machine
  unfolding steps
  Reach-IsMetered w unique h here = h
  Reach-IsMetered w unique h (next r st) =
      Step-IsMetered (Reach-IsSound w unique r) (steps r) st (Reach-IsMetered w unique h r)

  -- A pool as `new` makes it: with one handle, no buffer, and nothing counted.
  pub record IsFresh (s : Machine T) : Type ℓ where
    pub well_formed : IsWellFormed s
    pub unique : s.strong ≡ 1
    pub empty : idle s ≡ 0
    pub whole : s.dropped ≡ []
    pub no_leases : s.leases ≡ 0
    pub no_allocations : s.allocations ≡ 0
    pub no_runs : s.init_runs ≡ 0

  pub new-IsFresh : (t : Threads) (par : Option ℕ) (init : InitFn T) → IsFresh (new t par init)
  unfolding new
  new-IsFresh t par init = record {
    well_formed = (new_lem t par init).0;
    unique = refl;
    empty = (new_lem t par init).1 one_each;
    whole = refl;
    no_leases = refl;
    no_allocations = refl;
    no_runs = refl;
  }

  Preserves-one_each : (o : Option (ResetFn T)) → Preserves one_each o
  Preserves-one_each none = tt
  Preserves-one_each (some hook) = λ n b. refl

  made_by-le : (init : InitFn T) (n : ℕ) → made_by one_each init n ≤ n
  unfolding made_by
  made_by-le init zero = omega arith
  made_by-le init (suc n) = omega (arith, made_by-le init n, at_most_one (init n))
    where
      at_most_one : (o : Outcome T) → outcome_weight one_each o ≤ 1
      at_most_one (returned b) = omega arith
      at_most_one panicked = omega arith

  module _ {Writes : T → T → Type ℓ} {s : Machine T} {c : Client T} (h : IsFresh s)
      (r : Reach Writes s c) where
    metered : IsMetered (steps r) c.machine
    metered =
        Reach-IsMetered h.well_formed h.unique
          (record {
            allocating = omega (arith, h.no_allocations, h.no_runs);
            leasing = (0, omega (arith, h.no_leases), omega (arith, h.no_runs), omega arith);
          })
          r

    -- Let a program of fewer than 2^64 steps use a pool that began as `new` makes it. At every moment
    -- the buffers under guards, and those detached or otherwise with the program, are at most as
    -- many as the allocations counted and the buffers that the program brought by itself.
    pub allocations_bound :
        steps r < usize_mod
        → length c.borrowed + length c.owned + length c.detached
          ≤ (stats c.machine).allocations + length c.supplied
    unfolding stats
    allocations_bound few = omega (
      arith,
      metered.allocating,
      metered.leasing.2,
      metered.leasing.3,
      conservation h.well_formed h.unique r one_each (Preserves-one_each s.reset) (λ b b' a. refl),
      made_by-le c.machine.init c.machine.init_runs,
      h.empty,
      ap (total one_each) h.whole,
      total-one_each c.borrowed,
      total-one_each c.owned,
      total-one_each c.detached,
      total-one_each c.supplied,
    )

  -- The calls that a program makes from `c` to `d`.
  pub data Later (Writes : T → T → Type ℓ) (c : Client T) : Client T → Type ℓ where
    same : Later Writes c c
    after : {d e : Client T} → Later Writes c d → Step Writes d e → Later Writes c e

  Later-Reach :
      {Writes : T → T → Type ℓ} {s : Machine T} {c d : Client T}
      → Reach Writes s c
      → Later Writes c d
      → Reach Writes s d
  Later-Reach r same = r
  Later-Reach r (after l st) = next (Later-Reach r l) st

  -- The number of steps to `c` and on to `d`.
  unfoldable pub all_steps :
      {Writes : T → T → Type ℓ} {s : Machine T} {c d : Client T}
      → Reach Writes s c
      → Later Writes c d
      → ℕ
  unfolding steps
  all_steps r same = steps r
  all_steps r (after l st) = all_steps r l + 1

  steps-Later-Reach :
      {Writes : T → T → Type ℓ} {s : Machine T} {c d : Client T} (r : Reach Writes s c)
      (l : Later Writes c d)
      → steps (Later-Reach r l) ≡ all_steps r l
  unfolding steps all_steps Later-Reach
  steps-Later-Reach r same = refl
  steps-Later-Reach r (after l st) = omega (arith, steps-Later-Reach r l)

  -- Let a program of fewer than 2^64 whole calls, none of them a `prefill`, use a pool that began as
  -- `new` makes it, and let `stats` load the leases after one of its calls and the allocations after
  -- the same or a later one. Where no lease has been counted between the two loads, `reuses` of what
  -- they gave returns, with and without overflow checks, the leases less the allocations.
  pub reuses_returns :
      {Writes : T → T → Type ℓ} {s : Machine T} {c d : Client T}
      → IsFresh s
      → (r : Reach Writes s c) (l : Later Writes c d) → all_steps r l < usize_mod
      → d.machine.leases ≡ c.machine.leases
      → (checks : Bool)
      → reuses checks (stats_between (λ t. d.machine) c.machine)
        ≡ returned (c.machine.leases - d.machine.allocations)
  unfolding reuses
  reuses_returns {c = c} {d = d} h r l few quiet checks =
      let m = metered h (Later-Reach r l) in
      rw
        (leb-eq_true d.machine.allocations c.machine.leases (
          omega (
            arith,
            quiet,
            steps-Later-Reach r l,
            m.allocating,
            m.leasing.1,
            m.leasing.2,
            m.leasing.3,
          )))
        refl
