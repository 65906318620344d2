-- ===== src/Buffer/Behaviour/Prefill.antt =====
-- src/buffer.rs: what `prefill` stocks, and what the counters say after it.
use par_buffer_pool.Base.{
  ℕ, zero, suc, ◌+◌, ◌-◌, ◌<◌, ◌%◌, min, Option, none, some, ◌≡◌, refl, ap, ap₂, ◌∙◌, arith,
  leb-eq_false, if◌then◌else◌, is_some, Bool, Bool-cases, inl, inr,
}
use par_buffer_pool.Base.Words.{usize_mod, fetch_add-lt, fetch_add-mod, fetch_sub-wraps}
use par_buffer_pool.Base.Effect.{Outcome, returned, panicked}
use par_buffer_pool.Sharding.{Threads}
use par_buffer_pool.Buffer.State.{Machine, InitFn}
use par_buffer_pool.Buffer.Inner.{run_reset, reset_with}
use par_buffer_pool.Buffer.Inner.Forms.{has_room, claimed}
use par_buffer_pool.Buffer.Weights.{idle_weight, idle}
use par_buffer_pool.Buffer.Pool.{new, prefill, prefill_loop, drop_on_panic, stats, reuses}
use par_buffer_pool.Buffer.Pool.Lease.{allocated}
use par_buffer_pool.Buffer.Pool.Build.{new_lem}
use par_buffer_pool.Buffer.Invariant.{IsWellFormed}
use par_buffer_pool.Buffer.Invariant.Inner.{settled_reserve, settled_reserve-Keeps}
use par_buffer_pool.Buffer.Invariant.Return.{stock_reserve_lem}
use par_buffer_pool.Buffer.Invariant.Pool.{allocate_lem, allocated-Keeps}
use par_buffer_pool.Buffer.Behaviour.Returns.{idle_after, idle-settled_reserve}

-- The number of idle buffers after `n` more, up to the cap.
abbrev pub filled : Bool → ℕ → ℕ → ℕ → ℕ
filled capped cap n k = if capped then k + min n (cap - k) else k + n

-- One buffer more, and then `n`.
filled-idle_after :
    (p : Option ℕ) (cap n k : ℕ)
    → filled (is_some p) cap n (idle_after (returned tt) p cap k) ≡ filled (is_some p) cap (suc n) k
filled-idle_after none cap n k = omega arith
filled-idle_after (some p) cap n k = ground arith

is_some-claimed : (n : ℕ) (p : Option ℕ) → is_some (claimed n p) ≡ is_some p
is_some-claimed n none = refl
is_some-claimed n (some p) = refl

mod_self : (n : ℕ) → n < usize_mod → (0 + n) % usize_mod ≡ n
mod_self n small = omega arith

module _ {ℓ} {T : Type ℓ} where
  -- The initializer never panics.
  abbrev pub Answers : InitFn T → Type ℓ
  Answers init = (k : ℕ) → (b : T) × (init k ≡ returned b)

  -- From `s` a prefill of `n` has led to `t`.
  record IsPrefilled (n : ℕ) (s t : Machine T) : Type ℓ where
    idle_filled : idle t ≡ filled (is_some s.parked) s.max_idle n (idle s)
    same_shards : t.shards ≡ s.shards
    same_leases : t.leases ≡ s.leases
    runs : t.init_runs ≡ s.init_runs + n
    counted : t.allocations ≡ (s.allocations + n) % usize_mod

  pub no_hook_run : (b : T) (s : Machine T) → s.reset ≡ none → run_reset b s ≡ (returned b, s)
  unfolding run_reset
  no_hook_run b s e = ap (λ r. reset_with r b s) e

  -- What a buffer in the reserve leaves alone.
  record SameRest (s t : Machine T) : Type ℓ where
    same_init : t.init ≡ s.init
    same_reset : t.reset ≡ s.reset
    same_shards : t.shards ≡ s.shards
    same_leases : t.leases ≡ s.leases
    same_runs : t.init_runs ≡ s.init_runs
    same_allocations : t.allocations ≡ s.allocations
    same_cap : t.max_idle ≡ s.max_idle
    still_capped : is_some t.parked ≡ is_some s.parked

  settled_reserve-SameRest : (b : T) (s : Machine T) → SameRest s (settled_reserve b s)
  settled_reserve-SameRest b s = elim (Bool-cases (has_room s.max_idle s.parked)) [
    | inl room ↦ rw room (record {
      same_init = refl;
      same_reset = refl;
      same_shards = refl;
      same_leases = refl;
      same_runs = refl;
      same_allocations = refl;
      same_cap = refl;
      still_capped = is_some-claimed s.max_idle s.parked;
    })
    | inr full ↦ rw full (record {
      same_init = refl;
      same_reset = refl;
      same_shards = refl;
      same_leases = refl;
      same_runs = refl;
      same_allocations = refl;
      same_cap = refl;
      still_capped = refl;
    })
  ]

  stocked : T → Machine T → Machine T
  stocked b s = settled_reserve b (allocated s)

  IsPrefilled-zero : (s : Machine T) → s.allocations < usize_mod → IsPrefilled 0 s s
  IsPrefilled-zero s fits = record {
    idle_filled = ground arith;
    same_shards = refl;
    same_leases = refl;
    runs = omega arith;
    counted = omega arith;
  }

  IsPrefilled-suc :
      (n : ℕ) (b : T) (s t : Machine T)
      → IsWellFormed (allocated s)
      → SameRest (allocated s) (stocked b s)
      → IsPrefilled n (stocked b s) t
      → IsPrefilled (suc n) s t
  unfolding idle_weight stocked
  IsPrefilled-suc n b s t h rest p = record {
    idle_filled =
        p.idle_filled
        ∙ ap₂ (λ c cap. filled c cap n (idle (stocked b s))) rest.still_capped rest.same_cap
        ∙ ap (filled (is_some s.parked) s.max_idle n) (idle-settled_reserve b (allocated s) h)
        ∙ filled-idle_after s.parked s.max_idle n (idle s);
    same_shards = p.same_shards ∙ rest.same_shards;
    same_leases = p.same_leases ∙ rest.same_leases;
    runs = omega (arith, p.runs, rest.same_runs);
    counted = omega (arith, p.counted, rest.same_allocations, fetch_add-mod s.allocations 1);
  }

  -- Where the initializer answers and no hook is installed, a prefill returns.
  prefill_loop_lem :
      (n : ℕ) (s : Machine T)
      → IsWellFormed s
      → s.reset ≡ none
      → Answers s.init
      → s.allocations < usize_mod
      → ((prefill_loop n s).0 ≡ returned tt) × IsPrefilled n s (prefill_loop n s).1
  unfolding prefill_loop stocked
  prefill_loop_lem zero s h e a fits = (refl, IsPrefilled-zero s fits)
  prefill_loop_lem (suc n) s h e a fits =
      let (b, q) = a s.init_runs in
      let k = allocated-Keeps s h in
      let rest = settled_reserve-SameRest b (allocated s) in
      let next =
        prefill_loop_lem n (settled_reserve b (allocated s))
          (settled_reserve-Keeps b (allocated s) k.well_formed).well_formed (rest.same_reset ∙ e)
          (λ j. (rw (← rest.same_init) at a) j)
          (omega (arith, rest.same_allocations, fetch_add-lt s.allocations 1)) in
      rw
        (
          allocate_lem s,
          q,
          stock_reserve_lem b b (allocated s) (allocated s) (no_hook_run b (allocated s) e)
              k.well_formed,
        )
        (next.0, IsPrefilled-suc n b s _ k.well_formed rest next.1)

  drop_on_panic-returned :
      (r : Outcome (Unit {0}) × Machine T) → r.0 ≡ returned tt → drop_on_panic r ≡ r
  drop_on_panic-returned (returned u, s) e = refl
  drop_on_panic-returned (panicked, s) e = cc

  -- In a well-formed pool without a reset hook, with an initializer that never panics, `prefill n`
  -- returns. It parks `n` buffers, or as many as the cap has room for, leaves the shards and the
  -- number of leases as they were, and runs and counts the initializer `n` times.
  pub prefill_lem :
      (n : ℕ) (s : Machine T)
      → IsWellFormed s
      → s.reset ≡ none
      → Answers s.init
      → s.allocations < usize_mod
      → let (result, t) = prefill n s in
        (result ≡ returned tt)
        × (idle t ≡ filled (is_some s.parked) s.max_idle n (idle s))
        × (t.shards ≡ s.shards)
        × (t.leases ≡ s.leases)
        × (t.init_runs ≡ s.init_runs + n)
        × (t.allocations ≡ (s.allocations + n) % usize_mod)
  unfolding prefill
  prefill_lem n s h e a fits =
      let (done, t) = prefill_loop_lem n s h e a fits in
      rw (drop_on_panic-returned (prefill_loop n s) done)
        (done, t.idle_filled, t.same_shards, t.same_leases, t.runs, t.counted)

  -- After `prefill n` on a new pool, with an initializer that never panics and 0 < n < 2 ^ 64,
  -- `reuses` underflows: it panics in a build with overflow checks, and gives 2 ^ 64 - n in one
  -- without.
  pub reuses-prefill :
      (n : ℕ) (checks : Bool) (threads : Threads) (par : Option ℕ) (init : InitFn T)
      → Answers init
      → 0 < n
      → n < usize_mod
      → reuses checks (stats (prefill n (new threads par init)).1)
        ≡ (if checks then panicked else returned (usize_mod - n))
  unfolding reuses stats new
  reuses-prefill n checks threads par init a pos small =
      let p =
        prefill_lem n (new threads par init) (new_lem threads par init).0 refl a (omega arith) in
      rw (p.3, p.5, mod_self n small, leb-eq_false n 0 pos, fetch_sub-wraps n pos small)
