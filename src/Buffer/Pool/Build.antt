-- ===== src/Buffer/Pool/Build.antt =====
-- src/buffer.rs: a new pool and its builder methods.
use par_buffer_pool.Base.{
  ℕ, ◌≤◌, ◌<◌, Option, none, some, List, ◌≡◌, ◌≢◌, refl, ap, arith, length-replicate,
  total-replicate, ◌==◌, eq-eq_false, not, if◌then◌else◌,
}
use native.Mathlib.Decide.{ℕ_discrete}
use par_buffer_pool.Base.Words.{usize_mod, usize_max}
use par_buffer_pool.Base.Effect.{returned, panicked}
use par_buffer_pool.Sharding.{Threads, shard_count}
use par_buffer_pool.Sharding.Bounds.{shard_count_bounds}
use par_buffer_pool.Buffer.State.{Machine, Mutex, InitFn, ResetFn}
use par_buffer_pool.Buffer.Inner.{set_parked}
use par_buffer_pool.Buffer.Guard.{release_handle}
use par_buffer_pool.Buffer.Weights.{idle_weight, pile_weight, idle}
use par_buffer_pool.Buffer.Invariant.{IsWellFormed}
use par_buffer_pool.Buffer.Invariant.Inner.{IsSharded-of}
use par_buffer_pool.Buffer.Pool.{new, with_max_idle, with_reset, empty_pile}
use par_buffer_pool.Buffer.Pool.Drain.{count_idle_lem}

module _ {ℓ} {T : Type ℓ} where
  -- A new pool is well-formed and holds no buffer, whatever parallelism the machine reports, also
  -- if it reports none.
  pub new_lem :
      (t : Threads) (par : Option ℕ) (init : InitFn T)
      → IsWellFormed (new t par init) × ((w : T → ℕ) → idle_weight w (new t par init) ≡ 0)
  unfolding new idle_weight
  new_lem t par init =
      let pile : Mutex (List T) = empty_pile in
      let n = length-replicate (shard_count par) pile in
      (
        record {
          sharded = record { power = rw n (shard_count_bounds par).0; masked = refl };
          counted = tt;
          capped = refl;
        },
        λ w. omega (arith, total-replicate (pile_weight w) (shard_count par) pile refl),
      )

  -- The pool with a cap of `n`, and an exact count where it is a cap.
  abbrev pub capped_at : ℕ → Machine T → Machine T
  capped_at n s =
      set_parked (if not (n == usize_max) then some (idle s) else none)
        (record s { inner = record s.inner { max_idle = n } })

  pub with_max_idle_lem :
      (n : ℕ) (s : Machine T)
      → s.strong ≡ 1
      → idle s < usize_mod
      → with_max_idle n s ≡ (returned tt, capped_at n s)
  unfolding with_max_idle idle_weight
  with_max_idle_lem n s unique fits =
      let u = record s { inner = record s.inner { max_idle = n } } in
      rw (ap (λ k. k == 1) unique, count_idle_lem u fits)

  with_max_idle_shared :
      (n : ℕ) (s : Machine T) → s.strong ≢ 1 → with_max_idle n s ≡ (panicked, release_handle s)
  unfolding with_max_idle
  with_max_idle_shared n s shared = rw (eq-eq_false s.strong 1 shared)

  with_reset_shared :
      (reset : ResetFn T) (s : Machine T)
      → s.strong ≢ 1
      → with_reset reset s ≡ (panicked, release_handle s)
  unfolding with_reset
  with_reset_shared n s shared = rw (eq-eq_false s.strong 1 shared)

  abbrev pub with_hook : ResetFn T → Machine T → Machine T
  with_hook reset s = record s { inner = record s.inner { reset = some reset } }

  pub with_reset_lem :
      (reset : ResetFn T) (s : Machine T)
      → s.strong ≡ 1
      → with_reset reset s ≡ (returned tt, with_hook reset s)
  unfolding with_reset
  with_reset_lem reset s unique = rw (ap (λ k. k == 1) unique)

  pub capped_at-IsWellFormed :
      (n : ℕ) (s : Machine T)
      → n ≤ usize_max
      → idle s < usize_mod
      → IsWellFormed s
      → IsWellFormed (capped_at n s)
  unfolding idle_weight
  capped_at-IsWellFormed n s small fits h = elim (ℕ_discrete n usize_max) [
    | yes e ↦
        rw (ap (λ k. k == usize_max) e)
          (record { sharded = IsSharded-of s _ refl refl h.sharded; counted = tt; capped = e })
    | no d ↦ rw (eq-eq_false n usize_max d) (record {
      sharded = IsSharded-of s _ refl refl h.sharded;
      counted = (refl, fits);
      capped = omega arith;
    })
  ]

  -- On the only handle of a well-formed pool, whose idle buffers a `usize` can count,
  -- `with_max_idle n` returns for every `n` that is a `usize`. The pool is well-formed with the
  -- cap `n`, its count exact, and no buffer has moved in or out.
  pub with_max_idle-IsWellFormed :
      (n : ℕ) (s : Machine T)
      → n ≤ usize_max
      → s.strong ≡ 1
      → idle s < usize_mod
      → IsWellFormed s
      → let (result, t) = with_max_idle n s in
        (result ≡ returned tt)
        × IsWellFormed t
        × (t.max_idle ≡ n)
        × (t.shards ≡ s.shards)
        × (t.reserve ≡ s.reserve)
  with_max_idle-IsWellFormed n s small unique fits h =
      rw (with_max_idle_lem n s unique fits)
        (refl, capped_at-IsWellFormed n s small fits h, refl, refl, refl)
