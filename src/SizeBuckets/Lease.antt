-- ===== src/SizeBuckets/Lease.antt =====
-- examples/size_buckets.rs: a lease of one pool, cleared and resized.
use par_buffer_pool.Base.{
  ℕ, zero, suc, ◌+◌, ◌-◌, ◌*◌, ◌^◌, ◌≤◌, some, List, [], ◌∷◌, ◌≡◌, refl, ap, replicate, leb-eq_true,
  arith,
}
use par_buffer_pool.Base.Effect.{returned}
use par_buffer_pool.Buffer.State.{Machine}
use par_buffer_pool.Buffer.Guard.{deref_mut_owned}
use par_buffer_pool.Sharding.{Threads}
use par_buffer_pool.Buffer.Weights.{idle_weight}
use par_buffer_pool.Buffer.Pool.With.{get_owned_lem}
use par_buffer_pool.Buffer.Invariant.{IsWellFormed}
use par_buffer_pool.Buffer.Invariant.Inner.{IsSharded-of}
use par_buffer_pool.Buffer.Invariant.Pool.{get-Keeps}
use par_buffer_pool.Buffer.Behaviour.Calls.{get_returns}
use par_buffer_pool.Buffer.Behaviour.Prefill.{Answers}
use par_buffer_pool.Buffer.Contract.Refines.{get-terms}
use par_buffer_pool.SizeBuckets.{resized, get_any_size}

module _ {ℓ} {E : Type ℓ} where
  resized-replicate : (n : ℕ) (e : E) → resized n e [] ≡ replicate n e
  resized-replicate zero e = refl
  resized-replicate (suc n) e = ap (◌∷◌ e) (resized-replicate n e)

  -- A pool that can serve a lease.
  pub record IsServing (s : Machine (List E)) : Type ℓ where
    pub well_formed : IsWellFormed s
    pub answers : Answers s.init

  -- The invariant does not read the reference count and the ids.
  pub settings-IsWellFormed :
      (s : Machine (List E)) (n : ℕ) (t : Threads)
      → IsWellFormed s
      → IsWellFormed (record s { strong = n; threads = t })
  unfolding idle_weight
  settings-IsWellFormed s n t h = record {
    sharded = IsSharded-of s _ refl refl h.sharded;
    counted = h.counted;
    capped = h.capped;
  }

  -- Whatever was parked, a lease of at most 2^59 elements has `n`, each `e`.
  pub get_any_size_lem :
      (e : E) (i n : ℕ) (s : Machine (List E))
      → IsServing s
      → n ≤ 2 ^ 59
      → ((get_any_size e i n s).0 ≡ returned (record { buffer = some (replicate n e) }))
        × IsServing (get_any_size e i n s).1
  unfolding get_any_size deref_mut_owned
  get_any_size_lem e i n s h small =
      let (b, t, g) = get_returns i s h.well_formed h.answers in
      let k = rw g at (get-Keeps i s h.well_formed) in
      let same = rw g at (get-terms i s h.well_formed) in
      rw
        (
          get_owned_lem i s t b g,
          leb-eq_true (8 * n) (2 ^ 63 - 1) (omega arith),
          resized-replicate n e,
        )
        (
          refl,
          record {
            well_formed = settings-IsWellFormed t (t.strong + 1) t.threads k.well_formed;
            answers = rw (ap (λ q. q.init) same) h.answers;
          },
        )
