-- ===== src/Buffer/Behaviour/Race.antt =====
-- src/buffer.rs: a lease between the two loads of `stats`.
use par_buffer_pool.Base.{
  ℕ, ◌+◌, ◌<◌, none, some, Option, ◌≡◌, refl, arith, leb-eq_false, if◌then◌else◌, Bool, pop,
}
use par_buffer_pool.Base.Words.{usize_max, fetch_add_lem, fetch_sub}
use par_buffer_pool.Base.Effect.{panicked, returned}
use par_buffer_pool.Buffer.State.{Machine}
use par_buffer_pool.Buffer.Inner.Forms.{find_pile, unparked}
use par_buffer_pool.Buffer.Weights.{
  idle, one_each, option_weight, idle_weight, idle_weight-popped_shard, idle_weight-popped_reserve,
}
use par_buffer_pool.Buffer.Pool.{get, stats_between, reuses}
use par_buffer_pool.Buffer.Pool.Lease.{get_fresh}
use par_buffer_pool.Buffer.Invariant.{IsWellFormed}

no_weight {ℓ} : {T : Type ℓ} (o : Option T) → option_weight one_each o ≡ 0 → o ≡ none
no_weight none e = refl
no_weight (some b) e = absurd (omega arith)

fetch_sub-below : (a : ℕ) → a < usize_max → fetch_sub a (a + 1) ≡ usize_max
unfolding fetch_sub
fetch_sub-below a h = omega arith

module _ {ℓ} {T : Type ℓ} where
  unparked-allocations : (o : Option T) (s : Machine T) → (unparked o s).allocations ≡ s.allocations
  unparked-allocations none s = refl
  unparked-allocations (some b) s = refl

  -- Without an idle buffer a lease counts an allocation.
  get-allocates :
      (i : ℕ) (s : Machine T)
      → IsWellFormed s
      → idle s ≡ 0
      → s.allocations < usize_max
      → (get i s).1.allocations ≡ s.allocations + 1
  unfolding idle_weight
  get-allocates i s h empty small =
      let (m, own) = find_pile i s h.sharded in
      let no_pile =
        no_weight (pop m.value).0
          (omega (arith, empty, idle_weight-popped_shard one_each i s m own)) in
      let no_reserve =
        no_weight (pop s.reserve.value).0
          (omega (arith, empty, idle_weight-popped_reserve one_each s)) in
      rw (get_fresh i s m own no_pile no_reserve, no_pile, no_reserve)
        (fetch_add_lem s.allocations 1 (omega arith))

  -- In a well-formed pool without an idle buffer, where each lease so far has allocated and fewer
  -- than 2^64 - 1 have, let one `get` run on any thread between the two loads of `stats`, whether
  -- its initializer panics or not. Then `reuses` of the statistics underflows: it panics in a build
  -- with overflow checks, and gives 2^64 - 1 in one without.
  pub reuses-stats_between :
      (i : ℕ) (checks : Bool) (s : Machine T)
      → IsWellFormed s
      → idle s ≡ 0
      → s.leases ≡ s.allocations
      → s.allocations < usize_max
      → reuses checks (stats_between (λ t. (get i t).1) s)
        ≡ (if checks then panicked else returned usize_max)
  unfolding reuses
  reuses-stats_between i checks s h empty even small = rw (
    get-allocates i s h empty small,
    even,
    leb-eq_false (s.allocations + 1) s.allocations (omega arith),
    fetch_sub-below s.allocations small,
  )
