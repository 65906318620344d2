-- ===== src/Buffer/Client/Handles.antt =====
-- src/buffer.rs: cloning and dropping references of the `Arc`.
use par_buffer_pool.Base.{
  ℕ, ◌-◌, ◌<◌, ◌++◌, ◌≡◌, refl, ap, arith, total-append, ◌==◌, eq-eq_false, inl, inr, ◌⊎◌,
}
use native.Mathlib.Decide.{ℕ_discrete}
use par_buffer_pool.Buffer.State.{Machine}
use par_buffer_pool.Buffer.Guard.{all_buffers, set_strong, release_handle, drop_inner}
use par_buffer_pool.Buffer.Weights.{idle_weight}
use par_buffer_pool.Buffer.Pool.Drain.{total-all_buffers, total-emptied}
use par_buffer_pool.Buffer.Invariant.{IsWellFormed, IsWithinCap, held, made}
use par_buffer_pool.Buffer.Invariant.Inner.{IsSharded-of}

module _ {ℓ} {T : Type ℓ} where
  -- From `t` to `u` only references changed; with the last of them the idle buffers are dropped.
  pub record Follows (t u : Machine T) : Type ℓ where
    pub same_reset : u.reset ≡ t.reset
    pub weight : (w : T → ℕ) → held w u ≡ held w t
    pub making : (w : T → ℕ) → made w u ≡ made w t
    pub alive : 0 < u.strong → IsWellFormed t → IsWellFormed u
    pub within : 0 < u.strong → IsWithinCap t → IsWithinCap u

  pub set_strong-Follows : (k : ℕ) (t : Machine T) → Follows t (set_strong k t)
  unfolding idle_weight
  set_strong-Follows k t = record {
    same_reset = refl;
    weight = λ w. refl;
    making = λ w. refl;
    alive = λ p h. record {
      sharded = IsSharded-of t _ refl refl h.sharded;
      counted = h.counted;
      capped = h.capped;
    };
    within = λ p c. c;
  }

  drop_inner-Follows : (t : Machine T) → Follows t (drop_inner (set_strong 0 t))
  unfolding drop_inner idle_weight
  drop_inner-Follows t = record {
    same_reset = refl;
    weight = λ w. omega (
      arith,
      total-append w (all_buffers t.shards ++ t.reserve.value) t.dropped,
      total-append w (all_buffers t.shards) t.reserve.value,
      total-all_buffers w t.shards,
      total-emptied w t.shards,
    );
    making = λ w. refl;
    alive = λ p h. absurd (omega arith);
    within = λ p c. absurd (omega arith);
  }

  pub release_handle_cases :
      (t : Machine T)
      → (release_handle t ≡ drop_inner (set_strong 0 t)) × (t.strong ≡ 1)
        ⊎ (release_handle t ≡ set_strong (t.strong - 1) t)
  unfolding release_handle
  release_handle_cases t = elim (ℕ_discrete t.strong 1) [
    | yes last ↦ inl (rw (ap (λ k. k == 1) last), last)
    | no more ↦ inr (rw (eq-eq_false t.strong 1 more))
  ]

  pub release_handle-Follows : (t : Machine T) → Follows t (release_handle t)
  release_handle-Follows t = elim (release_handle_cases t) [
    | inl (e, last) ↦ rw e (drop_inner-Follows t)
    | inr e ↦ rw e (set_strong-Follows (t.strong - 1) t)
  ]

  pub release_handle-strong : (t : Machine T) → (release_handle t).strong ≡ t.strong - 1
  unfolding drop_inner
  release_handle-strong t = elim (release_handle_cases t) [
    | inl (e, last) ↦ rw e (omega arith)
    | inr e ↦ rw e
  ]
