-- ===== src/Buffer/Behaviour/Calls.antt =====
-- src/buffer.rs: when `get` and `with` return.
use par_buffer_pool.Base.{ℕ, none, ◌≡◌, inl, inr, ap, subst, ◌∙◌, Option-cases, pop}
use par_buffer_pool.Base.Effect.{Outcome, returned}
use par_buffer_pool.Buffer.State.{Machine, SharedPooled}
use par_buffer_pool.Buffer.Inner.Forms.{find_pile, popped_reserve, popped_shard}
use par_buffer_pool.Buffer.Pool.{get, with}
use par_buffer_pool.Buffer.Pool.Lease.{
  guard, leased, allocated, get_from_shard, get_from_reserve, get_fresh,
}
use par_buffer_pool.Buffer.Pool.With.{with_lem}
use par_buffer_pool.Buffer.Invariant.{IsWellFormed, Keeps, nothing}
use par_buffer_pool.Buffer.Invariant.Return.{recycle_lem}
use par_buffer_pool.Buffer.Invariant.Pool.{get-Keeps, lease_weight}
use par_buffer_pool.Buffer.Behaviour.Prefill.{Answers, no_hook_run}

module _ {ℓ} {T : Type ℓ} (i : ℕ) (s : Machine T) (h : IsWellFormed s) where
  pub get_returns : Answers s.init → (b : T) × (t : Machine T) × (get i s ≡ (returned (guard b), t))
  get_returns a =
      let (m, own) = find_pile i s h.sharded in
      elim (Option-cases (pop m.value).0) [
        | inr (b, e) ↦ (b, _, get_from_shard i s m own b e)
        | inl e ↦ elim (Option-cases (pop s.reserve.value).0) [
          | inr (b, r) ↦ (b, _, get_from_reserve i s m own b e r)
          | inl r ↦
              let (b, q) = a s.init_runs in
              (
                b,
                allocated (popped_reserve (popped_shard i m (leased s))),
                rw (get_fresh i s m own e r, q),
              )
        ]
      ]

  -- The lease of `with` and the return of its buffer.
  with_returned {κ} :
      {R : Type κ} (f : T → T × Outcome R) (b : T) (t : Machine T)
      → s.reset ≡ none
      → get i s ≡ (returned (guard b), t)
      → (with i f s).0 ≡ (f b).1
  with_returned f b t e g =
      let k =
        subst (λ (r : Outcome (SharedPooled T) × Machine T). Keeps s r.1 nothing (lease_weight r.0))
          g (get-Keeps i s h) in
      let (m, own) = find_pile i t k.well_formed.sharded in
      rw (
        with_lem i f s t b g,
        recycle_lem i (f b).0 (f b).0 t t m (no_hook_run (f b).0 t (k.same_reset ∙ e)) k.well_formed
            own,
      )

  -- In a well-formed pool without a reset hook, whose initializer never panics, `with f` leases
  -- some buffer and gives the result of `f` on it: it panics exactly where `f` does.
  pub with-returns {κ} :
      {R : Type κ} (f : T → T × Outcome R)
      → s.reset ≡ none
      → Answers s.init
      → (b : T) × ((get i s).0 ≡ returned (guard b)) × ((with i f s).0 ≡ (f b).1)
  with-returns f e a =
      let (b, t, g) = get_returns a in
      (b, ap (λ (r : Outcome _ × Machine T). r.0) g, with_returned f b t e g)
