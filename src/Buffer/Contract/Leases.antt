-- ===== src/Buffer/Contract/Leases.antt =====
-- src/buffer.rs: `get` and the contract.
use par_buffer_pool.Base.{
  ℕ, none, List, [], ◌∷◌, ◌≡◌, refl, sym, ap, subst, ◌∙◌, pop, Option-cases, inl, inr,
}
use par_buffer_pool.Base.Effect.{Outcome, returned, panicked, and_then, pure}
use par_buffer_pool.Buffer.State.{Machine, Mutex}
use par_buffer_pool.Buffer.Inner.Forms.{Own, popped_shard, popped_reserve}
use par_buffer_pool.Buffer.Pool.Lease.{
  leased, allocated, guarded, get_from_shard, get_from_reserve, get_fresh,
}
use par_buffer_pool.Buffer.Invariant.Pool.{popped_shard-reserve}
use par_buffer_pool.Buffer.Client.{option_list}
use par_buffer_pool.Buffer.Contract.{
  lease, Allowed, reused, created, init_panics, perform, terms, idle_bag,
}
use par_buffer_pool.Buffer.Contract.Views.{
  popped_shard-reuses, popped_shard-misses, popped_reserve-reuses, popped_reserve-misses,
}
use par_buffer_pool.Buffer.Contract.Serves.{Serves, terms-unparked}

module _ {ℓ} {T : Type ℓ} where
  -- Where the reserve is tried, the shard had nothing.
  module _ (i : ℕ) (s : Machine T) (m : Mutex (List T)) (own : Own i s m) where
    abbrev missed_shard : Machine T
    missed_shard = popped_shard i m (leased s)

    missed_shard-bag : (pop m.value).0 ≡ none → idle_bag missed_shard ≡ idle_bag s
    unfolding idle_bag
    missed_shard-bag e = popped_shard-misses i (leased s) m own e

    missed_shard-terms : terms missed_shard ≡ terms s
    missed_shard-terms = terms-unparked (pop m.value).0 _

    popped_reserve-terms : terms (popped_reserve missed_shard) ≡ terms s
    popped_reserve-terms = terms-unparked _ _ ∙ missed_shard-terms

  -- The initializer gave the buffer or panicked, and the piles are as before.
  fresh-Serves :
      (i n : ℕ) (s t : Machine T) (o : Outcome T)
      → s.init n ≡ o
      → idle_bag t ≡ idle_bag s
      → terms t ≡ terms s
      → let (a, u) = and_then (guarded o) t (λ g. pure (option_list g.buffer)) in
        Serves s (lease i) a u
  fresh-Serves i n s t (returned b) h e k = record {
    allowed =
        subst (Allowed (terms s) (idle_bag s) (lease i) (returned (b ∷ []))) (sym e)
          (created i n b h);
    same_terms = k;
  }
  fresh-Serves i n s t panicked h e k = record {
    allowed = subst (Allowed (terms s) (idle_bag s) (lease i) panicked) (sym e) (init_panics i n h);
    same_terms = k;
  }

  pub lease-Serves :
      (i : ℕ) (s : Machine T) (m : Mutex (List T))
      → Own i s m
      → Serves s (lease i) (perform (lease i) s).0 (perform (lease i) s).1
  unfolding perform idle_bag
  lease-Serves i s m own = elim (Option-cases (pop m.value).0) [
    | inr (b, e) ↦ rw (get_from_shard i s m own b e) (record {
      allowed = reused i b _ (popped_shard-reuses i (leased s) m own b e);
      same_terms = missed_shard-terms i s m own;
    })
    | inl e ↦
        let missed = missed_shard i s m own in
        let top = ap (λ q. (pop q.value).0) (popped_shard-reserve i s m) in
        let kept_bag = missed_shard-bag i s m own e in
        elim (Option-cases (pop s.reserve.value).0) [
          | inr (b, r) ↦ rw (get_from_reserve i s m own b e r) (record {
            allowed = reused i b _ (sym kept_bag ∙ popped_reserve-reuses missed b (top ∙ r));
            same_terms = popped_reserve-terms i s m own;
          })
          | inl r ↦ rw (get_fresh i s m own e r) (
              fresh-Serves i s.init_runs s (allocated (popped_reserve missed)) (s.init s.init_runs)
                refl (popped_reserve-misses missed (top ∙ r) ∙ kept_bag)
                (popped_reserve-terms i s m own))
        ]
  ]
