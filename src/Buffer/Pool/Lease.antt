-- ===== src/Buffer/Pool/Lease.antt =====
-- src/buffer.rs: where `get` finds its buffer.
use par_buffer_pool.Base.{
  leb-eq_true, Bool, ◌-◌, ◌≤◌, ℕ, ◌+◌, none, some, List, ◌≡◌, Option-cases, inl, inr, refl, pop,
}
use par_buffer_pool.Base.Words.{fetch_add}
use par_buffer_pool.Base.Effect.{pure, and_then, Outcome, returned, panicked}
use par_buffer_pool.Buffer.State.{Machine, Mutex, SharedPooled}
use par_buffer_pool.Buffer.Inner.Forms.{
  IsSharded, Own, find_pile, popped_shard, popped_reserve, pop_shard_lem, pop_reserve_lem,
}
use par_buffer_pool.Buffer.Pool.{get, allocate, reuses}

module _ {ℓ} {T : Type ℓ} where
  abbrev pub guard : T → SharedPooled T
  guard b = record { buffer = some b }

  abbrev pub leased : Machine T → Machine T
  leased s = record s { inner = record s.inner { leases = fetch_add s.leases 1 } }

  -- The initializer was counted and ran.
  abbrev pub allocated : Machine T → Machine T
  allocated s = record s {
    inner = record s.inner { allocations = fetch_add s.allocations 1 };
    init_runs = s.init_runs + 1;
  }

  abbrev pub guarded : Outcome T → Outcome (SharedPooled T)
  guarded (returned b) = returned (guard b)
  guarded panicked = panicked

  and_then-guard :
      (o : Outcome T) (s : Machine T) → and_then o s (λ b. pure (guard b)) ≡ (guarded o, s)
  and_then-guard (returned b) s = refl
  and_then-guard panicked s = refl

  module _ (i : ℕ) (s : Machine T) (m : Mutex (List T)) (own : Own i s m) where
    -- The pile of the thread comes first.
    pub get_from_shard :
        (b : T)
        → (pop m.value).0 ≡ some b
        → get i s ≡ (returned (guard b), popped_shard i m (leased s))
    unfolding get
    get_from_shard b e = rw (pop_shard_lem i (leased s) m own, e)

    -- Then the reserve.
    pub get_from_reserve :
        (b : T)
        → (pop m.value).0 ≡ none
        → (pop s.reserve.value).0 ≡ some b
        → get i s ≡ (returned (guard b), popped_reserve (popped_shard i m (leased s)))
    unfolding get
    get_from_reserve b e r = rw (pop_shard_lem i (leased s) m own, e, pop_reserve_lem, r)

    -- With both empty the initializer runs.
    pub get_fresh :
        (pop m.value).0 ≡ none
        → (pop s.reserve.value).0 ≡ none
        → get i s
          ≡ (guarded (s.init s.init_runs), allocated (popped_reserve (popped_shard i m (leased s))))
    unfolding get allocate
    get_fresh e r =
        rw (pop_shard_lem i (leased s) m own, e, pop_reserve_lem, r)
          (and_then-guard (s.init s.init_runs) _)

  -- A lease answers with a full guard, or panics with the initializer.
  pub get_lem :
      (i : ℕ) (s : Machine T)
      → IsSharded s
      → (o : Outcome T) × (t : Machine T) × (get i s ≡ (guarded o, t))
  get_lem i s h =
      let (m, own) = find_pile i s h in
      elim (Option-cases (pop m.value).0) [
        | inr (b, e) ↦ (returned b, _, get_from_shard i s m own b e)
        | inl e ↦ elim (Option-cases (pop s.reserve.value).0) [
          | inr (b, r) ↦ (returned b, _, get_from_reserve i s m own b e r)
          | inl r ↦ (s.init s.init_runs, _, get_fresh i s m own e r)
        ]
      ]

-- With no more allocations than leases there is no underflow.
pub reuses_lem :
    (overflow_checks : Bool) (l a : ℕ)
    → a ≤ l
    → reuses overflow_checks (record { leases = l; allocations = a }) ≡ returned (l - a)
unfolding reuses
reuses_lem overflow_checks l a h = rw (leb-eq_true a l h)
