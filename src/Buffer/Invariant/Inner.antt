-- ===== src/Buffer/Invariant/Inner.antt =====
-- src/buffer.rs: the invariant over the pops and the reset of `PoolInner`.
use par_buffer_pool.Base.{
  ℕ, ◌+◌, Option, none, some, List, length, ◌≡◌, Bool-cases, refl, ap, subst, ◌∙◌, inl, inr,
  Option-cases, arith, pop, push, length-set, if◌then◌else◌, true,
}
use par_buffer_pool.Base.Effect.{Outcome, returned, panicked, Outcome-cases}
use par_buffer_pool.Sharding.{Threads}
use par_buffer_pool.Buffer.State.{Machine, Mutex, write_pile}
use par_buffer_pool.Buffer.Inner.{set_reserve, set_parked, discard, run_reset, reset_with, run_hook}
use par_buffer_pool.Buffer.Inner.Forms.{
  IsSharded, Own, unparked, popped_shard, popped_reserve, parked_at, index, has_room, claimed,
}
use par_buffer_pool.Buffer.Weights.{
  idle_weight, idle, one_each, option_weight, idle_weight-popped_shard, idle_weight-popped_reserve,
  idle_weight-parked_at, idle_weight-stocked,
}
use par_buffer_pool.Buffer.Invariant.{Counted, WithinCap, IsWellFormed, Preserves, Keeps, nothing}
use par_buffer_pool.Buffer.Invariant.Counts.{
  Counted-unpark, Capped-map, WithinCap-map, Counted-claim, Capped-claim, WithinCap-claim,
}

module _ {ℓ} {T : Type ℓ} where
  -- Other piles and other ids in the place of those of `s`.
  abbrev pub relaid : List (Mutex (List T)) → Mutex (List T) → Threads → Machine T → Machine T
  relaid xs r t s = record s { inner = record s.inner { shards = xs; reserve = r }; threads = t }

  pub IsSharded-of :
      (s u : Machine T)
      → length u.shards ≡ length s.shards
      → u.shard_mask ≡ s.shard_mask
      → IsSharded s
      → IsSharded u
  IsSharded-of s u e m h = record { power = rw e h.power; masked = rw (e, m) h.masked }

  -- The piles without what was popped, and the count adjusted.
  unparked-Keeps :
      (o : Option T) (xs : List (Mutex (List T))) (r : Mutex (List T)) (t : Threads) (s : Machine T)
      → IsWellFormed s
      → length xs ≡ length s.shards
      → ((w : T → ℕ)
          → idle_weight w (unparked o (relaid xs r t s)) + option_weight w o ≡ idle_weight w s)
      → Keeps s (unparked o (relaid xs r t s)) nothing (λ w. option_weight w o)
  unparked-Keeps none xs r t s h e weights = record {
    well_formed = record {
      sharded = IsSharded-of s _ e refl h.sharded;
      counted = subst (Counted s.parked) (omega (arith, weights one_each)) h.counted;
      capped = h.capped;
    };
    within = λ c. subst (WithinCap s.parked s.max_idle) (omega (arith, weights one_each)) c;
    same_reset = refl;
    same_cap = refl;
    same_strong = refl;
    balanced = λ w p. omega (arith, weights w);
  }
  unparked-Keeps (some b) xs r t s h e weights = record {
    well_formed = record {
      sharded = IsSharded-of s _ e refl h.sharded;
      counted = Counted-unpark s.parked (idle s) _ (weights one_each) h.counted;
      capped = Capped-map _ s.parked _ h.capped;
    };
    within =
        λ c. WithinCap-map _ s.parked s.max_idle (idle s) _ (omega (arith, weights one_each)) c;
    same_reset = refl;
    same_cap = refl;
    same_strong = refl;
    balanced = λ w p. omega (arith, weights w);
  }

  pub pop_shard-Keeps :
      (i : ℕ) (s : Machine T) (m : Mutex (List T))
      → Own i s m
      → IsWellFormed s
      → Keeps s (popped_shard i m s) nothing (λ w. option_weight w (pop m.value).0)
  pop_shard-Keeps i s m own h =
      unparked-Keeps (pop m.value).0 _ _ _ s h
        (length-set s.shards (index i s) (write_pile m (pop m.value).1))
        (λ w. idle_weight-popped_shard w i s m own)

  pub pop_reserve-Keeps :
      (s : Machine T)
      → IsWellFormed s
      → Keeps s (popped_reserve s) nothing (λ w. option_weight w (pop s.reserve.value).0)
  pop_reserve-Keeps s h =
      unparked-Keeps (pop s.reserve.value).0 _ _ _ s h refl (λ w. idle_weight-popped_reserve w s)

  -- The state after a run of the hook.
  abbrev pub ran : Machine T → Machine T
  ran s = record s { reset_runs = s.reset_runs + 1 }

  -- A reset gives the buffer on, changed in place, or drops it in a panic.
  pub data ResetCases (b : T) (s : Machine T) : Type ℓ where
    no_hook : run_reset b s ≡ (returned b, s) → ResetCases b s
    reset_to :
        (b' : T)
        → run_reset b s ≡ (returned b', ran s)
        → ((w : T → ℕ) → Preserves w s.reset → w b' ≡ w b)
        → ResetCases b s
    reset_panics :
        (b' : T)
        → run_reset b s ≡ (panicked, discard b' (ran s))
        → ((w : T → ℕ) → Preserves w s.reset → w b' ≡ w b)
        → ResetCases b s

  pub run_hook-returned :
      (p : T × Outcome (Unit {0})) (s : Machine T) (u : Unit {0})
      → p.1 ≡ returned u
      → run_hook p s ≡ (returned p.0, ran s)
  unfolding run_hook
  run_hook-returned p s u e = rw (e, run_hook)

  pub run_hook-panicked :
      (p : T × Outcome (Unit {0})) (s : Machine T)
      → p.1 ≡ panicked
      → run_hook p s ≡ (panicked, discard p.0 (ran s))
  unfolding run_hook
  run_hook-panicked p s e = rw (e, run_hook)

  pub reset_cases : (b : T) (s : Machine T) → ResetCases b s
  unfolding run_reset
  reset_cases b s = elim (Option-cases s.reset) [
    | inl e ↦ no_hook (ap (λ r. reset_with r b s) e)
    | inr (hook, e) ↦
        let p = hook s.reset_runs b in
        let run = ap (λ r. reset_with r b s) e in
        elim (Outcome-cases p.1) [
          | inl (u, o) ↦
              reset_to p.0 (run ∙ run_hook-returned p s u o) (λ w k. (rw e at k) s.reset_runs b)
          | inr o ↦
              reset_panics p.0 (run ∙ run_hook-panicked p s o) (λ w k. (rw e at k) s.reset_runs b)
        ]
  ]

  -- One more buffer in the piles, where the cap has room for it.
  grown-Keeps :
      (b : T) (xs : List (Mutex (List T))) (r : Mutex (List T)) (t : Threads) (s : Machine T)
      → IsWellFormed s
      → has_room s.max_idle s.parked ≡ true
      → length xs ≡ length s.shards
      → ((w : T → ℕ) → idle_weight w (relaid xs r t s) ≡ idle_weight w s + w b)
      → Keeps s (relaid xs r t (set_parked (claimed s.max_idle s.parked) s)) (λ w. w b) nothing
  unfolding idle_weight
  grown-Keeps b xs r t s h room e weights = record {
    well_formed = record {
      sharded = IsSharded-of s _ e refl h.sharded;
      counted =
          Counted-claim s.max_idle s.parked (idle s) _ (weights one_each) room h.capped h.counted;
      capped = Capped-claim s.max_idle s.parked h.capped;
    };
    within = λ k. WithinCap-claim s.max_idle s.parked (idle s) _ (weights one_each) room h.counted;
    same_reset = refl;
    same_cap = refl;
    same_strong = refl;
    balanced = λ w p. omega (arith, weights w);
  }

  pub discard-Keeps :
      (b : T) (s : Machine T) → IsWellFormed s → Keeps s (discard b s) (λ w. w b) nothing
  unfolding idle_weight
  discard-Keeps b s h = record {
    well_formed = record {
      sharded = IsSharded-of s _ refl refl h.sharded;
      counted = h.counted;
      capped = h.capped;
    };
    within = λ k. k;
    same_reset = refl;
    same_cap = refl;
    same_strong = refl;
    balanced = λ w p. omega arith;
  }

  -- Where the cap has room, the buffer is parked and counted; otherwise it is dropped.
  abbrev pub settled : ℕ → T → Mutex (List T) → Machine T → Machine T
  settled i b m s =
      if has_room s.max_idle s.parked
      then parked_at i b m (set_parked (claimed s.max_idle s.parked) s)
      else discard b s

  abbrev pub settled_reserve : T → Machine T → Machine T
  settled_reserve b s =
      if has_room s.max_idle s.parked
      then set_reserve (push s.reserve.value b) (set_parked (claimed s.max_idle s.parked) s)
      else discard b s

  pub settled-Keeps :
      (i : ℕ) (b : T) (m : Mutex (List T)) (s : Machine T)
      → Own i s m
      → IsWellFormed s
      → Keeps s (settled i b m s) (λ w. w b) nothing
  settled-Keeps i b m s own h = elim (Bool-cases (has_room s.max_idle s.parked)) [
    | inl room ↦ rw room (
        grown-Keeps b _ _ _ s h room
          (length-set s.shards (index i s) (write_pile m (push m.value b)))
          (λ w. idle_weight-parked_at w i s m own b))
    | inr full ↦ rw full (discard-Keeps b s h)
  ]

  pub settled_reserve-Keeps :
      (b : T) (s : Machine T) → IsWellFormed s → Keeps s (settled_reserve b s) (λ w. w b) nothing
  settled_reserve-Keeps b s h = elim (Bool-cases (has_room s.max_idle s.parked)) [
    | inl room ↦ rw room (grown-Keeps b _ _ _ s h room refl (λ w. idle_weight-stocked w s b))
    | inr full ↦ rw full (discard-Keeps b s h)
  ]
