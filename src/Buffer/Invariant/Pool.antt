-- ===== src/Buffer/Invariant/Pool.antt =====
-- src/buffer.rs: the invariant over the public operations.
use par_buffer_pool.Base.{
  ℕ, zero, suc, Option, none, some, List, ◌≡◌, refl, ap, ◌∙◌, arith, pop, Option-cases, inl, inr,
}
use par_buffer_pool.Base.Effect.{Outcome, returned, panicked, Outcome-cases}
use par_buffer_pool.Buffer.State.{Machine, Mutex, SharedPooled}
use par_buffer_pool.Buffer.Inner.{stock_reserve}
use par_buffer_pool.Buffer.Inner.Forms.{Own, find_pile, unparked, popped_shard, popped_reserve}
use par_buffer_pool.Buffer.Weights.{idle_weight, option_weight}
use par_buffer_pool.Buffer.Guard.{drop_guard}
use par_buffer_pool.Buffer.Pool.{get, put, prefill_loop, allocate}
use par_buffer_pool.Buffer.Pool.Lease.{
  leased, allocated, guarded, get_from_shard, get_from_reserve, get_fresh,
}
use par_buffer_pool.Buffer.Invariant.{
  Keeps-refl, made_by-add_one, Keeps-as, Keeps-trans, Keeps, IsWellFormed, nothing, outcome_weight,
}
use par_buffer_pool.Buffer.Invariant.Inner.{IsSharded-of, pop_shard-Keeps, pop_reserve-Keeps}
use par_buffer_pool.Buffer.Invariant.Return.{recycle-Keeps, stock_reserve-Keeps}

module _ {ℓ} {T : Type ℓ} where
  -- What a lease takes with it.
  abbrev pub lease_weight : Outcome (SharedPooled T) → (T → ℕ) → ℕ
  lease_weight (returned g) w = option_weight w g.buffer
  lease_weight panicked w = 0

  leased-Keeps : (s : Machine T) → IsWellFormed s → Keeps s (leased s) nothing nothing
  unfolding idle_weight
  leased-Keeps s h = record {
    well_formed = record {
      sharded = IsSharded-of s _ refl refl h.sharded;
      counted = h.counted;
      capped = h.capped;
    };
    within = λ k. k;
    same_reset = refl;
    same_cap = refl;
    same_strong = refl;
    balanced = λ w p. omega arith;
  }

  pub allocated-Keeps :
      (s : Machine T)
      → IsWellFormed s
      → Keeps s (allocated s) nothing (λ w. outcome_weight w (s.init s.init_runs))
  unfolding idle_weight
  allocated-Keeps s h = record {
    well_formed = record {
      sharded = IsSharded-of s _ refl refl h.sharded;
      counted = h.counted;
      capped = h.capped;
    };
    within = λ k. k;
    same_reset = refl;
    same_cap = refl;
    same_strong = refl;
    balanced = λ w p. omega (arith, made_by-add_one w s.init s.init_runs);
  }

  lease_weight-guarded :
      (o : Outcome T) (w : T → ℕ) → lease_weight (guarded o) w ≡ outcome_weight w o
  lease_weight-guarded (returned b) w = refl
  lease_weight-guarded panicked w = refl

  -- What stays when a pile is popped.
  unparked-reserve : (o : Option T) (s : Machine T) → (unparked o s).reserve ≡ s.reserve
  unparked-reserve none s = refl
  unparked-reserve (some b) s = refl

  unparked-init :
      (o : Option T) (s : Machine T)
      → (unparked o s).init (unparked o s).init_runs ≡ s.init s.init_runs
  unparked-init none s = refl
  unparked-init (some b) s = refl

  module _ (i : ℕ) (s : Machine T) (m : Mutex (List T)) where
    abbrev missed : Machine T
    missed = popped_reserve (popped_shard i m (leased s))

    pub missed-init : missed.init missed.init_runs ≡ s.init s.init_runs
    missed-init =
        unparked-init (pop (popped_shard i m (leased s)).reserve.value).0 _
        ∙ unparked-init (pop m.value).0 _

    pub popped_shard-reserve : (popped_shard i m (leased s)).reserve ≡ s.reserve
    popped_shard-reserve = unparked-reserve (pop m.value).0 _

  get_at-Keeps :
      (i : ℕ) (s : Machine T) (m : Mutex (List T))
      → Own i s m
      → IsWellFormed s
      → Keeps s (get i s).1 nothing (lease_weight (get i s).0)
  get_at-Keeps i s m own h =
      let a = leased-Keeps s h in
      let b = pop_shard-Keeps i (leased s) m own a.well_formed in
      let c = pop_reserve-Keeps (popped_shard i m (leased s)) b.well_formed in
      let d = allocated-Keeps (missed i s m) c.well_formed in
      let ab =
        Keeps-trans nothing (λ w. option_weight w (pop m.value).0) a b (λ w p. omega arith) in
      let reserve = popped_shard-reserve i s m in
      elim (Option-cases (pop m.value).0) [
        | inr (x, e) ↦
            rw (get_from_shard i s m own x e)
              (Keeps-as nothing _ ab (λ w p. omega (arith, ap (option_weight w) e)))
        | inl e ↦ elim (Option-cases (pop s.reserve.value).0) [
          | inr (x, r) ↦ rw (get_from_reserve i s m own x e r) (
              Keeps-trans nothing _ ab c (λ w p. omega (
                arith,
                ap (λ q. option_weight w (pop q.value).0) reserve,
                ap (option_weight w) r,
                ap (option_weight w) e,
              )))
          | inl r ↦ rw (get_fresh i s m own e r) (
              Keeps-trans nothing _
                (Keeps-trans nothing nothing ab c (λ w p. omega (
                  arith,
                  ap (λ q. option_weight w (pop q.value).0) reserve,
                  ap (option_weight w) r,
                  ap (option_weight w) e,
                )))
                d
                (λ w p. omega (
                  arith,
                  lease_weight-guarded (s.init s.init_runs) w,
                  ap (outcome_weight w) (missed-init i s m),
                )))
        ]
      ]

  -- A lease takes out a buffer that lay idle or that the initializer made.
  pub get-Keeps :
      (i : ℕ) (s : Machine T)
      → IsWellFormed s
      → Keeps s (get i s).1 nothing (lease_weight (get i s).0)
  get-Keeps i s h = let (m, own) = find_pile i s h.sharded in get_at-Keeps i s m own h

  -- Dropping a guard, on any thread, gives its buffer back.
  pub drop_guard-Keeps :
      (i : ℕ) (o : Option T) (s : Machine T)
      → IsWellFormed s
      → Keeps s (drop_guard i (record { buffer = o }) s).1 (λ w. option_weight w o) nothing
  unfolding drop_guard
  drop_guard-Keeps i none s h = Keeps-refl s h
  drop_guard-Keeps i (some b) s h = recycle-Keeps i b s h

  pub put-Keeps :
      (i : ℕ) (b : T) (s : Machine T) → IsWellFormed s → Keeps s (put i b s).1 (λ w. w b) nothing
  unfolding put
  put-Keeps i b s h = recycle-Keeps i b s h

  pub allocate_lem : (s : Machine T) → allocate s ≡ (s.init s.init_runs, allocated s)
  unfolding allocate
  allocate_lem s = refl

  -- A prefill parks what it makes or drops it at the cap, also where it is cut short by a panic.
  pub prefill_loop-Keeps :
      (n : ℕ) (s : Machine T) → IsWellFormed s → Keeps s (prefill_loop n s).1 nothing nothing
  unfolding prefill_loop
  prefill_loop-Keeps zero s h = Keeps-refl s h
  prefill_loop-Keeps (suc n) s h =
      let a = allocated-Keeps s h in
      rw (allocate_lem s) (elim (Outcome-cases (s.init s.init_runs)) [
        | inr e ↦ rw e (Keeps-as nothing nothing a (λ w p. omega (arith, ap (outcome_weight w) e)))
        | inl (b, e) ↦
            let c = stock_reserve-Keeps b (allocated s) a.well_formed in
            let ac =
              Keeps-trans nothing nothing a c (λ w p. omega (arith, ap (outcome_weight w) e)) in
            let u = (stock_reserve b (allocated s)).1 in
            rw e (elim (Outcome-cases (stock_reserve b (allocated s)).0) [
              | inr o ↦ rw o ac
              | inl (x, o) ↦ rw o (
                  Keeps-trans nothing nothing ac (prefill_loop-Keeps n u ac.well_formed)
                    (λ w p. refl))
            ])
      ])
