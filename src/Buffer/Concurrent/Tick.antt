-- ===== src/Buffer/Concurrent/Tick.antt =====
-- src/buffer.rs: one step of a call, for the books of all calls.
use par_buffer_pool.Base.{
  ℕ, ◌+◌, ◌≤◌, ◌%◌, Option, none, some, List, [], ◌++◌, ◌≡◌, refl, ap, arith, total, total-append,
  length, length-set, get_elem?, total-set, push, pop, inl, inr, Option-cases,
}
use par_buffer_pool.Base.Words.{usize_mod, fetch_add, fetch_add-mod}
use par_buffer_pool.Base.Effect.{Outcome-cases}
use par_buffer_pool.Buffer.State.{Machine, write_pile}
use par_buffer_pool.Buffer.Inner.{discard}
use par_buffer_pool.Buffer.Inner.Forms.{
  IsSharded, find_pile, lock_pile_lem, index, park_lem, parked_at,
}
use par_buffer_pool.Buffer.Weights.{
  idle_weight, idle, one_each, option_weight, pile_weight, total-one_each, idle_weight-parked_at,
  total-pop,
}
use par_buffer_pool.Buffer.Invariant.{Preserves, held, made, made_by-add_one, outcome_weight}
use par_buffer_pool.Buffer.Invariant.Inner.{
  IsSharded-of, ran, no_hook, reset_to, reset_panics, reset_cases,
}
use par_buffer_pool.Buffer.Concurrent.{
  Phase, counting_lease, popping_shard, popping_reserve, counting_allocation, initializing, failed,
  unparking, resetting, claiming, parking, sweeping, sweeping_reserve, finished, after_pop, tick,
  Room,
}
use par_buffer_pool.Buffer.Concurrent.Books.{in_flight, owed, refused, IsTallied, Agreed, Agreed-of}

module _ {ℓ} {T : Type ℓ} where
  -- From `s` to `t` a call went from the phase `c` to `d`, beside others that owe `r` and have had
  -- `q` claims refused, `n` calls in all.
  pub record Ticks (c : Phase T) (s : Machine T) (d : Phase T) (t : Machine T) : Type ℓ where
    pub sharded : IsSharded t
    pub same_cap : t.max_idle ≡ s.max_idle
    pub same_reset : t.reset ≡ s.reset
    pub tallied : IsTallied c → IsTallied d
    pub roomy : (n : ℕ) → Room s.parked s.max_idle n → Room t.parked t.max_idle n
    pub agreed :
        (r q n : ℕ)
        → IsTallied c
        → q + 1 ≤ n
        → Room s.parked s.max_idle n
        → Agreed s.parked s.max_idle (idle s) (owed c + r) (refused c + q)
        → Agreed t.parked t.max_idle (idle t) (owed d + r) (refused d + q)
    pub balanced :
        (w : T → ℕ)
        → Preserves w s.reset
        → held w t + total w (in_flight d) + made w s ≡ held w s + total w (in_flight c) + made w t

  -- A step that leaves the count alone: what it takes from the piles is owed, or is parked again.
  pub quiet-Ticks :
      (c d : Phase T) (s t : Machine T)
      → IsSharded t
      → t.parked ≡ s.parked
      → t.max_idle ≡ s.max_idle
      → t.reset ≡ s.reset
      → (IsTallied c → IsTallied d)
      → idle t + owed d ≡ idle s + owed c
      → refused d ≡ refused c
      → ((w : T → ℕ)
          → Preserves w s.reset
          → held w t + total w (in_flight d) + made w s
            ≡ held w s + total w (in_flight c) + made w t)
      → Ticks c s d t
  unfolding idle_weight
  quiet-Ticks c d s t h p m r tally moved same balance = record {
    sharded = h;
    same_cap = m;
    same_reset = r;
    tallied = tally;
    roomy = λ n k. rw (p, m) k;
    agreed = λ x q n u le k a.
        rw (p, m)
          (Agreed-of s.parked s.max_idle (idle s) (owed c + x) (refused c + q) (idle t) (owed d + x)
            (refused d + q) (omega arith) (omega arith) a);
    balanced = balance;
  }

  pub counting_lease-Ticks :
      (i : ℕ) (s : Machine T)
      → IsSharded s
      → Ticks counting_lease s (tick i counting_lease s).0 (tick i counting_lease s).1
  unfolding tick idle_weight
  counting_lease-Ticks i s h =
      quiet-Ticks _ _ s _ (IsSharded-of s _ refl refl h) refl refl refl (λ t. tt) refl refl
        (λ w p. refl)

  pub counting_allocation-Ticks :
      (i : ℕ) (s : Machine T)
      → IsSharded s
      → Ticks counting_allocation s
          (tick i counting_allocation s).0
          (tick i counting_allocation s).1
  unfolding tick idle_weight
  counting_allocation-Ticks i s h =
      quiet-Ticks _ _ s _ (IsSharded-of s _ refl refl h) refl refl refl (λ t. tt) refl refl
        (λ w p. refl)

  popped-Ticks :
      (c d : Phase T) (o : Option T) (s t : Machine T)
      → IsSharded t
      → t.parked ≡ s.parked
      → t.max_idle ≡ s.max_idle
      → t.reset ≡ s.reset
      → ((w : T → ℕ) → idle_weight w t + option_weight w o ≡ idle_weight w s)
      → ((w : T → ℕ) → total w t.dropped ≡ total w s.dropped)
      → ((w : T → ℕ) → made w t ≡ made w s)
      → owed c ≡ 0
      → refused c ≡ 0
      → ((w : T → ℕ) → total w (in_flight c) ≡ 0)
      → owed d ≡ 0
      → refused d ≡ 0
      → ((w : T → ℕ) → total w (in_flight d) ≡ 0)
      → IsTallied d
      → Ticks c s (after_pop d o) t
  popped-Ticks c d none s t h p m r weights drops makes e f g e' f' g' y =
      quiet-Ticks c d s t h p m r (λ u. y) (omega (arith, weights one_each)) (omega arith)
        (λ w z. omega (arith, weights w, drops w, makes w, g w, g' w))
  popped-Ticks c d (some b) s t h p m r weights drops makes e f g e' f' g' y =
      quiet-Ticks c (unparking b) s t h p m r (λ u. tt) (omega (arith, weights one_each))
        (omega arith) (λ w z. omega (arith, weights w, drops w, makes w, g w))

  pub popping_shard-Ticks :
      (i : ℕ) (s : Machine T)
      → IsSharded s
      → Ticks popping_shard s (tick i popping_shard s).0 (tick i popping_shard s).1
  unfolding tick idle_weight
  popping_shard-Ticks i s h =
      let (m, own) = find_pile i s h in
      rw (own, lock_pile_lem m)
        (popped-Ticks popping_shard popping_reserve (pop m.value).0 s _
          (IsSharded-of s _ (length-set s.shards (index i s) (write_pile m (pop m.value).1)) refl h)
          refl refl refl
          (λ w. omega (
            arith,
            total-set (pile_weight w) s.shards (index i s) m (write_pile m (pop m.value).1) own,
            total-pop w m.value,
          ))
          (λ w. refl) (λ w. refl) refl refl (λ w. refl) refl refl (λ w. refl) tt)

  pub popping_reserve-Ticks :
      (i : ℕ) (s : Machine T)
      → IsSharded s
      → Ticks popping_reserve s (tick i popping_reserve s).0 (tick i popping_reserve s).1
  unfolding tick idle_weight
  popping_reserve-Ticks i s h = rw (lock_pile_lem s.reserve) (
      popped-Ticks popping_reserve counting_allocation (pop s.reserve.value).0 s _
        (IsSharded-of s _ refl refl h) refl refl refl
        (λ w. omega (arith, total-pop w s.reserve.value)) (λ w. refl) (λ w. refl) refl refl
        (λ w. refl) refl refl (λ w. refl) tt)

  pub parking-Ticks :
      (i : ℕ) (b : T) (s : Machine T)
      → IsSharded s
      → Ticks (parking b) s (tick i (parking b) s).0 (tick i (parking b) s).1
  unfolding tick
  parking-Ticks i b s h =
      let (m, own) = find_pile i s h in
      rw (park_lem i b s m own) (
        quiet-Ticks (parking b) (finished []) s (parked_at i b m s)
          (IsSharded-of s _ (length-set s.shards (index i s) (write_pile m (push m.value b))) refl
            h)
          refl refl refl (λ u. tt) (omega (arith, idle_weight-parked_at one_each i s m own b)) refl
          (λ w p. omega (arith, idle_weight-parked_at w i s m own b)))

  -- What a drain takes from one pile.
  tallied-more :
      (taken : ℕ) (bs pile : List T)
      → taken ≡ total one_each bs % usize_mod
      → fetch_add taken (length pile) ≡ total one_each (bs ++ pile) % usize_mod
  tallied-more taken bs pile e =
      omega (
        arith,
        fetch_add-mod taken (length pile),
        total-append one_each bs pile,
        total-one_each pile,
      )

  pub sweeping-Ticks :
      (i k taken : ℕ) (bs : List T) (s : Machine T)
      → IsSharded s
      → Ticks
          (sweeping k taken bs)
          s
          (tick i (sweeping k taken bs) s).0
          (tick i (sweeping k taken bs) s).1
  unfolding tick idle_weight
  sweeping-Ticks i k taken bs s h = elim (Option-cases (get_elem? s.shards k)) [
    | inl e ↦ rw e (
        quiet-Ticks _ _ s _ (IsSharded-of s _ refl refl h) refl refl refl (λ t. t) refl refl
          (λ w p. refl))
    | inr (m, e) ↦
        rw (e, lock_pile_lem m)
          (quiet-Ticks (sweeping k taken bs) _ s _
            (IsSharded-of s _ (length-set s.shards k (write_pile m [])) refl h) refl refl refl
            (tallied-more taken bs m.value)
            (omega (
              arith,
              total-set (pile_weight one_each) s.shards k m (write_pile m []) e,
              total-append one_each bs m.value,
            ))
            refl
            (λ w p. omega (
              arith,
              total-set (pile_weight w) s.shards k m (write_pile m []) e,
              total-append w bs m.value,
            )))
  ]

  pub sweeping_reserve-Ticks :
      (i taken : ℕ) (bs : List T) (s : Machine T)
      → IsSharded s
      → Ticks
          (sweeping_reserve taken bs)
          s
          (tick i (sweeping_reserve taken bs) s).0
          (tick i (sweeping_reserve taken bs) s).1
  unfolding tick idle_weight
  sweeping_reserve-Ticks i taken bs s h = rw (lock_pile_lem s.reserve) (
      quiet-Ticks (sweeping_reserve taken bs) _ s _ (IsSharded-of s _ refl refl h) refl refl refl
        (tallied-more taken bs s.reserve.value)
        (omega (arith, total-append one_each bs s.reserve.value)) refl
        (λ w p. omega (arith, total-append w bs s.reserve.value)))

  pub initializing-Ticks :
      (i : ℕ) (s : Machine T)
      → IsSharded s
      → Ticks initializing s (tick i initializing s).0 (tick i initializing s).1
  unfolding tick idle_weight
  initializing-Ticks i s h = elim (Outcome-cases (s.init s.init_runs)) [
    | inl (b, e) ↦ rw e (
        quiet-Ticks initializing _ s (record s { init_runs = s.init_runs + 1 })
          (IsSharded-of s _ refl refl h) refl refl refl (λ u. tt) refl refl
          (λ w p. omega (arith, made_by-add_one w s.init s.init_runs, ap (outcome_weight w) e)))
    | inr e ↦ rw e (
        quiet-Ticks initializing _ s (record s { init_runs = s.init_runs + 1 })
          (IsSharded-of s _ refl refl h) refl refl refl (λ u. tt) refl refl
          (λ w p. omega (arith, made_by-add_one w s.init s.init_runs, ap (outcome_weight w) e)))
  ]

  pub resetting-Ticks :
      (i : ℕ) (b : T) (s : Machine T)
      → IsSharded s
      → Ticks (resetting b) s (tick i (resetting b) s).0 (tick i (resetting b) s).1
  unfolding tick idle_weight
  resetting-Ticks i b s h = elim (reset_cases b s) [
    | no_hook e ↦ rw e (
        quiet-Ticks (resetting b) (claiming b) s s h refl refl refl (λ u. tt) refl refl
          (λ w p. refl))
    | reset_to b' e weight ↦ rw e (
        quiet-Ticks (resetting b) (claiming b') s (ran s) (IsSharded-of s _ refl refl h) refl refl
          refl (λ u. tt) refl refl (λ w p. omega (arith, weight w p)))
    | reset_panics b' e weight ↦ rw e (
        quiet-Ticks (resetting b) failed s (discard b' (ran s)) (IsSharded-of s _ refl refl h) refl
          refl refl (λ u. tt) refl refl (λ w p. omega (arith, weight w p)))
  ]
