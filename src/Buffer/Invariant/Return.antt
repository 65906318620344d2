-- ===== src/Buffer/Invariant/Return.antt =====
-- src/buffer.rs: the invariant over the return paths, `recycle` and `stock_reserve`.
use par_buffer_pool.Base.{ℕ, List, ◌≡◌, Bool-cases, refl, ap, inl, inr, arith}
use par_buffer_pool.Base.Effect.{Op, Outcome, returned, panicked}
use par_buffer_pool.Buffer.State.{Machine, Mutex}
use par_buffer_pool.Buffer.Inner.{
  set_parked, discard, run_reset, cap_allows, recycle, stock_reserve,
}
use par_buffer_pool.Buffer.Inner.Forms.{
  lock_pile_lem, find_pile, Own, has_room, claimed, cap_allows_lem, park_lem,
}
use par_buffer_pool.Buffer.Weights.{idle_weight}
use par_buffer_pool.Buffer.Invariant.{Keeps-trans, IsWellFormed, Keeps, nothing}
use par_buffer_pool.Buffer.Invariant.Counts.{claimed-full, Fits-Counted, Capped-lt}
use par_buffer_pool.Buffer.Invariant.Inner.{
  IsSharded-of, ran, no_hook, reset_to, reset_panics, reset_cases, discard-Keeps, settled,
  settled_reserve, settled-Keeps, settled_reserve-Keeps,
}

module _ {ℓ} {T : Type ℓ} where
  cap_allows-IsWellFormed :
      (s : Machine T)
      → IsWellFormed s
      → cap_allows s
        ≡ (returned (has_room s.max_idle s.parked), set_parked (claimed s.max_idle s.parked) s)
  cap_allows-IsWellFormed s h =
      cap_allows_lem s (Fits-Counted s.parked _ h.counted) (Capped-lt s.parked _ h.capped)

  -- After a reset that returned, the buffer is settled in the pile of the thread.
  pub recycle_lem :
      (i : ℕ) (b b' : T) (s u : Machine T) (m : Mutex (List T))
      → run_reset b s ≡ (returned b', u)
      → IsWellFormed u
      → Own i u m
      → recycle i b s ≡ (returned tt, settled i b' m u)
  unfolding recycle
  recycle_lem i b b' s u m run h own =
      rw (run, cap_allows-IsWellFormed u h)
        (elim (Bool-cases (has_room u.max_idle u.parked)) [
          | inl room ↦ rw (room, park_lem i b' (set_parked (claimed u.max_idle u.parked) u) m own)
          | inr full ↦ rw full (
              ap {B = Outcome (Unit {0}) × Machine T}
                (λ p. (returned tt, discard b' (set_parked p u)))
                (claimed-full u.max_idle u.parked full))
        ])

  pub stock_reserve_lem :
      (b b' : T) (s u : Machine T)
      → run_reset b s ≡ (returned b', u)
      → IsWellFormed u
      → stock_reserve b s ≡ (returned tt, settled_reserve b' u)
  unfolding stock_reserve
  stock_reserve_lem b b' s u run h =
      rw (run, cap_allows-IsWellFormed u h)
        (elim (Bool-cases (has_room u.max_idle u.parked)) [
          | inl room ↦ rw (room, lock_pile_lem u.reserve)
          | inr full ↦ rw full (
              ap {B = Outcome (Unit {0}) × Machine T}
                (λ p. (returned tt, discard b' (set_parked p u)))
                (claimed-full u.max_idle u.parked full))
        ])

  pub ran-Keeps : (s : Machine T) → IsWellFormed s → Keeps s (ran s) nothing nothing
  unfolding idle_weight
  ran-Keeps s h = record {
    well_formed = record {
      sharded = IsSharded-of s _ refl refl h.sharded;
      counted = h.counted;
      capped = h.capped;
    };
    within = λ k. k;
    same_reset = refl;
    same_cap = refl;
    same_strong = refl;
    balanced = λ w p. omega arith;
  }

  -- What a return path does after the reset, as `recycle` and `stock_reserve` share it.
  reset_then-Keeps :
      (store : T → Op (Machine T) (Unit {0})) (b : T) (s : Machine T)
      → IsWellFormed s
      → ((b' : T) (u : Machine T)
          → run_reset b s ≡ (returned b', u)
          → IsWellFormed u
          → Keeps u (store b s).1 (λ w. w b') nothing)
      → ((u : Machine T) → run_reset b s ≡ (panicked, u) → (store b s).1 ≡ u)
      → Keeps s (store b s).1 (λ w. w b) nothing
  reset_then-Keeps store b s h stores panics = elim (reset_cases b s) [
    | no_hook e ↦ stores b s e h
    | reset_to b' e weight ↦
        Keeps-trans (λ w. w b) nothing (ran-Keeps s h)
          (stores b' (ran s) e (ran-Keeps s h).well_formed) (λ w p. omega (arith, weight w p))
    | reset_panics b' e weight ↦ rw (panics _ e) (
        Keeps-trans (λ w. w b) nothing (ran-Keeps s h)
          (discard-Keeps b' (ran s) (ran-Keeps s h).well_formed) (λ w p. omega (arith, weight w p)))
  ]

  -- A returned buffer is parked or dropped, and never lost, also where the hook panics.
  pub recycle-Keeps :
      (i : ℕ) (b : T) (s : Machine T)
      → IsWellFormed s
      → Keeps s (recycle i b s).1 (λ w. w b) nothing
  recycle-Keeps i b s h =
      reset_then-Keeps (recycle i) b s h
        (λ b' u e k.
          let (m, own) = find_pile i u k.sharded in
          rw (recycle_lem i b b' s u m e k own) (settled-Keeps i b' m u own k))
        (λ u e. unfold recycle in rw (e))

  pub stock_reserve-Keeps :
      (b : T) (s : Machine T) → IsWellFormed s → Keeps s (stock_reserve b s).1 (λ w. w b) nothing
  stock_reserve-Keeps b s h =
      reset_then-Keeps stock_reserve b s h
        (λ b' u e k. rw (stock_reserve_lem b b' s u e k) (settled_reserve-Keeps b' u k))
        (λ u e. unfold stock_reserve in rw (e))
