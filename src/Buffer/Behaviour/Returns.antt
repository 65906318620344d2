-- ===== src/Buffer/Behaviour/Returns.antt =====
-- src/buffer.rs: the number of idle buffers after `recycle` and `stock_reserve`.
use par_buffer_pool.Base.{
  ℕ, ◌+◌, Option, none, some, List, ◌≡◌, refl, arith, inl, inr, leb, if◌then◌else◌, Bool-cases,
}
use par_buffer_pool.Base.Effect.{Outcome, returned, panicked}
use par_buffer_pool.Buffer.State.{Machine, Mutex}
use par_buffer_pool.Buffer.Inner.{recycle, stock_reserve}
use par_buffer_pool.Buffer.Inner.Forms.{Own, find_pile, has_room}
use par_buffer_pool.Buffer.Weights.{
  idle_weight, idle, one_each, idle_weight-parked_at, idle_weight-stocked,
}
use par_buffer_pool.Buffer.Invariant.{Counted, IsWellFormed}
use par_buffer_pool.Buffer.Invariant.Inner.{
  settled, settled_reserve, ran, no_hook, reset_to, reset_panics, reset_cases,
}
use par_buffer_pool.Buffer.Invariant.Return.{recycle_lem, stock_reserve_lem, ran-Keeps}

-- The number of idle buffers after a return, from the number before it: a return parks one more
-- unless the cap is reached or the reset hook panics.
abbrev pub idle_after : Outcome (Unit {0}) → Option ℕ → ℕ → ℕ → ℕ
idle_after panicked p n k = k
idle_after (returned u) none n k = k + 1
idle_after (returned u) (some p) n k = if leb n k then k else k + 1

has_room-idle_after :
    (p : Option ℕ) (n k k' : ℕ)
    → Counted p k
    → k' ≡ (if has_room n p then k + 1 else k)
    → k' ≡ idle_after (returned tt) p n k
has_room-idle_after none n k k' h e = e
has_room-idle_after (some p) n k k' h e = ground arith

module _ {ℓ} {T : Type ℓ} where
  idle-settled :
      (i : ℕ) (b : T) (m : Mutex (List T)) (s : Machine T)
      → Own i s m
      → IsWellFormed s
      → idle (settled i b m s) ≡ idle_after (returned tt) s.parked s.max_idle (idle s)
  unfolding idle_weight
  idle-settled i b m s own h =
      has_room-idle_after s.parked s.max_idle (idle s) _ h.counted
        (elim (Bool-cases (has_room s.max_idle s.parked)) [
          | inl room ↦ rw room (idle_weight-parked_at one_each i s m own b)
          | inr full ↦ rw full
        ])

  pub idle-settled_reserve :
      (b : T) (s : Machine T)
      → IsWellFormed s
      → idle (settled_reserve b s) ≡ idle_after (returned tt) s.parked s.max_idle (idle s)
  unfolding idle_weight
  idle-settled_reserve b s h =
      has_room-idle_after s.parked s.max_idle (idle s) _ h.counted
        (elim (Bool-cases (has_room s.max_idle s.parked)) [
          | inl room ↦ rw room (idle_weight-stocked one_each s b)
          | inr full ↦ rw full
        ])

  -- In a well-formed pool a return through the shard of any thread parks one more buffer, unless
  -- the number of idle buffers has reached the cap or the reset hook panics: then the number
  -- stays.
  pub idle-recycle :
      (i : ℕ) (b : T) (s : Machine T)
      → IsWellFormed s
      → idle (recycle i b s).1 ≡ idle_after (recycle i b s).0 s.parked s.max_idle (idle s)
  unfolding idle_weight
  idle-recycle i b s h = elim (reset_cases b s) [
    | no_hook e ↦
        let (m, own) = find_pile i s h.sharded in
        rw (recycle_lem i b b s s m e h own) (idle-settled i b m s own h)
    | reset_to b' e weight ↦
        let h' = (ran-Keeps s h).well_formed in
        let (m, own) = find_pile i (ran s) h'.sharded in
        rw (recycle_lem i b b' s (ran s) m e h' own) (idle-settled i b' m (ran s) own h')
    | reset_panics b' e weight ↦ unfold recycle in rw e refl
  ]

  -- The same of a buffer that `prefill` stocks.
  pub idle-stock_reserve :
      (b : T) (s : Machine T)
      → IsWellFormed s
      → idle (stock_reserve b s).1 ≡ idle_after (stock_reserve b s).0 s.parked s.max_idle (idle s)
  unfolding idle_weight
  idle-stock_reserve b s h = elim (reset_cases b s) [
    | no_hook e ↦ rw (stock_reserve_lem b b s s e h) (idle-settled_reserve b s h)
    | reset_to b' e weight ↦
        let h' = (ran-Keeps s h).well_formed in
        rw (stock_reserve_lem b b' s (ran s) e h') (idle-settled_reserve b' (ran s) h')
    | reset_panics b' e weight ↦ unfold stock_reserve in rw e refl
  ]
