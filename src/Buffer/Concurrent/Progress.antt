-- ===== src/Buffer/Concurrent/Progress.antt =====
-- src/buffer.rs: how many steps a call has left, whatever other calls do between its steps.
use par_buffer_pool.Base.{
  ℕ, zero, suc, ◌+◌, ◌-◌, ◌≤◌, Option, none, some, List, [], ◌≡◌, refl, ap, arith, length,
  length-set, get_elem?, push, pop, leb, inl, inr, Option-cases, Bool-cases, get_elem?-some_lt,
}
use par_buffer_pool.Base.Effect.{Outcome, returned, panicked}
use par_buffer_pool.Buffer.State.{Machine, write_pile}
use par_buffer_pool.Buffer.Inner.{run_reset}
use par_buffer_pool.Buffer.Inner.Forms.{IsSharded, index, find_pile, lock_pile_lem, park_lem}
use par_buffer_pool.Buffer.Invariant.Inner.{
  no_hook, reset_to, reset_panics, reset_cases, IsSharded-of,
}
use par_buffer_pool.Buffer.Concurrent.{
  Phase, counting_lease, popping_shard, popping_reserve, counting_allocation, initializing, failed,
  unparking, resetting, claiming, giving_back, parking, sweeping, sweeping_reserve, unparking_all,
  finished, after_pop, after_init, after_reset, claim_slot, tick,
}

module _ {ℓ} {T : Type ℓ} where
  -- The most steps that a call may have left in a pool of `n` shards.
  abbrev pub remaining : ℕ → Phase T → ℕ
  remaining n counting_lease = 5
  remaining n popping_shard = 4
  remaining n popping_reserve = 3
  remaining n counting_allocation = 2
  remaining n initializing = 1
  remaining n failed = 0
  remaining n (unparking b) = 1
  remaining n (resetting b) = 3
  remaining n (claiming b) = 2
  remaining n (giving_back b) = 1
  remaining n (parking b) = 1
  remaining n (sweeping k taken bs) = (n - k) + 3
  remaining n (sweeping_reserve taken bs) = 2
  remaining n (unparking_all taken bs) = 1
  remaining n (finished bs) = 0

  after_pop-remaining :
      (n k : ℕ) (c : Phase T) (o : Option T)
      → remaining n c ≤ k
      → 1 ≤ k
      → remaining n (after_pop c o) ≤ k
  after_pop-remaining n k c none h l = h
  after_pop-remaining n k c (some b) h l = l

  after_init-remaining : (n : ℕ) (o : Outcome T) → remaining n (after_init o) ≡ 0
  after_init-remaining n (returned b) = refl
  after_init-remaining n panicked = refl

  after_reset-remaining : (n : ℕ) (o : Outcome T) → remaining n (after_reset o) ≤ 2
  after_reset-remaining n (returned b) = omega arith
  after_reset-remaining n panicked = omega arith

  claim_slot-remaining :
      (n : ℕ) (o : Option ℕ) (b : T) (s : Machine T) → remaining n (claim_slot o b s).0 ≡ 1
  claim_slot-remaining n none b s = refl
  claim_slot-remaining n (some p) b s = elim (Bool-cases (leb s.max_idle p)) [
    | inl e ↦ rw e refl
    | inr e ↦ rw e refl
  ]

  -- Every step of a call brings its end nearer.
  pub tick-remaining :
      (i : ℕ) (c : Phase T) (s : Machine T)
      → IsSharded s
      → remaining (length s.shards) (tick i c s).0 ≤ remaining (length s.shards) c - 1
  unfolding tick
  tick-remaining i counting_lease s h = omega arith
  tick-remaining i popping_shard s h =
      let (m, own) = find_pile i s h in
      rw (own, lock_pile_lem m)
        (after_pop-remaining (length s.shards) 3 popping_reserve (pop m.value).0 (omega arith)
          (omega arith))
  tick-remaining i popping_reserve s h =
      after_pop-remaining (length s.shards) 2 counting_allocation _ (omega arith) (omega arith)
  tick-remaining i counting_allocation s h = omega arith
  tick-remaining i initializing s h =
      omega (arith, after_init-remaining (length s.shards) (s.init s.init_runs))
  tick-remaining i failed s h = omega arith
  tick-remaining i (unparking b) s h = omega arith
  tick-remaining i (resetting b) s h = after_reset-remaining (length s.shards) (run_reset b s).0
  tick-remaining i (claiming b) s h =
      omega (arith, claim_slot-remaining (length s.shards) s.parked b s)
  tick-remaining i (giving_back b) s h = omega arith
  tick-remaining i (parking b) s h =
      let (m, own) = find_pile i s h in rw (park_lem i b s m own) (omega arith)
  tick-remaining i (sweeping k taken bs) s h = elim (Option-cases (get_elem? s.shards k)) [
    | inl e ↦ rw e (omega arith)
    | inr (m, e) ↦ rw e (omega (arith, get_elem?-some_lt s.shards k m e))
  ]
  tick-remaining i (sweeping_reserve taken bs) s h = omega arith
  tick-remaining i (unparking_all taken bs) s h = omega arith
  tick-remaining i (finished bs) s h = omega arith

  -- A call has ended.
  pub data IsEnded : Phase T → Type ℓ where
    by_finishing : (bs : List T) → IsEnded (finished bs)
    by_panic : IsEnded failed

  pub remaining-IsEnded : (n : ℕ) (c : Phase T) → remaining n c ≡ 0 → IsEnded c
  remaining-IsEnded n counting_lease e = absurd (omega arith)
  remaining-IsEnded n popping_shard e = absurd (omega arith)
  remaining-IsEnded n popping_reserve e = absurd (omega arith)
  remaining-IsEnded n counting_allocation e = absurd (omega arith)
  remaining-IsEnded n initializing e = absurd (omega arith)
  remaining-IsEnded n failed e = by_panic
  remaining-IsEnded n (unparking b) e = absurd (omega arith)
  remaining-IsEnded n (resetting b) e = absurd (omega arith)
  remaining-IsEnded n (claiming b) e = absurd (omega arith)
  remaining-IsEnded n (giving_back b) e = absurd (omega arith)
  remaining-IsEnded n (parking b) e = absurd (omega arith)
  remaining-IsEnded n (sweeping k taken bs) e = absurd (omega arith)
  remaining-IsEnded n (sweeping_reserve taken bs) e = absurd (omega arith)
  remaining-IsEnded n (unparking_all taken bs) e = absurd (omega arith)
  remaining-IsEnded n (finished bs) e = by_finishing bs

  claim_slot-shards :
      (o : Option ℕ) (b : T) (s : Machine T)
      → ((claim_slot o b s).1.shards ≡ s.shards) × ((claim_slot o b s).1.shard_mask ≡ s.shard_mask)
  claim_slot-shards none b s = (refl, refl)
  claim_slot-shards (some p) b s = (refl, refl)

  run_reset-shards :
      (b : T) (s : Machine T)
      → ((run_reset b s).1.shards ≡ s.shards) × ((run_reset b s).1.shard_mask ≡ s.shard_mask)
  run_reset-shards b s = elim (reset_cases b s) [
    | no_hook e ↦ rw e (refl, refl)
    | reset_to b' e weight ↦ rw e (refl, refl)
    | reset_panics b' e weight ↦ rw e (refl, refl)
  ]

  -- A step keeps the number of the shards, and the mask.
  abbrev pub SameShape : Machine T → Machine T → Type 0
  SameShape s t = (length t.shards ≡ length s.shards) × (t.shard_mask ≡ s.shard_mask)

  pub tick-SameShape :
      (i : ℕ) (c : Phase T) (s : Machine T) → IsSharded s → SameShape s (tick i c s).1
  unfolding tick
  tick-SameShape i counting_lease s h = (refl, refl)
  tick-SameShape i popping_shard s h =
      let (m, own) = find_pile i s h in
      rw (own, lock_pile_lem m)
        (length-set s.shards (index i s) (write_pile m (pop m.value).1), refl)
  tick-SameShape i popping_reserve s h = (refl, refl)
  tick-SameShape i counting_allocation s h = (refl, refl)
  tick-SameShape i initializing s h = (refl, refl)
  tick-SameShape i failed s h = (refl, refl)
  tick-SameShape i (unparking b) s h = (refl, refl)
  tick-SameShape i (resetting b) s h = let (e, m) = run_reset-shards b s in (ap length e, m)
  tick-SameShape i (claiming b) s h =
      let (e, m) = claim_slot-shards s.parked b s in (ap length e, m)
  tick-SameShape i (giving_back b) s h = (refl, refl)
  tick-SameShape i (parking b) s h =
      let (m, own) = find_pile i s h in
      rw (park_lem i b s m own)
        (length-set s.shards (index i s) (write_pile m (push m.value b)), refl)
  tick-SameShape i (sweeping k taken bs) s h = elim (Option-cases (get_elem? s.shards k)) [
    | inl e ↦ rw e (refl, refl)
    | inr (m, e) ↦ rw e (length-set s.shards k (write_pile m []), refl)
  ]
  tick-SameShape i (sweeping_reserve taken bs) s h = (refl, refl)
  tick-SameShape i (unparking_all taken bs) s h = (refl, refl)
  tick-SameShape i (finished bs) s h = (refl, refl)

  -- `n` steps of a call on thread `i`, where `others k` is what happens to the pool before the step
  -- that has `k` more after it.
  pub interrupted : (ℕ → Machine T → Machine T) → ℕ → ℕ → Phase T → Machine T → Phase T × Machine T
  interrupted others zero i c s = (c, s)
  interrupted others (suc n) i c s =
      interrupted others n i (tick i c (others n s)).0 (tick i c (others n s)).1

  interrupted-IsEnded :
      (others : ℕ → Machine T → Machine T) (n i : ℕ) (c : Phase T) (s : Machine T)
      → ((k : ℕ) (u : Machine T) → SameShape u (others k u))
      → IsSharded s
      → remaining (length s.shards) c ≤ n
      → IsEnded (interrupted others n i c s).0
  unfolding interrupted
  interrupted-IsEnded others zero i c s keeps h e =
      remaining-IsEnded (length s.shards) c (omega arith)
  interrupted-IsEnded others (suc n) i c s keeps h e =
      let u = others n s in
      let same = keeps n s in
      let h' = IsSharded-of s u same.0 same.1 h in
      let shape = tick-SameShape i c u h' in
      let step = rw same.0 at (tick-remaining i c u h') in
      interrupted-IsEnded others n i (tick i c u).0 (tick i c u).1 keeps
        (IsSharded-of u (tick i c u).1 shape.0 shape.1 h')
        (rw (shape.0, same.0) (omega (arith, step)))

  -- In a pool whose number `n` of shards is a power of two and fits its mask: whatever other calls
  -- do to the pool between its steps, as long as they keep the shards and the mask, a lease ends
  -- after at most 5 steps of its own, a return after 3, and a drain after `n + 3`.
  pub calls_end :
      (others : ℕ → Machine T → Machine T) (i : ℕ) (b : T) (s : Machine T)
      → ((k : ℕ) (u : Machine T) → SameShape u (others k u))
      → IsSharded s
      → IsEnded (interrupted others 5 i counting_lease s).0
        × IsEnded (interrupted others 3 i (resetting b) s).0
        × IsEnded (interrupted others (length s.shards + 3) i (sweeping 0 0 []) s).0
  calls_end others i b s keeps h = (
    interrupted-IsEnded others 5 i counting_lease s keeps h (omega arith),
    interrupted-IsEnded others 3 i (resetting b) s keeps h (omega arith),
    interrupted-IsEnded others (length s.shards + 3) i (sweeping 0 0 []) s keeps h (omega arith),
  )
