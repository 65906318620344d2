-- ===== src/Buffer/Crew/Ticks.antt =====
-- src/buffer.rs: every step of a lease and of a return is a turn.
use mathlib.Core.Option
use par_buffer_pool.Base.{
  All, ℕ, ◌+◌, ◌<◌, Option, none, some, List, [], ◌∷◌, ◌++◌, refl, sym, ap, subst, arith, length,
  length-snoc, total, pop, push, Popped, pop-Popped,
}
use par_buffer_pool.Base.Words.{usize_max, fetch_add, fetch_add-mod, fetch_sub}
use par_buffer_pool.Buffer.State.{Mutex, ResetFn, Machine}
use par_buffer_pool.Buffer.Inner.{reset_with, run_hook, set_reserve}
use par_buffer_pool.Buffer.Invariant.Inner.{IsSharded-of}
use par_buffer_pool.Buffer.Inner.Forms.{find_pile, lock_pile_lem, park_lem, index, Own}
use par_buffer_pool.Buffer.Weights.{one_each, total-push}
use par_buffer_pool.Buffer.Concurrent.{
  Phase, counting_lease, popping_shard, popping_reserve, counting_allocation, initializing,
  unparking, resetting, claiming, parking, finished, after_pop, after_reset, claim_slot, tick,
}
use par_buffer_pool.Buffer.Crew.Phases.{
  Restores, Leasing, Returning, at_counting_lease, at_popping_shard, at_popping_reserve,
  at_counting_allocation, at_initializing, at_unparking, with_buffer, at_resetting, at_claiming,
  at_parking, at_end,
}
use par_buffer_pool.Buffer.Crew.Turns.{IsReady, Turn, still-Turn, quiet-Turn, repiled-Turn, repiled}

module _ {ℓ} {T : Type ℓ} (P : T → Type ℓ) where
  -- Every buffer of a list, when it is taken from the top and when it is put there.
  All-Popped :
      (bs rest : List T) (o : Option T)
      → Popped bs o rest
      → All P bs
      → All P rest × Leasing P (after_pop popping_reserve o)
  All-Popped bs rest none (e, r) h = (subst (All P) (sym r) tt, at_popping_reserve)
  All-Popped bs rest (some b) e h =
      let (front, last) = split rest (subst (All P) e h) in (front, at_unparking b last)
    where
      split : (xs : List T) → All P (xs ++ (b ∷ [])) → All P xs × P b
      split [] (p, u) = (tt, p)
      split (x ∷ xs) (p, q) = ((p, (split xs q).0), (split xs q).1)

  All-push : (bs : List T) (b : T) → All P bs → P b → All P (push bs b)
  All-push [] b h p = (p, tt)
  All-push (x ∷ bs) b h p = (h.0, All-push bs b h.1 p)

  -- What is known of the phase after a step, with the turn.
  abbrev pub Leases : ℕ → Phase T → Machine T → Phase T × Machine T → Type ℓ
  Leases i c s (d, t) = Leasing P d × Turn P i c s d t

  abbrev pub Returns : ℕ → Phase T → Machine T → Phase T × Machine T → Type ℓ
  Returns i c s (d, t) = Returning P t.reset d × Turn P i c s d t

  Popped-Turn :
      (i : ℕ) (s : Machine T) (m : Mutex (List T)) (o : Option T) (rest : List T)
      → Own i s m
      → IsReady P s
      → s.threads.next_tid < usize_max
      → Popped m.value o rest
      → All P rest
      → Turn P i popping_shard s (after_pop popping_reserve o) (repiled i m rest s)
  Popped-Turn i s m none rest own h room (e, r) fine =
      repiled-Turn P i s m rest own popping_shard popping_reserve h room fine refl refl refl refl
        (omega (arith, ap (total one_each) e, ap (total one_each) r))
        (λ n le. omega (arith, ap length r)) (omega arith)
  Popped-Turn i s m (some b) rest own h room e fine =
      repiled-Turn P i s m rest own popping_shard (unparking b) h room fine refl refl refl refl
        (omega (arith, ap (total one_each) e, total-push one_each rest b))
        (λ n le. omega (arith, ap length e, length-snoc rest b)) (omega arith)

  popping_shard-Leases :
      (i : ℕ) (s : Machine T)
      → IsReady P s
      → s.threads.next_tid < usize_max
      → Leases i popping_shard s (tick i popping_shard s)
  unfolding tick
  popping_shard-Leases i s h room =
      let (m, own) = find_pile i s h.sharded in
      let popped = pop-Popped m.value in
      let fine =
        All-Popped m.value (pop m.value).1 (pop m.value).0 popped (h.stocked (index i s) m own) in
      rw (own, lock_pile_lem m)
        (fine.1, Popped-Turn i s m (pop m.value).0 (pop m.value).1 own h room popped fine.0)

  popping_reserve-Leases :
      (i : ℕ) (s : Machine T) → IsReady P s → Leases i popping_reserve s (tick i popping_reserve s)
  unfolding tick
  popping_reserve-Leases i s h =
      let empty : IsReady P (set_reserve [] s) = record {
        sharded = IsSharded-of s _ refl refl h.sharded;
        uncapped = h.uncapped;
        unreserved = refl;
        makes = h.makes;
        stocked = h.stocked;
      } in
      rw (lock_pile_lem s.reserve, h.unreserved)
        (
          at_counting_allocation,
          quiet-Turn P i popping_reserve counting_allocation (set_reserve [] s) s.parked
              s.reset_runs empty h.uncapped refl refl refl refl (omega arith),
        )

  pub tick-Leases :
      (i : ℕ) (c : Phase T) (s : Machine T)
      → IsReady P s
      → s.threads.next_tid < usize_max
      → Leasing P c
      → Leases i c s (tick i c s)
  unfolding tick
  tick-Leases i counting_lease s h room at_counting_lease = (
    at_popping_shard,
    still-Turn P i counting_lease popping_shard s (fetch_add s.leases 1) s.allocations s.parked
        s.init_runs s.reset_runs h h.uncapped (λ k e. omega (arith, fetch_add-mod s.leases 1))
        (λ k e. omega arith) (omega arith) (omega arith) (omega arith) refl (omega arith),
  )
  tick-Leases i popping_shard s h room at_popping_shard = popping_shard-Leases i s h room
  tick-Leases i popping_reserve s h room at_popping_reserve = popping_reserve-Leases i s h
  tick-Leases i counting_allocation s h room at_counting_allocation = (
    at_initializing,
    still-Turn P i counting_allocation initializing s s.leases (fetch_add s.allocations 1) s.parked
        s.init_runs s.reset_runs h h.uncapped (λ k e. omega arith)
        (λ k e. omega (arith, fetch_add-mod s.allocations 1)) (omega arith) (omega arith)
        (omega arith) refl (omega arith),
  )
  tick-Leases i initializing s h room at_initializing =
      let (b, e, p) = h.makes s.init_runs in
      rw e (
        with_buffer b p,
        still-Turn P i initializing (finished (b ∷ [])) s s.leases s.allocations s.parked
            (s.init_runs + 1) s.reset_runs h h.uncapped (λ k e. omega arith) (λ k e. omega arith)
            (omega arith) (omega arith) (omega arith) refl (omega arith),
      )
  tick-Leases i _ s h room (at_unparking b p) = (
    with_buffer b p,
    quiet-Turn P i (unparking b) (finished (b ∷ [])) s (Option.map (λ q. fetch_sub q 1) s.parked)
        s.reset_runs h (ap (Option.map (λ q. fetch_sub q 1)) h.uncapped) refl refl refl refl
        (omega arith),
  )
  tick-Leases i _ s h room (with_buffer b p) = (
    with_buffer b p,
    quiet-Turn P i (finished (b ∷ [])) (finished (b ∷ [])) s s.parked s.reset_runs h h.uncapped refl
        refl refl refl (omega arith),
  )

  reset_with-Returns :
      (i : ℕ) (b : T) (o : Option (ResetFn T)) (s : Machine T)
      → IsReady P s
      → Restores P o b
      → Returns i (resetting b) s (after_reset (reset_with o b s).0, (reset_with o b s).1)
  unfolding reset_with run_hook
  reset_with-Returns i b none s h p = (
    at_claiming b p,
    quiet-Turn P i (resetting b) (claiming b) s s.parked s.reset_runs h h.uncapped refl refl refl
        refl (omega arith),
  )
  reset_with-Returns i b (some hook) s h keeps =
      let (b', e, p) = keeps s.reset_runs in
      subst (λ q. Returns i (resetting b) s (after_reset (run_hook q s).0, (run_hook q s).1))
        (sym e)
        (
          at_claiming b' p,
          quiet-Turn P i (resetting b) (claiming b') s s.parked (s.reset_runs + 1) h h.uncapped refl
              refl refl refl (omega arith),
        )

  pub tick-Returns :
      (i : ℕ) (c : Phase T) (s : Machine T)
      → IsReady P s
      → s.threads.next_tid < usize_max
      → Returning P s.reset c
      → Returns i c s (tick i c s)
  unfolding tick
  tick-Returns i _ s h room (at_resetting b keeps) = reset_with-Returns i b s.reset s h keeps
  tick-Returns i _ s h room (at_claiming b p) = rw (ap (λ o. claim_slot o b s) h.uncapped) (
    at_parking b p,
    quiet-Turn P i (claiming b) (parking b) s s.parked s.reset_runs h h.uncapped refl refl refl refl
        (omega arith),
  )
  tick-Returns i _ s h room (at_parking b p) =
      let (m, own) = find_pile i s h.sharded in
      rw (park_lem i b s m own) (
        at_end,
        repiled-Turn P i s m (push m.value b) own (parking b) (finished []) h room
            (All-push m.value b (h.stocked (index i s) m own) p) refl refl refl refl
            (omega (arith, total-push one_each m.value b))
            (λ n le. omega (arith, length-snoc m.value b)) (omega arith),
      )
  tick-Returns i _ s h room at_end = (
    at_end,
    quiet-Turn P i (finished []) (finished []) s s.parked s.reset_runs h h.uncapped refl refl refl
        refl (omega arith),
  )
