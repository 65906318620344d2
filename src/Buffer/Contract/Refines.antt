-- ===== src/Buffer/Contract/Refines.antt =====
-- src/buffer.rs: sequences of calls and the contract.
use par_buffer_pool.Base.{◌∙◌, ℕ, List, [], ◌∷◌, ◌++◌, ◌≡◌, refl, sym, ap, subst}
use par_buffer_pool.Base.Effect.{Outcome, returned, panicked, and_then, pure}
use par_buffer_pool.Buffer.State.{Machine}
use par_buffer_pool.Buffer.Inner.Forms.{find_pile}
use par_buffer_pool.Buffer.Pool.{get, put}
use par_buffer_pool.Buffer.Pool.Drain.{idle_buffers, drain_lem, drained-Keeps}
use par_buffer_pool.Buffer.Invariant.{IsWellFormed}
use par_buffer_pool.Buffer.Invariant.Pool.{get-Keeps, put-Keeps}
use par_buffer_pool.Buffer.Client.{option_list}
use par_buffer_pool.Buffer.Bags.{of_list}
use par_buffer_pool.Buffer.Contract.{
  lease, Command, lease, give_back, take_all, Allowed, emptied, Trace, done, then, perform,
  perform_all, terms, idle_bag,
}
use par_buffer_pool.Buffer.Contract.Piles.{all_buffers-emptied}
use par_buffer_pool.Buffer.Contract.Serves.{Serves, cap_of-map}
use par_buffer_pool.Buffer.Contract.Leases.{lease-Serves}
use par_buffer_pool.Buffer.Contract.Returns.{give_back-Serves}

module _ {ℓ} {T : Type ℓ} where
  take_all-Serves :
      (s : Machine T)
      → IsWellFormed s
      → Serves s take_all (perform take_all s).0 (perform take_all s).1
  unfolding perform idle_bag
  take_all-Serves s h = rw (drain_lem s h) (record {
    allowed =
        subst (Allowed (terms s) (idle_bag s) take_all (returned (idle_buffers s)))
          (ap (λ bs. of_list (bs ++ [])) (sym (all_buffers-emptied s.shards)))
          (emptied (idle_buffers s) refl);
    same_terms =
        ap (λ c. record { init = s.init; reset = s.reset; cap = c })
          (cap_of-map _ s.parked s.max_idle);
  })

  perform-Serves :
      (c : Command T) (s : Machine T) → IsWellFormed s → Serves s c (perform c s).0 (perform c s).1
  perform-Serves (lease i) s h = let (m, own) = find_pile i s h.sharded in lease-Serves i s m own
  perform-Serves (give_back i b) s h = give_back-Serves i b s h
  perform-Serves take_all s h = take_all-Serves s h

  answered {κ} :
      {A : Type κ} (o : Outcome A) (t : Machine T) (f : A → List T)
      → (and_then o t (λ a. pure (f a))).1 ≡ t
  answered (returned a) t f = refl
  answered panicked t f = refl

  pub get-terms : (i : ℕ) (s : Machine T) → IsWellFormed s → terms (get i s).1 ≡ terms s
  unfolding perform
  get-terms i s h =
      ap terms (sym (answered (get i s).0 (get i s).1 (λ guard. option_list guard.buffer)))
      ∙ (perform-Serves (lease i) s h).same_terms

  perform-IsWellFormed :
      (c : Command T) (s : Machine T) → IsWellFormed s → IsWellFormed (perform c s).1
  unfolding perform
  perform-IsWellFormed (lease i) s h =
      subst IsWellFormed
        (sym (answered (get i s).0 (get i s).1 (λ guard. option_list guard.buffer)))
        (get-Keeps i s h).well_formed
  perform-IsWellFormed (give_back i b) s h =
      subst IsWellFormed (sym (answered (put i b s).0 (put i b s).1 (λ u. [])))
        (put-Keeps i b s h).well_formed
  perform-IsWellFormed take_all s h = rw (drain_lem s h) (drained-Keeps s h).well_formed

  -- In a well-formed pool, whatever leases, returns and drains are called in sequence, on whatever
  -- threads, the pool gives answers that its contract allows: a lease answers with a buffer from
  -- the bag of the idle ones, or with one that the initializer makes; a return adds the reset
  -- buffer to the bag while there are fewer than the cap, and drops it otherwise; a drain empties
  -- the bag into its answer; a call panics only with the initializer or the reset hook.
  pub pool_refines :
      (cs : List (Command T)) (s : Machine T)
      → IsWellFormed s
      → let (answers, t) = perform_all cs s in Trace (terms s) (idle_bag s) cs answers (idle_bag t)
  unfolding perform_all
  pool_refines [] s h = done
  pool_refines (c ∷ cs) s h =
      let k = perform-Serves c s h in
      let t = (perform c s).1 in
      then k.allowed (
        subst (λ q. Trace q (idle_bag t) cs (perform_all cs t).0 (idle_bag (perform_all cs t).1))
          k.same_terms (pool_refines cs t (perform-IsWellFormed c s h)))
