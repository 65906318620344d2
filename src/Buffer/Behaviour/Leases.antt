-- ===== src/Buffer/Behaviour/Leases.antt =====
-- src/buffer.rs: which buffer a lease gets, and when the initializer runs.
use par_buffer_pool.Base.{
  ℕ, ◌+◌, ◌<◌, Option, none, some, List, [], ◌∷◌, ◌≡◌, inl, inr, ◌⊎◌, refl, sym, ap, ◌∙◌, arith,
  if◌then◌else◌, is_some, set-restore, Bool, true, false, not, ◌&&◌, push, pop, pop-push, set,
  get_elem?-set_self, Option-cases,
}
use par_buffer_pool.Base.Words.{usize_max, fetch_add}
use par_buffer_pool.Base.Effect.{Outcome, returned, panicked}
use par_buffer_pool.Sharding.{shard_index}
use par_buffer_pool.Sharding.Ids.{IsDense, tid-after_tid}
use par_buffer_pool.Buffer.State.{Machine, Mutex, write_pile}
use par_buffer_pool.Buffer.Inner.{set_parked, run_reset}
use par_buffer_pool.Buffer.Inner.Forms.{
  IsSharded, Own, find_pile, index, index-lt, has_room, claimed, parked_at, popped_shard,
  popped_reserve, unparked,
}
use par_buffer_pool.Buffer.Pool.{get, put}
use par_buffer_pool.Buffer.Pool.Lease.{guard, leased, get_from_shard, get_from_reserve, get_fresh}
use par_buffer_pool.Buffer.Invariant.{IsWellFormed}
use par_buffer_pool.Buffer.Invariant.Inner.{
  reset_cases, no_hook, reset_to, reset_panics, ran, IsSharded-of,
}
use par_buffer_pool.Buffer.Invariant.Return.{recycle_lem, ran-Keeps}

abbrev pub is_empty {ℓ} : {A : Type ℓ} → List A → Bool
is_empty [] = true
is_empty (x ∷ xs) = false

is_some-pop {ℓ} : {A : Type ℓ} (xs : List A) → is_some (pop xs).0 ≡ not (is_empty xs)
is_some-pop [] = refl
is_some-pop (x ∷ []) = refl
is_some-pop (x ∷ y ∷ ys) = is_some-pop (y ∷ ys)

is_empty-pop {ℓ} :
    {A : Type ℓ} (xs : List A) (o : Option A) → (pop xs).0 ≡ o → is_empty xs ≡ not (is_some o)
is_empty-pop xs o e = ground (arith, is_some-pop xs, ap is_some e)

module _ {ℓ} {T : Type ℓ} where
  -- The pile of the thread that has just parked a buffer.
  Own-parked_at :
      (i : ℕ) (b : T) (m : Mutex (List T)) (u : Machine T)
      → IsSharded u
      → IsDense u.threads
      → u.threads.next_tid < usize_max
      → Own i u m
      → Own i (parked_at i b m u) (write_pile m (push m.value b))
  unfolding shard_index
  Own-parked_at i b m u h d ids own =
      rw ((tid-after_tid u.threads i ids d).0)
        (get_elem?-set_self u.shards (index i u) (write_pile m (push m.value b)) (index-lt i u h))

  -- The piles and the counters that a pop leaves alone.
  unparked-init_runs : (o : Option T) (s : Machine T) → (unparked o s).init_runs ≡ s.init_runs
  unparked-init_runs none s = refl
  unparked-init_runs (some b) s = refl

  unparked-allocations : (o : Option T) (s : Machine T) → (unparked o s).allocations ≡ s.allocations
  unparked-allocations none s = refl
  unparked-allocations (some b) s = refl

  unparked-shards : (o : Option T) (s : Machine T) → (unparked o s).shards ≡ s.shards
  unparked-shards none s = refl
  unparked-shards (some b) s = refl

  missed-init_runs :
      (i : ℕ) (m : Mutex (List T)) (s : Machine T)
      → (popped_reserve (popped_shard i m (leased s))).init_runs ≡ s.init_runs
  missed-init_runs i m s =
      unparked-init_runs (pop (popped_shard i m (leased s)).reserve.value).0 _
      ∙ unparked-init_runs (pop m.value).0 _

  missed-allocations :
      (i : ℕ) (m : Mutex (List T)) (s : Machine T)
      → (popped_reserve (popped_shard i m (leased s))).allocations ≡ s.allocations
  missed-allocations i m s =
      unparked-allocations (pop (popped_shard i m (leased s)).reserve.value).0 _
      ∙ unparked-allocations (pop m.value).0 _

  -- Let `m` be the shard that the calling thread selects. A lease runs the initializer once, and
  -- counts an allocation, where that shard and the reserve are both empty, whatever lies in the
  -- other shards. Otherwise it does neither.
  pub get-init_runs :
      (i : ℕ) (s : Machine T) (m : Mutex (List T))
      → Own i s m
      → let fresh = is_empty m.value && is_empty s.reserve.value in
        ((get i s).1.init_runs ≡ (if fresh then s.init_runs + 1 else s.init_runs))
        × ((get i s).1.allocations ≡ (if fresh then fetch_add s.allocations 1 else s.allocations))
  get-init_runs i s m own = elim (Option-cases (pop m.value).0) [
    | inr (b, e) ↦
        rw (get_from_shard i s m own b e, is_empty-pop m.value (some b) e)
          (unparked-init_runs (pop m.value).0 _, unparked-allocations (pop m.value).0 _)
    | inl e ↦ elim (Option-cases (pop s.reserve.value).0) [
      | inr (b, r) ↦
          rw
            (
              get_from_reserve i s m own b e r,
              is_empty-pop m.value none e,
              is_empty-pop s.reserve.value (some b) r,
            )
            (missed-init_runs i m s, missed-allocations i m s)
      | inl r ↦
          rw
            (
              get_fresh i s m own e r,
              is_empty-pop m.value none e,
              is_empty-pop s.reserve.value none r,
            )
            (
              ap (λ n. n + 1) (missed-init_runs i m s),
              ap (λ n. fetch_add n 1) (missed-allocations i m s),
            )
    ]
  ]

  -- A buffer that a thread has returned, where the cap has room, is the one that its next lease
  -- gets; the piles are then as before, and the initializer has not run.
  relet :
      (i : ℕ) (b : T) (m : Mutex (List T)) (u : Machine T)
      → IsSharded u
      → IsDense u.threads
      → u.threads.next_tid < usize_max
      → Own i u m
      → let (result, v) = get i (parked_at i b m u) in
        (result ≡ returned (guard b)) × (v.shards ≡ u.shards) × (v.init_runs ≡ u.init_runs)
  unfolding shard_index
  relet i b m u h d ids own =
      let top = pop-push m.value b in
      let own' = Own-parked_at i b m u h d ids own in
      rw
        (get_from_shard i (parked_at i b m u) (write_pile m (push m.value b)) own' b
          (ap (λ (r : Option T × List T). r.0) top))
        (
          refl,
          unparked-shards (pop (push m.value b)).0 _ ∙ restored,
          unparked-init_runs (pop (push m.value b)).0 _,
        )
    where
      restored :
          set
            (parked_at i b m u).shards
            (index i (leased (parked_at i b m u)))
            (write_pile (write_pile m (push m.value b)) (pop (push m.value b)).1)
          ≡ u.shards
      restored =
          rw
            (
              (tid-after_tid u.threads i ids d).0,
              ap (λ (r : Option T × List T). r.1) (pop-push m.value b),
            )
            (set-restore u.shards (index i u) m (write_pile m (push m.value b)) own)

  run_reset-state :
      (b b' : T) (s u : Machine T) → run_reset b s ≡ (returned b', u) → (u ≡ s) ⊎ (u ≡ ran s)
  run_reset-state b b' s u e = elim (reset_cases b s) [
    | no_hook k ↦ inl (ap (λ (r : Outcome T × Machine T). r.1) (sym e ∙ k))
    | reset_to x k _ ↦ inr (ap (λ (r : Outcome T × Machine T). r.1) (sym e ∙ k))
    | reset_panics x k _ ↦ differ x (ap (λ (r : Outcome T × Machine T). r.0) (sym e ∙ k))
  ]
    where
      differ : (x : T) → returned b' ≡ panicked → (u ≡ s) ⊎ (u ≡ ran s)
      differ x q = cc

  relet_after :
      (i : ℕ) (b b' : T) (s u : Machine T)
      → IsWellFormed u
      → IsDense u.threads
      → u.threads.next_tid < usize_max
      → has_room u.max_idle u.parked ≡ true
      → run_reset b s ≡ (returned b', u)
      → let (result, v) = get i (put i b s).1 in
        (result ≡ returned (guard b')) × (v.shards ≡ u.shards) × (v.init_runs ≡ u.init_runs)
  unfolding put
  relet_after i b b' s u h d ids room e =
      let (m, own) = find_pile i u h.sharded in
      rw (recycle_lem i b b' s u m e h own, room)
        (relet i b' m (set_parked (claimed u.max_idle u.parked) u)
          (IsSharded-of u _ refl refl h.sharded) d ids own)

  -- A buffer that a thread gives back is, reset, the one that its next lease gets. This holds in a
  -- well-formed pool whose cap, if any, is not reached, while ids are left to give out and where
  -- the reset hook, if any, gives the buffer `b'` back. The shards are then as before, and the
  -- initializer has not run.
  pub get-put :
      (i : ℕ) (b b' : T) (s u : Machine T)
      → IsWellFormed s
      → IsDense s.threads
      → s.threads.next_tid < usize_max
      → has_room s.max_idle s.parked ≡ true
      → run_reset b s ≡ (returned b', u)
      → let (result, v) = get i (put i b s).1 in
        (result ≡ returned (guard b')) × (v.shards ≡ s.shards) × (v.init_runs ≡ s.init_runs)
  get-put i b b' s u h d ids room e = elim (run_reset-state b b' s u e) [
    | inl q ↦ relet_after i b b' s s h d ids room (rw q at e)
    | inr q ↦ relet_after i b b' s (ran s) (ran-Keeps s h).well_formed d ids room (rw q at e)
  ]
