-- ===== src/Buffer/Client/Meters.antt =====
-- src/buffer.rs: the counters of `PoolStats` over a history of calls.
use par_buffer_pool.Base.{
  ℕ, ◌+◌, ◌≤◌, ◌%◌, Option, none, some, List, ◌≡◌, refl, ◌∙◌, arith, pop, Option-cases, Bool-cases,
  inl, inr,
}
use par_buffer_pool.Base.Words.{usize_mod, fetch_add-mod}
use par_buffer_pool.Base.Effect.{Outcome, returned, panicked}
use par_buffer_pool.Buffer.State.{Machine, Mutex}
use par_buffer_pool.Buffer.Inner.{recycle}
use par_buffer_pool.Buffer.Inner.Forms.{find_pile, unparked, popped_shard, popped_reserve, has_room}
use par_buffer_pool.Buffer.Guard.{release_handle, drop_inner}
use par_buffer_pool.Buffer.Pool.{get, get_owned}
use par_buffer_pool.Buffer.Pool.Lease.{
  guarded, leased, allocated, get_lem, get_from_shard, get_from_reserve, get_fresh,
}
use par_buffer_pool.Buffer.Pool.With.{get_owned_lem, get_owned_panics}
use par_buffer_pool.Buffer.Invariant.{IsWellFormed}
use par_buffer_pool.Buffer.Invariant.Inner.{
  no_hook, reset_to, reset_panics, reset_cases, settled, ran,
}
use par_buffer_pool.Buffer.Invariant.Return.{recycle_lem, ran-Keeps}
use par_buffer_pool.Buffer.Client.Handles.{release_handle_cases}

module _ {ℓ} {T : Type ℓ} where
  -- The counters after at most `k` leases: each run of the initializer is counted, and comes with
  -- a lease.
  pub record IsMetered (k : ℕ) (s : Machine T) : Type 0 where
    pub allocating : s.allocations ≡ s.init_runs % usize_mod
    pub leasing : (n : ℕ) × (s.leases ≡ n % usize_mod) × (s.init_runs ≤ n) × (n ≤ k)

  pub record SameMeters (s t : Machine T) : Type 0 where
    pub same_allocations : t.allocations ≡ s.allocations
    pub same_leases : t.leases ≡ s.leases
    pub same_runs : t.init_runs ≡ s.init_runs

  pub IsMetered-same :
      {s t : Machine T} {k n : ℕ} → SameMeters s t → k ≤ n → IsMetered k s → IsMetered n t
  IsMetered-same q le h = record {
    allocating = omega (arith, q.same_allocations, q.same_runs, h.allocating);
    leasing = (
      h.leasing.0,
      q.same_leases ∙ h.leasing.1,
      omega (arith, q.same_runs, h.leasing.2),
      omega (arith, h.leasing.3),
    );
  }

  unparked-SameMeters :
      (o : Option T) (s t : Machine T) → SameMeters s t → SameMeters s (unparked o t)
  unparked-SameMeters none s t q = q
  unparked-SameMeters (some b) s t q = record {
    same_allocations = q.same_allocations;
    same_leases = q.same_leases;
    same_runs = q.same_runs;
  }

  pub SameMeters-trans : {s t u : Machine T} → SameMeters s t → SameMeters t u → SameMeters s u
  SameMeters-trans p q = record {
    same_allocations = q.same_allocations ∙ p.same_allocations;
    same_leases = q.same_leases ∙ p.same_leases;
    same_runs = q.same_runs ∙ p.same_runs;
  }

  leased-IsMetered : (k : ℕ) (s : Machine T) → IsMetered k s → IsMetered (k + 1) (leased s)
  leased-IsMetered k s h = record {
    allocating = h.allocating;
    leasing = (
      h.leasing.0 + 1,
      omega (arith, h.leasing.1, fetch_add-mod s.leases 1),
      omega (arith, h.leasing.2),
      omega (arith, h.leasing.3),
    );
  }

  -- The initializer runs at most once for a lease.
  fresh-IsMetered :
      (k : ℕ) (s t : Machine T)
      → SameMeters (leased s) t
      → IsMetered k s
      → IsMetered (k + 1) (allocated t)
  fresh-IsMetered k s t q h = record {
    allocating =
        omega (arith, q.same_allocations, q.same_runs, h.allocating, fetch_add-mod t.allocations 1);
    leasing = (
      h.leasing.0 + 1,
      q.same_leases ∙ omega (arith, h.leasing.1, fetch_add-mod s.leases 1),
      omega (arith, q.same_runs, h.leasing.2),
      omega (arith, h.leasing.3),
    );
  }

  pub get-IsMetered :
      (i k : ℕ) (s : Machine T) → IsWellFormed s → IsMetered k s → IsMetered (k + 1) (get i s).1
  get-IsMetered i k s w h =
      let (m, own) = find_pile i s w.sharded in
      let tried = popped_shard i m (leased s) in
      let popped : SameMeters (leased s) tried =
        unparked-SameMeters (pop m.value).0 (leased s) _
          (record { same_allocations = refl; same_leases = refl; same_runs = refl }) in
      let missed : SameMeters (leased s) (popped_reserve tried) =
        unparked-SameMeters (pop tried.reserve.value).0 (leased s) _ (record {
          same_allocations = popped.same_allocations;
          same_leases = popped.same_leases;
          same_runs = popped.same_runs;
        }) in
      elim (Option-cases (pop m.value).0) [
        | inr (b, e) ↦
            rw (get_from_shard i s m own b e)
              (IsMetered-same popped (omega arith) (leased-IsMetered k s h))
        | inl e ↦ elim (Option-cases (pop s.reserve.value).0) [
          | inr (b, r) ↦
              rw (get_from_reserve i s m own b e r)
                (IsMetered-same missed (omega arith) (leased-IsMetered k s h))
          | inl r ↦
              rw (get_fresh i s m own e r) (fresh-IsMetered k s (popped_reserve tried) missed h)
        ]
      ]

  settled-SameMeters :
      (i : ℕ) (b : T) (m : Mutex (List T)) (s : Machine T) → SameMeters s (settled i b m s)
  settled-SameMeters i b m s = elim (Bool-cases (has_room s.max_idle s.parked)) [
    | inl e ↦ rw e (record { same_allocations = refl; same_leases = refl; same_runs = refl })
    | inr e ↦ rw e (record { same_allocations = refl; same_leases = refl; same_runs = refl })
  ]

  pub recycle-SameMeters :
      (i : ℕ) (b : T) (s : Machine T) → IsWellFormed s → SameMeters s (recycle i b s).1
  recycle-SameMeters i b s h = elim (reset_cases b s) [
    | no_hook e ↦
        let (m, own) = find_pile i s h.sharded in
        rw (recycle_lem i b b s s m e h own) (settled-SameMeters i b m s)
    | reset_to b' e weight ↦
        let k = (ran-Keeps s h).well_formed in
        let (m, own) = find_pile i (ran s) k.sharded in
        rw (recycle_lem i b b' s (ran s) m e k own) (
          SameMeters-trans
            (record { same_allocations = refl; same_leases = refl; same_runs = refl })
            (settled-SameMeters i b' m (ran s)))
    | reset_panics b' e weight ↦
        unfold recycle in
        rw (e) (record { same_allocations = refl; same_leases = refl; same_runs = refl })
  ]

  pub release_handle-SameMeters : (s : Machine T) → SameMeters s (release_handle s)
  unfolding drop_inner
  release_handle-SameMeters s = elim (release_handle_cases s) [
    | inl (e, last) ↦
        rw e (record { same_allocations = refl; same_leases = refl; same_runs = refl })
    | inr e ↦ rw e (record { same_allocations = refl; same_leases = refl; same_runs = refl })
  ]

  pub get_owned-IsMetered :
      (i k : ℕ) (s : Machine T)
      → IsWellFormed s
      → IsMetered k s
      → IsMetered (k + 1) (get_owned i s).1
  get_owned-IsMetered i k s w h =
      let (o, t, e) = get_lem i s w.sharded in go o t e (rw e at (get-IsMetered i k s w h))
    where
      go :
          (o : Outcome T) (t : Machine T)
          → get i s ≡ (guarded o, t)
          → IsMetered (k + 1) t
          → IsMetered (k + 1) (get_owned i s).1
      go (returned b) t e q =
          rw (get_owned_lem i s t b e) (record { allocating = q.allocating; leasing = q.leasing })
      go panicked t e q = rw (get_owned_panics i s t e) q
