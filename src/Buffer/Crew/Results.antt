-- ===== src/Buffer/Crew/Results.antt =====
-- src/buffer.rs with the parallel loops of examples/: what a crew that starts on a new pool can
-- reach.
use par_buffer_pool.Base.{
  ℕ, ◌+◌, ◌≤◌, ◌<◌, ◌%◌, Option, none, some, List, [], ◌∷◌, ◌≡◌, refl, sym, ap, ◌∙◌, subst, arith,
  total, length, get_elem?, get_elem?-replicate, All, ◌⊎◌, inl, inr,
}
use native.Mathlib.Decide.{ℕ_discrete}
use par_buffer_pool.Base.Words.{usize_mod, usize_max}
use par_buffer_pool.Base.Effect.{Outcome, returned}
use par_buffer_pool.Sharding.{Threads, shard_count}
use par_buffer_pool.Buffer.State.{Mutex, InitFn, ResetFn, Machine}
use par_buffer_pool.Buffer.Inner.Forms.{IsSharded}
use par_buffer_pool.Buffer.Weights.{total-one_each, idle_weight, idle, one_each}
use par_buffer_pool.Buffer.Pool
use par_buffer_pool.Buffer.Pool.{empty_pile, stats}
use par_buffer_pool.Buffer.Pool.Build.{new_lem, with_reset_lem}
use par_buffer_pool.Buffer.Concurrent.Jobs.{uncounted, allocating, carried, waits}
use par_buffer_pool.Buffer.Crew.{
  build, resting, Worker, worker, all_resting, start, Crew, Work, Schedule, Reach, here, next,
}
use par_buffer_pool.Buffer.Crew.Phases.{Restores}
use par_buffer_pool.Buffer.Crew.Homes.{unassigned-le}
use par_buffer_pool.Buffer.Crew.Sound.{IsSound, at_call, hands, without_id, AtWork, weigh, Given}
use par_buffer_pool.Buffer.Crew.Steps.{Step-IsSound}
use par_buffer_pool.Buffer.Crew.Bounds.{IsSound-allocations}

module _ {ℓ} {T : Type ℓ} where
  -- A pool that has done nothing yet.
  record IsNew (s : Machine T) (init : InitFn T) (reset : Option (ResetFn T)) (threads : Threads)
      : Type ℓ where
    empty : (j : ℕ) (m : Mutex (List T)) → get_elem? s.shards j ≡ some m → m.value ≡ []
    sharded : IsSharded s
    uncapped : s.parked ≡ none
    unreserved : s.reserve.value ≡ []
    same_init : s.init ≡ init
    hook : s.reset ≡ reset
    ids : s.threads ≡ threads
    unused : (s.leases ≡ 0) × (s.allocations ≡ 0) × (s.init_runs ≡ 0)
    nothing : idle_weight one_each s ≡ 0

  hooked-IsNew :
      (threads : Threads) (parallelism : Option ℕ) (init : InitFn T) (reset : Option (ResetFn T))
      → let s : Machine T = Pool.new threads parallelism init in
        IsNew (record s { inner = record s.inner { reset = reset } }) init reset threads
  unfolding Pool.new empty_pile idle_weight
  hooked-IsNew threads parallelism init reset =
      let (h, none_idle) = new_lem threads parallelism init in
      let pile : Mutex (List T) = empty_pile in
      record {
        empty =
            λ j m e. ap (λ q. q.value) (get_elem?-replicate (shard_count parallelism) j pile m e);
        sharded = record { power = h.sharded.power; masked = h.sharded.masked };
        uncapped = refl;
        unreserved = refl;
        same_init = refl;
        hook = refl;
        ids = refl;
        unused = (refl, refl, refl);
        nothing = none_idle one_each;
      }

  build-IsNew :
      (threads : Threads) (parallelism : Option ℕ) (init : InitFn T) (reset : Option (ResetFn T))
      → IsNew (build threads parallelism init reset) init reset threads
  unfolding Pool.new
  build-IsNew threads parallelism init none = hooked-IsNew threads parallelism init none
  build-IsNew threads parallelism init (some hook) =
      subst (λ q. IsNew q.1 init (some hook) threads)
        (sym (with_reset_lem hook (Pool.new threads parallelism init) refl))
        (hooked-IsNew threads parallelism init (some hook))

module _ {ℓ} {T : Type ℓ} {X : Type 0} where
  total-all_resting :
      (f : Worker T X → ℕ) (is : List ℕ)
      → ((i : ℕ) → f (worker i resting) ≡ 0)
      → total f (all_resting is) ≡ 0
  total-all_resting f [] h = refl
  total-all_resting f (i ∷ is) h = omega (arith, h i, total-all_resting f is h)

module _ {ℓ} {T : Type ℓ} (X : Type 0) where
  all_resting_lem :
      (P : T → Type ℓ) (reset : Option (ResetFn T)) (t : Threads) (is : List ℕ)
      → All (AtWork {X = X} P reset) (all_resting is)
        × (total (λ w. 1) (all_resting {T = T} {X = X} is) ≡ length is)
        × (total (without_id t) (all_resting {T = T} {X = X} is) ≤ length is)
  all_resting_lem P reset t [] = (tt, refl, omega arith)
  all_resting_lem P reset t (i ∷ is) =
      let (a, b, c) = all_resting_lem P reset t is in
      ((tt, a), omega (arith, b), omega (arith, c, unassigned-le t i))

module _ {ℓ μ} {T : Type ℓ} {X : Type 0} {R : Type μ} (P : T → Type ℓ) (threads : Threads)
    (parallelism : Option ℕ) (init : InitFn T) (reset : Option (ResetFn T)) (work : Work T X R)
    (may : Schedule X) (items : List X) (ids : List ℕ)
    (makes : (n : ℕ) → (b : T) × (init n ≡ returned b) × P b)
    (restores : (x : X) (b : T) → P b → Restores P reset (work x b).0)
    (room : threads.next_tid + length ids < usize_max) where
  abbrev pub origin : Crew T X R
  origin = start (build threads parallelism init reset) items ids

  start-IsSound : IsSound P work items (length ids) origin
  start-IsSound =
      let s = build threads parallelism init reset in
      let n = build-IsNew threads parallelism init reset in
      let (staged, sized, few) = all_resting_lem X P s.reset s.threads ids in
      record {
        ready = record {
          sharded = n.sharded;
          uncapped = n.uncapped;
          unreserved = n.unreserved;
          makes = λ k. subst (λ f. (b : T) × (f k ≡ returned b) × P b) (sym n.same_init) (makes k);
          stocked = λ j m e. subst (All P) (sym (n.empty j m e)) tt;
        };
        restores = λ x b p. subst (λ q. Restores P q (work x b).0) (sym n.hook) (restores x b p);
        staged = staged;
        sized = sized;
        roomy = omega (arith, few, room, ap (λ t. t.next_tid) n.ids);
        housed = λ j m e. omega (arith, ap length (n.empty j m e));
        counted = omega (
          arith,
          n.unused.2,
          n.nothing,
          total-all_resting {T = T} {X = X} (at_call carried 0) ids (λ i. refl),
        );
        allocated = omega (
          arith,
          n.unused.1,
          n.unused.2,
          total-all_resting {T = T} {X = X} (at_call allocating 0) ids (λ i. refl),
        );
        begun =
            omega (arith, total-all_resting {T = T} {X = X} (at_call uncounted 0) ids (λ i. refl));
        leased = omega (
          arith,
          n.unused.0,
          total-all_resting {T = T} {X = X} (at_call uncounted 0) ids (λ i. refl),
        );
        tallied = λ f. omega (arith, total-all_resting {T = T} {X = X} (hands f) ids (λ i. refl));
        once = omega (
          arith,
          n.unused.2,
          total-all_resting {T = T} {X = X} (at_call waits 0) ids (λ i. refl),
        );
        worked = λ z. refl;
        given = tt;
      }

  pub Reach-IsSound :
      {r : Crew T X R} → Reach may work origin r → IsSound P work items (length ids) r
  Reach-IsSound here = start-IsSound
  Reach-IsSound (next q st) = Step-IsSound (Reach-IsSound q) st

  -- However the leases and returns of the workers overlap, a new pool without a cap never counts
  -- more allocations than there are workers, nor more than there are items, where the initializer
  -- returns a buffer with `P` each time, every buffer with `P` has `P` again after any work and the
  -- hook, if there is one, which returns, and the workers' threads do not use up the ids.
  pub crew_allocations :
      {r : Crew T X R}
      → Reach may work origin r
      → ((stats r.machine).allocations ≤ length ids)
        × ((stats r.machine).allocations ≤ length items)
  unfolding stats
  crew_allocations q =
      let (few, fewer, made) = IsSound-allocations (Reach-IsSound q) (omega arith) in (few, fewer)

  -- Let a new pool without a cap have an initializer that returns a buffer with `P` each time, let
  -- every buffer with `P` have `P` again after any work and the hook, if there is one, which
  -- returns, and let the workers' threads not use up the ids. Where the work gives `spec x` for the
  -- item `x` with any buffer that has `P`: on every schedule, at every moment, each result is the
  -- one that `spec` gives for its item, and the results, the items that are left and those in hand
  -- are together the items of the loop.
  pub crew_results :
      (spec : X → Outcome R) {r : Crew T X R}
      → ((x : X) (b : T) → P b → (work x b).1 ≡ spec x)
      → Reach may work origin r
      → All (λ q. q.1 ≡ spec q.0) r.results
        × ((w : X → ℕ)
            → total w r.todo + total (hands w) r.workers + total (weigh w) r.results
              ≡ total w items)
  crew_results spec {r} same q = let h = Reach-IsSound q in (specified r.results h.given, h.tallied)
    where
      specified : (rs : List (X × Outcome R)) → All (Given P work) rs → All (λ q. q.1 ≡ spec q.0) rs
      specified [] u = tt
      specified (p ∷ rs) ((b, k, e), more) = (e ∙ same p.0 b k, specified rs more)

  -- Let a new pool without a cap have an initializer that returns a buffer with `P` each time, let
  -- every buffer with `P` have `P` again after any work and the hook, if there is one, which
  -- returns, and let the workers' threads not use up the ids. Once no item is left and every worker
  -- rests, each item has been worked on once, the pool has counted a lease for each item (modulo
  -- 2^64), all buffers that it has allocated are idle in it, and there is at least one unless there
  -- is no item.
  pub crew_ends :
      {r : Crew T X R} (is : List ℕ)
      → Reach may work origin r
      → r.todo ≡ []
      → r.workers ≡ all_resting is
      → ((w : X → ℕ) → total (weigh w) r.results ≡ total w items)
        × ((stats r.machine).leases ≡ length items % usize_mod)
        × (idle r.machine ≡ (stats r.machine).allocations)
        × ((length items ≡ 0) ⊎ (0 < (stats r.machine).allocations))
  unfolding stats
  crew_ends {r} is q done off =
      let h = Reach-IsSound q in
      let at_rest = λ (f : Worker T X → ℕ) (z : (i : ℕ) → f (worker i resting) ≡ 0).
        ap (total f) off ∙ total-all_resting f is z in
      let made = (IsSound-allocations h (omega arith)).2 in
      let none_new = at_rest (at_call allocating 0) (λ i. refl) in
      let each : (w : X → ℕ) → total (weigh w) r.results ≡ total w items =
        λ w. omega (arith, h.tallied w, ap (total w) done, at_rest (hands w) (λ i. refl)) in
      let all_of_them : total (weigh (λ x. 1)) r.results ≡ length items =
        each (λ x. 1) ∙ total-one_each items in
      (
        each,
        omega (arith, h.leased, ap length done, at_rest (at_call uncounted 0) (λ i. refl)),
        omega (arith, made, h.counted, at_rest (at_call carried 0) (λ i. refl), none_new),
        elim (ℕ_discrete r.machine.init_runs 0) [
          | yes z ↦ inl (omega (arith, h.worked z, all_of_them))
          | no several ↦ inr (omega (arith, made, none_new))
        ],
      )

  -- The three together, for a loop that is over.
  pub crew_run :
      (spec : X → Outcome R) {r : Crew T X R} (is : List ℕ)
      → ((x : X) (b : T) → P b → (work x b).1 ≡ spec x)
      → Reach may work origin r
      → r.todo ≡ []
      → r.workers ≡ all_resting is
      → All (λ q. q.1 ≡ spec q.0) r.results
        × ((w : X → ℕ) → total (weigh w) r.results ≡ total w items)
        × ((stats r.machine).leases ≡ length items % usize_mod)
        × ((stats r.machine).allocations ≤ length ids)
        × ((stats r.machine).allocations ≤ length items)
        × ((length items ≡ 0) ⊎ (0 < (stats r.machine).allocations))
  crew_run spec is same q done off =
      let (each, leased, kept, some_made) = crew_ends is q done off in
      let (few, fewer) = crew_allocations q in
      ((crew_results spec same q).0, each, leased, few, fewer, some_made)
