-- ===== src/SizeBuckets/Tasks.antt =====
-- examples/size_buckets.rs: `run` and `main`: the sizes of the tasks, the body of the parallel loop,
-- and the loop over `AnySizeScratch`. The operations of an `f64` are parameters.
use par_buffer_pool.Base.{
  ℕ, zero, suc, ◌+◌, ◌*◌, ◌%◌, ◌^◌, ◌≤◌, ◌<◌, max, Bool, Option, none, some, List, [], ◌∷◌, ◌≡◌,
  refl, ap, arith, All, All-both, length, total, replicate,
}
use par_buffer_pool.Base.Words.{usize_max}
use par_buffer_pool.Base.Effect.{Outcome, returned, panicked}
use par_buffer_pool.Sharding.{Threads}
use par_buffer_pool.Buffer.Pool.{stats}
use par_buffer_pool.Buffer.Crew.{Work, Crew, Reach, all_resting, any_item, start, build}
use par_buffer_pool.Buffer.Crew.Sound.{weigh}
use par_buffer_pool.Buffer.Crew.Results.{crew_run}
use par_buffer_pool.SizeBuckets.{clear, resize, empty_vec, ClassScratch, get_class}
use par_buffer_pool.SizeBuckets.Zeroed.{IsScratch, get_class-zeroed}

-- What `run` uses of `f64`: 0.0, 0.5, a cast, and the operations.
pub record Floats : Type 1 where
  pub f64 : Type 0
  pub zero_point : f64
  pub half : f64
  pub of_usize : ℕ → f64
  pub plus : f64 → f64 → f64
  pub times : f64 → f64 → f64

-- `seed.wrapping_mul(1_664_525).wrapping_add(1_013_904_223)`
abbrev pub next_seed : ℕ → ℕ
next_seed seed = (seed * 1664525 % 2 ^ 32 + 1013904223) % 2 ^ 32

unfoldable pub sizes_from : ℕ → ℕ → List ℕ
sizes_from seed zero = []
sizes_from seed (suc n) = (16 + next_seed seed % 4096) ∷ sizes_from (next_seed seed) n

abbrev pub n_tasks : ℕ
n_tasks = 512

abbrev pub sizes : List ℕ
sizes = sizes_from 1 n_tasks

-- `sizes.iter().max()`
abbrev pub larger : ℕ → Option ℕ → Option ℕ
larger n none = some n
larger n (some m) = some (max n m)

unfoldable pub largest : List ℕ → Option ℕ
largest [] = none
largest (n ∷ ns) = larger n (largest ns)

module _ (A : Floats) where
  -- The loop over the elements of a buffer from place `k` on, with the sum so far.
  unfoldable pub fill_from : ℕ → A.f64 → List A.f64 → List A.f64 × A.f64
  fill_from k acc [] = ([], acc)
  fill_from k acc (b ∷ buf) =
      let value = A.times (A.of_usize (k % 17)) A.half in
      let (rest, sum) = fill_from (k + 1) (A.plus acc value) buf in (value ∷ rest, sum)

  -- The loop, where `resize` did not panic.
  unfoldable pub fill : List A.f64 × Outcome (Unit {0}) → List A.f64 × Outcome A.f64
  unfolding fill_from
  fill (buf, returned u) =
      let (filled, sum) = fill_from 0 A.zero_point buf in (filled, returned sum)
  fill (buf, panicked) = (buf, panicked)

  -- The body of the parallel loop, with `clear` and `resize` of `AnySizeScratch::get`.
  unfoldable pub task : Work (List A.f64) ℕ A.f64
  unfolding fill
  task n buf = fill (resize n A.zero_point (clear buf))

  -- `AnySizeScratch::new()`, and the worker threads `ids` before the loop.
  abbrev pub tasks_start : Threads → Option ℕ → List ℕ → Crew (List A.f64) ℕ A.f64
  tasks_start threads parallelism ids = start (build threads parallelism empty_vec none) sizes ids

-- The sum does not depend on what the buffer held.
task_same : (A : Floats) (n : ℕ) (buf : List A.f64) → (task A n buf).1 ≡ (task A n []).1
unfolding task
task_same A n buf = refl

length-sizes_from : (seed n : ℕ) → length (sizes_from seed n) ≡ n
unfolding sizes_from
length-sizes_from seed zero = refl
length-sizes_from seed (suc n) = omega (arith, length-sizes_from (next_seed seed) n)

sizes_from-bounds : (seed n : ℕ) → All (λ k. (16 ≤ k) × (k ≤ 4111)) (sizes_from seed n)
unfolding sizes_from
sizes_from-bounds seed zero = tt
sizes_from-bounds seed (suc n) = ((omega arith, omega arith), sizes_from-bounds (next_seed seed) n)

module _ (A : Floats) where
  -- Once the loop over `AnySizeScratch` is over, on any worker threads that do not use up the ids
  -- and whatever way they interleaved: each of the 512 sizes, all of them from 16 to 4111, has been
  -- worked on once, its sum is the one that a buffer that has never been used gives, the pool has
  -- counted a lease for each size, and no more allocations than workers or sizes.
  pub grow_only_run :
      (threads : Threads) (parallelism : Option ℕ) (ids : List ℕ) {r : Crew (List A.f64) ℕ A.f64}
      (is : List ℕ)
      → threads.next_tid + length ids < usize_max
      → Reach any_item (task A) (tasks_start A threads parallelism ids) r
      → r.todo ≡ []
      → r.workers ≡ all_resting is
      → All (λ n. (16 ≤ n) × (n ≤ 4111)) sizes
        × ((w : ℕ → ℕ) → total (weigh w) r.results ≡ total w sizes)
        × All (λ q. q.1 ≡ (task A q.0 []).1) r.results
        × ((stats r.machine).leases ≡ n_tasks)
        × ((stats r.machine).allocations ≤ length ids)
        × ((stats r.machine).allocations ≤ n_tasks)
  grow_only_run threads parallelism ids is room q done off =
      let anything : List A.f64 → Type 0 = λ buf. Unit {0} in
      let (holds, each, leased, few, fewer, some_made) =
        crew_run anything threads parallelism empty_vec none (task A) any_item sizes ids
          (λ n. ([], refl, tt)) (λ n buf u. tt) room (λ n. (task A n []).1) is
          (λ n buf u. task_same A n buf) q done off in
      let count = length-sizes_from 1 n_tasks in
      (
        sizes_from-bounds 1 n_tasks,
        each,
        holds,
        omega (arith, leased, count),
        few,
        omega (arith, fewer, count),
      )

abbrev top : Option ℕ → ℕ
top none = 0
top (some m) = m

larger-le : (n b : ℕ) (o : Option ℕ) → top (larger n o) ≤ b → (n ≤ b) × (top o ≤ b)
larger-le n b none h = (h, omega arith)
larger-le n b (some m) h = (omega arith, omega arith)

le-larger : (n b : ℕ) (o : Option ℕ) → n ≤ b → top o ≤ b → top (larger n o) ≤ b
le-larger n b none h k = h
le-larger n b (some m) h k = omega arith

-- All of a list is below what its largest element is below, and the other way round.
largest-le : (b : ℕ) (ns : List ℕ) → top (largest ns) ≤ b → All (λ n. n ≤ b) ns
unfolding largest
largest-le b [] h = tt
largest-le b (n ∷ ns) h =
    let (first, others) = larger-le n b (largest ns) h in (first, largest-le b ns others)

le-largest : (b : ℕ) (ns : List ℕ) → All (λ n. (16 ≤ n) × (n ≤ b)) ns → top (largest ns) ≤ b
unfolding largest
le-largest b [] h = omega arith
le-largest b (n ∷ ns) h = le-larger n b (largest ns) h.0.1 (le-largest b ns h.1)

module _ {ℓ} {E : Type ℓ} where
  -- On the pools that `ClassScratch::new` makes for the largest size of `main`, whatever they hold,
  -- `get` leases for each of its 512 sizes a buffer of that many elements, each 0.0, with and without
  -- overflow checks, and the pools serve the same sizes afterwards: the sizes on which `get` panics
  -- do not occur.
  pub sizes-served :
      (checks : Bool) (e : E) (i m : ℕ) (s : ClassScratch E)
      → largest sizes ≡ some m
      → IsScratch m s
      → All
          (λ n.
            let (result, t) = get_class checks e i n s in
            (result ≡ returned (record { buffer = some (replicate n e) })) × IsScratch m t)
          sizes
  sizes-served checks e i m s found h =
      let bounds = sizes_from-bounds 1 n_tasks in
      let small : top (largest sizes) ≤ 4111 = le-largest 4111 sizes bounds in
      let highest : top (largest sizes) ≡ m = ap top found in
      All-both (λ n. (16 ≤ n) × (n ≤ 4111)) (λ n. n ≤ m) _ sizes
        (λ n k high. get_class-zeroed checks e i n m s h (omega arith) high (omega arith)) bounds
        (largest-le m sizes (omega arith))
