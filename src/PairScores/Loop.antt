-- ===== src/PairScores/Loop.antt =====
-- examples/pair_scores.rs: the parallel loop.
use par_buffer_pool.Base.{
  ℕ, ◌+◌, ◌*◌, ◌≤◌, ◌<◌, Option, none, List, [], ◌≡◌, refl, ap, arith, All, length, total,
  length-replicate,
}
use par_buffer_pool.Base.Words.{usize_max}
use par_buffer_pool.Base.Effect.{returned}
use par_buffer_pool.Sharding.{Threads}
use par_buffer_pool.Buffer.Pool.{stats}
use par_buffer_pool.Buffer.Crew.{Crew, Reach, all_resting, any_item}
use par_buffer_pool.Buffer.Crew.Phases.{Restores}
use par_buffer_pool.Buffer.Crew.Sound.{weigh}
use par_buffer_pool.Buffer.Crew.Results.{crew_run}
use par_buffer_pool.PairScores.{
  Floats, n_features, pairs, Matrix, fresh_matrix, init_matrix, score, pairs_start,
}
use par_buffer_pool.PairScores.Outer.{score-outer}

-- 48 * 47 / 2 pairs.
length-pairs : length pairs ≡ 1128
length-pairs = refl

module _ (A : Floats) where
  abbrev pub IsSized : Matrix A → Type 0
  IsSized g = length g ≡ n_features * n_features

  pub init_matrix-IsSized : (n : ℕ) → (g : Matrix A) × (init_matrix A n ≡ returned g) × IsSized g
  init_matrix-IsSized n =
      (fresh_matrix A, refl, length-replicate (n_features * n_features) A.zero_point)

  -- The work keeps the size of its matrix, so that the pool needs no hook.
  pub score-Restores :
      (x : ℕ × ℕ) (g : Matrix A) → IsSized g → Restores IsSized none (score A x g).0
  score-Restores (i, j) g size = (score-outer A i j g size).0.size

  -- Once the loop over the pairs is over, on any worker threads that do not use up the ids and
  -- whatever way they interleaved: each pair `(i, j)` with `i < j < 48` has been worked on once and
  -- has the score that it has in a fresh matrix of zeros, the pool has counted 1128 leases, and no
  -- more allocations than workers.
  pub pair_scores_fresh :
      (threads : Threads) (parallelism : Option ℕ) (ids : List ℕ)
      {r : Crew (Matrix A) (ℕ × ℕ) A.f64} (is : List ℕ)
      → threads.next_tid + length ids < usize_max
      → Reach any_item (score A) (pairs_start A threads parallelism ids) r
      → r.todo ≡ []
      → r.workers ≡ all_resting is
      → All (λ q. q.1 ≡ (score A q.0 (fresh_matrix A)).1) r.results
        × ((w : ℕ × ℕ → ℕ) → total (weigh w) r.results ≡ total w pairs)
        × ((stats r.machine).leases ≡ 1128)
        × ((stats r.machine).allocations ≤ length ids)
  pair_scores_fresh threads parallelism ids is room q done off =
      let (holds, each, leased, few, fewer, some_made) =
        crew_run IsSized threads parallelism (init_matrix A) none (score A) any_item pairs ids
          init_matrix-IsSized score-Restores room (λ x. (score A x (fresh_matrix A)).1) is
          (λ x g size. ap (λ r. r.1) (score-outer A x.0 x.1 g size).2) q done off in
      (holds, each, omega (arith, leased, length-pairs), few)
