-- ===== src/PairScores.antt =====
-- examples/pair_scores.rs: a matrix for each pair of items, in buffers that no one clears. The
-- operations of an `f64` are parameters.
pub mod Outer
pub mod Loop
mod Examples
use par_buffer_pool.Base.{
  ℕ, zero, suc, ◌+◌, ◌*◌, ◌-◌, ◌%◌, Option, none, List, [], ◌∷◌, ◌++◌, ltb, if◌then◌else◌, length,
  set, replicate, map,
}
use par_buffer_pool.Base.Effect.{Outcome, returned, panicked, Op, pure, gets, ◌>>=◌, ◌>>◌}
use par_buffer_pool.Sharding.{Threads}
use par_buffer_pool.Buffer.State.{InitFn}
use par_buffer_pool.Buffer.Crew.{Work, Crew, start, build}

-- What the example uses of `f64`: four literals, a cast, and the operations.
pub record Floats : Type 1 where
  pub f64 : Type 0
  pub zero_point : f64
  pub half : f64
  pub fifth : f64
  pub modulus : f64
  pub of_usize : ℕ → f64
  pub over : f64 → f64 → f64
  pub minus : f64 → f64 → f64
  pub times : f64 → f64 → f64
  pub sum : List f64 → f64

abbrev pub n_items : ℕ
n_items = 48

abbrev pub n_features : ℕ
n_features = 96

-- `(0..N_ITEMS).flat_map(|i| (i + 1..N_ITEMS).map(move |j| (i, j)))`, from `i` on.
abbrev pub pairs_with : ℕ → ℕ → ℕ → List (ℕ × ℕ)
pairs_with i j zero = []
pairs_with i j (suc n) = (i, j) ∷ pairs_with i (j + 1) n

abbrev pub pairs_from : ℕ → ℕ → List (ℕ × ℕ)
pairs_from i zero = []
pairs_from i (suc n) = pairs_with i (i + 1) (n_items - (i + 1)) ++ pairs_from (i + 1) n

abbrev pub pairs : List (ℕ × ℕ)
pairs = pairs_from 0 n_items

module _ (A : Floats) where
  abbrev pub Matrix : Type 0
  Matrix = List A.f64

  unfoldable pub features : ℕ → ℕ → A.f64
  features item p =
      let x = (item * 131 + p * 9176) % 8191 in
      A.times (A.minus (A.over (A.of_usize x) A.modulus) A.half) A.fifth

  -- `vec![0.0f64; N_FEATURES * N_FEATURES]`
  abbrev pub fresh_matrix : Matrix
  fresh_matrix = replicate (n_features * n_features) A.zero_point

  abbrev pub init_matrix : InitFn Matrix
  init_matrix n = returned fresh_matrix

  -- `g[k] = v`: an index out of bounds is a panic.
  unfoldable pub write_at : ℕ → A.f64 → Op Matrix (Unit {0})
  write_at k v g = if ltb k (length g) then (returned tt, set g k v) else (panicked, g)

  -- The columns from `q` on of the row `p`, `n` of them.
  unfoldable pub fill_row : ℕ → ℕ → ℕ → ℕ → ℕ → Op Matrix (Unit {0})
  unfolding write_at
  fill_row i j p q zero = pure tt
  fill_row i j p q (suc n) = do
    write_at (p * n_features + q) (A.times (features i p) (features j q))
    fill_row i j p (q + 1) n

  -- The rows from `p` on, `n` of them.
  unfoldable pub fill_rows : ℕ → ℕ → ℕ → ℕ → Op Matrix (Unit {0})
  unfolding fill_row
  fill_rows i j p zero = pure tt
  fill_rows i j p (suc n) = do fill_row i j p 0 n_features; fill_rows i j (p + 1) n

  -- `g.iter().map(|x| x * x).sum()`
  abbrev pub sum_of_squares : Matrix → A.f64
  sum_of_squares g = A.sum (map (λ x. A.times x x) g)

  -- The body of the parallel loop.
  abbrev pub score_op : ℕ → ℕ → Op Matrix A.f64
  score_op i j = do fill_rows i j 0 n_features; gets sum_of_squares

  unfoldable pub score : Work Matrix (ℕ × ℕ) A.f64
  unfolding fill_rows
  score (i, j) g = let (result, g') = score_op i j g in (g', result)

  -- The pool that `main` builds, and the worker threads `ids` before the loop.
  abbrev pub pairs_start : Threads → Option ℕ → List ℕ → Crew Matrix (ℕ × ℕ) A.f64
  pairs_start threads parallelism ids = start (build threads parallelism init_matrix none) pairs ids
