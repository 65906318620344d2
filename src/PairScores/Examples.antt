-- ===== src/PairScores/Examples.antt =====
-- examples/pair_scores.rs: a run to the end, with numbers in the place of floats.
use par_buffer_pool.Base.{
  ℕ, ◌-◌, ◌*◌, ◌/◌, ◌≤◌, none, List, [], ◌∷◌, ◌≡◌, refl, arith, total, replicate, length-replicate,
  All, All-any,
}
use par_buffer_pool.Base.Effect.{returned}
use par_buffer_pool.Sharding.{no_ids}
use par_buffer_pool.Buffer.Pool.{stats}
use par_buffer_pool.Buffer.Crew.{Crew, Reach, here, all_resting, any_item}
use par_buffer_pool.Buffer.Crew.Sound.{weigh}
use par_buffer_pool.Buffer.Crew.Outlook.{Taker}
use par_buffer_pool.Buffer.Crew.Completes.{crew_completes}
use par_buffer_pool.PairScores.{
  Floats, n_features, pairs, fresh_matrix, init_matrix, score, sum_of_squares, pairs_start,
}
use par_buffer_pool.PairScores.Outer.{IsWritten, score-outer}
use par_buffer_pool.PairScores.Loop.{
  IsSized, init_matrix-IsSized, score-Restores, pair_scores_fresh,
}

abbrev numbers : Floats
numbers = record {
  f64 = ℕ;
  zero_point = 0;
  half = 1;
  fifth = 2;
  modulus = 5;
  of_usize = λ n. n;
  over = λ a b. a / b;
  minus = λ a b. a - b;
  times = λ a b. a * b;
  sum = total (λ a. a);
}

-- A buffer that an earlier task has left.
abbrev used : List ℕ
used = replicate (n_features * n_features) 7

score-outer_example :
    let (g', result) = score numbers (3, 5) used in
    IsWritten numbers 3 5 (n_features * n_features) g'
    × (result ≡ returned (sum_of_squares numbers g'))
    × (score numbers (3, 5) used ≡ score numbers (3, 5) (fresh_matrix numbers))
score-outer_example =
    score-outer numbers 3 5 used (length-replicate {A = ℕ} (n_features * n_features) 7)

abbrev ids : List ℕ
ids = 2 ∷ 3 ∷ []

abbrev ended :
    (r : Crew (List ℕ) (ℕ × ℕ) ℕ) × Reach any_item
      (score numbers)
      (pairs_start numbers no_ids none ids)
      r
    × (r.todo ≡ [])
    × (r.workers ≡ all_resting ids)
ended =
    crew_completes (IsSized numbers) no_ids none (init_matrix numbers) none (score numbers) any_item
      pairs ids (init_matrix-IsSized numbers) (score-Restores numbers) (omega arith)
      (All-any (Taker any_item ids) pairs (λ x. (2, tt, [], 3 ∷ [], refl))) here

pair_scores_fresh_example :
    All (λ q. q.1 ≡ (score numbers q.0 (fresh_matrix numbers)).1) ended.0.results
    × ((w : ℕ × ℕ → ℕ) → total (weigh w) ended.0.results ≡ total w pairs)
    × ((stats ended.0.machine).leases ≡ 1128)
    × ((stats ended.0.machine).allocations ≤ 2)
pair_scores_fresh_example =
    pair_scores_fresh numbers no_ids none ids ids (omega arith) ended.1 ended.2 ended.3
