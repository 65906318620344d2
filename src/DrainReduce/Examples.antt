-- ===== src/DrainReduce/Examples.antt =====
-- examples/drain_reduce.rs: a reduction of two items on two threads.
use par_buffer_pool.Base.{ℕ, ◌<◌, none, List, [], ◌∷◌, ◌≡◌, refl, arith, length, ◌⊎◌}
use par_buffer_pool.Base.Words.{fetch_add}
use par_buffer_pool.Base.Effect.{returned}
use par_buffer_pool.Sharding.{no_ids, shard_index, tid, after_tid, shard_count}
use par_buffer_pool.Buffer.Pool.{drain, stats, new}
use par_buffer_pool.Buffer.Concurrent.{
  Phase, counting_lease, popping_shard, popping_reserve, counting_allocation, initializing,
  resetting, claiming, parking, finished, tick,
}
use par_buffer_pool.DrainReduce.{
  Job, Reduction, start, begin, run, add_item, end_job, Reach, sum, conclude, here, next,
}
use par_buffer_pool.DrainReduce.Exact.{reduction_exact, conclude-returns}
use par_buffer_pool.DrainReduce.Completes.{reduction_completes}

abbrev items : List ℕ
items = 3 ∷ 4 ∷ []

abbrev first : Phase ℕ → Job
first c = record { thread = 0; item = 3; phase = c }

abbrev second : Phase ℕ → Job
second c = record { thread = 1; item = 4; phase = c }

-- Both jobs lease, then both return.
abbrev ended : (r : Reduction) × Reach (start no_ids none items) r × (r.todo ≡ []) × (r.jobs ≡ [])
unfolding tick shard_index tid after_tid new shard_count fetch_add
ended =
    let start_both = next (next here (begin 0 3 [] (4 ∷ []) refl)) (begin 1 4 [] [] refl) in
    let step0 = next start_both (run (first counting_lease) (second counting_lease ∷ []) [] refl) in
    let step1 = next step0 (run (second counting_lease) [] (first popping_shard ∷ []) refl) in
    let step2 = next step1 (run (first popping_shard) (second popping_shard ∷ []) [] refl) in
    let step3 = next step2 (run (second popping_shard) [] (first popping_reserve ∷ []) refl) in
    let step4 = next step3 (run (first popping_reserve) (second popping_reserve ∷ []) [] refl) in
    let step5 =
      next step4 (run (second popping_reserve) [] (first counting_allocation ∷ []) refl) in
    let step6 =
      next step5 (run (first counting_allocation) (second counting_allocation ∷ []) [] refl) in
    let step7 = next step6 (run (second counting_allocation) [] (first initializing ∷ []) refl) in
    let step8 = next step7 (run (first initializing) (second initializing ∷ []) [] refl) in
    let step9 = next step8 (run (second initializing) [] (first (finished (0 ∷ [])) ∷ []) refl) in
    let step10 =
      next step9
        (add_item (first (finished (0 ∷ []))) 0 (second (finished (0 ∷ [])) ∷ []) [] refl refl) in
    let step11 =
      next step10
        (add_item (second (finished (0 ∷ []))) 0 [] (first (resetting 3) ∷ []) refl refl) in
    let step12 = next step11 (run (first (resetting 3)) (second (resetting 4) ∷ []) [] refl) in
    let step13 = next step12 (run (first (claiming 3)) (second (resetting 4) ∷ []) [] refl) in
    let step14 = next step13 (run (first (parking 3)) (second (resetting 4) ∷ []) [] refl) in
    let step15 = next step14 (run (second (resetting 4)) [] (first (finished []) ∷ []) refl) in
    let step16 = next step15 (run (second (claiming 4)) [] (first (finished []) ∷ []) refl) in
    let step17 = next step16 (run (second (parking 4)) [] (first (finished []) ∷ []) refl) in
    let step18 =
      next step17 (end_job (first (finished [])) (second (finished []) ∷ []) [] refl refl) in
    let step19 = next step18 (end_job (second (finished [])) [] [] refl refl) in
    (_, step19, refl, refl)

reduction_exact_example :
    (partials : List ℕ) × ((drain ended.0.machine).0 ≡ returned partials)
    × (sum partials ≡ 7)
    × (length partials ≡ (stats ended.0.machine).allocations)
    × ((stats ended.0.machine).leases ≡ 2)
    × ((length items ≡ 0) ⊎ (0 < (stats ended.0.machine).allocations))
reduction_exact_example = reduction_exact no_ids none items ended.1 ended.2 ended.3 (omega arith)

-- One of the two items has been begun.
reduction_completes_example :
    (t : Reduction) × Reach (start no_ids none items) t × (t.todo ≡ []) × (t.jobs ≡ [])
reduction_completes_example =
    reduction_completes no_ids none items (next here (begin 1 4 (3 ∷ []) [] refl))

conclude-returns_example : (conclude items ended.0.machine).0 ≡ returned tt
conclude-returns_example =
    conclude-returns no_ids none items ended.1 ended.2 ended.3 (omega arith) (omega arith)
