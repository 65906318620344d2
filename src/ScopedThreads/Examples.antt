-- ===== src/ScopedThreads/Examples.antt =====
-- examples/scoped_threads.rs: a run to the end.
use par_buffer_pool.Base.{total, ℕ, ◌+◌, true, none, [], ◌∷◌, ◌≡◌, refl, arith, All}
use par_buffer_pool.Base.Text.{Text}
use par_buffer_pool.Base.Effect.{returned}
use par_buffer_pool.Sharding.{no_ids}
use par_buffer_pool.Buffer.Crew.{Crew, Reach, here, all_resting}
use par_buffer_pool.ScopedThreads.{
  rows, settings, nthreads, make_row, own_rows, spawn_from, scope_start, fill_columns, conclude,
}
use par_buffer_pool.Buffer.Crew.Sound.{weigh}
use par_buffer_pool.ScopedThreads.Rows.{scoped_threads_return}
use par_buffer_pool.ScopedThreads.Completes.{scoped_threads_complete}

-- Three columns of the digit 1.
three_columns : fill_columns 0x3b 0x31 0 3 [] ≡ 0x31 ∷ 0x3b ∷ 0x31 ∷ 0x3b ∷ 0x31 ∷ []
unfolding fill_columns
three_columns = refl

abbrev spawned : ℕ → ℕ
spawned t = t + 1

abbrev ended :
    (r : Crew Text (ℕ × ℕ) (Unit {0})) × Reach
      (own_rows spawned)
      (make_row settings)
      (scope_start no_ids none spawned)
      r
    × (r.todo ≡ [])
    × (r.workers ≡ all_resting (spawn_from spawned 0 nthreads))
ended = scoped_threads_complete spawned no_ids none (omega arith) here

scoped_threads_return_example :
    ((w : ℕ × ℕ → ℕ) → total (weigh w) ended.0.results ≡ total w rows)
    × All (λ q. q.1 ≡ returned tt) ended.0.results
    × ((conclude true ended.0.machine).0 ≡ returned tt)
scoped_threads_return_example =
    scoped_threads_return no_ids none spawned true (spawn_from spawned 0 nthreads) (omega arith)
      ended.1 ended.2 ended.3
