-- ===== src/ScopedThreads/Completes.antt =====
-- examples/scoped_threads.rs: the threads make all their rows.
use par_buffer_pool.Base.{
  All-append, ◌++◌, ℕ, zero, suc, ◌+◌, ◌≤◌, ◌<◌, Option, some, List, [], ◌∷◌, ◌≡◌, refl, ap, arith,
  All,
}
use par_buffer_pool.Base.Words.{usize_max}
use native.Mathlib.Decide.{ℕ_discrete}
use par_buffer_pool.Base.Text.{Text}
use par_buffer_pool.Sharding.{Threads}
use par_buffer_pool.Buffer.Crew.{Crew, Reach, all_resting}
use par_buffer_pool.Buffer.Crew.Outlook.{Taker}
use par_buffer_pool.Buffer.Crew.Completes.{crew_completes}
use par_buffer_pool.ScopedThreads.{
  scope_start, settings, nthreads, rows_per_thread, init_row, clear_row, make_row, rows_of,
  rows_from, rows, own_rows, spawn_from,
}
use par_buffer_pool.ScopedThreads.Rows.{row-makes, row-Restores}

module _ (spawned : ℕ → ℕ) where
  spawned-at :
      (j t n : ℕ)
      → j ≤ t
      → t < j + n
      → (us : List ℕ) × (vs : List ℕ) × (spawn_from spawned j n ≡ us ++ (spawned t ∷ vs))
  spawned-at j t zero low high = absurd (omega arith)
  spawned-at j t (suc n) low high = elim (ℕ_discrete j t) [
    | yes e ↦
        ([], spawn_from spawned (j + 1) n, ap (λ k. spawned k ∷ spawn_from spawned (j + 1) n) e)
    | no d ↦
        let (us, vs, e) = spawned-at (j + 1) t n (omega arith) (omega arith) in
        (spawned j ∷ us, vs, ap (◌∷◌ (spawned j)) e)
  ]

  rows_of-Taker :
      (ids : List ℕ) (t k n : ℕ)
      → ((k : ℕ) → Taker (own_rows spawned) ids (t, k))
      → All (Taker (own_rows spawned) ids) (rows_of t k n)
  rows_of-Taker ids t k zero h = tt
  rows_of-Taker ids t k (suc n) h = (h k, rows_of-Taker ids t (k + 1) n h)

  rows_from-Taker :
      (m t n : ℕ)
      → t + n ≡ nthreads
      → All (Taker (own_rows spawned) (spawn_from spawned 0 nthreads)) (rows_from m t n)
  rows_from-Taker m t zero e = tt
  rows_from-Taker m t (suc n) e =
      let ids = spawn_from spawned 0 nthreads in
      let (us, vs, there) = spawned-at 0 t nthreads (omega arith) (omega arith) in
      All-append (Taker (own_rows spawned) ids) (rows_of t 0 m) (rows_from m (t + 1) n)
        (rows_of-Taker ids t 0 m (λ k. (spawned t, (refl, tt), us, vs, there)))
        (rows_from-Taker m (t + 1) n (omega arith))

  -- From every state that the threads reach, there are steps after which all rows are made.
  pub scoped_threads_complete :
      (threads : Threads) (parallelism : Option ℕ) {r : Crew Text (ℕ × ℕ) (Unit {0})}
      → threads.next_tid + nthreads < usize_max
      → Reach (own_rows spawned) (make_row settings) (scope_start threads parallelism spawned) r
      → (t : Crew Text (ℕ × ℕ) (Unit {0})) × Reach
          (own_rows spawned)
          (make_row settings)
          (scope_start threads parallelism spawned)
          t
        × (t.todo ≡ [])
        × (t.workers ≡ all_resting (spawn_from spawned 0 nthreads))
  scoped_threads_complete threads parallelism room q =
      crew_completes (λ row. row ≡ []) threads parallelism init_row (some clear_row)
        (make_row settings) (own_rows spawned) rows (spawn_from spawned 0 nthreads) row-makes
        row-Restores room (rows_from-Taker rows_per_thread 0 nthreads refl) q
