-- ===== src/ScopedThreads/Rows.antt =====
-- examples/scoped_threads.rs: what the threads make, and that `main` returns.
use par_buffer_pool.Base.{
  total, true, true, ℕ, zero, suc, ◌+◌, ◌*◌, ◌-◌, ◌≤◌, ◌<◌, Bool, Option, some, List, [], ◌≡◌, refl,
  arith, push, length-append, All, length, leb-eq_true, eq_refl, ◌==◌, ltb,
}
use par_buffer_pool.Base.Words.{usize_max}
use par_buffer_pool.Base.Text.{Text, len, ascii, len-push}
use par_buffer_pool.Base.Effect.{returned}
use par_buffer_pool.Sharding.{Threads}
use par_buffer_pool.Buffer.State.{Machine}
use par_buffer_pool.Buffer.Pool.{stats}
use par_buffer_pool.Buffer.Pool.Lease.{reuses_lem}
use par_buffer_pool.Buffer.Crew.{Crew, Reach, all_resting}
use par_buffer_pool.Buffer.Crew.Phases.{Restores}
use par_buffer_pool.Buffer.Crew.Sound.{weigh}
use par_buffer_pool.Buffer.Crew.Results.{crew_run}
use par_buffer_pool.ScopedThreads.{
  scope_start, Settings, settings, nthreads, rows_per_thread, init_row, clear_row, digit,
  fill_columns, make_row, rows_of, rows_from, rows, own_rows, spawn_from, conclude,
}

module _ (separator d : ℕ) (one_byte : separator < 0x80) (plain : d < 0x80) where
  later_columns :
      (c n : ℕ) (row : Text) → 0 < c → len (fill_columns separator d c n row) ≡ len row + 2 * n
  unfolding fill_columns
  later_columns c zero row pos = omega arith
  later_columns c (suc n) row pos =
      let separated : ltb 0 c ≡ true = ground arith in
      rw separated (
        omega (
          arith,
          later_columns (c + 1) n (push (push row separator) d) (omega arith),
          len-push (push row separator) d,
          len-push row separator,
          ascii d plain,
          ascii separator one_byte,
        ))

  all_columns : (n : ℕ) → 0 < n → len (fill_columns separator d 0 n []) ≡ 2 * n - 1
  unfolding fill_columns
  all_columns zero pos = absurd (omega arith)
  all_columns (suc n) pos =
      omega (arith, later_columns 1 n (push [] d) (omega arith), ascii d plain)

-- In an empty row, with at least one column and a separator of one byte, the assertion holds.
make_row-returns :
    (s : Settings) (x : ℕ × ℕ) (row : Text)
    → 0 < s.columns
    → s.separator < 0x80
    → row ≡ []
    → (make_row s x row).1 ≡ returned tt
unfolding make_row
make_row-returns s (t, k) row some_columns one_byte e =
    let filled =
      all_columns s.separator (digit t k) one_byte (omega arith) s.columns some_columns in
    let positive = leb-eq_true 1 (2 * s.columns) (omega arith) in
    rw (e, positive, filled, eq_refl (2 * s.columns - 1)) refl

length-rows_of : (t k n : ℕ) → length (rows_of t k n) ≡ n
length-rows_of t k zero = refl
length-rows_of t k (suc n) = omega (arith, length-rows_of t (k + 1) n)

length-rows_from : (m t n : ℕ) → length (rows_from m t n) ≡ n * m
length-rows_from m t zero = omega arith
length-rows_from m t (suc n) = omega (
  arith,
  length-append (rows_of t 0 m) (rows_from m (t + 1) n),
  length-rows_of t 0 m,
  length-rows_from m (t + 1) n,
)

conclude-returns :
    (overflow_checks : Bool) (s : Machine Text)
    → (stats s).leases ≡ nthreads * rows_per_thread
    → (stats s).allocations ≤ nthreads
    → (conclude overflow_checks s).0 ≡ returned tt
unfolding conclude stats
conclude-returns overflow_checks s e few =
    let reused = reuses_lem overflow_checks s.leases s.allocations (omega arith) in
    let leased : (s.leases == nthreads * rows_per_thread) ≡ true = ground arith in
    rw (reused, leased, leb-eq_true s.allocations nthreads few) refl

pub row-makes : (n : ℕ) → (row : Text) × (init_row n ≡ returned row) × (row ≡ [])
row-makes n = ([], refl, refl)

pub row-Restores :
    (x : ℕ × ℕ) (row : Text)
    → row ≡ []
    → Restores (λ b. b ≡ []) (some clear_row) (make_row settings x row).0
row-Restores x row e n = ([], refl, refl)

-- Whatever threads run the closures, whatever parallelism the machine reports, and however their
-- leases and returns overlap, while the threads do not use up the ids: once no row is left and the
-- threads rest, each thread has made each of its rows once and the assertion of every row has held,
-- and the rest of `main` returns, with and without overflow checks: there was a lease for each row,
-- and there were no more allocations than threads.
pub scoped_threads_return :
    (threads : Threads) (parallelism : Option ℕ) (spawned : ℕ → ℕ) (overflow_checks : Bool)
    {r : Crew Text (ℕ × ℕ) (Unit {0})} (is : List ℕ)
    → threads.next_tid + nthreads < usize_max
    → Reach (own_rows spawned) (make_row settings) (scope_start threads parallelism spawned) r
    → r.todo ≡ []
    → r.workers ≡ all_resting is
    → ((w : ℕ × ℕ → ℕ) → total (weigh w) r.results ≡ total w rows)
      × All (λ q. q.1 ≡ returned tt) r.results
      × ((conclude overflow_checks r.machine).0 ≡ returned tt)
scoped_threads_return threads parallelism spawned overflow_checks {r} is room q done off =
    let (holds, each, leased, few, fewer, some_made) =
      crew_run (λ row. row ≡ []) threads parallelism init_row (some clear_row) (make_row settings)
        (own_rows spawned) rows (spawn_from spawned 0 nthreads) row-makes row-Restores room
        (λ x. returned tt) is
        (λ x row e. make_row-returns settings x row (omega arith) (omega arith) e) q done off in
    (
      each,
      holds,
      conclude-returns overflow_checks r.machine
          (omega (arith, leased, length-rows_from rows_per_thread 0 nthreads)) few,
    )
