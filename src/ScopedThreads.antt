-- ===== src/ScopedThreads.antt =====
-- examples/scoped_threads.rs: scoped threads that share a pool of rows, each with a handle of its
-- own.
pub mod Rows
pub mod Completes
mod Examples
use par_buffer_pool.Base.{
  ℕ, zero, suc, ◌+◌, ◌*◌, ◌-◌, ◌%◌, Bool, Option, none, some, List, [], ◌∷◌, ◌++◌, ◌≡◌, ltb, leb,
  ◌==◌, ◌&&◌, if◌then◌else◌, total, push, All, ◌≢◌,
}
use par_buffer_pool.Base.Text.{Text, len_utf8, len}
use par_buffer_pool.Base.Effect.{Outcome, returned, panicked, Op, gets, assert, ◌>>=◌, ◌>>◌}
use par_buffer_pool.Sharding.{Threads}
use par_buffer_pool.Buffer.State.{Machine, InitFn, ResetFn}
use par_buffer_pool.Buffer.Pool
use par_buffer_pool.Buffer.Crew.{Work, Schedule, Crew, start, build}

pub record Settings : Type 0 where
  pub columns : ℕ
  pub separator : ℕ

abbrev pub settings : Settings
settings = record { columns = 16; separator = 0x3b }

abbrev pub nthreads : ℕ
nthreads = 4

abbrev pub rows_per_thread : ℕ
rows_per_thread = 250

-- `|| String::with_capacity(settings.columns * 2)`, and `|row| row.clear()`.
abbrev pub init_row : InitFn Text
init_row n = returned []

abbrev pub clear_row : ResetFn Text
clear_row n row = ([], returned tt)

-- `(b'0' + ((t + k) % 10) as u8) as char`
abbrev pub digit : ℕ → ℕ → ℕ
digit t k = 0x30 + (t + k) % 10

-- The columns from `c` on, `n` of them.
unfoldable pub fill_columns : ℕ → ℕ → ℕ → ℕ → Text → Text
fill_columns separator d c zero row = row
fill_columns separator d c (suc n) row =
    let separated = if ltb 0 c then push row separator else row in
    fill_columns separator d (c + 1) n (push separated d)

-- Row `k` of the thread `t`, with its assertion; for no columns the subtraction in it overflows.
unfoldable pub make_row : Settings → Work Text (ℕ × ℕ) (Unit {0})
unfolding fill_columns len_utf8
make_row s (t, k) row =
    let filled = fill_columns s.separator (digit t k) 0 s.columns row in
    let holds = leb 1 (2 * s.columns) && (len filled == 2 * s.columns - 1) in
    (filled, if holds then returned tt else panicked)

-- The rows of the thread `t`, and those of all threads.
abbrev pub rows_of : ℕ → ℕ → ℕ → List (ℕ × ℕ)
rows_of t k zero = []
rows_of t k (suc n) = (t, k) ∷ rows_of t (k + 1) n

abbrev pub rows_from : ℕ → ℕ → ℕ → List (ℕ × ℕ)
rows_from rows t zero = []
rows_from rows t (suc n) = rows_of t 0 rows ++ rows_from rows (t + 1) n

abbrev pub rows : List (ℕ × ℕ)
rows = rows_from rows_per_thread 0 nthreads

-- `spawned t` is the thread that runs the closure of `t`: it makes its own rows, in order.
abbrev pub own_rows : (ℕ → ℕ) → Schedule (ℕ × ℕ)
own_rows spawned i before (t, k) = (i ≡ spawned t) × All (λ row. row.0 ≢ t) before

abbrev pub spawn_from : (ℕ → ℕ) → ℕ → ℕ → List ℕ
spawn_from spawned t zero = []
spawn_from spawned t (suc n) = spawned t ∷ spawn_from spawned (t + 1) n

-- What `main` does with the pool once the scope has ended.
unfoldable pub conclude : Bool → Op (Machine Text) (Unit {0})
unfolding Pool.reuses Pool.stats
conclude overflow_checks = do
  counts ← gets Pool.stats
  n ← λ s. (Pool.reuses overflow_checks counts, s)
  assert (counts.leases == nthreads * rows_per_thread)
  assert (leb counts.allocations nthreads)

-- The pool that `main` builds, and its threads, which have made no row yet.
abbrev pub scope_start : Threads → Option ℕ → (ℕ → ℕ) → Crew Text (ℕ × ℕ) (Unit {0})
scope_start threads parallelism spawned =
    start (build threads parallelism init_row (some clear_row)) rows (spawn_from spawned 0 nthreads)
