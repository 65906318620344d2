-- ===== src/Buffer/Client.antt =====
-- src/buffer.rs: a program that uses one pool from many threads, as a step relation. Between two
-- steps any thread may be the next to call; each call runs to its end. `prefill`, and the builders
-- `with_max_idle` and `with_reset`, are not steps: a program starts with a pool that has been built.
pub mod Handles
pub mod Ledger
pub mod History
pub mod Sound
pub mod Meters
pub mod Stats
mod Examples
use par_buffer_pool.Base.{ℕ, ◌+◌, ◌-◌, ◌<◌, Option, none, some, List, [], ◌∷◌, ◌++◌, ◌≡◌}
use par_buffer_pool.Base.Effect.{Outcome, returned, panicked}
use par_buffer_pool.Buffer.State.{Machine, SharedPooled, SharedPooledOwned}
use par_buffer_pool.Buffer.Guard.{drop_guard, into_inner, drop_owned, into_inner_owned}
use par_buffer_pool.Buffer.Pool.{get, get_owned, put, drain, clone, drop_pool}

-- The handles that are alive, the buffers under borrowing and under owning guards, the buffers
-- that the program holds outside the pool, and those that it has made by itself so far.
pub record Client {ℓ} (T : Type ℓ) : Type ℓ where
  pub machine : Machine T
  pub handles : ℕ
  pub borrowed : List T
  pub owned : List T
  pub detached : List T
  pub supplied : List T

module _ {ℓ} {T : Type ℓ} where
  abbrev pub option_list : Option T → List T
  option_list none = []
  option_list (some b) = b ∷ []

  -- What a lease brings under a guard, and what a call hands out.
  abbrev pub lent : Outcome (SharedPooled T) → List T
  lent (returned g) = option_list g.buffer
  lent panicked = []

  abbrev pub lent_owned : Outcome (SharedPooledOwned T) → List T
  lent_owned (returned g) = option_list g.buffer
  lent_owned panicked = []

  abbrev pub handed : Outcome T → List T
  handed (returned b) = b ∷ []
  handed panicked = []

  abbrev pub handed_all : Outcome (List T) → List T
  handed_all (returned bs) = bs
  handed_all panicked = []

  -- A program that starts with the one handle of a pool.
  abbrev pub start : Machine T → Client T
  start s = record {
    machine = s;
    handles = 1;
    borrowed = [];
    owned = [];
    detached = [];
    supplied = [];
  }

  -- `Writes b b'`: the program may turn the buffer `b` into `b'` while it holds it.
  pub data Step (Writes : T → T → Type ℓ) (c : Client T) : Client T → Type ℓ where
    lease :
        (i : ℕ)
        → 0 < c.handles
        → Step Writes c (record c {
          machine = (get i c.machine).1;
          borrowed = lent (get i c.machine).0 ++ c.borrowed;
        })
    lease_owned :
        (i : ℕ)
        → 0 < c.handles
        → Step Writes c (record c {
          machine = (get_owned i c.machine).1;
          owned = lent_owned (get_owned i c.machine).0 ++ c.owned;
        })
    give_back :
        (i : ℕ) (b : T) (xs ys : List T)
        → c.borrowed ≡ xs ++ (b ∷ ys)
        → Step Writes c (record c {
          machine = (drop_guard i (record { buffer = some b }) c.machine).1;
          borrowed = xs ++ ys;
        })
    detach :
        (i : ℕ) (b : T) (xs ys : List T)
        → c.borrowed ≡ xs ++ (b ∷ ys)
        → Step Writes c (record c {
          machine = (into_inner i (record { buffer = some b }) c.machine).1;
          borrowed = xs ++ ys;
          detached = handed (into_inner i (record { buffer = some b }) c.machine).0 ++ c.detached;
        })
    give_back_owned :
        (i : ℕ) (b : T) (xs ys : List T)
        → c.owned ≡ xs ++ (b ∷ ys)
        → Step Writes c (record c {
          machine = (drop_owned i (record { buffer = some b }) c.machine).1;
          owned = xs ++ ys;
        })
    detach_owned :
        (i : ℕ) (b : T) (xs ys : List T)
        → c.owned ≡ xs ++ (b ∷ ys)
        → Step Writes c (record c {
          machine = (into_inner_owned i (record { buffer = some b }) c.machine).1;
          owned = xs ++ ys;
          detached =
              handed (into_inner_owned i (record { buffer = some b }) c.machine).0 ++ c.detached;
        })
    put_back :
        (i : ℕ) (b : T) (xs ys : List T)
        → 0 < c.handles
        → c.detached ≡ xs ++ (b ∷ ys)
        → Step Writes c (record c { machine = (put i b c.machine).1; detached = xs ++ ys })
    take_all :
        0 < c.handles
        → Step Writes c (record c {
          machine = (drain c.machine).1;
          detached = handed_all (drain c.machine).0 ++ c.detached;
        })
    supply :
        (b : T) → Step Writes c (record c { detached = b ∷ c.detached; supplied = b ∷ c.supplied })
    write_borrowed :
        (b b' : T) (xs ys : List T)
        → Writes b b'
        → c.borrowed ≡ xs ++ (b ∷ ys)
        → Step Writes c (record c { borrowed = xs ++ (b' ∷ ys) })
    write_owned :
        (b b' : T) (xs ys : List T)
        → Writes b b'
        → c.owned ≡ xs ++ (b ∷ ys)
        → Step Writes c (record c { owned = xs ++ (b' ∷ ys) })
    clone_handle :
        0 < c.handles
        → Step Writes c (record c { machine = (clone c.machine).1; handles = c.handles + 1 })
    -- A borrowing guard keeps the handle that it came from.
    drop_handle :
        0 < c.handles
        → (c.handles ≡ 1 → c.borrowed ≡ [])
        → Step Writes c (record c { machine = (drop_pool c.machine).1; handles = c.handles - 1 })

  pub data Reach (Writes : T → T → Type ℓ) (s : Machine T) : Client T → Type ℓ where
    here : Reach Writes s (start s)
    next : {c d : Client T} → Reach Writes s c → Step Writes c d → Reach Writes s d
