-- ===== src/Buffer/Contract.antt =====
-- src/buffer.rs: what a pool promises to the code that uses it: a bag of idle buffers, without
-- shards, ids of threads, counters or the order in which buffers were parked.
pub mod Piles
pub mod Views
pub mod Serves
pub mod Leases
pub mod Returns
pub mod Refines
mod Examples
use native.Mathlib.Nat.{ℕ_set}
use mathlib.Core.Quot
use mathlib.Core.Quot.{Quot, Quot-set}
use mathlib.Core.List.{Perm}
use mathlib.Core.List.Perm
use par_buffer_pool.Base.{ℕ, ◌≤◌, ◌<◌, Option, none, some, List, [], ◌∷◌, ◌≡◌, length}
use par_buffer_pool.Base.Effect.{Outcome, returned, panicked, Op, pure, ◌>>=◌, ◌>>◌}
use par_buffer_pool.Buffer.State.{InitFn, ResetFn, Machine}
use par_buffer_pool.Buffer.Pool.{get, put, drain}
use par_buffer_pool.Buffer.Pool.Drain.{idle_buffers}
use par_buffer_pool.Buffer.Client.{option_list}
use par_buffer_pool.Buffer.Bags.{Bag, of_list, add, size}

-- What the builder of a pool fixed, and the calls of the program with their threads.
pub record Terms {ℓ} (T : Type ℓ) : Type ℓ where
  pub init : InitFn T
  pub reset : Option (ResetFn T)
  pub cap : Option ℕ

pub data Command {ℓ} (T : Type ℓ) : Type ℓ where
  lease : ℕ → Command T
  give_back : ℕ → T → Command T
  take_all : Command T

abbrev pub HasRoom : Option ℕ → ℕ → Type 0
HasRoom none n = Unit {0}
HasRoom (some most) n = n < most

abbrev pub IsFull : Option ℕ → ℕ → Type 0
IsFull none n = ⊥
IsFull (some most) n = most ≤ n

-- A cap is in force where a count is kept.
abbrev pub cap_of : Option ℕ → ℕ → Option ℕ
cap_of none n = none
cap_of (some p) n = some n

module _ {ℓ} {T : Type ℓ} where
  -- The hook may turn `b` into `b'`, or panic on `b`.
  abbrev pub ResetsTo : Option (ResetFn T) → T → T → Type ℓ
  ResetsTo none b b' = b' ≡ b
  ResetsTo (some hook) b b' = (n : ℕ) × (hook n b ≡ (b', returned tt))

  abbrev pub ResetPanics : Option (ResetFn T) → T → Type ℓ
  ResetPanics reset b =
      (hook : ResetFn T) × (n : ℕ) × (b' : T) × (reset ≡ some hook) × (hook n b ≡ (b', panicked))

  -- The answers that a pool whose idle buffers are `x` may give, and its idle buffers afterwards.
  pub data Allowed (k : Terms T) (x : Bag T) : Command T → Outcome (List T) → Bag T → Type ℓ where
    reused : (i : ℕ) (b : T) (y : Bag T) → x ≡ add b y → Allowed k x (lease i) (returned (b ∷ [])) y
    created :
        (i n : ℕ) (b : T) → k.init n ≡ returned b → Allowed k x (lease i) (returned (b ∷ [])) x
    init_panics : (i n : ℕ) → k.init n ≡ panicked → Allowed k x (lease i) panicked x
    kept :
        (i : ℕ) (b b' : T)
        → ResetsTo k.reset b b'
        → HasRoom k.cap (size x)
        → Allowed k x (give_back i b) (returned []) (add b' x)
    refused :
        (i : ℕ) (b b' : T)
        → ResetsTo k.reset b b'
        → IsFull k.cap (size x)
        → Allowed k x (give_back i b) (returned []) x
    hook_panics : (i : ℕ) (b : T) → ResetPanics k.reset b → Allowed k x (give_back i b) panicked x
    emptied : (bs : List T) → x ≡ of_list bs → Allowed k x take_all (returned bs) (of_list [])

  -- The answers to a sequence of calls.
  pub data Trace (k : Terms T)
      : Bag T → List (Command T) → List (Outcome (List T)) → Bag T → Type ℓ where
    done : {x : Bag T} → Trace k x [] [] x
    then :
        {c : Command T} {a : Outcome (List T)} {x y z : Bag T} {cs : List (Command T)}
        {answers : List (Outcome (List T))}
        → Allowed k x c a y
        → Trace k y cs answers z
        → Trace k x (c ∷ cs) (a ∷ answers) z

  -- What a pool does with a call, and with a sequence of them.
  unfoldable pub perform : Command T → Op (Machine T) (List T)
  perform (lease i) = do guard ← get i; pure (option_list guard.buffer)
  perform (give_back i b) = do put i b; pure []
  perform take_all = drain

  unfoldable pub perform_all : List (Command T) → Machine T → List (Outcome (List T)) × Machine T
  unfolding perform
  perform_all [] s = ([], s)
  perform_all (c ∷ cs) s =
      let (answer, t) = perform c s in let (answers, u) = perform_all cs t in (answer ∷ answers, u)

  -- The view of a pool as a bag on its terms.
  abbrev pub terms : Machine T → Terms T
  terms s = record { init = s.init; reset = s.reset; cap = cap_of s.parked s.max_idle }

  unfoldable pub idle_bag : Machine T → Bag T
  idle_bag s = of_list (idle_buffers s)
