-- ===== src/Buffer/Invariant.antt =====
-- src/buffer.rs: the invariant of a pool between its operations, and what an operation may change.
pub mod Counts
pub mod Inner
pub mod Return
pub mod Pool
use par_buffer_pool.Base.{
  ℕ, zero, suc, ◌+◌, ◌-◌, ◌≤◌, ◌<◌, Option, none, some, List, length, ◌≡◌, refl, ◌∙◌, arith, total,
}
use native.Mathlib.Numerals.{add-one}
use par_buffer_pool.Base.Words.{usize_mod, usize_max}
use par_buffer_pool.Base.Effect.{Outcome, returned, panicked}
use par_buffer_pool.Buffer.State.{InitFn, ResetFn, Machine}
use par_buffer_pool.Buffer.Inner.Forms.{IsSharded}
use par_buffer_pool.Buffer.Weights.{idle_weight, idle}

-- Where a count is kept, it is the number of idle buffers, and it has not wrapped.
abbrev pub Counted : Option ℕ → ℕ → Type 0
Counted none n = Unit {0}
Counted (some p) n = (p ≡ n) × (n < usize_mod)

-- A count is kept exactly where a cap is installed.
abbrev pub Capped : Option ℕ → ℕ → Type 0
Capped none n = n ≡ usize_max
Capped (some p) n = n < usize_max

-- Where a cap is installed, there are no more idle buffers than it allows.
abbrev pub WithinCap : Option ℕ → ℕ → ℕ → Type 0
WithinCap none n idle = Unit {0}
WithinCap (some p) n idle = idle ≤ n

module _ {ℓ} {T : Type ℓ} where
  pub record IsWellFormed (s : Machine T) : Type 0 where
    pub sharded : IsSharded s
    pub counted : Counted s.parked (idle s)
    pub capped : Capped s.parked s.max_idle

  abbrev pub IsWithinCap : Machine T → Type 0
  IsWithinCap s = WithinCap s.parked s.max_idle (idle s)

  -- The weight of a buffer does not change when the hook resets it.
  abbrev pub Preserves : (T → ℕ) → Option (ResetFn T) → Type ℓ
  Preserves w none = Unit
  Preserves w (some hook) = (n : ℕ) (b : T) → w (hook n b).0 ≡ w b

  abbrev pub outcome_weight : (T → ℕ) → Outcome T → ℕ
  outcome_weight w (returned b) = w b
  outcome_weight w panicked = 0

  -- The weight of the buffers that the first `n` runs of the initializer made.
  unfoldable pub made_by : (T → ℕ) → InitFn T → ℕ → ℕ
  made_by w init zero = 0
  made_by w init (suc n) = made_by w init n + outcome_weight w (init n)

  abbrev pub made : (T → ℕ) → Machine T → ℕ
  made w s = made_by w s.init s.init_runs

  -- The buffers that lie idle and those that were dropped.
  abbrev pub held : (T → ℕ) → Machine T → ℕ
  held w s = idle_weight w s + total w s.dropped

  -- From `s` to `t` the pool was given buffers and gave some out: none was lost or made up.
  pub record Keeps (s t : Machine T) (given out : (T → ℕ) → ℕ) : Type ℓ where
    pub well_formed : IsWellFormed t
    pub within : IsWithinCap s → IsWithinCap t
    pub same_reset : t.reset ≡ s.reset
    pub same_cap : t.max_idle ≡ s.max_idle
    pub same_strong : t.strong ≡ s.strong
    pub balanced :
        (w : T → ℕ)
        → Preserves w s.reset
        → held w t + out w + made w s ≡ held w s + given w + made w t

  abbrev pub nothing : (T → ℕ) → ℕ
  nothing w = 0

  pub Keeps-refl : (s : Machine T) → IsWellFormed s → Keeps s s nothing nothing
  Keeps-refl s h = record {
    well_formed = h;
    within = λ c. c;
    same_reset = refl;
    same_cap = refl;
    same_strong = refl;
    balanced = λ w p. refl;
  }

  -- What the first part gives out, the second may be given.
  pub Keeps-trans :
      {s t u : Machine T} {g o g' o' : (T → ℕ) → ℕ} (g'' o'' : (T → ℕ) → ℕ)
      → Keeps s t g o
      → Keeps t u g' o'
      → ((w : T → ℕ) → Preserves w s.reset → g w + g' w + o'' w ≡ g'' w + o w + o' w)
      → Keeps s u g'' o''
  Keeps-trans g'' o'' a b e = record {
    well_formed = b.well_formed;
    within = λ c. b.within (a.within c);
    same_reset = b.same_reset ∙ a.same_reset;
    same_cap = b.same_cap ∙ a.same_cap;
    same_strong = b.same_strong ∙ a.same_strong;
    balanced = λ w p. omega (arith, a.balanced w p, b.balanced w (rw a.same_reset p), e w p);
  }

  pub Keeps-as :
      {s t : Machine T} {g o : (T → ℕ) → ℕ} (g' o' : (T → ℕ) → ℕ)
      → Keeps s t g o
      → ((w : T → ℕ) → Preserves w s.reset → g w + o' w ≡ g' w + o w)
      → Keeps s t g' o'
  Keeps-as g' o' a e = record {
    well_formed = a.well_formed;
    within = a.within;
    same_reset = a.same_reset;
    same_cap = a.same_cap;
    same_strong = a.same_strong;
    balanced = λ w p. omega (arith, a.balanced w p, e w p);
  }

  pub made_by-add_one :
      (w : T → ℕ) (init : InitFn T) (n : ℕ)
      → made_by w init (n + 1) ≡ made_by w init n + outcome_weight w (init n)
  unfolding made_by
  made_by-add_one w init n = rw add-one
