-- ===== src/Buffer/Crew/Collect.antt =====
-- The parallel loops of examples/ over `0..n`: the items, and what `collect()` has for each.
use par_buffer_pool.Base.{
  ℕ, zero, suc, ◌+◌, ◌≤◌, ◌<◌, true, Option, some, none, List, [], ◌∷◌, ◌≡◌, refl, ap, ◌∙◌, arith,
  total, length, ◌==◌, eq-eq_false, if◌then◌else◌, All,
}
use native.Mathlib.Decide.{ℕ_discrete}
use par_buffer_pool.Base.Effect.{Outcome}
use par_buffer_pool.Buffer.Crew.Sound.{weigh}

-- The items from `k` on, `n` of them.
abbrev pub range_from : ℕ → ℕ → List ℕ
range_from k zero = []
range_from k (suc n) = k ∷ range_from (k + 1) n

-- What the loop has given for an item.
unfoldable pub collected {μ} : {R : Type μ} → List (ℕ × Outcome R) → ℕ → Option (Outcome R)
collected [] k = none
collected ((x, o) ∷ results) k = let rest = collected results k in if x == k then some o else rest

pub length-range_from : (k n : ℕ) → length (range_from k n) ≡ n
length-range_from k zero = refl
length-range_from k (suc n) = omega (arith, length-range_from (k + 1) n)

abbrev is_item : ℕ → ℕ → ℕ
is_item k x = if x == k then 1 else 0

range_from-item : (j k n : ℕ) → j ≤ k → k < j + n → 1 ≤ total (is_item k) (range_from j n)
range_from-item j k zero low high = absurd (omega arith)
range_from-item j k (suc n) low high = elim (ℕ_discrete j k) [
  | yes e ↦ ground arith
  | no d ↦ omega (arith, range_from-item (j + 1) k n (omega arith) (omega arith))
]

module _ {μ} {R : Type μ} (spec : ℕ → Outcome R) where
  found :
      (results : List (ℕ × Outcome R)) (k : ℕ)
      → 1 ≤ total (weigh (is_item k)) results
      → All (λ q. q.1 ≡ spec q.0) results
      → collected results k ≡ some (spec k)
  unfolding collected
  found [] k few h = absurd (omega arith)
  found ((x, o) ∷ results) k few h = elim (ℕ_discrete x k) [
    | yes e ↦ let same : (x == k) ≡ true = ground arith in rw same (ap some (h.0 ∙ ap spec e))
    | no d ↦
        let differ = eq-eq_false x k d in
        let more : 1 ≤ total (weigh (is_item k)) results = ground arith in
        rw differ (found results k more h.1)
  ]

  -- Where the results are those of `spec` for the items of `0..n`, each item has its own.
  pub collected_lem :
      (results : List (ℕ × Outcome R)) (n k : ℕ)
      → ((w : ℕ → ℕ) → total (weigh w) results ≡ total w (range_from 0 n))
      → All (λ q. q.1 ≡ spec q.0) results
      → k < n
      → collected results k ≡ some (spec k)
  collected_lem results n k each h low =
      found results k
        (omega (arith, each (is_item k), range_from-item 0 k n (omega arith) (omega arith))) h
