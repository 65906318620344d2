-- ===== src/PairScores/Outer.antt =====
-- examples/pair_scores.rs: a task overwrites the whole of its matrix.
use par_buffer_pool.Base.{
  ℕ, zero, suc, ◌+◌, ◌*◌, ◌/◌, ◌%◌, ◌<◌, some, List, [], ◌∷◌, ◌≡◌, refl, sym, ap, ap₂, ◌∙◌, arith,
  ltb-eq_true, length, length-set, length-replicate, get_elem?, get_elem?-set_self,
  get_elem?-set_ne, set, subst,
}
use mathlib.Core.Option
use native.Mathlib.Decide.{ℕ_discrete}
use par_buffer_pool.Base.Effect.{Outcome, returned}
use par_buffer_pool.PairScores.{
  Floats, n_features, Matrix, features, fresh_matrix, write_at, fill_row, fill_rows, sum_of_squares,
  score,
}

-- Lists of one length with the same entries.
same_entries :
    {A : Type 0} (xs ys : List A)
    → length xs ≡ length ys
    → ((k : ℕ) → k < length xs → get_elem? xs k ≡ get_elem? ys k)
    → xs ≡ ys
same_entries [] [] e h = refl
same_entries [] (y ∷ ys) e h = absurd (omega arith)
same_entries (x ∷ xs) [] e h = absurd (omega arith)
same_entries (x ∷ xs) (y ∷ ys) e h =
    ap₂ (◌∷◌) (Option.some-injective x y (h 0 (omega arith)))
      (same_entries xs ys (omega (arith, e)) (λ k low. h (suc k) (omega arith)))

module _ (A : Floats) (i j : ℕ) where
  abbrev pub entry : ℕ → ℕ → A.f64
  entry p q = A.times (features A i p) (features A j q)

  -- The matrix has its size, and its first `k` entries are those of the outer product.
  pub record IsWritten (k : ℕ) (g : Matrix A) : Type 0 where
    pub size : length g ≡ n_features * n_features
    pub entries :
        (p q : ℕ)
        → q < n_features
        → p * n_features + q < k
        → get_elem? g (p * n_features + q) ≡ some (entry p q)

  write_at-IsWritten :
      (p q : ℕ) (g : Matrix A)
      → p < n_features
      → q < n_features
      → IsWritten (p * n_features + q) g
      → (g' : Matrix A) × (write_at A (p * n_features + q) (entry p q) g ≡ (returned tt, g'))
        × IsWritten (p * n_features + (q + 1)) g'
  unfolding write_at
  write_at-IsWritten p q g row column h =
      let k = p * n_features + q in
      let low : k < length g = omega (arith, h.size) in
      (
        set g k (entry p q),
        rw (ltb-eq_true k (length g) low) refl,
        record {
          size = length-set g k (entry p q) ∙ h.size;
          entries = λ p' q' column' below. elim (ℕ_discrete k (p' * n_features + q')) [
            | yes e ↦
                let same_p : p ≡ p' = omega arith in
                let same_q : q ≡ q' = omega arith in
                subst (λ x. get_elem? (set g k (entry p q)) x ≡ some (entry p' q')) e
                  (get_elem?-set_self g k (entry p q) low ∙ ap some (ap₂ entry same_p same_q))
            | no d ↦
                get_elem?-set_ne g k (p' * n_features + q') (entry p q) d
                ∙ h.entries p' q' column' (omega arith)
          ];
        },
      )

  fill_row-IsWritten :
      (p q n : ℕ) (g : Matrix A)
      → p < n_features
      → q + n ≡ n_features
      → IsWritten (p * n_features + q) g
      → (g' : Matrix A) × (fill_row A i j p q n g ≡ (returned tt, g'))
        × IsWritten (p * n_features + n_features) g'
  unfolding fill_row
  fill_row-IsWritten p q zero g row e h = (g, refl, subst (λ k. IsWritten k g) (omega arith) h)
  fill_row-IsWritten p q (suc n) g row e h =
      let (g', wrote, h') = write_at-IsWritten p q g row (omega arith) h in
      let (g'', filled, done) = fill_row-IsWritten p (q + 1) n g' row (omega arith) h' in
      (g'', rw wrote filled, done)

  fill_rows-IsWritten :
      (p n : ℕ) (g : Matrix A)
      → p + n ≡ n_features
      → IsWritten (p * n_features) g
      → (g' : Matrix A) × (fill_rows A i j p n g ≡ (returned tt, g'))
        × IsWritten (n_features * n_features) g'
  unfolding fill_rows
  fill_rows-IsWritten p zero g e h = (g, refl, subst (λ k. IsWritten k g) (omega arith) h)
  fill_rows-IsWritten p (suc n) g e h =
      let (g', filled, h') =
        fill_row-IsWritten p 0 n_features g (omega arith) refl
          (subst (λ k. IsWritten k g) (omega arith) h) in
      let (g'', rest, done) =
        fill_rows-IsWritten (p + 1) n g' (omega arith)
          (subst (λ k. IsWritten k g') (omega arith) h') in
      (g'', rw filled rest, done)

  -- Two matrices that are written in full are the same.
  IsWritten-unique :
      (g g' : Matrix A)
      → IsWritten (n_features * n_features) g
      → IsWritten (n_features * n_features) g'
      → g ≡ g'
  IsWritten-unique g g' h h' = same_entries g g' (omega (arith, h.size, h'.size)) (λ k low.
      let row_and_column : k / 96 * 96 + k % 96 ≡ k = omega arith in
      let inside : k / 96 * 96 + k % 96 < n_features * n_features = omega (arith, h.size) in
      subst (λ x. get_elem? g x ≡ get_elem? g' x) row_and_column
        (h.entries (k / 96) (k % 96) (omega arith) inside
          ∙ sym (h'.entries (k / 96) (k % 96) (omega arith) inside)))

  score_lem :
      (g : Matrix A)
      → length g ≡ n_features * n_features
      → (g' : Matrix A) × (score A (i, j) g ≡ (g', returned (sum_of_squares A g')))
        × IsWritten (n_features * n_features) g'
  unfolding score
  score_lem g size =
      let nothing : IsWritten 0 g = record {
        size = size;
        entries = λ p q column below. absurd (omega arith);
      } in
      let (g', filled, done) = fill_rows-IsWritten 0 n_features g refl nothing in
      (g', rw filled refl, done)

  -- In any buffer of the size of a matrix the work for the pair `(i, j)` returns and leaves the
  -- outer product of the two feature vectors, entry by entry; what it gives, and what it leaves,
  -- is what it would in a fresh matrix of zeros.
  pub score-outer :
      (g : Matrix A)
      → length g ≡ n_features * n_features
      → let (g', result) = score A (i, j) g in
        IsWritten (n_features * n_features) g'
        × (result ≡ returned (sum_of_squares A g'))
        × (score A (i, j) g ≡ score A (i, j) (fresh_matrix A))
  score-outer g size =
      let (g', e, done) = score_lem g size in
      let (g₀, e₀, done₀) =
        score_lem (fresh_matrix A) (length-replicate (n_features * n_features) A.zero_point) in
      let outcome : Matrix A → Matrix A × Outcome A.f64 = λ m. (m, returned (sum_of_squares A m)) in
      let same = e ∙ ap outcome (IsWritten-unique g' g₀ done done₀) ∙ sym e₀ in
      (
        subst (λ r. IsWritten (n_features * n_features) r.0) (sym e) done,
        subst (λ r. r.1 ≡ returned (sum_of_squares A r.0)) (sym e) refl,
        same,
      )
