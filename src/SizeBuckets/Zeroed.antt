-- ===== src/SizeBuckets/Zeroed.antt =====
-- examples/size_buckets.rs: what a lease of the scratch of classes gives.
use mathlib.Core.Option
use par_buffer_pool.Base.{
  if◌then◌else◌, ℕ, zero, suc, ◌+◌, ◌-◌, ◌*◌, ◌%◌, ◌^◌, ◌≤◌, ◌<◌, max, Bool, true, false, Option,
  some, List, [], ◌≡◌, refl, sym, ap, subst, ◌∙◌, arith, length, replicate, get_elem?, set,
  leb-eq_true, leb-eq_false, get_elem?-lt, length-set, Option-cases, inl, inr, get_elem?-set_self,
  get_elem?-set_ne, get_elem?-some_lt,
}
use native.Mathlib.Decide.{ℕ_discrete}
use par_buffer_pool.Base.Words.{usize_mod, fetch_sub}
use par_buffer_pool.Base.Effect.{returned, panicked, and_then}
use par_buffer_pool.Sharding.{Threads}
use par_buffer_pool.Buffer.State.{Machine}
use par_buffer_pool.Buffer.Pool.{new}
use par_buffer_pool.Buffer.Pool.Build.{new_lem}
use par_buffer_pool.SizeBuckets.{
  class_of, checked_sub, ClassScratch, new_classes, at_pool, get_class, get_any_size, class_pools,
  with_capacity, class_capacity,
}
use par_buffer_pool.SizeBuckets.Classes.{
  class_of-IsClass, class_of-small, class_of-large, class_of-le,
}
use par_buffer_pool.Buffer.Behaviour.Prefill.{Answers}
use native.Mathlib.Nat.{pow-le-pow_right}
use par_buffer_pool.SizeBuckets.Lease.{IsServing, get_any_size_lem, settings-IsWellFormed}

length-class_pools {ℓ} :
    (E : Type ℓ) (t : Threads) (par : Option ℕ) (c n : ℕ)
    → length (class_pools {E = E} t par c n) ≡ n
unfolding class_pools
length-class_pools E t par c zero = refl
length-class_pools E t par c (suc n) = omega (arith, length-class_pools E t par (c + 1) n)

module _ {ℓ} {E : Type ℓ} where
  -- The scratch that serves sizes up to `max_n`.
  pub record IsScratch (max_n : ℕ) (s : ClassScratch E) : Type ℓ where
    pub classes : length s.pools ≡ class_of max_n + 1 - 4
    pub serving : (k : ℕ) (p : Machine (List E)) → get_elem? s.pools k ≡ some p → IsServing p

  module _ (t : Threads) (par : Option ℕ) where
    -- A vector of 2^59 elements is the largest that fits.
    with_capacity-answers : (c : ℕ) → c < 60 → Answers (with_capacity {E = E} (class_capacity c))
    with_capacity-answers c low k =
        let same : c % 64 ≡ c = omega arith in
        (
          [],
          rw
              (
                same,
                leb-eq_true (8 * 2 ^ c) (2 ^ 63 - 1) (
                    omega (
                      arith,
                      pow-le-pow_right {n = 2} (omega arith) {i = c} {j = 59} (omega arith),
                    )),
              )
              refl,
        )

    class_pools-IsServing :
        (c n : ℕ)
        → c + n ≤ 60
        → (k : ℕ) (p : Machine (List E)) → get_elem? (class_pools t par c n) k ≡ some p
        → IsServing p
    unfolding class_pools new
    class_pools-IsServing c zero low k p e = absurd (cc)
    class_pools-IsServing c (suc n) low zero p e =
        let init = with_capacity (class_capacity c) in
        subst IsServing (Option.some-injective (new t par init) p e) (record {
          well_formed = (new_lem t par init).0;
          answers = with_capacity-answers c (omega arith);
        })
    class_pools-IsServing c (suc n) low (suc k) p e =
        class_pools-IsServing (c + 1) n (omega arith) k p e

    pub new_classes-IsScratch :
        (max_n : ℕ) → max_n ≤ 2 ^ 59 → IsScratch max_n (new_classes t par max_n)
    unfolding new_classes
    new_classes-IsScratch max_n fits =
        let top : class_of max_n ≤ 59 = (class_of-IsClass max_n (omega arith)).least 59 fits in
        record {
          classes = length-class_pools E t par 4 (class_of max_n + 1 - 4);
          serving = class_pools-IsServing 4 (class_of max_n + 1 - 4) (omega arith);
        }

  -- After a call on one of the pools.
  set-IsScratch :
      (max_n k : ℕ) (s : ClassScratch E) (t : Threads) (p q : Machine (List E))
      → IsScratch max_n s
      → get_elem? s.pools k ≡ some p
      → IsServing q
      → IsScratch max_n (record { threads = t; pools = set s.pools k q })
  set-IsScratch max_n k s t p q h own serves = record {
    classes = length-set s.pools k q ∙ h.classes;
    serving = λ j r e. elim (ℕ_discrete k j) [
      | yes same ↦
          let here = get_elem?-set_self s.pools k q (get_elem?-some_lt s.pools k p own) in
          subst IsServing
            (Option.some-injective q r (sym here ∙ ap (get_elem? (set s.pools k q)) same ∙ e))
            serves
      | no other ↦ h.serving j r (sym (get_elem?-set_ne s.pools k j q other) ∙ e)
    ];
  }

  -- Let the scratch serve sizes up to `max_n`, at most 2^59, as `ClassScratch::new` makes it. For
  -- every size `n` from 9 to `max_n`, whatever the pools hold and with and without overflow checks,
  -- `get` leases a buffer of exactly `n` elements, each 0.0, and the scratch serves the same sizes
  -- afterwards.
  pub get_class-zeroed :
      (checks : Bool) (e : E) (i n max_n : ℕ) (s : ClassScratch E)
      → IsScratch max_n s
      → 9 ≤ n
      → n ≤ max_n
      → max_n ≤ 2 ^ 59
      → let (result, t) = get_class checks e i n s in
        (result ≡ returned (record { buffer = some (replicate n e) })) × IsScratch max_n t
  unfolding get_class checked_sub at_pool
  get_class-zeroed checks e i n max_n s h low high fits =
      let size : max n 1 ≡ n = omega arith in
      let c = class_of n in
      let least = class_of-large n low (omega arith) in
      let (p, own) =
        get_elem?-lt s.pools (c - 4)
          (omega (arith, h.classes, least, class_of-le n max_n high (omega arith))) in
      let serves = h.serving (c - 4) p own in
      let q =
        get_any_size_lem e i n (record p { threads = s.threads })
          (record {
            well_formed = settings-IsWellFormed p p.strong s.threads serves.well_formed;
            answers = serves.answers;
          })
          (omega arith) in
      rw (size, leb-eq_true 4 c least, own) (q.0, set-IsScratch max_n (c - 4) s _ p _ h own q.1)

  -- For every size `n` up to 8, also 0, `get` panics and leaves the scratch as it was, with and
  -- without overflow checks, where the pools are fewer than 2^64 - 4.
  pub get_class-small :
      (checks : Bool) (e : E) (i n : ℕ) (s : ClassScratch E)
      → n ≤ 8
      → length s.pools < usize_mod - 4
      → get_class checks e i n s ≡ (panicked, s)
  unfolding get_class checked_sub at_pool fetch_sub
  get_class-small checks e i n s small few =
      let low = class_of-small (max n 1) (omega arith) in
      rw (leb-eq_false 4 (class_of (max n 1)) (omega arith)) (split checks)
    where
      split :
          (checks : Bool)
          → and_then
              (if checks then panicked else returned (fetch_sub (class_of (max n 1)) 4))
              s
              (λ k. at_pool k (get_any_size e i n))
            ≡ (panicked, s)
      split true = refl
      split false = elim (Option-cases (get_elem? s.pools (fetch_sub (class_of (max n 1)) 4))) [
        | inl out ↦ rw out refl
        | inr (p, own) ↦ absurd (
            omega (
              arith,
              get_elem?-some_lt s.pools (fetch_sub (class_of (max n 1)) 4) p own,
              class_of-small (max n 1) (omega arith),
            ))
      ]
