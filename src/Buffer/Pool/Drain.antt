-- ===== src/Buffer/Pool/Drain.antt =====
-- src/buffer.rs: `drain`, `idle_len` and the drop of the shared state.
use mathlib.Core.Option
use mathlib.Core.List.{append_assoc, append-nil}
use par_buffer_pool.Base.{
  ℕ, suc, ◌+◌, ◌<◌, Option, none, some, List, [], ◌∷◌, ◌++◌, length, ◌≡◌, refl, sym, ap, ◌∙◌, arith,
  total, total-append,
}
use par_buffer_pool.Base.Words.{usize_mod, fetch_add, fetch_sub, fetch_add_lem, fetch_sub_lem}
use par_buffer_pool.Base.Effect.{returned}
use par_buffer_pool.Buffer.State.{Machine, Mutex, write_pile}
use par_buffer_pool.Buffer.Inner.{set_shards, set_reserve, set_parked, sum_lens, count_idle}
use par_buffer_pool.Buffer.Inner.Forms.{lock_pile_lem}
use par_buffer_pool.Buffer.Weights.{idle_weight, pile_weight, idle, one_each, total-one_each}
use par_buffer_pool.Buffer.Guard.{all_buffers, emptied}
use par_buffer_pool.Buffer.Invariant.{Keeps, nothing, Counted, IsWellFormed}
use par_buffer_pool.Buffer.Invariant.Counts.{Capped-map, WithinCap-map}
use par_buffer_pool.Buffer.Invariant.Inner.{IsSharded-of}
use par_buffer_pool.Buffer.Pool.{drain, take_piles, idle_len}

zeroed :
    (p : Option ℕ) (n n' : ℕ)
    → (n < usize_mod → n' ≡ n)
    → Counted p n
    → Option.map (λ c. fetch_sub c n') p ≡ Option.map (λ c. 0) p
zeroed none n n' e h = refl
zeroed (some c) n n' e h = ap some (omega (arith, e (omega arith), fetch_sub_lem c n'))

Counted-zero : (p : Option ℕ) (n : ℕ) → n ≡ 0 → Counted (Option.map (λ c. 0) p) n
Counted-zero none n e = tt
Counted-zero (some c) n e = omega arith

module _ {ℓ} {T : Type ℓ} where
  -- The idle buffers: shard by shard, then the reserve, each pile in the order of parking.
  abbrev pub idle_buffers : Machine T → List T
  idle_buffers s = all_buffers s.shards ++ s.reserve.value

  abbrev pub buffer_count : List (Mutex (List T)) → ℕ
  buffer_count = total (pile_weight one_each)

  sum_lens_lem :
      (acc : ℕ) (ms : List (Mutex (List T)))
      → acc + buffer_count ms < usize_mod
      → sum_lens acc ms ≡ acc + buffer_count ms
  unfolding sum_lens
  sum_lens_lem acc [] h = omega arith
  sum_lens_lem acc (m ∷ ms) h =
      let len = total-one_each m.value in
      rw (lock_pile_lem m, fetch_add_lem acc (length m.value) (omega (arith, len)))
        (omega (arith, len, sum_lens_lem (acc + length m.value) ms (omega (arith, len))))

  pub count_idle_lem : (s : Machine T) → idle s < usize_mod → count_idle s.inner ≡ idle s
  unfolding count_idle idle_weight
  count_idle_lem s h =
      let len = total-one_each s.reserve.value in
      rw (lock_pile_lem s.reserve, sum_lens_lem 0 s.shards (omega arith))
        (omega (arith, len, fetch_add_lem (0 + buffer_count s.shards) (length s.reserve.value)))

  -- `idle_len` is the number of the buffers in all the shards and the reserve, where a `usize` can
  -- count them.
  pub idle_len_lem : (s : Machine T) → idle s < usize_mod → idle_len s ≡ idle s
  unfolding idle_len
  idle_len_lem s h = count_idle_lem s h

  -- The buffers taken do not depend on the count, and the count is exact where it fits.
  take_piles_lem :
      (ms : List (Mutex (List T))) (taken : ℕ) (drained : List T)
      → ((take_piles ms taken drained).0 ≡ emptied ms)
        × ((take_piles ms taken drained).2 ≡ drained ++ all_buffers ms)
        × (taken + buffer_count ms < usize_mod
            → (take_piles ms taken drained).1 ≡ taken + buffer_count ms)
  unfolding take_piles emptied all_buffers
  take_piles_lem [] taken drained = (refl, sym (append-nil drained), λ fits. omega arith)
  take_piles_lem (m ∷ ms) taken drained =
      let len = total-one_each m.value in
      let rest = take_piles_lem ms (fetch_add taken (length m.value)) (drained ++ m.value) in
      rw (lock_pile_lem m) (
        ap (◌∷◌ (write_pile m [])) rest.0,
        rest.1 ∙ append_assoc drained m.value (all_buffers ms),
        λ fits. omega (
          arith,
          len,
          rest.2 (omega (arith, len, fetch_add_lem taken (length m.value))),
          fetch_add_lem taken (length m.value),
        ),
      )

  -- Every pile empty, and the count at zero where one is kept.
  abbrev pub drained : Machine T → Machine T
  drained s =
      set_parked (Option.map (λ p. 0) s.parked) (set_reserve [] (set_shards (emptied s.shards) s))

  -- In a well-formed pool `drain` returns all the idle buffers: shard by shard, then the reserve,
  -- each pile in the order of parking. It leaves every pile empty, a count of 0 where a cap is
  -- installed, and everything else as it was.
  pub drain_lem :
      (s : Machine T) → IsWellFormed s → drain s ≡ (returned (idle_buffers s), drained s)
  unfolding drain idle_weight
  drain_lem s h =
      let len = total-one_each s.reserve.value in
      let piles = take_piles_lem s.shards 0 [] in
      rw (
        lock_pile_lem s.reserve,
        piles.0,
        piles.1,
        zeroed s.parked (idle s) (fetch_add (take_piles s.shards 0 []).1 (length s.reserve.value))
            (λ fits. omega (
              arith,
              len,
              piles.2 (omega arith),
              fetch_add_lem (take_piles s.shards 0 []).1 (length s.reserve.value),
            ))
            h.counted,
      )

  pub total-all_buffers :
      (w : T → ℕ) (ms : List (Mutex (List T))) → total w (all_buffers ms) ≡ total (pile_weight w) ms
  unfolding all_buffers
  total-all_buffers w [] = refl
  total-all_buffers w (m ∷ ms) =
      omega (arith, total-append w m.value (all_buffers ms), total-all_buffers w ms)

  pub total-idle_buffers : (w : T → ℕ) (s : Machine T) → total w (idle_buffers s) ≡ idle_weight w s
  unfolding idle_weight
  total-idle_buffers w s =
      omega
        (arith, total-append w (all_buffers s.shards) s.reserve.value, total-all_buffers w s.shards)

  length-emptied : (ms : List (Mutex (List T))) → length (emptied ms) ≡ length ms
  unfolding emptied
  length-emptied [] = refl
  length-emptied (m ∷ ms) = ap suc (length-emptied ms)

  pub total-emptied :
      (w : T → ℕ) (ms : List (Mutex (List T))) → total (pile_weight w) (emptied ms) ≡ 0
  unfolding emptied
  total-emptied w [] = refl
  total-emptied w (m ∷ ms) = omega (arith, total-emptied w ms)

  idle_weight-drained : (w : T → ℕ) (s : Machine T) → idle_weight w (drained s) ≡ 0
  unfolding idle_weight
  idle_weight-drained w s = omega (arith, total-emptied w s.shards)

  pub drained-Keeps :
      (s : Machine T) → IsWellFormed s → Keeps s (drained s) nothing (λ w. total w (idle_buffers s))
  drained-Keeps s h = record {
    well_formed = record {
      sharded = IsSharded-of s _ (length-emptied s.shards) refl h.sharded;
      counted = Counted-zero s.parked _ (idle_weight-drained one_each s);
      capped = Capped-map _ s.parked _ h.capped;
    };
    within = λ k.
        WithinCap-map _ s.parked s.max_idle (idle s) _
          (omega (arith, idle_weight-drained one_each s)) k;
    same_reset = refl;
    same_cap = refl;
    same_strong = refl;
    balanced = λ w p. omega (arith, idle_weight-drained w s, total-idle_buffers w s);
  }
