-- ===== src/Buffer/Concurrent/Alone.antt =====
-- src/buffer.rs: a call that no other call overlaps, step by step and as one operation.
use mathlib.Core.List.{append_assoc, append-nil}
use native.Mathlib.Nat.{zero-add, suc-add}
use par_buffer_pool.Base.{
  ℕ, zero, suc, ◌+◌, none, some, List, [], ◌∷◌, ◌++◌, ◌≡◌, refl, ap, ◌∙◌, length, length-snoc,
  get_elem?-at, get_elem?-end, set-at, pop, leb, if◌then◌else◌, inl, inr, Option-cases, Bool-cases,
}
use par_buffer_pool.Base.Words.{fetch_add}
use par_buffer_pool.Base.Effect.{Outcome, returned, panicked, modify, and_then}
use par_buffer_pool.Buffer.State.{Machine, Mutex, lock_pile, write_pile, SharedPooled}
use par_buffer_pool.Buffer.Inner.{set_shards, discard, park, recycle, cap_allows}
use par_buffer_pool.Buffer.Inner.Forms.{IsSharded, Own, find_pile, lock_pile_lem}
use par_buffer_pool.Buffer.Pool
use par_buffer_pool.Buffer.Pool.{take_piles}
use par_buffer_pool.Buffer.Pool.Lease.{guarded, get_from_shard, get_from_reserve, get_fresh}
use par_buffer_pool.Buffer.Invariant.Inner.{ran, no_hook, reset_to, reset_panics, reset_cases}
use par_buffer_pool.Buffer.Concurrent.{
  Phase, counting_lease, failed, resetting, claiming, sweeping, finished, after_init, after_park,
  tick,
}

module _ {ℓ} {T : Type ℓ} where
  -- The first `n` steps of a call on thread `i`.
  pub ticks : ℕ → ℕ → Phase T → Machine T → Phase T × Machine T
  ticks zero i c s = (c, s)
  ticks (suc n) i c s = ticks n i (tick i c s).0 (tick i c s).1

  -- The phase in which a call ends that hands out the buffers of its result.
  abbrev pub ended {κ} : {A : Type κ} → (A → List T) → Outcome A → Phase T
  ended buffers (returned a) = finished (buffers a)
  ended buffers panicked = failed

  abbrev pub leased_buffers : SharedPooled T → List T
  leased_buffers g = elim g.buffer [ none ↦ [] | some b ↦ b ∷ [] ]

  ended-guarded : (o : Outcome T) → ended leased_buffers (guarded o) ≡ after_init o
  ended-guarded (returned b) = refl
  ended-guarded panicked = refl

  get_alone_at :
      (i : ℕ) (s : Machine T) (m : Mutex (List T))
      → Own i s m
      → ticks 5 i counting_lease s ≡ (ended leased_buffers (Pool.get i s).0, (Pool.get i s).1)
  unfolding ticks tick
  get_alone_at i s m own = elim (Option-cases (pop m.value).0) [
    | inr (b, e) ↦ rw (get_from_shard i s m own b e, own, lock_pile_lem m, e) refl
    | inl e ↦ elim (Option-cases (pop s.reserve.value).0) [
      | inr (b, r) ↦
          rw (get_from_reserve i s m own b e r, own, lock_pile_lem m, e, lock_pile_lem s.reserve, r)
            refl
      | inl r ↦
          rw
            (
              get_fresh i s m own e r,
              own,
              lock_pile_lem m,
              e,
              lock_pile_lem s.reserve,
              r,
              ended-guarded,
            )
            refl
    ]
  ]

  get_alone :
      (i : ℕ) (s : Machine T)
      → IsSharded s
      → ticks 5 i counting_lease s ≡ (ended leased_buffers (Pool.get i s).0, (Pool.get i s).1)
  get_alone i s h = let (m, own) = find_pile i s h in get_alone_at i s m own

  abbrev pub no_buffers : Unit {0} → List T
  no_buffers u = []

  ended-park : (o : Outcome (Unit {0})) → ended no_buffers o ≡ after_park o
  ended-park (returned u) = refl
  ended-park panicked = refl

  -- `if self.cap_allows() { .. push .. }`
  abbrev settle : ℕ → T → Machine T → Outcome (Unit {0}) × Machine T
  settle i b s =
      let r = cap_allows s in
      and_then r.0 r.1 (λ allowed. if allowed then park i b else modify (discard b))

  settle_alone :
      (i : ℕ) (b : T) (s : Machine T)
      → ticks 2 i (claiming b) s ≡ (ended no_buffers (settle i b s).0, (settle i b s).1)
  unfolding ticks tick cap_allows
  settle_alone i b s = elim (Option-cases s.parked) [
    | inl e ↦ rw (e, ended-park) refl
    | inr (p, e) ↦ elim (Bool-cases (leb s.max_idle p)) [
      | inl full ↦ rw (e, full) refl
      | inr free ↦ rw (e, free, ended-park) refl
    ]
  ]

  recycle_alone :
      (i : ℕ) (b : T) (s : Machine T)
      → ticks 3 i (resetting b) s ≡ (ended no_buffers (recycle i b s).0, (recycle i b s).1)
  unfolding ticks tick recycle
  recycle_alone i b s = elim (reset_cases b s) [
    | no_hook e ↦ rw e (settle_alone i b s)
    | reset_to b' e weight ↦ rw e (settle_alone i b' (ran s))
    | reset_panics b' e weight ↦ rw e refl
  ]

  ticks-add :
      (m n i : ℕ) (c : Phase T) (s : Machine T)
      → ticks (m + n) i c s ≡ ticks n i (ticks m i c s).0 (ticks m i c s).1
  unfolding ticks
  ticks-add zero n i c s = rw zero-add refl
  ticks-add (suc m) n i c s = rw suc-add (ticks-add m n i (tick i c s).0 (tick i c s).1)

  sweep_round :
      (i taken : ℕ) (bs : List T) (xs ms : List (Mutex (List T))) (m : Mutex (List T))
      (s : Machine T)
      → tick i (sweeping (length xs) taken bs) (set_shards (xs ++ (m ∷ ms)) s) ≡ (
        sweeping (length xs + 1) (fetch_add taken (length (lock_pile m))) (bs ++ lock_pile m),
        set_shards (xs ++ (write_pile m [] ∷ ms)) s,
      )
  unfolding tick
  sweep_round i taken bs xs ms m s =
      rw (get_elem?-at xs ms m, set-at xs ms m (write_pile m [])) refl

  -- The rounds of the loop over the shards from the place `k` on.
  sweep_alone :
      (i taken : ℕ) (bs : List T) (xs ms : List (Mutex (List T))) (s : Machine T)
      → let (rest, n, all) = take_piles ms taken bs in
        ticks (length ms) i (sweeping (length xs) taken bs) (set_shards (xs ++ ms) s)
        ≡ (sweeping (length (xs ++ rest)) n all, set_shards (xs ++ rest) s)
  unfolding ticks tick take_piles
  sweep_alone i taken bs xs [] s = rw (append-nil xs) refl
  sweep_alone i taken bs xs (m ∷ ms) s =
      let v = write_pile m [] in
      let ih =
        sweep_alone i (fetch_add taken (length (lock_pile m))) (bs ++ lock_pile m) (xs ++ (v ∷ []))
          ms s in
      let rest = (take_piles ms (fetch_add taken (length (lock_pile m))) (bs ++ lock_pile m)).0 in
      ap (λ (r : Phase T × Machine T). ticks (length ms) i r.0 r.1)
        (sweep_round i taken bs xs ms m s)
      ∙ (rw (append_assoc xs (v ∷ []) ms, append_assoc xs (v ∷ []) rest, length-snoc xs v) at ih)

  drain_alone :
      (i : ℕ) (s : Machine T)
      → ticks (length s.shards + 3) i (sweeping 0 0 []) s
        ≡ (ended (λ bs. bs) (Pool.drain s).0, (Pool.drain s).1)
  unfolding ticks tick take_piles Pool.drain
  drain_alone i s =
      rw (ticks-add (length s.shards) 3 i (sweeping 0 0 []) s, sweep_alone i 0 [] [] s.shards s)
        (rw get_elem?-end refl)

  -- In a pool whose number `n` of shards is a power of two and fits its mask, calls that no other
  -- call overlaps come, step by step, to the result and the state of the operations that run as a
  -- whole: a lease to those of `get` in 5 steps, a return to those of `recycle` in 3, and a drain
  -- to those of `drain` in `n + 3`. A call that has ended before stays as it is.
  pub calls_alone :
      (i : ℕ) (b : T) (s : Machine T)
      → IsSharded s
      → (ticks 5 i counting_lease s ≡ (ended leased_buffers (Pool.get i s).0, (Pool.get i s).1))
        × (ticks 3 i (resetting b) s ≡ (ended no_buffers (recycle i b s).0, (recycle i b s).1))
        × (ticks (length s.shards + 3) i (sweeping 0 0 []) s
            ≡ (ended (λ bs. bs) (Pool.drain s).0, (Pool.drain s).1))
  calls_alone i b s h = (get_alone i s h, recycle_alone i b s, drain_alone i s)
