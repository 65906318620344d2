-- ===== src/NonStaticInit/Loudness.antt =====
-- examples/non_static_init.rs: what the loop measures, and that `main` returns.
use native.Mathlib.Nat.{mod-lt}
use par_buffer_pool.Base.{
  sym, subst, ℕ, zero, suc, ◌+◌, ◌<◌, ◌%◌, Bool, true, Option, some, List, [], ◌≡◌, refl, ap, arith,
  eq_refl, eq-eq_true, ltb-eq_true, leb-eq_true, length, length-set, get_elem?-lt,
}
use par_buffer_pool.Base.Words.{usize_max}
use par_buffer_pool.Base.Effect.{Outcome, returned}
use par_buffer_pool.Sharding.{Threads}
use par_buffer_pool.Buffer.State.{Machine}
use par_buffer_pool.Buffer.Pool.{stats}
use par_buffer_pool.Buffer.Pool.Lease.{reuses_lem}
use par_buffer_pool.Buffer.Crew.{Crew, Reach, all_resting, any_item}
use par_buffer_pool.Buffer.Crew.Phases.{Restores}
use par_buffer_pool.Buffer.Crew.Results.{crew_run}
use par_buffer_pool.Buffer.Crew.Collect.{range_from, length-range_from, collected, collected_lem}
use par_buffer_pool.NonStaticInit.{
  Floats, frames, frames_start, channel_from_preset, copy_preset, measure, agrees, check_frames,
  conclude,
}

module _ (A : Floats) (preset : List A.f64) (some_bands : 0 < length preset) where
  pub measure-Restores :
      (frame : ℕ) (channel : List A.f64)
      → channel ≡ preset
      → Restores (λ c. c ≡ preset) (some (copy_preset A preset)) (measure A preset frame channel).0
  unfolding measure copy_preset
  measure-Restores frame channel e n =
      let k = frame % length preset in
      let (band, there) = get_elem?-lt preset k (mod-lt frame some_bands) in
      rw (e, there, length-set preset k, eq_refl (length preset)) (preset, refl, refl)

  -- The serial loudness of a frame.
  serial : (frame : ℕ) → (loud : A.f64) × ((measure A preset frame preset).1 ≡ returned loud)
  unfolding measure
  serial frame =
      let (band, there) = get_elem?-lt preset (frame % length preset) (mod-lt frame some_bands) in
      rw there (_, refl)

  module _
      (no_nan : (frame : ℕ) (loud : A.f64)
        → (measure A preset frame preset).1 ≡ returned loud
        → A.eq loud loud ≡ true) where
    sound :
        (frame : ℕ)
        → agrees A preset (measure A preset frame preset).1 (some (measure A preset frame preset).1)
          ≡ true
    sound frame =
        let (loud, e) = serial frame in
        subst (λ o. agrees A preset o (some o) ≡ true) (sym e) (no_nan frame loud e)

    checks-return :
        (loudness : List (ℕ × Outcome A.f64)) (frame n : ℕ) (s : Machine (List A.f64))
        → ((k : ℕ) → k < frame + n → collected loudness k ≡ some (measure A preset k preset).1)
        → check_frames A preset loudness frame n s ≡ (returned tt, s)
    unfolding check_frames
    checks-return loudness frame zero s h = refl
    checks-return loudness frame (suc n) s h =
        rw (h frame (omega arith), sound frame)
          (checks-return loudness (frame + 1) n s (λ k low. h k (omega arith)))

    conclude-returns :
        (overflow_checks : Bool) (loudness : List (ℕ × Outcome A.f64)) (s : Machine (List A.f64))
        → ((k : ℕ) → k < frames → collected loudness k ≡ some (measure A preset k preset).1)
        → s.leases ≡ frames
        → 0 < s.allocations
        → s.allocations < frames
        → (conclude A preset overflow_checks loudness s).0 ≡ returned tt
    unfolding conclude stats
    conclude-returns overflow_checks loudness s h e some_made few =
        let checked = checks-return loudness 0 frames s (λ k low. h k (omega arith)) in
        let reused = reuses_lem overflow_checks s.leases s.allocations (omega arith) in
        rw
          (
            checked,
            reused,
            eq-eq_true s.leases frames e,
            leb-eq_true 1 s.allocations some_made,
            ltb-eq_true s.allocations frames few,
          )
          refl

    -- For a preset with at least one band, where no frame's expected loudness differs from itself, as
    -- a NaN does: once the loop over the frames is over, with fewer than 512 worker threads
    -- that do not use up the ids, whatever way they interleaved, the rest of `main` returns, with
    -- and without overflow checks. Every loudness agrees with the serial one, there was a lease for
    -- each frame, and there were some allocations, but fewer than frames.
    pub non_static_init_returns :
        (threads : Threads) (parallelism : Option ℕ) (ids : List ℕ) (overflow_checks : Bool)
        {r : Crew (List A.f64) ℕ A.f64} (is : List ℕ)
        → threads.next_tid + length ids < usize_max
        → length ids < frames
        → Reach any_item (measure A preset) (frames_start A preset threads parallelism ids) r
        → r.todo ≡ []
        → r.workers ≡ all_resting is
        → (conclude A preset overflow_checks r.results r.machine).0 ≡ returned tt
    unfolding stats
    non_static_init_returns threads parallelism ids overflow_checks {r} is room few q done off =
        let start_at : List A.f64 → Type 0 = λ c. c ≡ preset in
        let (holds, each, leased, most, fewer, some_made) =
          crew_run start_at threads parallelism (channel_from_preset A preset)
            (some (copy_preset A preset)) (measure A preset) any_item (range_from 0 frames) ids
            (λ n. (preset, refl, refl)) measure-Restores room
            (λ frame. (measure A preset frame preset).1) is
            (λ frame c e. ap (λ b. (measure A preset frame b).1) e) q done off in
        let n = length-range_from 0 frames in
        conclude-returns overflow_checks r.results r.machine
          (λ k low.
            collected_lem (λ frame. (measure A preset frame preset).1) r.results frames k each holds
              low)
          (omega (arith, leased, n)) (omega (arith, some_made, n)) (omega (arith, most))
