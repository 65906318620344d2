-- ===== src/NonStaticInit.antt =====
-- examples/non_static_init.rs: a parallel loop over frames, whose channels start at a preset that
-- the initializer and the hook borrow. The operations of an `f64` are parameters.
pub mod Loudness
mod Examples
use par_buffer_pool.Base.{
  ℕ, zero, suc, ◌+◌, ◌%◌, Bool, true, false, Option, none, some, List, [], ◌∷◌, ◌==◌, ltb, leb,
  if◌then◌else◌, length, get_elem?, set,
}
use par_buffer_pool.Base.Effect.{Outcome, returned, panicked, Op, pure, gets, assert, ◌>>=◌, ◌>>◌}
use par_buffer_pool.Sharding.{Threads}
use par_buffer_pool.Buffer.State.{Machine, InitFn, ResetFn}
use par_buffer_pool.Buffer.Pool
use par_buffer_pool.Buffer.Crew.{Work, Crew, start, build}
use par_buffer_pool.Buffer.Crew.Collect.{collected, range_from}

-- What the example uses of `f64`: two literals, a cast, sums, products and the test of equality.
pub record Floats : Type 1 where
  pub f64 : Type 0
  pub one : f64
  pub quarter : f64
  pub of_usize : ℕ → f64
  pub plus : f64 → f64 → f64
  pub times : f64 → f64 → f64
  pub sum : List f64 → f64
  pub eq : f64 → f64 → Bool

abbrev pub frames : ℕ
frames = 512

module _ (A : Floats) (preset : List A.f64) where
  -- `channel_from_preset(&preset)`
  abbrev pub channel_from_preset : InitFn (List A.f64)
  channel_from_preset n = returned preset

  -- `channel.copy_from_slice(&preset)`: a panic where the lengths differ.
  unfoldable pub copy_preset : ResetFn (List A.f64)
  copy_preset n channel =
      if length channel == length preset then (preset, returned tt) else (channel, panicked)

  -- 1.0 + (frame % 4) as f64 * 0.25
  abbrev pub boost : ℕ → A.f64
  boost frame = A.plus A.one (A.times (A.of_usize (frame % 4)) A.quarter)

  -- The boost of one band, and the sum over all bands; an index out of bounds is a panic, and so
  -- is the remainder where there are no bands.
  abbrev pub boost_at : ℕ → List A.f64 → Option A.f64 → List A.f64 × Outcome A.f64
  boost_at frame channel none = (channel, panicked)
  boost_at frame channel (some band) =
      let boosted = set channel (frame % length preset) (A.times band (boost frame)) in
      (boosted, returned (A.sum boosted))

  unfoldable pub measure : Work (List A.f64) ℕ A.f64
  measure frame channel = boost_at frame channel (get_elem? channel (frame % length preset))

  -- The comparison of one frame with what `main` derives from the preset itself.
  abbrev pub agrees : Outcome A.f64 → Option (Outcome A.f64) → Bool
  agrees panicked o = false
  agrees (returned expected) none = false
  agrees (returned expected) (some panicked) = false
  agrees (returned expected) (some (returned measured)) = A.eq expected measured

  unfoldable pub check_frames :
      List (ℕ × Outcome A.f64) → ℕ → ℕ → Op (Machine (List A.f64)) (Unit {0})
  unfolding measure
  check_frames loudness frame zero = pure tt
  check_frames loudness frame (suc n) = do
    assert (agrees (measure frame preset).1 (collected loudness frame))
    check_frames loudness (frame + 1) n

  -- The rest of `main`, with what the loop has collected.
  unfoldable pub conclude : Bool → List (ℕ × Outcome A.f64) → Op (Machine (List A.f64)) (Unit {0})
  unfolding check_frames Pool.stats Pool.reuses
  conclude overflow_checks loudness = do
    check_frames loudness 0 frames
    counts ← gets Pool.stats
    n ← λ s. (Pool.reuses overflow_checks counts, s)
    assert (counts.leases == frames)
    assert (leb 1 counts.allocations)
    assert (ltb counts.allocations frames)

  -- The pool that `main` builds, and the worker threads `ids` before the loop.
  abbrev pub frames_start : Threads → Option ℕ → List ℕ → Crew (List A.f64) ℕ A.f64
  frames_start threads parallelism ids =
      start (build threads parallelism channel_from_preset (some copy_preset)) (range_from 0 frames)
        ids
