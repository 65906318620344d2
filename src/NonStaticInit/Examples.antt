-- ===== src/NonStaticInit/Examples.antt =====
-- examples/non_static_init.rs: a run to the end, with numbers in the place of floats.
use par_buffer_pool.Base.{
  ℕ, ◌+◌, ◌*◌, true, none, some, List, [], ◌∷◌, ◌≡◌, refl, arith, total, ◌==◌, eq_refl, All-any,
}
use par_buffer_pool.Base.Effect.{returned}
use par_buffer_pool.Sharding.{no_ids}
use par_buffer_pool.Buffer.Crew.{Crew, Reach, here, all_resting, any_item}
use par_buffer_pool.Buffer.Crew.Outlook.{Taker}
use par_buffer_pool.Buffer.Crew.Completes.{crew_completes}
use par_buffer_pool.Buffer.Crew.Collect.{range_from}
use par_buffer_pool.NonStaticInit.{
  Floats, frames, frames_start, channel_from_preset, copy_preset, measure, conclude,
}
use par_buffer_pool.NonStaticInit.Loudness.{non_static_init_returns, measure-Restores}

-- Numbers of quarters.
abbrev quarters : Floats
quarters = record {
  f64 = ℕ;
  one = 4;
  quarter = 1;
  of_usize = λ n. n;
  plus = λ a b. a + b;
  times = λ a b. a * b;
  sum = total (λ a. a);
  eq = λ a b. a == b;
}

abbrev preset : List ℕ
preset = 8 ∷ 10 ∷ 12 ∷ []

abbrev ids : List ℕ
ids = 2 ∷ 3 ∷ []

abbrev ended :
    (r : Crew (List ℕ) ℕ ℕ) × Reach any_item
      (measure quarters preset)
      (frames_start quarters preset no_ids none ids)
      r
    × (r.todo ≡ [])
    × (r.workers ≡ all_resting ids)
ended =
    crew_completes (λ c. c ≡ preset) no_ids none (channel_from_preset quarters preset)
      (some (copy_preset quarters preset)) (measure quarters preset) any_item (range_from 0 frames)
      ids (λ n. (preset, refl, refl)) (measure-Restores quarters preset (omega arith)) (omega arith)
      (All-any (Taker any_item ids) (range_from 0 frames) (λ x. (2, tt, [], 3 ∷ [], refl))) here

non_static_init_returns_example :
    (conclude quarters preset true ended.0.results ended.0.machine).0 ≡ returned tt
non_static_init_returns_example =
    non_static_init_returns quarters preset (omega arith) (λ frame loud e. eq_refl loud) no_ids none
      ids true ids (omega arith) (omega arith) ended.1 ended.2 ended.3
