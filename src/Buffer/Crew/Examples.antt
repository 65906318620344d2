-- ===== src/Buffer/Crew/Examples.antt =====
-- src/buffer.rs with the parallel loops of examples/: a crew at concrete inputs.
use par_buffer_pool.Base.{
  ℕ, ◌+◌, ◌≤◌, ◌<◌, none, some, List, [], ◌∷◌, ◌≡◌, refl, arith, total, length, All, All-any, ◌⊎◌,
}
use par_buffer_pool.Base.Effect.{returned}
use par_buffer_pool.Sharding.{no_ids}
use par_buffer_pool.Buffer.State.{InitFn, ResetFn}
use par_buffer_pool.Buffer.Weights.{idle}
use par_buffer_pool.Buffer.Pool.{stats}
use par_buffer_pool.Buffer.Concurrent.{counting_lease}
use par_buffer_pool.Buffer.Crew.{
  build, Crew, Work, Reach, here, next, take_item, run, any_item, start, all_resting, worker,
  resting, busy,
}
use par_buffer_pool.Buffer.Crew.Phases.{Restores}
use par_buffer_pool.Buffer.Crew.Sound.{weigh, hands}
use par_buffer_pool.Buffer.Crew.Results.{crew_allocations, crew_results, crew_ends}
use par_buffer_pool.Buffer.Crew.Outlook.{Taker}
use par_buffer_pool.Buffer.Crew.Completes.{crew_completes}

-- Buffers that start at 7 and are put back to 7; the work adds its item.
abbrev seven : InitFn ℕ
seven n = returned 7

abbrev back_to_seven : ResetFn ℕ
back_to_seven n b = (7, returned tt)

abbrev adding : Work ℕ ℕ ℕ
adding x b = (b + x, returned (b + x))

abbrev items : List ℕ
items = 10 ∷ 20 ∷ 30 ∷ []

abbrev ids : List ℕ
ids = 4 ∷ 9 ∷ []

abbrev fresh : Crew ℕ ℕ ℕ
fresh = start (build no_ids none seven (some back_to_seven)) items ids

abbrev IsSeven : ℕ → Type 0
IsSeven b = b ≡ 7

seven-makes : (n : ℕ) → (b : ℕ) × (seven n ≡ returned b) × (b ≡ 7)
seven-makes n = (7, refl, refl)

IsSeven-Restores : (x b : ℕ) → b ≡ 7 → Restores IsSeven (some back_to_seven) (adding x b).0
IsSeven-Restores x b e n = (7, refl, refl)

-- Both workers have taken an item, and one has counted its lease.
abbrev two_leases : (r : Crew ℕ ℕ ℕ) × Reach any_item adding fresh r
two_leases =
    let one =
      next here (take_item 9 20 (10 ∷ []) (30 ∷ []) (worker 4 resting ∷ []) [] refl refl tt) in
    let both = next one (
      take_item 4 10 [] (30 ∷ []) [] (worker 9 (busy (some 20) counting_lease) ∷ []) refl refl
        tt) in
    (
      _,
      next both
          (run 9 (some 20) counting_lease (worker 4 (busy (some 10) counting_lease) ∷ []) [] refl),
    )

taken_in_turn : All (Taker any_item ids) items
taken_in_turn = All-any (Taker any_item ids) items (λ x. (4, tt, [], 9 ∷ [], refl))

crew_completes_example :
    (t : Crew ℕ ℕ ℕ) × Reach any_item adding fresh t × (t.todo ≡ []) × (t.workers ≡ all_resting ids)
crew_completes_example =
    crew_completes IsSeven no_ids none seven (some back_to_seven) adding any_item items ids
      seven-makes IsSeven-Restores (omega arith) taken_in_turn two_leases.1

abbrev ended :
    (t : Crew ℕ ℕ ℕ) × Reach any_item adding fresh t × (t.todo ≡ []) × (t.workers ≡ all_resting ids)
ended =
    crew_completes IsSeven no_ids none seven (some back_to_seven) adding any_item items ids
      seven-makes IsSeven-Restores (omega arith) taken_in_turn two_leases.1

crew_allocations_example :
    ((stats two_leases.0.machine).allocations ≤ 2) × ((stats two_leases.0.machine).allocations ≤ 3)
crew_allocations_example =
    crew_allocations IsSeven no_ids none seven (some back_to_seven) adding any_item items ids
      seven-makes IsSeven-Restores (omega arith) two_leases.1

crew_results_example :
    All (λ q. q.1 ≡ returned (7 + q.0)) ended.0.results
    × ((w : ℕ → ℕ)
        → total w ended.0.todo + total (hands w) ended.0.workers + total (weigh w) ended.0.results
          ≡ total w items)
crew_results_example =
    crew_results IsSeven no_ids none seven (some back_to_seven) adding any_item items ids
      seven-makes IsSeven-Restores (omega arith) (λ x. returned (7 + x)) (λ x b e. rw e refl)
      ended.1

crew_ends_example :
    ((w : ℕ → ℕ) → total (weigh w) ended.0.results ≡ total w items)
    × ((stats ended.0.machine).leases ≡ 3)
    × (idle ended.0.machine ≡ (stats ended.0.machine).allocations)
    × ((length items ≡ 0) ⊎ (0 < (stats ended.0.machine).allocations))
crew_ends_example =
    crew_ends IsSeven no_ids none seven (some back_to_seven) adding any_item items ids seven-makes
      IsSeven-Restores (omega arith) ids ended.1 ended.2 ended.3
