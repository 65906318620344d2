-- ===== src/Local/Examples.antt =====
-- src/local.rs: two pools of different element types at concrete inputs.
use par_buffer_pool.Base.{ℕ, ◌+◌, Bool, true, false, none, some, ◌≡◌, ◌⊎◌, refl, arith, get_elem?}
use mathlib.Core.Bool.{Bool-discrete}
use par_buffer_pool.Base.Effect.{Outcome, returned, panicked}
use par_buffer_pool.Local.State.{Elements, LocalPool, Process}
use par_buffer_pool.Base.Words.{fetch_add}
use par_buffer_pool.Local.Registry.{with_registry}
use par_buffer_pool.Local.Pool.{
  new, get_local, put_local, with_local, idle_len_local, slot_count, release_local,
}
use par_buffer_pool.Local.Safety.{IsHandle, IsLease}
use par_buffer_pool.Local.Threads.{
  empty_process, create, give_back, Reach, start, next, get_local_sound, put_local_sound,
  with_local_sound,
}
use par_buffer_pool.Local.RoundTrip.{get_local-put_local}
use par_buffer_pool.Local.Reclaim.{release-reclaims, release-spares}

abbrev ElemOf : Bool → Type 0
ElemOf true = ℕ
ElemOf false = Bool

abbrev two_types : Elements
two_types = record { TypeId = Bool; Elem = ElemOf; same_type = Bool-discrete }

abbrev count_up : ℕ → Outcome ℕ
count_up k = returned (100 + k)

abbrev clear : ℕ → ℕ → ℕ × Outcome (Unit {0})
clear k b = (0, returned tt)

abbrev switched_off : ℕ → Outcome Bool
switched_off k = returned false

abbrev numbers : LocalPool two_types
numbers = record { elem = true; id = 0; live = 0; init = count_up; reset = none }

-- The handle after `with_reset`.
abbrev cleared : LocalPool two_types
cleared = record numbers { reset = some clear }

abbrev switches : LocalPool two_types
switches = record { elem = false; id = 1; live = 1; init = switched_off; reset = none }

abbrev one_pool : Process two_types
one_pool = (new two_types true count_up (empty_process two_types)).1

abbrev two_pools : Process two_types
two_pools = (new two_types false switched_off one_pool).1

two_pools-Reach : Reach two_types two_pools
unfolding new fetch_add
two_pools-Reach =
    next (next start (create true count_up (omega arith))) (create false switched_off (omega arith))

cleared-IsHandle : IsHandle two_types cleared two_pools
unfolding new fetch_add
cleared-IsHandle = record { owner = (numbers, refl, refl); flagged = refl }

switches-IsHandle : IsHandle two_types switches two_pools
unfolding new fetch_add
switches-IsHandle = record { owner = (switches, refl, refl); flagged = refl }

get_local_sound_example :
    IsLease two_types switches 3
      (two_pools.counters 1).init_runs
      (get_local two_types switches 3 two_pools).0
get_local_sound_example =
    get_local_sound two_types two_pools switches 3 two_pools-Reach switches-IsHandle

put_local_sound_example : (put_local two_types cleared 3 7 two_pools).0 ≡ returned tt
put_local_sound_example =
    put_local_sound two_types two_pools cleared 3 7 two_pools-Reach cleared-IsHandle

get_local-put_local_example :
    let (result, t) = get_local two_types cleared 3 (put_local two_types cleared 3 7 two_pools).1 in
    (result ≡ returned (record { buffer = some 0 }))
    × ((t.counters 0).init_runs ≡ (two_pools.counters 0).init_runs)
get_local-put_local_example =
    get_local-put_local two_types two_pools cleared 3 7 0 two_pools-Reach cleared-IsHandle refl

-- Thread 3 has parked a number.
abbrev parked : Process two_types
parked = (put_local two_types numbers 3 7 two_pools).1

parked-Reach : Reach two_types parked
unfolding new fetch_add
parked-Reach =
    next two_pools-Reach
      (give_back numbers 3 7 (record { owner = (numbers, refl, refl); flagged = refl }))

release-reclaims_example :
    let after = (idle_len_local two_types switches 3 (release_local two_types numbers parked)).1 in
    slot_count two_types (get_elem? (after.registries 3).slots 0) ≡ 0
unfolding new put_local with_registry fetch_add
release-reclaims_example =
    release-reclaims two_types parked numbers switches 3 parked-Reach
      (record { owner = (numbers, refl, refl); flagged = refl }) refl (omega arith)

release-spares_example :
    (idle_len_local two_types numbers 3 (release_local two_types switches parked)).0
    ≡ (idle_len_local two_types numbers 3 parked).0
unfolding new put_local with_registry fetch_add
release-spares_example =
    release-spares two_types parked switches numbers 3 parked-Reach
      (record { owner = (switches, refl, refl); flagged = refl })
      (record { owner = (numbers, refl, refl); flagged = refl }) (omega arith) refl

abbrev add_one : ℕ → ℕ × Outcome ℕ
add_one b = (b + 1, returned b)

with_local_sound_example :
    ((b : ℕ) × ((get_local two_types numbers 3 parked).0 ≡ returned (record { buffer = some b }))
      × ((with_local two_types numbers 3 add_one parked).0 ≡ returned b))
    ⊎ ((count_up (parked.counters 0).init_runs ≡ panicked)
        × ((with_local two_types numbers 3 add_one parked).0 ≡ panicked))
unfolding new put_local with_registry
with_local_sound_example =
    with_local_sound two_types parked numbers 3 add_one parked-Reach
      (record { owner = (numbers, refl, refl); flagged = refl }) refl
