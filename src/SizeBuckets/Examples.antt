-- ===== src/SizeBuckets/Examples.antt =====
-- examples/size_buckets.rs: leases at concrete sizes.
use par_buffer_pool.Base.{ℕ, none, some, [], ◌∷◌, ◌≡◌, refl, true, false, arith, replicate, All}
use par_buffer_pool.Base.Effect.{returned, panicked}
use par_buffer_pool.Sharding.{no_ids}
use par_buffer_pool.Buffer.Pool.{new}
use par_buffer_pool.SizeBuckets.{
  ClassScratch, new_classes, get_class, with_capacity, class_capacity, trailing_zeros,
}
use par_buffer_pool.SizeBuckets.Zeroed.{
  IsScratch, new_classes-IsScratch, get_class-zeroed, get_class-small,
}
use par_buffer_pool.SizeBuckets.Tasks.{sizes, sizes_from, largest, sizes-served}

zeros_of_4096 : trailing_zeros 4096 ≡ 12
unfolding trailing_zeros
zeros_of_4096 = refl

zeros_of_0 : trailing_zeros 0 ≡ 64
unfolding trailing_zeros
zeros_of_0 = refl

-- The largest size that the example asks for.
abbrev scratch : ClassScratch ℕ
scratch = new_classes no_ids none 4111

get_class-zeroed_example :
    let (result, t) = get_class true 0 3 100 scratch in
    (result ≡ returned (record { buffer = some (replicate 100 0) })) × IsScratch 4111 t
get_class-zeroed_example =
    get_class-zeroed true 0 3 100 4111 scratch
      (new_classes-IsScratch no_ids none 4111 (omega arith)) (omega arith) (omega arith)
      (omega arith)

-- One pool, for the class of 16.
abbrev lone : ClassScratch ℕ
lone = record { threads = no_ids; pools = new no_ids none (with_capacity (class_capacity 4)) ∷ [] }

get_class-small_example : get_class false 0 3 0 lone ≡ (panicked, lone)
get_class-small_example = get_class-small false 0 3 0 lone (omega arith) (omega arith)

largest_size : largest sizes ≡ some 4110
unfolding largest sizes_from
largest_size = refl

sizes-served_example :
    let classed : ClassScratch ℕ = new_classes no_ids none 4110 in
    All
      (λ n.
        let (result, t) = get_class false 0 5 n classed in
        (result ≡ returned (record { buffer = some (replicate n 0) })) × IsScratch 4110 t)
      sizes
sizes-served_example =
    sizes-served false 0 5 4110 (new_classes no_ids none 4110) largest_size
      (new_classes-IsScratch no_ids none 4110 (omega arith))
