-- ===== src/Sharding/Examples.antt =====
-- src/buffer.rs: shard counts and thread ids at concrete inputs.
use par_buffer_pool.Base.{◌≡◌, ◌≢◌, refl, arith, some}
use par_buffer_pool.Sharding.{shard_count, no_ids, after_tid, shard_index}
use par_buffer_pool.Sharding.Bounds.{IsLeastPower, shard_count-IsLeastPower}
use par_buffer_pool.Sharding.Ids.{no_ids-IsDense, shard_index_distinct}

shard_count_200 : shard_count (some 200) ≡ 256
unfolding shard_count
shard_count_200 = refl

shard_count_8 : shard_count (some 8) ≡ 128
unfolding shard_count
shard_count_8 = refl

shard_count-IsLeastPower_example : IsLeastPower 200 (shard_count (some 200))
shard_count-IsLeastPower_example = shard_count-IsLeastPower 200 (omega arith)

shard_index_distinct_example : shard_index no_ids 3 127 ≢ shard_index (after_tid no_ids 3) 8 127
shard_index_distinct_example =
    shard_index_distinct no_ids 3 8 128 (omega arith) (omega arith) (7, refl) no_ids-IsDense
      (omega arith)
