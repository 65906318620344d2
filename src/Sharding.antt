-- ===== src/Sharding.antt =====
-- src/buffer.rs: how many shards a pool has, the dense ids of the threads, and the shard that an
-- id selects.
pub mod Bits
pub mod Bounds
pub mod Ids
mod Examples
use Prim.Native.Nat.{bit_and}
use par_buffer_pool.Base.{ℕ, zero, suc, ◌+◌, ◌*◌, max, Option, none, some, leb, ◌==◌, if◌then◌else◌}
use par_buffer_pool.Base.Words.{usize_max, fetch_add}

abbrev pub min_shards : ℕ
min_shards = 128

-- Doubles `p` until it reaches `n`; past the largest power of a `usize` the result wraps to 0.
pub double_up : ℕ → ℕ → ℕ → ℕ
double_up zero p n = 0
double_up (suc fuel) p n = let rest = double_up fuel (2 * p) n in if leb n p then p else rest

-- `usize::next_power_of_two`: a `usize` has 64 powers of two.
pub next_power_of_two : ℕ → ℕ
unfolding double_up
next_power_of_two n = double_up 64 1 n

-- `available_parallelism()` is the argument, `none` where the call fails.
unfoldable pub shard_count : Option ℕ → ℕ
unfolding next_power_of_two
shard_count none = min_shards
shard_count (some n) = max (next_power_of_two n) min_shards

-- `NEXT_TID`, and the cell `TID` of each thread.
pub record Threads : Type 0 where
  pub next_tid : ℕ
  pub cell : ℕ → ℕ

abbrev pub no_ids : Threads
no_ids = record { next_tid = 0; cell = λ _. usize_max }

abbrev pub write_cell : (ℕ → ℕ) → ℕ → ℕ → ℕ → ℕ
write_cell f i v j = if i == j then v else f j

-- The id of thread `i`, and the state in which it is assigned.
unfoldable pub tid : Threads → ℕ → ℕ
tid t i = if t.cell i == usize_max then t.next_tid else t.cell i

unfoldable pub after_tid : Threads → ℕ → Threads
after_tid t i =
    if t.cell i == usize_max
    then record t { next_tid = fetch_add t.next_tid 1; cell = write_cell t.cell i t.next_tid }
    else t

-- `tid() & self.shard_mask`
unfoldable pub shard_index : Threads → ℕ → ℕ → ℕ
shard_index t i mask = bit_and (tid t i) mask
