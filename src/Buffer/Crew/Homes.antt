-- ===== src/Buffer/Crew/Homes.antt =====
-- src/buffer.rs: the shard of each thread, from its cell and the mask, while ids are given out.
use Prim.Native.Nat.{bit_and}
use par_buffer_pool.Base.{ℕ, ◌+◌, ◌≤◌, ◌<◌, ◌≡◌, ◌≢◌, arith, ◌==◌, if◌then◌else◌}
use par_buffer_pool.Base.Words.{usize_max, fetch_add_lem}
use par_buffer_pool.Sharding.{Threads, tid, after_tid, shard_index}

-- `n` where `j` is the shard of thread `i`, whose id is assigned, and 0 elsewhere.
unfoldable pub place : Threads → ℕ → ℕ → ℕ → ℕ → ℕ
place t mask i j n =
    if t.cell i == usize_max then 0 else if bit_and (t.cell i) mask == j then n else 0

unfoldable pub unassigned : Threads → ℕ → ℕ
unassigned t i = if t.cell i == usize_max then 1 else 0

pub place-le : (t : Threads) (mask i j n : ℕ) → place t mask i j n ≤ n
unfolding place
place-le t mask i j n = ground arith

pub place-zero : (t : Threads) (mask i j : ℕ) → place t mask i j 0 ≡ 0
unfolding place
place-zero t mask i j = ground arith

-- A shard that thread `i` does not select is not its own.
pub place-elsewhere :
    (t : Threads) (mask i j n : ℕ) → shard_index t i mask ≢ j → place t mask i j n ≡ 0
unfolding place shard_index tid
place-elsewhere t mask i j n d = ground arith

module _ (t : Threads) (i : ℕ) (room : t.next_tid < usize_max) where
  -- Once thread `i` has asked for its id, it has a shard.
  pub place-after_tid : (mask n : ℕ) → place (after_tid t i) mask i (shard_index t i mask) n ≡ n
  unfolding place shard_index tid after_tid
  place-after_tid mask n = ground arith

  -- No thread that has a shard loses it.
  pub place-after_tid_other :
      (mask k j n : ℕ) → place t mask k j n ≤ place (after_tid t i) mask k j n
  unfolding place after_tid
  place-after_tid_other mask k j n = ground arith

  pub unassigned-after_tid : (k : ℕ) → unassigned (after_tid t i) k ≤ unassigned t k
  unfolding unassigned after_tid
  unassigned-after_tid k = ground arith

  pub ids-after_tid :
      (after_tid t i).next_tid + unassigned (after_tid t i) i ≤ t.next_tid + unassigned t i
  unfolding unassigned after_tid
  ids-after_tid = ground (arith, fetch_add_lem t.next_tid 1)

pub unassigned-le : (t : Threads) (i : ℕ) → unassigned t i ≤ 1
unfolding unassigned
unassigned-le t i = ground arith
