-- ===== src/Sharding/Ids.antt =====
-- src/buffer.rs: the dense ids of the threads, `NEXT_TID` and `TID`.
use par_buffer_pool.Base.{ℕ, ◌+◌, ◌-◌, ◌≤◌, ◌<◌, ◌≡◌, ◌≢◌, refl, arith, ◌⊎◌, inl}
use par_buffer_pool.Base.Words.{usize_max, fetch_add_lem}
use par_buffer_pool.Sharding.Bits.{bit_and-Masked}
use par_buffer_pool.Sharding.Bounds.{IsPowerOfTwo}
use par_buffer_pool.Sharding.{Threads, no_ids, tid, after_tid, shard_index}

-- A cell is unassigned or holds an id below `NEXT_TID`, and no two cells hold one id.
pub record IsDense (t : Threads) : Type 0 where
  pub below : (i : ℕ) → (t.cell i ≡ usize_max) ⊎ (t.cell i < t.next_tid)
  pub distinct : (i j : ℕ) → t.cell i ≡ t.cell j → t.cell i ≢ usize_max → i ≡ j

pub no_ids-IsDense : IsDense no_ids
no_ids-IsDense = record { below = λ i. inl refl; distinct = λ i j e h. absurd (h refl) }

module _ (t : Threads) (i : ℕ) (room : t.next_tid < usize_max) (d : IsDense t) where
  -- The id of a thread is below the next one to be given out.
  pub tid-lt : tid t i < (after_tid t i).next_tid
  unfolding tid after_tid
  tid-lt = ground (arith, d.below i, fetch_add_lem t.next_tid 1)

  pub after_tid-next_tid : (after_tid t i).next_tid ≤ t.next_tid + 1
  unfolding after_tid
  after_tid-next_tid = ground (arith, fetch_add_lem t.next_tid 1)

  pub after_tid-cell : (after_tid t i).cell i ≡ tid t i
  unfolding tid after_tid
  after_tid-cell = ground arith

  -- Asking again gives the same id and changes nothing.
  pub tid-after_tid :
      (tid (after_tid t i) i ≡ tid t i) × (after_tid (after_tid t i) i ≡ after_tid t i)
  unfolding tid after_tid
  tid-after_tid = (ground (arith, d.below i), ground (arith, d.below i))

  pub after_tid-IsDense : IsDense (after_tid t i)
  unfolding after_tid
  after_tid-IsDense = record {
    below = λ j. ground (arith, d.below j, d.below i, fetch_add_lem t.next_tid 1);
    distinct = λ j k e h. ground (arith, d.below j, d.below k, d.distinct j k);
  }

  -- While ids are left to give out, and the ids given out are dense, a thread that has asked for
  -- its id keeps it when another thread asks for its own.
  pub tid-after_tid_other : (j : ℕ) → tid (after_tid (after_tid t i) j) i ≡ tid t i
  unfolding tid after_tid
  tid-after_tid_other j = ground (arith, d.below i)

-- While two ids are left to give out, and the ids given out are dense, two threads that ask one
-- after the other get different ids.
pub tid_distinct :
    (t : Threads) (i j : ℕ)
    → t.next_tid + 1 < usize_max
    → IsDense t
    → i ≢ j
    → tid t i ≢ tid (after_tid t i) j
unfolding tid after_tid
tid_distinct t i j room d h e =
    ground (arith, d.below i, d.below j, d.distinct i j, fetch_add_lem t.next_tid 1)

-- With `n` shards, `n` a power of two below 2 ^ 64 - 1: while at least two ids below `n` are left
-- to give out, and the ids given out are dense, two threads that ask one after the other select
-- different shards.
pub shard_index_distinct :
    (t : Threads) (i j n : ℕ)
    → t.next_tid + 2 ≤ n
    → n < usize_max
    → IsPowerOfTwo n
    → IsDense t
    → i ≢ j
    → shard_index t i (n - 1) ≢ shard_index (after_tid t i) j (n - 1)
unfolding shard_index
shard_index_distinct t i j n few fits (k, e) d h =
    let u = after_tid t i in
    let here = tid-lt t i (omega arith) d in
    let first = after_tid-next_tid t i (omega arith) d in
    let there = tid-lt u j (omega arith) (after_tid-IsDense t i (omega arith) d) in
    let second = after_tid-next_tid u j (omega arith) (after_tid-IsDense t i (omega arith) d) in
    rw e (
      rw
        ((bit_and-Masked k (tid t i)).1 (omega arith), (bit_and-Masked k (tid u j)).1 (omega arith))
        (tid_distinct t i j (omega arith) d h))
