-- ===== src/Sharding/Bounds.antt =====
-- src/buffer.rs: the sizing of the shards.
use native.Mathlib.Nat.{pow-succ', pow-le-pow_right, add-zero, add-suc, suc-add}
use native.Mathlib.Decide.{dec_le}
use par_buffer_pool.Base.{
  ℕ, zero, suc, ◌+◌, ◌-◌, ◌^◌, ◌≤◌, ◌<◌, max, ◌≡◌, refl, Option, none, some, arith, leb-eq_true,
  leb-eq_false, ◌⊎◌, inl, inr,
}
use par_buffer_pool.Sharding.Bits.{bit_and-Masked}
use par_buffer_pool.Sharding.{
  double_up, next_power_of_two, shard_count, min_shards, Threads, shard_index, tid,
}

abbrev pub IsPowerOfTwo : ℕ → Type 0
IsPowerOfTwo n = (k : ℕ) × (n ≡ 2 ^ k)

-- `r` is a power of two that reaches `n`, and no smaller one does.
pub record IsLeastPower (n r : ℕ) : Type 0 where
  pub power : IsPowerOfTwo r
  pub reaches : n ≤ r
  pub least : (m : ℕ) → n ≤ 2 ^ m → r ≤ 2 ^ m

-- A power that falls short of `n` has a smaller exponent than one that does not.
below_power : (k m n : ℕ) → 2 ^ k < n → n ≤ 2 ^ m → suc k ≤ m
below_power k m n h q = elim (dec_le (suc k) m) [
  | yes le ↦ le
  | no gt ↦
      absurd (omega (arith, pow-le-pow_right {n = 2} (omega arith) {i = m} {j = k} (omega arith)))
]

stopped : (k n : ℕ) → n ≤ 2 ^ k → ((m : ℕ) → n ≤ 2 ^ m → k ≤ m) → IsLeastPower n (2 ^ k)
stopped k n fits low = record {
  power = (k, refl);
  reaches = fits;
  least = λ m q. pow-le-pow_right {n = 2} (omega arith) (low m q);
}

-- With the powers below 2 ^ k ruled out and `fuel` more to go, the search finds the least one.
double_up-IsLeastPower :
    (fuel k n : ℕ)
    → n ≤ 2 ^ (k + fuel)
    → ((m : ℕ) → n ≤ 2 ^ m → k ≤ m)
    → IsLeastPower n (double_up (suc fuel) (2 ^ k) n)
unfolding double_up
double_up-IsLeastPower zero k n fits low =
    rw (leb-eq_true n (2 ^ k) (rw add-zero at fits)) (stopped k n (rw add-zero at fits) low)
double_up-IsLeastPower (suc fuel) k n fits low = elim (dec_le n (2 ^ k)) [
  | yes stop ↦ rw (leb-eq_true n (2 ^ k) stop) (stopped k n stop low)
  | no more ↦
      rw (leb-eq_false n (2 ^ k) (omega arith), ← pow-succ' 2 k)
        (double_up-IsLeastPower fuel (suc k) n (rw (add-suc, ← suc-add) at fits)
          (λ m q. below_power k m n (omega arith) q))
]

pub next_power_of_two-IsLeastPower : (n : ℕ) → n ≤ 2 ^ 63 → IsLeastPower n (next_power_of_two n)
unfolding next_power_of_two
next_power_of_two-IsLeastPower n h =
    double_up-IsLeastPower 63 0 n (omega arith) (λ m q. omega arith)

-- Where the machine reports a parallelism of at most 2 ^ 63, the number of shards is the least
-- power of two that reaches both `min_shards` and that parallelism.
pub shard_count-IsLeastPower :
    (n : ℕ) → n ≤ 2 ^ 63 → IsLeastPower (max n min_shards) (shard_count (some n))
unfolding shard_count
shard_count-IsLeastPower n h =
    let p = next_power_of_two-IsLeastPower n h in
    elim (dec_le (next_power_of_two n) 128) [
      | yes low ↦ record {
        power = (7, omega arith);
        reaches = omega (arith, p.reaches);
        least = λ m q. omega arith;
      }
      | no high ↦ record {
        power = (p.power.0, omega (arith, p.power.1));
        reaches = omega (arith, p.reaches);
        least = λ m q. omega (arith, p.least m (omega arith));
      }
    ]

-- Past the largest power of a `usize` the search gives 0.
double_up_cases :
    (fuel k n : ℕ) → (double_up fuel (2 ^ k) n ≡ 0) ⊎ IsPowerOfTwo (double_up fuel (2 ^ k) n)
unfolding double_up
double_up_cases zero k n = inl refl
double_up_cases (suc fuel) k n = elim (dec_le n (2 ^ k)) [
  | yes stop ↦ rw (leb-eq_true n (2 ^ k) stop) (inr (k, refl))
  | no more ↦
      rw (leb-eq_false n (2 ^ k) (omega arith), ← pow-succ' 2 k) (double_up_cases fuel (suc k) n)
]

max-IsPowerOfTwo : (m : ℕ) → (m ≡ 0) ⊎ IsPowerOfTwo m → IsPowerOfTwo (max m min_shards)
max-IsPowerOfTwo m (inl e) = (7, omega arith)
max-IsPowerOfTwo m (inr (k, e)) = elim (dec_le m 128) [
  | yes low ↦ (7, omega arith)
  | no high ↦ (k, omega arith)
]

-- Whatever the machine reports, the number of shards is a power of two and at least `min_shards`.
pub shard_count_bounds :
    (par : Option ℕ) → IsPowerOfTwo (shard_count par) × (min_shards ≤ shard_count par)
unfolding shard_count next_power_of_two
shard_count_bounds none = ((7, refl), omega arith)
shard_count_bounds (some n) = (max-IsPowerOfTwo _ (double_up_cases 64 0 n), omega arith)

-- Where the number of shards is a power of two, every thread selects a shard that exists.
pub shard_index-lt : (t : Threads) (i n : ℕ) → IsPowerOfTwo n → shard_index t i (n - 1) < n
unfolding shard_index
shard_index-lt t i n (k, e) = rw e ((bit_and-Masked k (tid t i)).0)
