-- ===== src/SizeBuckets/Classes.antt =====
-- examples/size_buckets.rs: the class of a size.
use native.Mathlib.Nat.{pow-suc, pow-le-pow_right}
use native.Mathlib.Decide.{dec_le}
use par_buffer_pool.Base.{ℕ, zero, suc, ◌/◌, ◌%◌, ◌^◌, ◌≤◌, ◌<◌, ◌≡◌, refl, ap, ◌∙◌, arith}
use par_buffer_pool.Sharding.Bits.{pow_pos}
use par_buffer_pool.Sharding.Bounds.{next_power_of_two-IsLeastPower}
use par_buffer_pool.SizeBuckets.{count_zeros, trailing_zeros, class_of}

count_zeros-pow : (fuel k : ℕ) → k < fuel → count_zeros fuel (2 ^ k) ≡ k
unfolding count_zeros
count_zeros-pow zero k h = absurd (omega arith)
count_zeros-pow (suc fuel) zero h = refl
count_zeros-pow (suc fuel) (suc k) h =
    let even : 2 ^ suc k % 2 ≡ 0 = omega (arith, pow-suc 2 k) in
    let half : 2 ^ suc k / 2 ≡ 2 ^ k = omega (arith, pow-suc 2 k) in
    rw (even, half) (ap suc (count_zeros-pow fuel k (omega arith)))

-- An exponent is at most another where the powers are.
exponent-le : (k m : ℕ) → 2 ^ k ≤ 2 ^ m → k ≤ m
exponent-le k m h = elim (dec_le k m) [
  | yes le ↦ le
  | no gt ↦ absurd (
      omega (
        arith,
        pow-le-pow_right {n = 2} (omega arith) {i = suc m} {j = k} (omega arith),
        pow-suc 2 m,
        pow_pos m,
      ))
]

-- The class of a size is the least exponent whose power reaches it.
pub record IsClass (n k : ℕ) : Type 0 where
  pub reaches : n ≤ 2 ^ k
  pub least : (m : ℕ) → n ≤ 2 ^ m → k ≤ m

pub class_of-IsClass : (n : ℕ) → n ≤ 2 ^ 63 → IsClass n (class_of n)
unfolding class_of trailing_zeros
class_of-IsClass n h =
    let p = next_power_of_two-IsLeastPower n h in
    let k = p.power.0 in
    let small : k ≤ 63 = exponent-le k 63 (omega (arith, p.power.1, p.least 63 h)) in
    let e : class_of n ≡ k = ap trailing_zeros p.power.1 ∙ count_zeros-pow 64 k (omega arith) in
    rw e (record {
      reaches = omega (arith, p.reaches, p.power.1);
      least = λ m q. exponent-le k m (omega (arith, p.power.1, p.least m q));
    })

pub class_of-small : (n : ℕ) → n ≤ 8 → class_of n ≤ 3
class_of-small n h = (class_of-IsClass n (omega arith)).least 3 (omega arith)

pub class_of-large : (n : ℕ) → 9 ≤ n → n ≤ 2 ^ 63 → 4 ≤ class_of n
class_of-large n h le =
    let q = (class_of-IsClass n le).reaches in
    elim (dec_le 4 (class_of n)) [
      | yes p ↦ p
      | no z ↦ absurd (
          omega
            (arith, pow-le-pow_right {n = 2} (omega arith) {i = class_of n} {j = 3} (omega arith)))
    ]

pub class_of-le : (n m : ℕ) → n ≤ m → m ≤ 2 ^ 63 → class_of n ≤ class_of m
class_of-le n m le h =
    (class_of-IsClass n (omega arith)).least (class_of m)
      (omega (arith, (class_of-IsClass m h).reaches))
