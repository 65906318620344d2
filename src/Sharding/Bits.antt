-- ===== src/Sharding/Bits.antt =====
-- src/buffer.rs: an id under the mask of a power of two, `tid() & self.shard_mask`.
use Prim.Native.Nat.{bit_and, digits, bit_and-bitwise}
use native.Mathlib.Nat.{pow-suc}
use par_buffer_pool.Base.{ℕ, zero, suc, ◌-◌, ◌/◌, ◌%◌, ◌^◌, ◌≤◌, ◌<◌, min, ◌≡◌, refl, arith}

pub pow_pos : (k : ℕ) → 1 ≤ 2 ^ k
pow_pos zero = omega arith
pow_pos (suc k) = omega (arith, pow-suc 2 k, pow_pos k)

-- A mask of `k + 1` ones is odd, and half of it is a mask of `k` ones.
mask_parts : (k : ℕ) → ((2 ^ suc k - 1) / 2 ≡ 2 ^ k - 1) × ((2 ^ suc k - 1) % 2 ≡ 1)
mask_parts k = (omega (arith, pow-suc 2 k, pow_pos k), omega (arith, pow-suc 2 k, pow_pos k))

-- A masked word fits the mask, and is the word itself where that fits.
abbrev Masked : ℕ → ℕ → ℕ → Type 0
Masked k a r = (r < 2 ^ k) × (a < 2 ^ k → r ≡ a)

digits-Masked : (fuel k a : ℕ) → a ≤ fuel → Masked k a (digits (λ b. zero) min fuel a (2 ^ k - 1))
digits-Masked zero k zero h = (pow_pos k, λ _. refl)
digits-Masked zero k (suc a) h = absurd (omega arith)
digits-Masked (suc fuel) k zero h = (pow_pos k, λ _. refl)
digits-Masked (suc fuel) zero (suc a) h =
    let ih = digits-Masked fuel zero (suc a / 2) (omega arith) in
    (omega arith, λ small. omega arith)
digits-Masked (suc fuel) (suc k) (suc a) h =
    let ih = digits-Masked fuel k (suc a / 2) (omega arith) in
    rw ((mask_parts k).0, (mask_parts k).1)
      (omega (arith, ih.0, pow-suc 2 k), λ small. omega (arith, ih.1, pow-suc 2 k))

pub bit_and-Masked : (k a : ℕ) → Masked k a (bit_and a (2 ^ k - 1))
bit_and-Masked k a = rw (bit_and-bitwise a (2 ^ k - 1)) (digits-Masked a k a (omega arith))
