-- ===== src/Base/Words.antt =====
-- `usize` on a 64-bit target, and the wrapping arithmetic of its atomics.
use Prim.Native.Nat.{ℕ, ◌+◌, ◌-◌, ◌%◌, ◌^◌, ◌≤◌, ◌<◌}
use mathlib.Core.Path.{◌≡◌}
use native.Mathlib.Omega.{arith}

abbrev pub usize_mod : ℕ
usize_mod = 2 ^ 64

abbrev pub usize_max : ℕ
usize_max = 2 ^ 64 - 1

-- What `AtomicUsize::fetch_add(n)` leaves in the cell.
unfoldable pub fetch_add : ℕ → ℕ → ℕ
fetch_add a n = (a + n) % usize_mod

-- What `AtomicUsize::fetch_sub(n)` leaves in the cell.
unfoldable pub fetch_sub : ℕ → ℕ → ℕ
fetch_sub a n = (a + usize_mod - n) % usize_mod

pub fetch_add_lem : (a n : ℕ) → a + n < usize_mod → fetch_add a n ≡ a + n
unfolding fetch_add
fetch_add_lem a n h = omega arith

pub fetch_sub_lem : (a n : ℕ) → n ≤ a → a < usize_mod → fetch_sub a n ≡ a - n
unfolding fetch_sub
fetch_sub_lem a n h k = omega arith

-- A claim that is given back leaves the cell as it was, also where it wrapped.
pub fetch_sub-fetch_add :
    (a n : ℕ) → a < usize_mod → n < usize_mod → fetch_sub (fetch_add a n) n ≡ a
unfolding fetch_add fetch_sub
fetch_sub-fetch_add a n h k = omega arith

pub fetch_add-lt : (a n : ℕ) → fetch_add a n < usize_mod
unfolding fetch_add
fetch_add-lt a n = omega arith

pub fetch_add-mod : (a n : ℕ) → fetch_add a n ≡ (a + n) % usize_mod
unfolding fetch_add
fetch_add-mod a n = omega arith

-- A subtraction below 0 wraps.
pub fetch_sub-wraps : (n : ℕ) → 0 < n → n < usize_mod → fetch_sub 0 n ≡ usize_mod - n
unfolding fetch_sub
fetch_sub-wraps n pos small = omega arith
