-- ===== src/SizeBuckets.antt =====
-- examples/size_buckets.rs: scratch buffers of any size, from one pool and from one pool per class
-- of sizes. A `Vec` is the list of its elements.
pub mod Classes
pub mod Lease
pub mod Zeroed
pub mod Tasks
mod Examples
use par_buffer_pool.Base.{
  ℕ, zero, suc, ◌+◌, ◌-◌, ◌*◌, ◌/◌, ◌%◌, ◌^◌, max, Bool, Option, none, some, List, [], ◌∷◌, ◌++◌,
  ◌==◌, leb, if◌then◌else◌, length, get_elem?, set,
}
use par_buffer_pool.Base.Words.{fetch_sub}
use par_buffer_pool.Base.Effect.{
  Outcome, returned, panicked, Op, pure, panic, ◌>>=◌, ◌>>◌, and_then,
}
use par_buffer_pool.Sharding.{Threads, next_power_of_two}
use par_buffer_pool.Buffer.State.{Machine, InitFn, SharedPooledOwned}
use par_buffer_pool.Buffer.Guard.{deref_mut_owned, drop_owned}
use par_buffer_pool.Buffer.Pool

-- `usize::trailing_zeros`: a `usize` has 64 bits.
unfoldable pub count_zeros : ℕ → ℕ → ℕ
count_zeros zero n = 0
count_zeros (suc fuel) n = let rest = count_zeros fuel (n / 2) in if n % 2 == 0 then suc rest else 0

unfoldable pub trailing_zeros : ℕ → ℕ
unfolding count_zeros
trailing_zeros n = count_zeros 64 n

-- `max_n.next_power_of_two().trailing_zeros()`
unfoldable pub class_of : ℕ → ℕ
class_of n = trailing_zeros (next_power_of_two n)

-- `class - 4`, which panics below 0 where overflow is checked, and wraps elsewhere.
unfoldable pub checked_sub : Bool → ℕ → ℕ → Outcome ℕ
checked_sub overflow_checks a b =
    if leb b a
    then returned (a - b)
    else if overflow_checks
    then panicked
    else returned (fetch_sub a b)

-- The bytes of an `f64`, and `isize::MAX`, which the bytes of a vector do not exceed.
abbrev pub element_size : ℕ
element_size = 8

abbrev pub isize_max : ℕ
isize_max = 2 ^ 63 - 1

module _ {ℓ} {E : Type ℓ} where
  -- `Vec::clear`, and `Vec::resize` as it is documented: cut, or filled up with `e`.
  abbrev pub clear : List E → List E
  clear buf = []

  abbrev pub resized : ℕ → E → List E → List E
  resized zero e buf = []
  resized (suc n) e [] = e ∷ resized n e []
  resized (suc n) e (x ∷ buf) = x ∷ resized n e buf

  -- More than `isize::MAX` bytes is a capacity overflow, which panics before the vector changes.
  abbrev pub resize : ℕ → E → List E → List E × Outcome (Unit {0})
  resize n e buf =
      if leb (element_size * n) isize_max then (resized n e buf, returned tt) else (buf, panicked)

  -- The lease goes to the caller; where `resize` panicked it is dropped.
  abbrev pub or_unwind :
      ℕ
      → SharedPooledOwned (List E) × Outcome (Unit {0})
      → Op (Machine (List E)) (SharedPooledOwned (List E))
  or_unwind i (lease, returned u) = pure lease
  or_unwind i (lease, panicked) = do drop_owned i lease; panic

  -- `buf.clear(); buf.resize(n, 0.0); buf`
  unfoldable pub prepare :
      ℕ → ℕ → E → SharedPooledOwned (List E) → Op (Machine (List E)) (SharedPooledOwned (List E))
  prepare i n e lease = do
    (cleared, _) ← deref_mut_owned lease (λ buf. (clear buf, tt {0}))
    filled ← deref_mut_owned cleared (resize n e)
    or_unwind i filled

  -- `AnySizeScratch::get`; `e` is 0.0.
  unfoldable pub get_any_size : E → ℕ → ℕ → Op (Machine (List E)) (SharedPooledOwned (List E))
  unfolding prepare
  get_any_size e i n = do buf ← Pool.get_owned i; prepare i n e buf

  -- `Vec::new`
  abbrev pub empty_vec : InitFn (List E)
  empty_vec n = returned []

  -- `Vec::with_capacity`
  abbrev pub with_capacity : ℕ → InitFn (List E)
  with_capacity cap n = if leb (element_size * cap) isize_max then returned [] else panicked

-- `1usize << c`, where only the low 6 bits of `c` count.
abbrev pub class_capacity : ℕ → ℕ
class_capacity c = 2 ^ (c % 64)

-- The pools of the classes; all of them see the same ids of threads.
pub record ClassScratch {ℓ} (E : Type ℓ) : Type ℓ where
  pub threads : Threads
  pub pools : List (Machine (List E))

module _ {ℓ} {E : Type ℓ} where
  -- The pools of `n` classes from `c` on.
  unfoldable pub class_pools : Threads → Option ℕ → ℕ → ℕ → List (Machine (List E))
  class_pools threads parallelism c zero = []
  class_pools threads parallelism c (suc n) =
      Pool.new threads parallelism (with_capacity (class_capacity c))
      ∷ class_pools threads parallelism (c + 1) n

  -- `ClassScratch::new`: a pool for each class in `4..=max_class`.
  unfoldable pub new_classes : Threads → Option ℕ → ℕ → ClassScratch E
  unfolding class_pools
  new_classes threads parallelism max_n = record {
    threads = threads;
    pools = class_pools threads parallelism 4 (class_of max_n + 1 - 4);
  }

  abbrev pub on_pool {κ} :
      {A : Type κ} → Option (Machine (List E)) → ℕ → Op (Machine (List E)) A → Op (ClassScratch E) A
  on_pool none k call s = (panicked, s)
  on_pool (some p) k call s =
      let (result, q) = call (record p { threads = s.threads }) in
      (result, record { threads = q.threads; pools = set s.pools k q })

  -- A call on `self.pools[k]`; out of bounds is a panic.
  unfoldable pub at_pool {κ} : {A : Type κ} → ℕ → Op (Machine (List E)) A → Op (ClassScratch E) A
  at_pool k call s = on_pool (get_elem? s.pools k) k call s

  -- `ClassScratch::get`
  unfoldable pub get_class : Bool → E → ℕ → ℕ → Op (ClassScratch E) (SharedPooledOwned (List E))
  unfolding at_pool
  get_class overflow_checks e i n s =
      and_then (checked_sub overflow_checks (class_of (max n 1)) 4) s
        (λ k. at_pool k (get_any_size e i n))
