-- ===== src/Buffer/Inner/Forms.antt =====
-- src/buffer.rs: what the steps of `PoolInner` give, with the pile of the calling thread at hand.
use mathlib.Core.Option
use par_buffer_pool.Base.{
  ℕ, ◌+◌, ◌-◌, ◌<◌, Bool, true, Option, none, some, List, leb, leb-eq_true, leb-eq_false,
  if◌then◌else◌, length, get_elem?, set, push, pop, ◌≡◌, refl, arith, get_elem?-lt, Option-cases,
  inl, inr, not,
}
use native.Mathlib.Decide.{dec_le}
use par_buffer_pool.Base.Words.{fetch_sub, fetch_add_lem, fetch_sub-fetch_add, usize_mod}
use par_buffer_pool.Base.Effect.{returned}
use par_buffer_pool.Sharding.{after_tid, shard_index}
use par_buffer_pool.Sharding.Bounds.{IsPowerOfTwo, shard_index-lt}
use par_buffer_pool.Buffer.State.{Mutex, lock_pile, write_pile, Machine}
use par_buffer_pool.Buffer.Inner.{
  set_shards, set_reserve, set_parked, unpark, unpark_popped, pop_shard, pop_reserve, claim,
  cap_allows, park,
}

pub lock_pile_lem {ℓ} : {A : Type ℓ} (m : Mutex A) → lock_pile m ≡ m.value
unfolding lock_pile
lock_pile_lem m = ground arith

-- What the cap decides, by the count alone.
abbrev pub has_room : ℕ → Option ℕ → Bool
has_room n none = true
has_room n (some p) = not (leb n p)

abbrev pub claimed : ℕ → Option ℕ → Option ℕ
claimed n none = none
claimed n (some p) = some (if leb n p then p else p + 1)

-- A count below the modulus, and a cap below it.
abbrev pub Fits : Option ℕ → Type 0
Fits none = Unit {0}
Fits (some p) = p < usize_mod

module _ {ℓ} {T : Type ℓ} where
  -- The number of shards is a power of two, and the mask fits it.
  pub record IsSharded (s : Machine T) : Type 0 where
    pub power : IsPowerOfTwo (length s.shards)
    pub masked : s.shard_mask ≡ length s.shards - 1

  -- The index of the pile of thread `i`, and the state in which its id is assigned.
  abbrev pub index : ℕ → Machine T → ℕ
  index i s = shard_index s.threads i s.shard_mask

  abbrev pub with_id : ℕ → Machine T → Machine T
  with_id i s = record s { threads = after_tid s.threads i }

  abbrev pub Own : ℕ → Machine T → Mutex (List T) → Type ℓ
  Own i s m = get_elem? s.shards (index i s) ≡ some m

  pub index-lt : (i : ℕ) (s : Machine T) → IsSharded s → index i s < length s.shards
  index-lt i s h = rw h.masked (shard_index-lt s.threads i (length s.shards) h.power)

  pub find_pile : (i : ℕ) (s : Machine T) → IsSharded s → (m : Mutex (List T)) × Own i s m
  find_pile i s h = get_elem?-lt s.shards (index i s) (index-lt i s h)

  abbrev pub unparked : Option T → Machine T → Machine T
  unparked none s = s
  unparked (some b) s = set_parked (Option.map (λ p. fetch_sub p 1) s.parked) s

  abbrev pub popped_shard : ℕ → Mutex (List T) → Machine T → Machine T
  popped_shard i m s =
      unparked (pop m.value).0
        (set_shards (set s.shards (index i s) (write_pile m (pop m.value).1)) (with_id i s))

  unpark_popped_lem :
      (o : Option T) (s : Machine T) → unpark_popped o s ≡ (returned tt, unparked o s)
  unfolding unpark
  unpark_popped_lem none s = refl
  unpark_popped_lem (some b) s = refl

  pub pop_shard_lem :
      (i : ℕ) (s : Machine T) (m : Mutex (List T))
      → Own i s m
      → pop_shard i s ≡ (returned (pop m.value).0, popped_shard i m s)
  unfolding pop_shard
  pop_shard_lem i s m own = rw (own, lock_pile_lem m, unpark_popped_lem)

  abbrev pub popped_reserve : Machine T → Machine T
  popped_reserve s = unparked (pop s.reserve.value).0 (set_reserve (pop s.reserve.value).1 s)

  pub pop_reserve_lem :
      (s : Machine T) → pop_reserve s ≡ (returned (pop s.reserve.value).0, popped_reserve s)
  unfolding pop_reserve
  pop_reserve_lem s = rw (lock_pile_lem s.reserve, unpark_popped_lem)

  abbrev pub parked_at : ℕ → T → Mutex (List T) → Machine T → Machine T
  parked_at i b m s =
      set_shards (set s.shards (index i s) (write_pile m (push m.value b))) (with_id i s)

  pub park_lem :
      (i : ℕ) (b : T) (s : Machine T) (m : Mutex (List T))
      → Own i s m
      → park i b s ≡ (returned tt, parked_at i b m s)
  unfolding park
  park_lem i b s m own = rw (own, lock_pile_lem m)

  claim_lem :
      (n p : ℕ) (s : Machine T)
      → p < usize_mod
      → n < usize_mod
      → claim n p s ≡ (has_room n (some p), set_parked (claimed n (some p)) s)
  unfolding claim
  claim_lem n p s fits room = elim (dec_le n p) [
    | yes full ↦ rw (leb-eq_true n p full, fetch_sub-fetch_add p 1 fits (omega arith))
    | no free ↦ rw (leb-eq_false n p (omega arith), fetch_add_lem p 1 (omega arith))
  ]

  pub cap_allows_lem :
      (s : Machine T)
      → Fits s.parked
      → s.max_idle < usize_mod
      → cap_allows s
        ≡ (returned (has_room s.max_idle s.parked), set_parked (claimed s.max_idle s.parked) s)
  unfolding cap_allows
  cap_allows_lem s fits room = elim (Option-cases s.parked) [
    | inl e ↦ ground arith
    | inr (p, e) ↦ rw (e, cap_allows, claim_lem s.max_idle p s (rw e at fits) room)
  ]
