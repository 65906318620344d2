-- ===== src/Buffer/Crew/Phases.antt =====
-- src/buffer.rs: the phases of a lease and of a return in a pool without a cap, where the buffers
-- that wait in the pool have a property `P`.
use par_buffer_pool.Base.{arith, ◌+◌, ◌≤◌, ℕ, Option, none, some, [], ◌∷◌, ◌≡◌}
use par_buffer_pool.Buffer.Concurrent.Jobs.{carried, allocating}
use par_buffer_pool.Base.Effect.{returned}
use par_buffer_pool.Buffer.State.{ResetFn}
use par_buffer_pool.Buffer.Concurrent.{
  Phase, counting_lease, popping_shard, popping_reserve, counting_allocation, initializing, failed,
  unparking, resetting, claiming, giving_back, parking, sweeping, sweeping_reserve, unparking_all,
  finished,
}

module _ {ℓ} {T : Type ℓ} where
  -- The buffer has `P` once it is back in the pool: by the hook, which returns, or as it is.
  abbrev pub Restores : (T → Type ℓ) → Option (ResetFn T) → T → Type ℓ
  Restores P none b = P b
  Restores P (some hook) b = (n : ℕ) → (b' : T) × (hook n b ≡ (b', returned tt)) × P b'

  -- A lease before it has searched its shard, and after.
  pub data Leasing (P : T → Type ℓ) : Phase T → Type ℓ where
    at_counting_lease : Leasing P counting_lease
    at_popping_shard : Leasing P popping_shard
    at_popping_reserve : Leasing P popping_reserve
    at_counting_allocation : Leasing P counting_allocation
    at_initializing : Leasing P initializing
    at_unparking : (b : T) → P b → Leasing P (unparking b)
    with_buffer : (b : T) → P b → Leasing P (finished (b ∷ []))

  pub data Returning (P : T → Type ℓ) (reset : Option (ResetFn T)) : Phase T → Type ℓ where
    at_resetting : (b : T) → Restores P reset b → Returning P reset (resetting b)
    at_claiming : (b : T) → P b → Returning P reset (claiming b)
    at_parking : (b : T) → P b → Returning P reset (parking b)
    at_end : Returning P reset (finished [])

  -- Whether the call leaves its worker a place in the shard for one more idle buffer: it has not
  -- searched the shard yet, or it has parked.
  abbrev pub spare : Phase T → ℕ
  spare counting_lease = 1
  spare popping_shard = 1
  spare popping_reserve = 0
  spare counting_allocation = 0
  spare initializing = 0
  spare failed = 0
  spare (unparking b) = 0
  spare (resetting b) = 0
  spare (claiming b) = 0
  spare (giving_back b) = 0
  spare (parking b) = 0
  spare (sweeping k taken bs) = 0
  spare (sweeping_reserve taken bs) = 0
  spare (unparking_all taken bs) = 0
  spare (finished []) = 1
  spare (finished (b ∷ bs)) = 0

  -- A call holds a buffer, makes one, or leaves a place for one.
  abbrev pub Occupied : Phase T → Type 0
  Occupied c = carried c + allocating c + spare c ≤ 1

  pub Leasing-Occupied : (P : T → Type ℓ) {c : Phase T} → Leasing P c → Occupied c
  Leasing-Occupied P at_counting_lease = omega arith
  Leasing-Occupied P at_popping_shard = omega arith
  Leasing-Occupied P at_popping_reserve = omega arith
  Leasing-Occupied P at_counting_allocation = omega arith
  Leasing-Occupied P at_initializing = omega arith
  Leasing-Occupied P (at_unparking b p) = omega arith
  Leasing-Occupied P (with_buffer b p) = omega arith

  pub Returning-Occupied :
      (P : T → Type ℓ) (reset : Option (ResetFn T)) {c : Phase T} → Returning P reset c → Occupied c
  Returning-Occupied P reset (at_resetting b k) = omega arith
  Returning-Occupied P reset (at_claiming b p) = omega arith
  Returning-Occupied P reset (at_parking b p) = omega arith
  Returning-Occupied P reset at_end = omega arith
