-- ===== src/Buffer/Crew/Bounds.antt =====
-- src/buffer.rs with the parallel loops of examples/: how many buffers a crew allocates, and what
-- it works on.
use par_buffer_pool.Base.{
  ℕ, zero, suc, ◌+◌, ◌≤◌, ◌<◌, Option, none, some, List, [], ◌∷◌, ◌≡◌, refl, ap, subst, arith,
  total, length, get_elem?, All, total-le, total-sum,
}
use Prim.Native.Nat.{bit_and}
use par_buffer_pool.Base.Words.{usize_mod}
use par_buffer_pool.Sharding.{Threads}
use par_buffer_pool.Buffer.State.{Mutex, ResetFn}
use par_buffer_pool.Buffer.Weights.{idle_weight, one_each, pile_weight, total-one_each}
use par_buffer_pool.Buffer.Concurrent.Jobs.{allocating, carried, waits, allocating-le_waits}
use par_buffer_pool.Buffer.Crew.{Doing, resting, busy, Worker, Crew, Work}
use par_buffer_pool.Buffer.Crew.Phases.{Leasing-Occupied, Returning-Occupied, spare}
use par_buffer_pool.Buffer.Crew.Homes.{place}
use par_buffer_pool.Buffer.Crew.Sound.{IsSound, by_phase, at_call, slack, Staged, AtWork}

module _ {ℓ} {T : Type ℓ} {X : Type 0} where
  -- The places that a worker leaves in the `n` shards from `k` on.
  window : Threads → ℕ → ℕ → ℕ → Worker T X → ℕ
  window t mask k zero w = 0
  window t mask k (suc n) w = slack t mask k w + window t mask (suc k) n w

  -- They are in one shard only.
  window-le :
      (t : Threads) (mask k n : ℕ) (w : Worker T X)
      → (window t mask k n w ≤ at_call spare 1 w)
        × (bit_and (t.cell w.thread) mask < k → window t mask k n w ≡ 0)
  unfolding window place
  window-le t mask k zero w = (omega arith, λ u. refl)
  window-le t mask k (suc n) w =
      let ih = window-le t mask (suc k) n w in
      (ground (arith, ih.0, ih.1), λ u. ground (arith, ih.1))

  piles-le :
      (t : Threads) (mask k : ℕ) (piles : List (Mutex (List T))) (workers : List (Worker T X))
      → ((j i : ℕ) (m : Mutex (List T))
          → i ≡ k + j
          → get_elem? piles j ≡ some m
          → length m.value ≤ total (slack t mask i) workers)
      → total (pile_weight one_each) piles ≤ total (window t mask k (length piles)) workers
  unfolding window
  piles-le t mask k [] workers h = omega arith
  piles-le t mask k (m ∷ piles) workers h =
      let n = length piles in
      let both : Worker T X → ℕ = λ w. slack t mask k w + window t mask (suc k) n w in
      omega (
        arith,
        h 0 k m (omega arith) refl,
        total-one_each m.value,
        piles-le t mask (suc k) piles workers (λ j i q p e. h (suc j) i q (omega arith) e),
        total-sum (slack t mask k) (window t mask (suc k) n) workers,
        total-le both (window t mask k (suc n)) workers (λ w. omega arith),
      )

  occupied :
      (P : T → Type ℓ) (reset : Option (ResetFn T)) (d : Doing T X)
      → Staged P reset d
      → by_phase carried 0 d + by_phase allocating 0 d + by_phase spare 1 d ≤ 1
  occupied P reset resting k = omega arith
  occupied P reset (busy none c) k = Returning-Occupied P reset k
  occupied P reset (busy (some x) c) k = Leasing-Occupied P k

  all-occupied :
      (P : T → Type ℓ) (reset : Option (ResetFn T)) (ws : List (Worker T X))
      → All (AtWork P reset) ws
      → total (at_call carried 0) ws + total (at_call allocating 0) ws + total (at_call spare 1) ws
        ≤ total (λ w. 1) ws
  all-occupied P reset [] h = omega arith
  all-occupied P reset (w ∷ ws) h =
      omega (arith, occupied P reset w.doing h.0, all-occupied P reset ws h.1)

module _ {ℓ μ} {T : Type ℓ} {X : Type 0} {R : Type μ} {P : T → Type ℓ} {work : Work T X R}
    {all : List X} {size : ℕ} {r : Crew T X R} where
  -- The buffers of a crew fit its workers.
  pub IsSound-allocations :
      IsSound P work all size r
      → size < usize_mod
      → (r.machine.allocations ≤ size)
        × (r.machine.allocations ≤ length all)
        × (r.machine.allocations ≡ r.machine.init_runs + total (at_call allocating 0) r.workers)
  unfolding idle_weight
  IsSound-allocations h small =
      let s = r.machine in
      let full = piles-le s.threads s.shard_mask 0 s.shards r.workers (λ j i m p e.
        let q : j ≡ i = omega arith in
        subst (λ x. length m.value ≤ total (slack s.threads s.shard_mask x) r.workers) q
          (h.housed j m e)) in
      let one =
        total-le (window s.threads s.shard_mask 0 (length s.shards)) (at_call spare 1) r.workers
          (λ w. (window-le s.threads s.shard_mask 0 (length s.shards) w).0) in
      let fit = all-occupied P s.reset r.workers h.staged in
      let empty : total one_each s.reserve.value ≡ 0 = ap (total one_each) h.ready.unreserved in
      let made : s.allocations ≡ s.init_runs + total (at_call allocating 0) r.workers =
        omega (arith, h.allocated, h.counted, h.sized) in
      (
        omega (arith, h.counted, h.sized),
        omega (arith, h.once, total-le (at_call allocating 0) (at_call waits 0) r.workers waiting),
        made,
      )
    where
      by_doing : (d : Doing T X) → by_phase allocating 0 d ≤ by_phase waits 0 d
      by_doing resting = omega arith
      by_doing (busy o c) = allocating-le_waits c

      waiting : (w : Worker T X) → at_call allocating 0 w ≤ at_call waits 0 w
      waiting w = by_doing w.doing
