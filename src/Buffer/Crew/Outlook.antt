-- ===== src/Buffer/Crew/Outlook.antt =====
-- src/buffer.rs with the parallel loops of examples/: the next step of a crew, and how many there can be.
use par_buffer_pool.Base.{
  ℕ, ◌+◌, ◌*◌, ◌<◌, Option, some, none, List, [], ◌∷◌, ◌++◌, ◌≡◌, refl, ap, ◌∙◌, subst, arith,
  total, length, All, All-middle, total-replaced, map,
}
use native.Mathlib.Decide.{dec_lt}
use par_buffer_pool.Buffer.Concurrent.{Phase, tick, counting_lease, finished, resetting}
use par_buffer_pool.Buffer.Concurrent.Progress.{remaining, tick-remaining, tick-SameShape}
use par_buffer_pool.Buffer.Crew.{
  Doing, resting, busy, Worker, worker, all_resting, Crew, Work, Schedule, Step, take_item, run,
  use_buffer, rest,
}
use par_buffer_pool.Buffer.Crew.Phases.{
  at_counting_lease, at_popping_shard, at_popping_reserve, at_counting_allocation, at_initializing,
  at_unparking, with_buffer, at_resetting, at_claiming, at_parking, at_end,
}
use par_buffer_pool.Buffer.Crew.Sound.{IsSound, Staged, AtWork}

module _ {ℓ} {T : Type ℓ} {X : Type 0} where
  -- The most steps that a worker may have left with its item, in a pool of `n` shards.
  abbrev effort : ℕ → Doing T X → ℕ
  effort n resting = 0
  effort n (busy none c) = remaining n c + 1
  effort n (busy (some x) c) = remaining n c + 6

  abbrev worker_effort : ℕ → Worker T X → ℕ
  worker_effort n w = effort n w.doing

  abbrev pub threads_of : List (Worker T X) → List ℕ
  threads_of ws = map (λ w. w.thread) ws

  -- All workers rest, or one is busy.
  data Roll (ws : List (Worker T X)) : Type ℓ where
    all_rest : ws ≡ all_resting (threads_of ws) → Roll ws
    one_busy :
        (i : ℕ) (o : Option X) (c : Phase T) (xs ys : List (Worker T X))
        → ws ≡ xs ++ (worker i (busy o c) ∷ ys)
        → Roll ws

  roll : (ws : List (Worker T X)) → Roll ws
  roll [] = all_rest refl
  roll (w ∷ ws) = first w.doing refl (roll ws)
    where
      first : (d : Doing T X) → w.doing ≡ d → Roll ws → Roll (w ∷ ws)
      first (busy o c) e k = one_busy w.thread o c [] ws (ap (λ d. worker w.thread d ∷ ws) e)
      first resting e (all_rest q) =
          all_rest (ap (λ d. worker w.thread d ∷ ws) e ∙ ap (◌∷◌ (worker w.thread resting)) q)
      first resting e (one_busy i o c xs ys q) = one_busy i o c (w ∷ xs) ys (ap (◌∷◌ w) q)

  all_resting-middle :
      (us vs : List ℕ) (i : ℕ)
      → all_resting {T = T} {X = X} (us ++ (i ∷ vs))
        ≡ all_resting us ++ (worker i resting ∷ all_resting vs)
  all_resting-middle [] vs i = refl
  all_resting-middle (u ∷ us) vs i = ap (◌∷◌ (worker u resting)) (all_resting-middle us vs i)

  pub threads-middle :
      (xs ys : List (Worker T X)) (i : ℕ) (d d' : Doing T X)
      → threads_of (xs ++ (worker i d ∷ ys)) ≡ threads_of (xs ++ (worker i d' ∷ ys))
  threads-middle [] ys i d d' = refl
  threads-middle (x ∷ xs) ys i d d' = ap (◌∷◌ x.thread) (threads-middle xs ys i d d')

module _ {X : Type 0} where
  -- Some worker may take the first of the items that are left.
  abbrev pub Taker : Schedule X → List ℕ → X → Type 0
  Taker may ids x = (i : ℕ) × may i [] x × (us : List ℕ) × (vs : List ℕ) × (ids ≡ us ++ (i ∷ vs))

module _ {ℓ μ} {T : Type ℓ} {X : Type 0} {R : Type μ} where
  abbrev pub steps_left : Crew T X R → ℕ
  steps_left r = total (worker_effort (length r.machine.shards)) r.workers + 12 * length r.todo

  -- What remains to be done: nothing, or a step that brings the end nearer.
  pub data Outlook (may : Schedule X) (work : Work T X R) (r : Crew T X R) : Type (ℓ ⊔ μ) where
    complete : r.todo ≡ [] → r.workers ≡ all_resting (threads_of r.workers) → Outlook may work r
    nearer : (t : Crew T X R) → Step may work r t → steps_left t < steps_left r → Outlook may work r

module _ {ℓ μ} {T : Type ℓ} {X : Type 0} {R : Type μ} {P : T → Type ℓ} {work : Work T X R}
    {may : Schedule X} {all : List X} {size : ℕ} where
  module _ {r : Crew T X R} (h : IsSound P work all size r) where
    ended-Outlook :
        (i : ℕ) (o : Option X) (c : Phase T) (xs ys : List (Worker T X))
        → r.workers ≡ xs ++ (worker i (busy o c) ∷ ys)
        → remaining (length r.machine.shards) c ≡ 0
        → Staged P r.machine.reset (busy o c)
        → Outlook may work r
    ended-Outlook i (some x) _ xs ys e z at_counting_lease = absurd (omega arith)
    ended-Outlook i (some x) _ xs ys e z at_popping_shard = absurd (omega arith)
    ended-Outlook i (some x) _ xs ys e z at_popping_reserve = absurd (omega arith)
    ended-Outlook i (some x) _ xs ys e z at_counting_allocation = absurd (omega arith)
    ended-Outlook i (some x) _ xs ys e z at_initializing = absurd (omega arith)
    ended-Outlook i (some x) _ xs ys e z (at_unparking b p) = absurd (omega arith)
    ended-Outlook i (some x) _ xs ys e z (with_buffer b p) = nearer _ (use_buffer i x b xs ys e) (
        omega (
          arith,
          total-replaced (worker_effort (length r.machine.shards)) r.workers xs ys
              (worker i (busy (some x) (finished (b ∷ []))))
              (worker i (busy none (resetting (work x b).0))) e,
        ))
    ended-Outlook i none _ xs ys e z (at_resetting b p) = absurd (omega arith)
    ended-Outlook i none _ xs ys e z (at_claiming b p) = absurd (omega arith)
    ended-Outlook i none _ xs ys e z (at_parking b p) = absurd (omega arith)
    ended-Outlook i none _ xs ys e z at_end = nearer _ (rest i xs ys e) (
        omega (
          arith,
          total-replaced (worker_effort (length r.machine.shards)) r.workers xs ys
              (worker i (busy none (finished []))) (worker i resting) e,
        ))

    busy-Outlook :
        (i : ℕ) (o : Option X) (c : Phase T) (xs ys : List (Worker T X))
        → r.workers ≡ xs ++ (worker i (busy o c) ∷ ys)
        → Outlook may work r
    busy-Outlook i o c xs ys e =
        let n = length r.machine.shards in
        let w : Worker T X = worker i (busy o c) in
        let d = (tick i c r.machine).0 in
        let shape = tick-SameShape i c r.machine h.ready.sharded in
        elim (dec_lt 0 (remaining n c)) [
          | yes p ↦ nearer _ (run i o c xs ys e) (
              omega (
                arith,
                less o c d (omega (arith, tick-remaining i c r.machine h.ready.sharded)),
                total-replaced (worker_effort n) r.workers xs ys w (worker i (busy o d)) e,
                ap (λ k. total (worker_effort k) (xs ++ (worker i (busy o d) ∷ ys))) shape.0,
              ))
          | no z ↦ ended-Outlook i o c xs ys e (omega arith) (
              All-middle (AtWork P r.machine.reset) w w xs ys
                (subst (All (AtWork P r.machine.reset)) e h.staged))
        ]
      where
        less :
            (o : Option X) (c d : Phase T)
            → remaining (length r.machine.shards) d < remaining (length r.machine.shards) c
            → effort (length r.machine.shards) (busy o d)
              < effort (length r.machine.shards) (busy o c)
        less none c d lt = omega arith
        less (some x) c d lt = omega arith

    idle-Outlook :
        (todo : List X)
        → r.todo ≡ todo
        → All (Taker may (threads_of r.workers)) todo
        → r.workers ≡ all_resting (threads_of r.workers)
        → Outlook may work r
    idle-Outlook [] e fair off = complete e off
    idle-Outlook (x ∷ xs) e fair off =
        let ((i, allowed, us, vs, there), others) = fair in
        let split = off ∙ ap all_resting there ∙ all_resting-middle us vs i in
        nearer _ (take_item i x [] xs (all_resting us) (all_resting vs) split e allowed) (
          omega (
            arith,
            ap length e,
            total-replaced (worker_effort (length r.machine.shards)) r.workers (all_resting us)
                (all_resting vs) (worker i resting) (worker i (busy (some x) counting_lease)) split,
          ))

    pub sound-Outlook : All (Taker may (threads_of r.workers)) r.todo → Outlook may work r
    sound-Outlook fair = elim (roll r.workers) [
      | all_rest off ↦ idle-Outlook r.todo refl fair off
      | one_busy i o c xs ys e ↦ busy-Outlook i o c xs ys e
    ]
