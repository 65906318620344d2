-- ===== src/Buffer/Crew/Completes.antt =====
-- src/buffer.rs with the parallel loops of examples/: a crew does not get stuck.
use par_buffer_pool.Base.{
  ℕ, zero, suc, ◌+◌, ◌≤◌, ◌<◌, Option, some, none, List, [], ◌∷◌, ◌≡◌, refl, sym, ap, ◌∙◌, subst,
  arith, length, All, All-removed,
}
use par_buffer_pool.Base.Words.{usize_max}
use par_buffer_pool.Base.Effect.{returned}
use par_buffer_pool.Sharding.{Threads}
use par_buffer_pool.Buffer.State.{InitFn, ResetFn}
use par_buffer_pool.Buffer.Concurrent.{finished}
use par_buffer_pool.Buffer.Crew.{
  build, resting, busy, all_resting, start, Crew, Work, Schedule, Step, take_item, run, use_buffer,
  rest, Reach, here, next,
}
use par_buffer_pool.Buffer.Crew.Phases.{Restores}
use par_buffer_pool.Buffer.Crew.Sound.{IsSound}
use par_buffer_pool.Buffer.Crew.Steps.{Step-IsSound}
use par_buffer_pool.Buffer.Crew.Results.{Reach-IsSound}
use par_buffer_pool.Buffer.Crew.Outlook.{
  Outlook, complete, nearer, steps_left, threads_of, threads-middle, Taker, sound-Outlook,
}

module _ {ℓ μ} {T : Type ℓ} {X : Type 0} {R : Type μ} {work : Work T X R} {may : Schedule X} where
  -- No step changes the threads, and none adds an item.
  Step-fair :
      (ids : List ℕ) {r t : Crew T X R}
      → Step may work r t
      → (threads_of r.workers ≡ ids) × All (Taker may ids) r.todo
      → (threads_of t.workers ≡ ids) × All (Taker may ids) t.todo
  Step-fair ids (take_item i x us vs xs ys e q m) (k, fair) = (
    threads-middle xs ys i _ resting ∙ ap threads_of (sym e) ∙ k,
    All-removed (Taker may ids) us vs x (subst (All (Taker may ids)) q fair),
  )
  Step-fair ids (run i o c xs ys e) (k, fair) =
      (threads-middle xs ys i _ (busy o c) ∙ ap threads_of (sym e) ∙ k, fair)
  Step-fair ids (use_buffer i x b xs ys e) (k, fair) = (
    threads-middle xs ys i _ (busy (some x) (finished (b ∷ []))) ∙ ap threads_of (sym e) ∙ k,
    fair,
  )
  Step-fair ids (rest i xs ys e) (k, fair) =
      (threads-middle xs ys i _ (busy none (finished [])) ∙ ap threads_of (sym e) ∙ k, fair)

module _ {ℓ μ} {T : Type ℓ} {X : Type 0} {R : Type μ} {P : T → Type ℓ} {work : Work T X R}
    {may : Schedule X} {all : List X} {size : ℕ} where
  fair-Outlook :
      {r : Crew T X R} (ids : List ℕ)
      → IsSound P work all size r
      → threads_of r.workers ≡ ids
      → All (Taker may ids) r.todo
      → Outlook may work r
  fair-Outlook {r} ids h k fair =
      sound-Outlook h (subst (λ is. All (Taker may is) r.todo) (sym k) fair)

  finishes :
      {q : Crew T X R} (ids : List ℕ) (n : ℕ) {r : Crew T X R}
      → IsSound P work all size r
      → (threads_of r.workers ≡ ids) × All (Taker may ids) r.todo
      → Reach may work q r
      → steps_left r ≤ n
      → (t : Crew T X R) × Reach may work q t × (t.todo ≡ []) × (t.workers ≡ all_resting ids)
  finishes ids zero {r} h (k, fair) reach le = elim (fair-Outlook ids h k fair) [
    | complete e off ↦ (r, reach, e, off ∙ ap all_resting k)
    | nearer t st lt ↦ absurd (omega arith)
  ]
  finishes ids (suc n) {r} h (k, fair) reach le = elim (fair-Outlook ids h k fair) [
    | complete e off ↦ (r, reach, e, off ∙ ap all_resting k)
    | nearer t st lt ↦
        finishes ids n (Step-IsSound h st) (Step-fair ids st (k, fair)) (next reach st)
          (omega arith)
  ]

threads-all_resting {ℓ} :
    (T : Type ℓ) (X : Type 0) (ids : List ℕ) → threads_of (all_resting {T = T} {X = X} ids) ≡ ids
threads-all_resting T X [] = refl
threads-all_resting T X (i ∷ ids) = ap (◌∷◌ i) (threads-all_resting T X ids)

module _ {ℓ μ} {T : Type ℓ} {X : Type 0} {R : Type μ} (P : T → Type ℓ) (threads : Threads)
    (parallelism : Option ℕ) (init : InitFn T) (reset : Option (ResetFn T)) (work : Work T X R)
    (may : Schedule X) (items : List X) (ids : List ℕ)
    (makes : (n : ℕ) → (b : T) × (init n ≡ returned b) × P b)
    (restores : (x : X) (b : T) → P b → Restores P reset (work x b).0)
    (room : threads.next_tid + length ids < usize_max) (fair : All (Taker may ids) items) where
  abbrev begins : Crew T X R
  begins = start (build threads parallelism init reset) items ids

  Reach-fair :
      {r : Crew T X R}
      → Reach may work begins r
      → (threads_of r.workers ≡ ids) × All (Taker may ids) r.todo
  Reach-fair here = (threads-all_resting T X ids, fair)
  Reach-fair (next q st) = Step-fair ids st (Reach-fair q)

  -- Where some worker may take each item once the items before it are taken, the initializer
  -- returns a buffer with `P` each time, every buffer with `P` has `P` again after any work and the
  -- hook, if there is one, which returns, and the workers' threads do not use up the ids: from
  -- every state that a crew reaches, however its calls overlap, there are steps after which no item
  -- is left and every worker rests.
  pub crew_completes :
      {r : Crew T X R}
      → Reach may work begins r
      → (t : Crew T X R) × Reach may work begins t × (t.todo ≡ []) × (t.workers ≡ all_resting ids)
  crew_completes {r} q =
      finishes ids (steps_left r)
        (Reach-IsSound P threads parallelism init reset work may items ids makes restores room q)
        (Reach-fair q) q (omega arith)
