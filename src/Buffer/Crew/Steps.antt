-- ===== src/Buffer/Crew/Steps.antt =====
-- src/buffer.rs with the parallel loops of examples/: every step of a worker keeps the books.
use par_buffer_pool.Base.{
  ℕ, ◌+◌, ◌-◌, ◌≤◌, ◌<◌, Option, none, some, List, [], ◌∷◌, ◌++◌, ◌≡◌, refl, sym, ap, subst, arith,
  total, length, All, All-middle, All-replaced, total-replaced, total-le_replaced,
}
use par_buffer_pool.Base.Words.{usize_max}
use par_buffer_pool.Base.Effect.{Outcome}
use par_buffer_pool.Buffer.State.{Machine}
use par_buffer_pool.Buffer.Client.History.{total-middle, length-middle}
use par_buffer_pool.Buffer.Concurrent.{Phase, tick, counting_lease, resetting, finished}
use par_buffer_pool.Buffer.Concurrent.Jobs.{uncounted, allocating, carried, waits}
use par_buffer_pool.Buffer.Crew.{
  Doing, resting, busy, Worker, worker, Crew, Work, Schedule, Step, take_item, run, use_buffer,
  rest,
}
use par_buffer_pool.Buffer.Crew.Phases.{
  Restores, Leasing, spare, at_counting_lease, with_buffer, at_resetting,
}
use par_buffer_pool.Buffer.Crew.Homes.{place}
use par_buffer_pool.Buffer.Crew.Turns.{IsReady, Turn}
use par_buffer_pool.Buffer.Crew.Ticks.{tick-Leases, tick-Returns}
use par_buffer_pool.Buffer.Crew.Sound.{
  IsSound, by_phase, at_call, in_hand, hands, slack, without_id, Staged, AtWork, weigh, Given,
}

module _ {ℓ} {T : Type ℓ} {X : Type 0} (P : T → Type ℓ) where
  -- A step of a staged worker is a turn, and leaves it staged.
  tick-Staged :
      (i : ℕ) (o : Option X) (c : Phase T) (s : Machine T)
      → IsReady P s
      → s.threads.next_tid < usize_max
      → Staged P s.reset (busy o c)
      → let (d, t) = tick i c s in Staged P t.reset (busy o d) × Turn P i c s d t
  tick-Staged i none c s h room k = tick-Returns P i c s h room k
  tick-Staged i (some x) c s h room k = tick-Leases P i c s h room k

module _ {ℓ μ} {T : Type ℓ} {X : Type 0} {R : Type μ} {P : T → Type ℓ} {work : Work T X R}
    {all : List X} {size : ℕ} {r : Crew T X R} (h : IsSound P work all size r) where
  run-IsSound :
      (i : ℕ) (o : Option X) (c : Phase T) (xs ys : List (Worker T X))
      → r.workers ≡ xs ++ (worker i (busy o c) ∷ ys)
      → IsSound P work all size (record r {
        machine = (tick i c r.machine).1;
        workers = xs ++ (worker i (busy o (tick i c r.machine).0) ∷ ys);
      })
  run-IsSound i o c xs ys e =
      let s = r.machine in
      let t = (tick i c s).1 in
      let w : Worker T X = worker i (busy o c) in
      let w' : Worker T X = worker i (busy o (tick i c s).0) in
      let here = subst (All (AtWork P s.reset)) e h.staged in
      let (staged', k) =
        tick-Staged P i o c s h.ready (omega (arith, h.roomy))
          (All-middle (AtWork P s.reset) w w' xs ys here) in
      let moved = λ (f : Worker T X → ℕ). total-replaced f r.workers xs ys w w' e in
      let others = total (at_call allocating 0) (xs ++ ys) in
      record {
        ready = k.ready;
        restores =
            λ x b p. subst (λ q. Restores P q (work x b).0) (sym k.same_reset) (h.restores x b p);
        staged =
            All-replaced (AtWork P t.reset) w w' xs ys
              (subst (λ q. All (AtWork P q) (xs ++ (w ∷ ys))) (sym k.same_reset) here) staged';
        sized = omega (arith, h.sized, moved (λ v. 1));
        roomy = omega (
          arith,
          h.roomy,
          k.ids,
          ap (total (without_id s.threads)) e,
          total-le_replaced (without_id t.threads) (without_id s.threads) (xs ++ (w' ∷ ys)) xs ys w'
              w refl (λ v. k.assigned v.thread),
        );
        housed = λ j m' there.
            let (m, was, le) = k.housed j m' there in
            let f : Worker T X → ℕ = slack s.threads s.shard_mask j in
            let g : Worker T X → ℕ = slack t.threads t.shard_mask j in
            omega (
              arith,
              le (total f (xs ++ ys))
                  (omega (arith, h.housed j m was, total-middle f r.workers xs ys w e)),
              total-middle f r.workers xs ys w e,
              total-le_replaced f g r.workers xs ys w w' e
                  (λ v. k.homes v.thread j (at_call spare 1 v)),
            );
        counted = omega (arith, h.counted, k.conserved, moved (at_call carried 0));
        allocated = omega (
          arith,
          k.counting (s.init_runs + others)
              (omega (arith, h.allocated, total-middle (at_call allocating 0) r.workers xs ys w e)),
          k.runs,
          total-middle (at_call allocating 0) (xs ++ (w' ∷ ys)) xs ys w' refl,
        );
        begun = omega (arith, h.begun, moved (at_call uncounted 0), k.fewer);
        leased = omega (
          arith,
          k.leasing (length all - length r.todo - total (at_call uncounted 0) r.workers) h.leased,
          moved (at_call uncounted 0),
          k.fewer,
          h.begun,
        );
        tallied = λ f. omega (arith, h.tallied f, moved (hands f), same_hands f o);
        once = omega (arith, h.once, k.made_once, moved (at_call waits 0));
        worked = λ z. omega (arith, h.worked (omega (arith, k.runs)));
        given = h.given;
      }
    where
      same_hands :
          (f : X → ℕ) (o : Option X)
          → hands f (worker i (busy o (tick i c r.machine).0)) ≡ hands f (worker i (busy o c))
      same_hands f none = refl
      same_hands f (some x) = refl

  -- A step of a worker that leaves the pool as it is.
  relieved-IsSound :
      (i : ℕ) (d d' : Doing T X) (todo : List X) (results : List (X × Outcome R))
      (xs ys : List (Worker T X))
      → r.workers ≡ xs ++ (worker i d ∷ ys)
      → (Staged P r.machine.reset d → Staged P r.machine.reset d')
      → by_phase spare 1 d' ≡ by_phase spare 1 d
      → by_phase carried 0 d' ≡ by_phase carried 0 d
      → by_phase allocating 0 d' ≡ by_phase allocating 0 d
      → by_phase uncounted 0 d' + length todo ≡ by_phase uncounted 0 d + length r.todo
      → by_phase waits 0 d' + length todo ≤ by_phase waits 0 d + length r.todo
      → ((f : X → ℕ)
          → total f todo + in_hand f d' + total (weigh f) results
            ≡ total f r.todo + in_hand f d + total (weigh f) r.results)
      → (r.machine.init_runs ≡ 0 → total (weigh (λ x. 1)) results ≡ 0)
      → All (Given P work) results
      → IsSound P work all size
          (record r { todo = todo; workers = xs ++ (worker i d' ∷ ys); results = results })
  relieved-IsSound i d d' todo results xs ys e stage spared kept allocs few once tally some_made
        gives =
      let s = r.machine in
      let w : Worker T X = worker i d in
      let w' : Worker T X = worker i d' in
      let here = subst (All (AtWork P s.reset)) e h.staged in
      let moved = λ (f : Worker T X → ℕ). total-replaced f r.workers xs ys w w' e in
      record {
        ready = h.ready;
        restores = h.restores;
        staged =
            All-replaced (AtWork P s.reset) w w' xs ys here
              (stage (All-middle (AtWork P s.reset) w w' xs ys here));
        sized = omega (arith, h.sized, moved (λ v. 1));
        roomy = omega (arith, h.roomy, moved (without_id s.threads));
        housed = λ j m there. omega (
          arith,
          h.housed j m there,
          moved (slack s.threads s.shard_mask j),
          ap (place s.threads s.shard_mask i j) spared,
        );
        counted = omega (arith, h.counted, moved (at_call carried 0));
        allocated = omega (arith, h.allocated, moved (at_call allocating 0));
        begun = omega (arith, h.begun, moved (at_call uncounted 0));
        leased = omega (arith, h.leased, h.begun, moved (at_call uncounted 0));
        tallied = λ f. omega (arith, h.tallied f, moved (hands f), tally f);
        once = omega (arith, h.once, moved (at_call waits 0), once);
        worked = some_made;
        given = gives;
      }

  -- A lease that has ended has a buffer with `P`.
  held_buffer :
      (i : ℕ) (x : X) (b : T) (xs ys : List (Worker T X))
      → r.workers ≡ xs ++ (worker i (busy (some x) (finished (b ∷ []))) ∷ ys)
      → P b
  held_buffer i x b xs ys e =
      let w : Worker T X = worker i (busy (some x) (finished (b ∷ []))) in
      leased_buffer (
        All-middle (AtWork P r.machine.reset) w w xs ys
          (subst (All (AtWork P r.machine.reset)) e h.staged))
    where
      leased_buffer : Leasing P (finished (b ∷ [])) → P b
      leased_buffer (with_buffer b' p) = p

  pub Step-IsSound :
      {may : Schedule X} {t : Crew T X R} → Step may work r t → IsSound P work all size t
  Step-IsSound (take_item i x us vs xs ys e q m) =
      relieved-IsSound i resting (busy (some x) counting_lease) (us ++ vs) r.results xs ys e
        (λ u. at_counting_lease) refl refl refl (omega (arith, length-middle r.todo us vs x q))
        (omega (arith, length-middle r.todo us vs x q))
        (λ f. omega (arith, total-middle f r.todo us vs x q)) h.worked h.given
  Step-IsSound (run i o c xs ys e) = run-IsSound i o c xs ys e
  Step-IsSound (use_buffer i x b xs ys e) =
      relieved-IsSound i (busy (some x) (finished (b ∷ []))) (busy none (resetting (work x b).0))
        r.todo ((x, (work x b).1) ∷ r.results) xs ys e
        (λ k. at_resetting (work x b).0 (h.restores x b (held_buffer i x b xs ys e))) refl refl refl
        refl (omega arith) (λ f. omega arith)
        (λ z. absurd (
          omega (
            arith,
            h.counted,
            total-middle (at_call carried 0) r.workers xs ys
                (worker i (busy (some x) (finished (b ∷ [])))) e,
          )))
        ((b, held_buffer i x b xs ys e, refl), h.given)
  Step-IsSound (rest i xs ys e) =
      relieved-IsSound i (busy none (finished [])) resting r.todo r.results xs ys e (λ k. tt) refl
        refl refl refl (omega arith) (λ f. refl) h.worked h.given
