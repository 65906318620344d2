-- ===== src/Local/Threads.antt =====
-- src/local.rs: a program with many pools and many threads, as a step relation. Between two steps
-- any thread may be the next to call; each call runs to its end.
use par_buffer_pool.Base.{
  ℕ, ◌+◌, ◌<◌, false, none, some, [], ◌∷◌, ◌≡◌, inl, inr, ◌⊎◌, refl, arith, length-append,
  get_elem?-append, ◌==◌, Bool-cases,
}
use par_buffer_pool.Base.Words.{usize_mod, fetch_add_lem}
use par_buffer_pool.Base.Effect.{Outcome, returned, panicked}
use par_buffer_pool.Local.State.{Elements, LocalPool, Process}
use par_buffer_pool.Local.Registry.{current, with_registry}
use par_buffer_pool.Local.Pool.{
  new, get_local, put_local, with_local, idle_len_local, clone_local, release_local, exit_thread,
}
use par_buffer_pool.Local.Typed.{Typed, Typed-map}
use par_buffer_pool.Local.Safety.{
  Owner, IsSafe, IsHandle, IsLease, access, access-IsSafe, current-epoch, current-Typed,
  get_local-IsSafe, put_local-IsSafe, reset_outcome,
}
use par_buffer_pool.Local.With.{with_local-IsSafe, with_local-result}

module _ (E : Elements) where
  open E use {TypeId, Elem}

  -- No pool and no buffer.
  abbrev pub empty_process : Process E
  empty_process = record {
    next_id = 0;
    drop_epoch = 0;
    next_flag = 0;
    flags = λ j. false;
    registries = λ i. record { seen_epoch = 0; slots = []; released = [] };
    counters =
        λ j. record { strong = 0; leases = 0; allocations = 0; init_runs = 0; reset_runs = 0 };
    created = [];
  }

  -- The pools that are created and those that are dropped are too few for `NEXT_ID` and
  -- `DROP_EPOCH` to wrap.
  pub data Step (s : Process E) : Process E → Type 0 where
    create :
        (t : TypeId) (init : ℕ → Outcome (Elem t))
        → s.next_id + 1 < usize_mod
        → Step s (new E t init s).1
    lease : (p : LocalPool E) (i : ℕ) → IsHandle E p s → Step s (get_local E p i s).1
    give_back :
        (p : LocalPool E) (i : ℕ) (b : Elem p.elem)
        → IsHandle E p s
        → Step s (put_local E p i b s).1
    borrow :
        (p : LocalPool E) (i : ℕ) (f : Elem p.elem → Elem p.elem × Outcome (Unit {0}))
        → IsHandle E p s
        → Step s (with_local E p i f s).1
    count : (p : LocalPool E) (i : ℕ) → IsHandle E p s → Step s (idle_len_local E p i s).1
    share : (p : LocalPool E) → IsHandle E p s → Step s (clone_local E p s).1
    release :
        (p : LocalPool E)
        → IsHandle E p s
        → s.drop_epoch + 1 < usize_mod
        → Step s (release_local E p s)
    exit : (i : ℕ) → Step s (exit_thread E i s)

  pub data Reach : Process E → Type 0 where
    start : Reach empty_process
    next : {s t : Process E} → Reach s → Step s t → Reach t

  new-IsSafe :
      (t : TypeId) (init : ℕ → Outcome (Elem t)) (s : Process E)
      → s.next_id + 1 < usize_mod
      → IsSafe E s
      → IsSafe E (new E t init s).1
  unfolding new
  new-IsSafe t init s room h = record {
    next_id = omega (arith, h.next_id, fetch_add_lem s.next_id 1, length-append s.created (_ ∷ []));
    next_flag = omega (arith, h.next_flag, length-append s.created (_ ∷ []));
    epoch = h.epoch;
    typed = λ i.
        Typed-map E (Owner E s.created) _
          (λ j u o. let (q, e, r) = o in (q, get_elem?-append s.created _ j q e, r)) 0
          (s.registries i).slots (h.typed i);
  }

  exit_thread-IsSafe : (i : ℕ) (s : Process E) → IsSafe E s → IsSafe E (exit_thread E i s)
  unfolding exit_thread access Typed
  exit_thread-IsSafe i s h = access-IsSafe E i _ s h (omega arith) tt

  count-IsSafe :
      (p : LocalPool E) (i : ℕ) (s : Process E) → IsSafe E s → IsSafe E (idle_len_local E p i s).1
  unfolding idle_len_local with_registry access
  count-IsSafe p i s h =
      access-IsSafe E i (current E i s) s h (omega (arith, current-epoch E i s))
        (current-Typed E i s h)

  release-IsSafe :
      (p : LocalPool E) (s : Process E)
      → s.drop_epoch + 1 < usize_mod
      → IsSafe E s
      → IsSafe E (release_local E p s)
  unfolding release_local
  release-IsSafe p s room h = elim (Bool-cases ((s.counters p.live).strong == 1)) [
    | inl e ↦ rw e (record {
      next_id = h.next_id;
      next_flag = h.next_flag;
      epoch = λ i. omega (arith, h.epoch i, fetch_add_lem s.drop_epoch 1);
      typed = h.typed;
    })
    | inr e ↦
        rw e (record {
          next_id = h.next_id;
          next_flag = h.next_flag;
          epoch = h.epoch;
          typed = h.typed;
        })
  ]

  Step-IsSafe : {s t : Process E} → Step s t → IsSafe E s → IsSafe E t
  unfolding clone_local
  Step-IsSafe (create t init room) h = new-IsSafe t init _ room h
  Step-IsSafe (lease p i k) h = (get_local-IsSafe E p i _ k h).0
  Step-IsSafe (give_back p i b k) h = (put_local-IsSafe E p i b _ k h).0
  Step-IsSafe (borrow p i f k) h = with_local-IsSafe E p i f _ k h
  Step-IsSafe (count p i k) h = count-IsSafe p i _ h
  Step-IsSafe (share p k) h = record {
    next_id = h.next_id;
    next_flag = h.next_flag;
    epoch = h.epoch;
    typed = h.typed;
  }
  Step-IsSafe (release p k room) h = release-IsSafe p _ room h
  Step-IsSafe (exit i) h = exit_thread-IsSafe i _ h

  pub Reach-IsSafe : {s : Process E} → Reach s → IsSafe E s
  unfolding Typed
  Reach-IsSafe start = record {
    next_id = refl;
    next_flag = refl;
    epoch = λ i. omega arith;
    typed = λ i. tt;
  }
  Reach-IsSafe (next r st) = Step-IsSafe st (Reach-IsSafe r)

  -- In every process that threads reach by creating pools while `NEXT_ID` does not wrap, leasing,
  -- borrowing (`with`), returning and counting buffers, cloning handles, dropping them while `DROP_EPOCH` does not
  -- wrap, and exiting: a lease from a handle of a pool, on any thread, gives a buffer or ends as
  -- the initializer does, so it never panics over a buffer of another type.
  pub get_local_sound :
      (s : Process E) (p : LocalPool E) (i : ℕ)
      → Reach s
      → IsHandle E p s
      → IsLease E p i (s.counters p.live).init_runs (get_local E p i s).0
  get_local_sound s p i r k = (get_local-IsSafe E p i s k (Reach-IsSafe r)).2

  -- In every process that threads reach by creating pools while `NEXT_ID` does not wrap, leasing,
  -- borrowing (`with`), returning and counting buffers, cloning handles, dropping them while `DROP_EPOCH` does not
  -- wrap, and exiting: `put` of a buffer, on any thread, panics exactly where the reset hook does
  -- on it.
  pub put_local_sound :
      (s : Process E) (p : LocalPool E) (i : ℕ) (b : Elem p.elem)
      → Reach s
      → IsHandle E p s
      → (put_local E p i b s).0 ≡ reset_outcome E p i p.reset (s.counters p.live).reset_runs b
  put_local_sound s p i b r k = (put_local-IsSafe E p i b s k (Reach-IsSafe r)).1

  -- In every process that threads reach by creating pools while `NEXT_ID` does not wrap, leasing,
  -- borrowing (`with`), returning and counting buffers, cloning handles, dropping them while
  -- `DROP_EPOCH` does not wrap, and exiting: `with f` on a pool without a reset hook leases some
  -- buffer and gives the result of `f` on it, or panics because the initializer does.
  pub with_local_sound {κ} :
      (s : Process E) (p : LocalPool E) (i : ℕ) {R : Type κ}
      (f : Elem p.elem → Elem p.elem × Outcome R)
      → Reach s
      → IsHandle E p s
      → p.reset ≡ none
      → ((b : Elem p.elem) × ((get_local E p i s).0 ≡ returned (record { buffer = some b }))
          × ((with_local E p i f s).0 ≡ (f b).1))
        ⊎ ((p.init (s.counters p.live).init_runs ≡ panicked)
            × ((with_local E p i f s).0 ≡ panicked))
  with_local_sound s p i f r k plain = with_local-result E p i f s k (Reach-IsSafe r) plain
