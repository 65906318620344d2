-- ===== src/Local/RoundTrip.antt =====
-- src/local.rs: `put` and then `get` on one thread.
use par_buffer_pool.Base.{
  ℕ, ◌+◌, Bool, Option, none, some, ◌≡◌, refl, ap, ◌∙◌, arith, length, length-set, set,
  get_elem?-set_self, eq_refl, leb-eq_false,
}
use par_buffer_pool.Base.Effect.{Outcome, returned, and_then}
use par_buffer_pool.Local.State.{Elements, Erased, Slot, Registry, LocalPool, Process}
use par_buffer_pool.Local.Registry.{sweep, current, with_registry, slot_for, take_buf, store_buf}
use par_buffer_pool.Local.Pool.{
  set_counters, get_local, put_local, run_local_hook, reset_erased, downcast_mut,
}
use par_buffer_pool.Local.Casts.{erase, downcast-erase}
use par_buffer_pool.Local.Typed.{Typed, slot_for-IsGranted}
use par_buffer_pool.Local.Safety.{Owner, IsSafe, IsHandle, access, current-epoch, current-Typed}
use par_buffer_pool.Local.Threads.{Reach, Reach-IsSafe}

module _ (E : Elements) where
  open E use {TypeId, Elem}

  -- Storing a buffer, and taking it again.
  take-store :
      (Owns : ℕ → TypeId → Type 0) (id live : ℕ) (e : Erased E) (reg : Registry E)
      → live ≡ id
      → Typed E Owns 0 reg.slots
      → let after = (store_buf E id live e reg).1 in
        ((take_buf E id live after).0 ≡ returned (some e)) × (after.seen_epoch ≡ reg.seen_epoch)
  unfolding store_buf take_buf slot_for
  take-store Owns id live e reg same h =
      let g = slot_for-IsGranted E Owns id reg h in
      let stored : Slot E = record g.slot { buf = some e } in
      let found = get_elem?-set_self g.after.slots id stored g.inside in
      let long =
        leb-eq_false (length (set g.after.slots id stored)) id
          (omega (arith, g.inside, length-set g.after.slots id stored)) in
      rw (same, g.answers, long, found, g.flagged, eq_refl id) (refl, g.same_epoch)

  -- An access that saw no drop since the last one finds the registry as it was left.
  sweep-seen :
      (flags : ℕ → Bool) (epoch : ℕ) (reg : Registry E)
      → reg.seen_epoch ≡ epoch
      → sweep E flags epoch reg ≡ reg
  unfolding sweep
  sweep-seen flags epoch reg e = rw e (rw (eq_refl epoch) refl)

  -- What the reset hook makes of a buffer, and whether it panics.
  abbrev pub reset_result :
      {t : TypeId}
      → Option (ℕ → Elem t → Elem t × Outcome (Unit {0}))
      → ℕ
      → Elem t
      → Elem t × Outcome (Unit {0})
  reset_result none n b = (b, returned tt)
  reset_result (some hook) n b = hook n b

  module _ (p : LocalPool E) (i : ℕ) where
    -- The process after the buffer is stored.
    abbrev storing : Elem p.elem → Process E → Process E
    storing b s = access E i (store_buf E p.id p.live (erase E p.elem b) (current E i s)).1 s

    -- A return stores what the hook has made of the buffer.
    put_local-stores :
        (hook : Option (ℕ → Elem p.elem → Elem p.elem × Outcome (Unit {0}))) (b b' : Elem p.elem)
        (s : Process E)
        → IsSafe E s
        → IsHandle E p s
        → reset_result hook (s.counters p.live).reset_runs b ≡ (b', returned tt)
        → let result = reset_erased E p hook (erase E p.elem b) s in
          (u : Process E) × ((and_then result.0 result.1
              (λ e. with_registry E i (store_buf E p.id p.live e))).1
            ≡ storing b' u)
          × IsSafe E u
          × IsHandle E p u
          × ((u.counters p.live).init_runs ≡ (s.counters p.live).init_runs)
    unfolding reset_erased downcast_mut run_local_hook with_registry access
    put_local-stores none b b' s h k e =
        (s, ap (λ (r : Elem p.elem × Outcome (Unit {0})). storing r.0 s) e, h, k, refl)
    put_local-stores (some hook) b b' s h k e =
        let c = s.counters p.live in
        (
          set_counters E p.live (record c { reset_runs = c.reset_runs + 1 }) s,
          rw (downcast-erase E p.elem b, e) refl,
          record { next_id = h.next_id; next_flag = h.next_flag; epoch = h.epoch; typed = h.typed },
          record { owner = k.owner; flagged = k.flagged },
          rw (eq_refl p.live) refl,
        )

    get_local-storing :
        (b : Elem p.elem) (u : Process E)
        → IsHandle E p u
        → IsSafe E u
        → let (result, t) = get_local E p i (storing b u) in
          (result ≡ returned (record { buffer = some b }))
          × ((t.counters p.live).init_runs ≡ (u.counters p.live).init_runs)
    unfolding get_local with_registry access current
    get_local-storing b u k h =
        let reg = current E i u in
        let (taken, seen) =
          take-store (Owner E u.created) p.id p.live (erase E p.elem b) reg k.flagged
            (current-Typed E i u h) in
        let same =
          sweep-seen u.flags u.drop_epoch (store_buf E p.id p.live (erase E p.elem b) reg).1
            (seen ∙ current-epoch E i u) in
        rw (eq_refl i, same, taken, downcast-erase E p.elem b) (refl, rw (eq_refl p.live) refl)

  -- In every process that threads reach by creating pools while `NEXT_ID` does not wrap, leasing,
  -- borrowing (`with`), returning and counting buffers, cloning handles, dropping them while `DROP_EPOCH` does not
  -- wrap, and exiting: the buffer that a thread returns to a pool, reset by a hook that does not
  -- panic on it, is the one that its next lease from the pool gets, and that lease does not run
  -- the initializer.
  pub get_local-put_local :
      (s : Process E) (p : LocalPool E) (i : ℕ) (b b' : Elem p.elem)
      → Reach E s
      → IsHandle E p s
      → reset_result p.reset (s.counters p.live).reset_runs b ≡ (b', returned tt)
      → let (result, t) = get_local E p i (put_local E p i b s).1 in
        (result ≡ returned (record { buffer = some b' }))
        × ((t.counters p.live).init_runs ≡ (s.counters p.live).init_runs)
  unfolding put_local
  get_local-put_local s p i b b' r k e =
      let (u, q, h, k', runs) = put_local-stores p i p.reset b b' s (Reach-IsSafe E r) k e in
      let (got, same) = get_local-storing p i b' u k' h in rw q (got, same ∙ runs)
