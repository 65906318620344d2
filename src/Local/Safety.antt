-- ===== src/Local/Safety.antt =====
-- src/local.rs: the invariant behind the downcasts of `get` and `park_erased`.
use par_buffer_pool.Base.{
  ℕ, ◌≤◌, Bool, true, Option, none, some, List, ◌≡◌, inl, inr, ◌⊎◌, refl, sym, ap, ◌∙◌, arith,
  length, get_elem?, eq_refl, eq-eq_false, ◌==◌, Bool-cases,
}
use mathlib.Core.Option.{some-injective}
use native.Mathlib.Decide.{ℕ_discrete}
use par_buffer_pool.Base.Words.{fetch_add}
use par_buffer_pool.Base.Effect.{Outcome, returned, panicked, and_then}
use par_buffer_pool.Local.State.{Elements, Erased, Registry, LocalPool, Counters, Process, update}
use par_buffer_pool.Local.Registry.{sweep, current, with_registry, take_buf, store_buf}
use par_buffer_pool.Local.Pool.{
  set_counters, LocalPooled, get_local, put_local, reset_erased, run_local_hook, downcast_mut,
  or_allocate_local, allocate_local,
}
use par_buffer_pool.Local.Casts.{downcast-own, downcast-erase, erase}
use par_buffer_pool.Local.Typed.{Typed, BufFits, sweep-Typed, take_buf-Typed, store_buf-Typed}

eq_sound : (a b : ℕ) → (a == b) ≡ true → a ≡ b
eq_sound a b e = ground arith

module _ (E : Elements) where
  open E use {TypeId, Elem, same_type}

  -- The pool that was created as the `j`th has the element type `t`.
  abbrev pub Owner : List (LocalPool E) → ℕ → TypeId → Type 0
  Owner created j t = (q : LocalPool E) × (get_elem? created j ≡ some q) × (t ≡ q.elem)

  -- Pools carry their places in the order of creation as their ids, and each slot of each
  -- thread holds a buffer of its own pool or none.
  pub record IsSafe (s : Process E) : Type 0 where
    pub next_id : s.next_id ≡ length s.created
    pub next_flag : s.next_flag ≡ length s.created
    pub epoch : (i : ℕ) → (s.registries i).seen_epoch ≤ s.drop_epoch
    pub typed : (i : ℕ) → Typed E (Owner s.created) 0 (s.registries i).slots

  -- A handle of a pool that was created, its reset hook perhaps another.
  pub record IsHandle (p : LocalPool E) (s : Process E) : Type 0 where
    pub owner : Owner s.created p.id p.elem
    pub flagged : p.live ≡ p.id

  set_counters-IsSafe :
      (live : ℕ) (c : Counters E) (s : Process E) → IsSafe s → IsSafe (set_counters E live c s)
  set_counters-IsSafe live c s h = record {
    next_id = h.next_id;
    next_flag = h.next_flag;
    epoch = h.epoch;
    typed = h.typed;
  }

  sweep-seen_epoch :
      (flags : ℕ → Bool) (epoch : ℕ) (reg : Registry E)
      → (sweep E flags epoch reg).seen_epoch ≡ epoch
  unfolding sweep
  sweep-seen_epoch flags epoch reg = elim (Bool-cases (epoch == reg.seen_epoch)) [
    | inl e ↦ rw e (sym (eq_sound epoch reg.seen_epoch e))
    | inr e ↦ rw e refl
  ]

  pub current-epoch : (i : ℕ) (s : Process E) → (current E i s).seen_epoch ≡ s.drop_epoch
  unfolding current
  current-epoch i s = sweep-seen_epoch s.flags s.drop_epoch (s.registries i)

  pub current-Typed :
      (i : ℕ) (s : Process E) → IsSafe s → Typed E (Owner s.created) 0 (current E i s).slots
  unfolding current
  current-Typed i s h =
      sweep-Typed E (Owner s.created) s.flags s.drop_epoch (s.registries i) (h.typed i)

  -- The registry that an access of thread `i` leaves behind.
  unfoldable pub access : ℕ → Registry E → Process E → Process E
  access i reg s = record s { registries = update s.registries i reg }

  pub access-IsSafe :
      (i : ℕ) (reg : Registry E) (s : Process E)
      → IsSafe s
      → reg.seen_epoch ≤ s.drop_epoch
      → Typed E (Owner s.created) 0 reg.slots
      → IsSafe (access i reg s)
  unfolding access
  access-IsSafe i reg s h old t = record {
    next_id = h.next_id;
    next_flag = h.next_flag;
    epoch = λ j. elim (ℕ_discrete i j) [
      | yes e ↦ rw (e, eq_refl j) old
      | no d ↦ rw (eq-eq_false i j d) (h.epoch j)
    ];
    typed = λ j. elim (ℕ_discrete i j) [
      | yes e ↦ rw (e, eq_refl j) t
      | no d ↦ rw (eq-eq_false i j d) (h.typed j)
    ];
  }

  own-type :
      (created : List (LocalPool E)) (j : ℕ) (t u : TypeId)
      → Owner created j t
      → Owner created j u
      → t ≡ u
  own-type created j t u (q, e, r) (q', e', r') =
      r ∙ ap (λ (z : LocalPool E). z.elem) (some-injective q q' (sym e ∙ e')) ∙ sym r'

  abbrev pub guarded_local : {t : TypeId} → Outcome (Elem t) → Outcome (LocalPooled E t)
  guarded_local (returned b) = returned (record { buffer = some b })
  guarded_local panicked = panicked

  module _ (p : LocalPool E) (i : ℕ) where
    -- What a lease gives where `runs` counts the runs of the initializer.
    abbrev pub IsLease : ℕ → Outcome (LocalPooled E p.elem) → Type 0
    IsLease runs result =
        ((b : Elem p.elem) × (result ≡ returned (record { buffer = some b })))
        ⊎ (result ≡ guarded_local (p.init runs))

    or_allocate_local-IsSafe :
        (o : Option (Erased E)) (u : Process E)
        → IsHandle p u
        → IsSafe u
        → BufFits E (Owner u.created) p.id p.id o
        → IsSafe (or_allocate_local E p i o u).1
          × IsHandle p (or_allocate_local E p i o u).1
          × (((b : Elem p.elem) × ((or_allocate_local E p i o u).0 ≡ returned b))
              ⊎ ((or_allocate_local E p i o u).0 ≡ p.init (u.counters p.live).init_runs))
    unfolding allocate_local
    or_allocate_local-IsSafe none u k h f = (
      record { next_id = h.next_id; next_flag = h.next_flag; epoch = h.epoch; typed = h.typed },
      record { owner = k.owner; flagged = k.flagged },
      inr (rw (eq_refl p.live) refl),
    )
    or_allocate_local-IsSafe (some e) u k h f =
        let same = own-type u.created p.id e.type_id p.elem f.1 k.owner in
        let (b, d) = downcast-own E p.elem e same in rw d (h, k, inl (b, refl))

    and_then-guard :
        (o : Outcome (Elem p.elem)) (u : Process E)
        → and_then o u (λ b v. (returned (record { buffer = some b }), v)) ≡ (guarded_local o, u)
    and_then-guard (returned b) u = refl
    and_then-guard panicked u = refl

    guarded-IsLease :
        (runs : ℕ) (o : Outcome (Elem p.elem))
        → ((b : Elem p.elem) × (o ≡ returned b)) ⊎ (o ≡ p.init runs)
        → IsLease runs (guarded_local o)
    guarded-IsLease runs o (inl (b, e)) = inl (b, rw e refl)
    guarded-IsLease runs o (inr e) = inr (rw e refl)

    -- The process in which `get` looks into the slot, and what it leaves of the registry.
    abbrev counted_lease : Process E → Process E
    counted_lease s =
        let c = s.counters p.live in
        set_counters E p.live (record c { leases = fetch_add c.leases 1 }) s

    pub get_local-IsSafe :
        (s : Process E)
        → IsHandle p s
        → IsSafe s
        → let (result, t) = get_local E p i s in
          IsSafe t × IsHandle p t × IsLease (s.counters p.live).init_runs result
    unfolding get_local with_registry access
    get_local-IsSafe s k h =
        let u = counted_lease s in
        let reg = current E i u in
        let (o, e, f, seen, t) =
          take_buf-Typed E (Owner s.created) p.id p.live reg k.flagged
            (current-Typed i u (set_counters-IsSafe _ _ s h)) in
        let v = access i (take_buf E p.id p.live reg).1 u in
        let (safe, handle, result) =
          or_allocate_local-IsSafe o v (record { owner = k.owner; flagged = k.flagged })
            (access-IsSafe i _ u (set_counters-IsSafe _ _ s h)
              (omega (arith, seen, current-epoch i u)) t)
            f in
        rw (e, and_then-guard (or_allocate_local E p i o v).0 (or_allocate_local E p i o v).1)
          (safe, handle, guarded-IsLease _ _ (rw eq_refl at result))

    stored-IsSafe :
        (e : Erased E) (u : Process E)
        → e.type_id ≡ p.elem
        → IsHandle p u
        → IsSafe u
        → IsSafe (with_registry E i (store_buf E p.id p.live e) u).1
          × ((with_registry E i (store_buf E p.id p.live e) u).0 ≡ returned tt)
    unfolding with_registry access
    stored-IsSafe e u same k h =
        let (q, a, r) = k.owner in
        let (done, seen, t) =
          store_buf-Typed E (Owner u.created) p.id p.live e (current E i u) k.flagged
            (current-Typed i u h) (q, a, same ∙ r) in
        (access-IsSafe i _ u h (omega (arith, seen, current-epoch i u)) t, done)

    hooked-IsSafe :
        (r : Elem p.elem × Outcome (Unit {0})) (s : Process E)
        → IsHandle p s
        → IsSafe s
        → let result = run_local_hook E p r s in
          let (stored, t) =
            and_then result.0 result.1 (λ e. with_registry E i (store_buf E p.id p.live e)) in
          IsSafe t × (stored ≡ r.1)
    unfolding run_local_hook
    hooked-IsSafe (b, returned x) s k h =
        stored-IsSafe (erase E p.elem b) (set_counters E p.live _ s) refl
          (record { owner = k.owner; flagged = k.flagged }) (set_counters-IsSafe _ _ s h)
    hooked-IsSafe (b, panicked) s k h = (set_counters-IsSafe _ _ s h, refl)

    -- A return panics where the reset hook does.
    abbrev pub reset_outcome :
        Option (ℕ → Elem p.elem → Elem p.elem × Outcome (Unit {0}))
        → ℕ
        → Elem p.elem
        → Outcome (Unit {0})
    reset_outcome none n b = returned tt
    reset_outcome (some hook) n b = (hook n b).1

    reset_erased-IsSafe :
        (hook : Option (ℕ → Elem p.elem → Elem p.elem × Outcome (Unit {0}))) (b : Elem p.elem)
        (s : Process E)
        → IsHandle p s
        → IsSafe s
        → let result = reset_erased E p hook (erase E p.elem b) s in
          let (stored, t) =
            and_then result.0 result.1 (λ e. with_registry E i (store_buf E p.id p.live e)) in
          IsSafe t × (stored ≡ reset_outcome hook (s.counters p.live).reset_runs b)
    unfolding reset_erased downcast_mut
    reset_erased-IsSafe none b s k h = stored-IsSafe (erase E p.elem b) s refl k h
    reset_erased-IsSafe (some hook) b s k h =
        rw (downcast-erase E p.elem b) (hooked-IsSafe (hook (s.counters p.live).reset_runs b) s k h)

    pub put_local-IsSafe :
        (b : Elem p.elem) (s : Process E)
        → IsHandle p s
        → IsSafe s
        → let (result, t) = put_local E p i b s in
          IsSafe t × (result ≡ reset_outcome p.reset (s.counters p.live).reset_runs b)
    unfolding put_local
    put_local-IsSafe b s k h = reset_erased-IsSafe p.reset b s k h
