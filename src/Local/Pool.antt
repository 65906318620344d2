-- ===== src/Local/Pool.antt =====
-- src/local.rs: the operations of `ThreadLocalPool` and its guard `LocalPooled`. The `stats`
-- feature is on. The argument `i` is the thread that calls.
use par_buffer_pool.Base.{
  ℕ, ◌+◌, ◌-◌, true, false, Option, none, some, List, [], ◌∷◌, ◌++◌, ◌==◌, if◌then◌else◌, get_elem?,
  is_some,
}
use par_buffer_pool.Base.Words.{fetch_add}
use par_buffer_pool.Base.Effect.{Outcome, returned, panicked, Op, pure, expect, modify, ◌>>=◌, ◌>>◌}
use par_buffer_pool.Buffer.State.{PoolStats}
use par_buffer_pool.Local.State.{
  Elements, Erased, Downcast, fits, foreign, downcast, Slot, LocalPool, Counters, Process, update,
}
use par_buffer_pool.Local.Registry.{with_registry, take_buf, store_buf}

module _ (E : Elements) where
  open E use {TypeId, Elem}

  abbrev pub set_counters : ℕ → Counters E → Process E → Process E
  set_counters live c s = record s { counters = update s.counters live c }

  -- `ThreadLocalPool::new` with the element type `t`: the flag is new and true.
  unfoldable pub new : (t : TypeId) → (ℕ → Outcome (Elem t)) → Process E → LocalPool E × Process E
  new t init s =
      let pool : LocalPool E = record {
        elem = t;
        id = s.next_id;
        live = s.next_flag;
        init = init;
        reset = none;
      } in
      let fresh : Counters E = record {
        strong = 1;
        leases = 0;
        allocations = 0;
        init_runs = 0;
        reset_runs = 0;
      } in
      (
        pool,
        set_counters pool.live fresh (record s {
          next_id = fetch_add s.next_id 1;
          next_flag = s.next_flag + 1;
          flags = update s.flags s.next_flag true;
          created = s.created ++ (pool ∷ []);
        }),
      )

  -- `Default for ThreadLocalPool`: the initializer is `T::default`.
  abbrev default_local : (t : TypeId) → (ℕ → Outcome (Elem t)) → Process E → LocalPool E × Process E
  default_local t default_value s = new t default_value s

  -- A guard; its box is gone after `take`.
  pub record LocalPooled (t : TypeId) : Type 0 where
    pub buffer : Option (Elem t)

  abbrev pub slot_count : Option (Slot E) → ℕ
  slot_count none = 0
  slot_count (some slot) = if is_some slot.buf then 1 else 0

  module _ (p : LocalPool E) where
    abbrev pub counted : (Counters E → Counters E) → Op (Process E) (Unit {0})
    counted f = modify (λ s. set_counters p.live (f (s.counters p.live)) s)

    -- `LocalInner::drop`
    unfoldable pub drop_local_inner : Process E → Process E
    drop_local_inner s = record s {
      flags = update s.flags p.live false;
      drop_epoch = fetch_add s.drop_epoch 1;
    }

    unfoldable pub clone_local : Op (Process E) (Unit {0})
    clone_local = counted (λ c. record c { strong = c.strong + 1 })

    unfoldable pub release_local : Process E → Process E
    unfolding drop_local_inner
    release_local s =
        let c = s.counters p.live in
        let u = set_counters p.live (record c { strong = c.strong - 1 }) s in
        if c.strong == 1 then drop_local_inner u else u

    -- `(self.inner.init)()`, counted
    unfoldable pub allocate_local : Op (Process E) (Elem p.elem)
    allocate_local = do
      counted (λ c. record c { allocations = fetch_add c.allocations 1 })
      λ s.
          let c = s.counters p.live in
          (p.init c.init_runs, set_counters p.live (record c { init_runs = c.init_runs + 1 }) s)

    -- A buffer of another type goes back to its slot before the panic.
    abbrev pub or_panic : ℕ → Downcast E p.elem → Op (Process E) (Elem p.elem)
    or_panic i (fits b) = pure b
    or_panic i (foreign e) = do with_registry E i (store_buf E p.id p.live e); λ s. (panicked, s)

    abbrev pub or_allocate_local : ℕ → Option (Erased E) → Op (Process E) (Elem p.elem)
    or_allocate_local i (some e) = or_panic i (downcast E p.elem e)
    or_allocate_local i none = allocate_local

    unfoldable pub get_local : ℕ → Op (Process E) (LocalPooled p.elem)
    get_local i = do
      counted (λ c. record c { leases = fetch_add c.leases 1 })
      leased ← with_registry E i (take_buf E p.id p.live)
      buffer ← or_allocate_local i leased
      pure (record { buffer = some buffer })

    -- The reset hook, behind a downcast of its argument; a panic drops the buffer.
    unfoldable pub run_local_hook : Elem p.elem × Outcome (Unit {0}) → Op (Process E) (Erased E)
    run_local_hook (b, returned u) = do
      counted (λ c. record c { reset_runs = c.reset_runs + 1 })
      pure (record { type_id = p.elem; value = b })
    run_local_hook (b, panicked) = do
      counted (λ c. record c { reset_runs = c.reset_runs + 1 })
      λ s. (panicked, s)

    unfoldable pub downcast_mut : Downcast E p.elem → Op (Process E) (Elem p.elem)
    downcast_mut (fits b) = pure b
    downcast_mut (foreign e) = λ s. (panicked, s)

    unfoldable pub reset_erased :
        Option (ℕ → Elem p.elem → Elem p.elem × Outcome (Unit {0}))
        → Erased E
        → Op (Process E) (Erased E)
    unfolding downcast_mut run_local_hook
    reset_erased none e = pure e
    reset_erased (some hook) e = do
      typed ← downcast_mut (downcast E p.elem e)
      λ s. run_local_hook (hook (s.counters p.live).reset_runs typed) s

    unfoldable pub park_erased : ℕ → Erased E → Op (Process E) (Unit {0})
    unfolding reset_erased
    park_erased i e = do
      buffer ← reset_erased p.reset e
      with_registry E i (store_buf E p.id p.live buffer)

    unfoldable pub park_local : ℕ → Elem p.elem → Op (Process E) (Unit {0})
    unfolding park_erased
    park_local i b = park_erased i (record { type_id = p.elem; value = b })

    unfoldable pub put_local : ℕ → Elem p.elem → Op (Process E) (Unit {0})
    unfolding park_local
    put_local i b = park_local i b

    -- `Drop for LocalPooled`, on the thread `i`
    unfoldable pub drop_local_guard : ℕ → LocalPooled p.elem → Op (Process E) (Unit {0})
    unfolding park_erased
    drop_local_guard i g s = elim g.buffer [
      | none ↦ (returned tt, s)
      | some b ↦ park_erased i (record { type_id = p.elem; value = b }) s
    ]

    unfoldable pub into_inner_local : ℕ → LocalPooled p.elem → Op (Process E) (Elem p.elem)
    unfolding drop_local_guard
    into_inner_local i g = do
      b ← expect g.buffer
      drop_local_guard i (record { buffer = none })
      pure b

    -- `Deref` and `DerefMut`
    unfoldable pub deref_local : LocalPooled p.elem → Op (Process E) (Elem p.elem)
    deref_local g = expect g.buffer

    unfoldable pub deref_mut_local {κ} :
        {R : Type κ}
        → LocalPooled p.elem
        → (Elem p.elem → Elem p.elem × R)
        → Op (Process E) (LocalPooled p.elem × R)
    deref_mut_local g f = do b ← expect g.buffer; pure (record { buffer = some (f b).0 }, (f b).1)

    -- The guard is dropped on the way out, whether `f` returned or unwinds.
    unfoldable pub with_local {κ} :
        {R : Type κ} → ℕ → (Elem p.elem → Elem p.elem × Outcome R) → Op (Process E) R
    unfolding get_local deref_mut_local drop_local_guard
    with_local i f = do
      lease ← get_local i
      (changed, result) ← deref_mut_local lease f
      drop_local_guard i changed
      λ s. (result, s)

    unfoldable pub idle_len_local : ℕ → Op (Process E) ℕ
    idle_len_local i =
        with_registry E i (λ reg. (returned (slot_count (get_elem? reg.slots p.id)), reg))

    unfoldable pub stats_local : Process E → PoolStats
    stats_local s =
        let c = s.counters p.live in record { leases = c.leases; allocations = c.allocations }

  -- `Arc::get_mut` in `with_reset`: a handle that is not the only one panics, and is dropped.
  unfoldable pub with_reset_local :
      (p : LocalPool E)
      → (ℕ → Elem p.elem → Elem p.elem × Outcome (Unit {0}))
      → Op (Process E) (LocalPool E)
  with_reset_local p reset s =
      if (s.counters p.live).strong == 1
      then (returned (record p { reset = some reset }), s)
      else (panicked, release_local p s)

  -- The thread ends: its registry is dropped.
  buffers_of : List (Slot E) → List (Erased E)
  buffers_of [] = []
  buffers_of (s ∷ ss) = elim s.buf [ none ↦ buffers_of ss | some e ↦ e ∷ buffers_of ss ]

  unfoldable pub exit_thread : ℕ → Process E → Process E
  unfolding buffers_of
  exit_thread i s =
      let reg = s.registries i in
      record s {
        registries = update s.registries i (record {
          seen_epoch = 0;
          slots = [];
          released = buffers_of reg.slots ++ reg.released;
        });
      }
