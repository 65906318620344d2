-- ===== src/Local/Registry.antt =====
-- src/local.rs: `with_registry` with its sweep, and `slot_for`. The argument `i` is the thread.
use par_buffer_pool.Base.{
  ℕ, ◌+◌, ◌-◌, Bool, Option, none, some, List, [], ◌∷◌, ◌++◌, leb, ◌==◌, if◌then◌else◌, length,
  get_elem?, set, replicate, is_some,
}
use par_buffer_pool.Base.Effect.{returned, panicked, Op, pure, expect, modify, ◌>>=◌, ◌>>◌}
use par_buffer_pool.Local.State.{Elements, Erased, Slot, Registry, Process, update}

module _ (E : Elements) where
  -- The buffers of pools that are gone are dropped.
  unfoldable pub sweep_slot : (ℕ → Bool) → Slot E → Slot E
  sweep_slot flags s =
      if is_some s.buf then (if flags s.live then s else record s { buf = none }) else s

  option_list : Option (Erased E) → List (Erased E)
  option_list none = []
  option_list (some e) = e ∷ []

  unfoldable pub swept_from : (ℕ → Bool) → Slot E → List (Erased E)
  unfolding option_list
  swept_from flags s = if flags s.live then [] else option_list s.buf

  unfoldable pub sweep_slots : (ℕ → Bool) → List (Slot E) → List (Slot E)
  unfolding sweep_slot
  sweep_slots flags [] = []
  sweep_slots flags (s ∷ ss) = sweep_slot flags s ∷ sweep_slots flags ss

  unfoldable pub swept : (ℕ → Bool) → List (Slot E) → List (Erased E)
  unfolding swept_from
  swept flags [] = []
  swept flags (s ∷ ss) = swept_from flags s ++ swept flags ss

  unfoldable pub sweep : (ℕ → Bool) → ℕ → Registry E → Registry E
  unfolding sweep_slots swept
  sweep flags epoch reg = if epoch == reg.seen_epoch then reg else record {
    seen_epoch = epoch;
    slots = sweep_slots flags reg.slots;
    released = swept flags reg.slots ++ reg.released;
  }

  -- The registry of thread `i` as `f` finds it.
  unfoldable pub current : ℕ → Process E → Registry E
  unfolding sweep
  current i s = sweep s.flags s.drop_epoch (s.registries i)

  unfoldable pub with_registry {ℓ} : {R : Type ℓ} → ℕ → Op (Registry E) R → Op (Process E) R
  unfolding current
  with_registry i f s =
      let (result, reg) = f (current i s) in
      (result, record s { registries = update s.registries i reg })

  abbrev pub empty_slot : ℕ → Slot E
  empty_slot live = record { live = live; buf = none }

  -- A slot that another pool's growth has filled is repaired; that it holds a buffer is a failed
  -- `debug_assert!`.
  unfoldable pub repair : ℕ → Slot E → Op (Registry E) (Slot E)
  repair live slot =
      if slot.live == live
      then pure slot
      else (if is_some slot.buf then (λ r. (panicked, r)) else pure (record slot { live = live }))

  -- The slot of the pool `id`: a copy, which the caller writes back with `put_slot`.
  unfoldable pub slot_for : ℕ → ℕ → Op (Registry E) (Slot E)
  unfolding repair
  slot_for id live reg =
      if leb (length reg.slots) id
      then (
        returned (empty_slot live),
        record reg { slots = reg.slots ++ replicate (id + 1 - length reg.slots) (empty_slot live) },
      )
      else (do slot ← expect (get_elem? reg.slots id); repair live slot) reg

  abbrev pub put_slot : ℕ → Slot E → Op (Registry E) (Unit {0})
  put_slot id slot = modify (λ r. record r { slots = set r.slots id slot })

  -- `slot_for(..).buf.take()`
  unfoldable pub take_buf : ℕ → ℕ → Op (Registry E) (Option (Erased E))
  unfolding slot_for
  take_buf id live = do
    slot ← slot_for id live
    put_slot id (record slot { buf = none })
    pure slot.buf

  -- `slot_for(..).buf = Some(buffer)`, which drops what was there.
  unfoldable pub store_buf : ℕ → ℕ → Erased E → Op (Registry E) (Unit {0})
  unfolding slot_for option_list
  store_buf id live e = do
    slot ← slot_for id live
    put_slot id (record slot { buf = some e })
    modify (λ r. record r { released = option_list slot.buf ++ r.released })
