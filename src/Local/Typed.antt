-- ===== src/Local/Typed.antt =====
-- src/local.rs: slots and the pools whose buffers they hold, for `slot_for` and the sweep.
use par_buffer_pool.Base.{
  ℕ, zero, suc, ◌+◌, ◌-◌, ◌<◌, Bool, Option, none, some, List, [], ◌∷◌, ◌++◌, ◌≡◌, inl, inr, refl,
  subst, arith, length, get_elem?, set, replicate, is_some, ◌==◌, Bool-cases, leb-eq_true,
  Option-cases, get_elem?-lt, length-append, length-replicate, leb-eq_false, eq_refl, eq-eq_false,
}
use native.Mathlib.Nat.{zero-add, add-zero, add-suc, suc-add}
use mathlib.Core.Option.{some-injective}
use native.Mathlib.Decide.{dec_le, ℕ_discrete}
use par_buffer_pool.Base.Effect.{returned}
use par_buffer_pool.Local.State.{Elements, Erased, Slot, Registry}
use par_buffer_pool.Local.Registry.{
  sweep_slot, sweep_slots, sweep, empty_slot, repair, slot_for, take_buf, store_buf,
}

-- `Owns j t`: the pool with the id `j` has the element type `t`.
module _ (E : Elements) (Owns : ℕ → E.TypeId → Type 0) where
  abbrev pub BufFits : ℕ → ℕ → Option (Erased E) → Type 0
  BufFits j live none = Unit {0}
  BufFits j live (some e) = (live ≡ j) × Owns j e.type_id

  abbrev pub SlotFits : ℕ → Slot E → Type 0
  SlotFits j s = BufFits j s.live s.buf

  -- The slots from the index `j` on hold only buffers of their own pools.
  unfoldable pub Typed : ℕ → List (Slot E) → Type 0
  Typed j [] = Unit {0}
  Typed j (s ∷ ss) = SlotFits j s × Typed (suc j) ss

  sweep_slot-SlotFits :
      (flags : ℕ → Bool) (j : ℕ) (s : Slot E) → SlotFits j s → SlotFits j (sweep_slot E flags s)
  unfolding sweep_slot
  sweep_slot-SlotFits flags j s h = elim (Bool-cases (is_some s.buf)) [
    | inr e ↦ rw e h
    | inl e ↦ elim (Bool-cases (flags s.live)) [ inl f ↦ rw (e, f) h | inr f ↦ rw (e, f) tt ]
  ]

  pub sweep_slots-Typed :
      (flags : ℕ → Bool) (j : ℕ) (ss : List (Slot E))
      → Typed j ss
      → Typed j (sweep_slots E flags ss)
  unfolding Typed sweep_slots
  sweep_slots-Typed flags j [] h = tt
  sweep_slots-Typed flags j (s ∷ ss) h =
      (sweep_slot-SlotFits flags j s h.0, sweep_slots-Typed flags (suc j) ss h.1)

  pub sweep-Typed :
      (flags : ℕ → Bool) (epoch : ℕ) (reg : Registry E)
      → Typed 0 reg.slots
      → Typed 0 (sweep E flags epoch reg).slots
  unfolding sweep
  sweep-Typed flags epoch reg h = elim (Bool-cases (epoch == reg.seen_epoch)) [
    | inl e ↦ rw e h
    | inr e ↦ rw e (sweep_slots-Typed flags 0 reg.slots h)
  ]

  replicate-Typed : (j n live : ℕ) → Typed j (replicate n (empty_slot E live))
  unfolding Typed
  replicate-Typed j zero live = tt
  replicate-Typed j (suc n) live = (tt, replicate-Typed (suc j) n live)

  append-Typed :
      (j n live : ℕ) (ss : List (Slot E))
      → Typed j ss
      → Typed j (ss ++ replicate n (empty_slot E live))
  unfolding Typed
  append-Typed j n live [] h = replicate-Typed j n live
  append-Typed j n live (s ∷ ss) h = (h.0, append-Typed (suc j) n live ss h.1)

  -- The slot at the index `k` from `j` on.
  get_elem-SlotFits :
      (j k : ℕ) (ss : List (Slot E)) (s : Slot E)
      → Typed j ss
      → get_elem? ss k ≡ some s
      → SlotFits (j + k) s
  unfolding Typed
  get_elem-SlotFits j k [] s h e = cc
  get_elem-SlotFits j zero (x ∷ ss) s h e =
      rw add-zero (subst (SlotFits j) (some-injective x s e) h.0)
  get_elem-SlotFits j (suc k) (x ∷ ss) s h e =
      rw (add-suc, ← suc-add) (get_elem-SlotFits (suc j) k ss s h.1 e)

  set-Typed :
      (j k : ℕ) (ss : List (Slot E)) (s : Slot E)
      → Typed j ss
      → SlotFits (j + k) s
      → Typed j (set ss k s)
  unfolding Typed
  set-Typed j k [] s h f = tt
  set-Typed j zero (x ∷ ss) s h f = (rw add-zero at f, h.1)
  set-Typed j (suc k) (x ∷ ss) s h f =
      (h.0, set-Typed (suc j) k ss s h.1 (rw (add-suc, ← suc-add) at f))

  -- What `slot_for` answers to the pool `id`: a slot with its flag, whose buffer is its own.
  pub record IsGranted (id : ℕ) (reg : Registry E) : Type 0 where
    pub slot : Slot E
    pub after : Registry E
    pub answers : slot_for E id id reg ≡ (returned slot, after)
    pub flagged : slot.live ≡ id
    pub fits : SlotFits id slot
    pub typed : Typed 0 after.slots
    pub inside : id < length after.slots
    pub same_epoch : after.seen_epoch ≡ reg.seen_epoch

  -- A slot with another flag holds nothing.
  repair_lem :
      (id : ℕ) (s : Slot E) (reg : Registry E)
      → SlotFits id s
      → (t : Slot E) × (repair E id s reg ≡ (returned t, reg)) × (t.live ≡ id) × SlotFits id t
  unfolding repair
  repair_lem id s reg h = elim (ℕ_discrete s.live id) [
    | yes same ↦ (s, rw same (rw (eq_refl id) refl), same, h)
    | no differ ↦ elim (Option-cases s.buf) [
      | inl e ↦ (record s { live = id }, rw (eq-eq_false s.live id differ, e) refl, refl, rw e tt)
      | inr (b, e) ↦ absurd (differ (rw e at h).0)
    ]
  ]

  pub slot_for-IsGranted : (id : ℕ) (reg : Registry E) → Typed 0 reg.slots → IsGranted id reg
  unfolding slot_for
  slot_for-IsGranted id reg h = elim (dec_le (length reg.slots) id) [
    | yes short ↦ record {
      slot = empty_slot E id;
      after = record reg {
        slots = reg.slots ++ replicate (id + 1 - length reg.slots) (empty_slot E id);
      };
      answers = rw (leb-eq_true (length reg.slots) id short) refl;
      flagged = refl;
      fits = tt;
      same_epoch = refl;
      typed = append-Typed 0 (id + 1 - length reg.slots) id reg.slots h;
      inside = omega (
        arith,
        length-append reg.slots (replicate (id + 1 - length reg.slots) (empty_slot E id)),
        length-replicate (id + 1 - length reg.slots) (empty_slot E id),
      );
    }
    | no long ↦
        let (s, e) = get_elem?-lt reg.slots id (omega arith) in
        let (t, r, live, fits) =
          repair_lem id s reg (rw zero-add at (get_elem-SlotFits 0 id reg.slots s h e)) in
        record {
          slot = t;
          after = reg;
          answers = rw (leb-eq_false (length reg.slots) id (omega arith), e, r) refl;
          flagged = live;
          fits = fits;
          same_epoch = refl;
          typed = h;
          inside = omega arith;
        }
  ]

  -- The pool `id` takes a buffer of its own, or none, and does not panic.
  pub take_buf-Typed :
      (id live : ℕ) (reg : Registry E)
      → live ≡ id
      → Typed 0 reg.slots
      → (o : Option (Erased E)) × ((take_buf E id live reg).0 ≡ returned o)
        × BufFits id id o
        × ((take_buf E id live reg).1.seen_epoch ≡ reg.seen_epoch)
        × Typed 0 (take_buf E id live reg).1.slots
  unfolding take_buf
  take_buf-Typed id live reg same h =
      let g = slot_for-IsGranted id reg h in
      rw (same, g.answers)
        (
          g.slot.buf,
          refl,
          rw g.flagged at g.fits,
          g.same_epoch,
          set-Typed 0 id g.after.slots _ g.typed tt,
        )

  pub store_buf-Typed :
      (id live : ℕ) (e : Erased E) (reg : Registry E)
      → live ≡ id
      → Typed 0 reg.slots
      → Owns id e.type_id
      → ((store_buf E id live e reg).0 ≡ returned tt)
        × ((store_buf E id live e reg).1.seen_epoch ≡ reg.seen_epoch)
        × Typed 0 (store_buf E id live e reg).1.slots
  unfolding store_buf
  store_buf-Typed id live e reg same h own =
      let g = slot_for-IsGranted id reg h in
      rw (same, g.answers)
        (refl, g.same_epoch, set-Typed 0 id g.after.slots _ g.typed (rw zero-add (g.flagged, own)))

module _ (E : Elements) (Owns Owns' : ℕ → E.TypeId → Type 0) where
  -- More pools may be known.
  pub Typed-map :
      ((j : ℕ) (t : E.TypeId) → Owns j t → Owns' j t)
      → (j : ℕ) (ss : List (Slot E)) → Typed E Owns j ss
      → Typed E Owns' j ss
  unfolding Typed
  Typed-map f j [] h = tt
  Typed-map f j (s ∷ ss) h = (go s.buf h.0, Typed-map f (suc j) ss h.1)
    where
      go : (o : Option (Erased E)) → BufFits E Owns j s.live o → BufFits E Owns' j s.live o
      go none k = tt
      go (some e) k = (k.0, f j e.type_id k.1)
