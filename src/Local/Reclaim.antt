-- ===== src/Local/Reclaim.antt =====
-- src/local.rs: the sweep of `with_registry` after a pool was dropped.
use par_buffer_pool.Base.{
  ℕ, zero, suc, ◌+◌, ◌-◌, ◌<◌, Bool, true, false, some, List, [], ◌∷◌, ◌≡◌, ◌≢◌, inl, inr, refl,
  sym, ap, ◌∙◌, arith, get_elem?, eq_refl, eq-eq_false, ◌==◌, Bool-cases, Option-cases,
}
use native.Mathlib.Nat.{zero-add, add-zero, add-suc, suc-add}
use par_buffer_pool.Base.Words.{usize_mod, fetch_add_lem}
use par_buffer_pool.Base.Effect.{returned}
use par_buffer_pool.Local.State.{Elements, Slot, Registry, LocalPool, Process}
use par_buffer_pool.Local.Registry.{sweep, sweep_slot, sweep_slots, current, with_registry}
use par_buffer_pool.Local.Pool.{
  set_counters, idle_len_local, release_local, drop_local_inner, slot_count,
}
use par_buffer_pool.Local.Typed.{Typed, SlotFits}
use par_buffer_pool.Local.Safety.{Owner, IsHandle}
use par_buffer_pool.Local.Threads.{Reach, Reach-IsSafe}

module _ (E : Elements) (Owns : ℕ → E.TypeId → Type 0) (flags : ℕ → Bool) where
  sweep_slot-dead :
      (j : ℕ) (s : Slot E)
      → flags j ≡ false
      → SlotFits E Owns j s
      → slot_count E (some (sweep_slot E flags s)) ≡ 0
  unfolding sweep_slot
  sweep_slot-dead j s dead h = elim (Option-cases s.buf) [
    | inl e ↦ rw e
    | inr (b, e) ↦ rw (e, (rw e at h).0, dead) refl
  ]

  sweep_slot-alive :
      (j : ℕ) (s : Slot E) → flags j ≡ true → SlotFits E Owns j s → sweep_slot E flags s ≡ s
  unfolding sweep_slot
  sweep_slot-alive j s live h = elim (Option-cases s.buf) [
    | inl e ↦ rw e refl
    | inr (b, e) ↦ rw (e, (rw e at h).0, live) refl
  ]

  -- A sweep empties the slot of a dead pool.
  sweep_slots-dead :
      (j k : ℕ) (ss : List (Slot E))
      → flags (j + k) ≡ false
      → Typed E Owns j ss
      → slot_count E (get_elem? (sweep_slots E flags ss) k) ≡ 0
  unfolding sweep_slots Typed
  sweep_slots-dead j k [] dead h = refl
  sweep_slots-dead j zero (s ∷ ss) dead h = sweep_slot-dead j s (rw add-zero at dead) h.0
  sweep_slots-dead j (suc k) (s ∷ ss) dead h =
      sweep_slots-dead (suc j) k ss (rw (add-suc, ← suc-add) at dead) h.1

  -- It leaves the slot of a pool that is alive as it was.
  sweep_slots-alive :
      (j k : ℕ) (ss : List (Slot E))
      → flags (j + k) ≡ true
      → Typed E Owns j ss
      → get_elem? (sweep_slots E flags ss) k ≡ get_elem? ss k
  unfolding sweep_slots Typed
  sweep_slots-alive j k [] live h = refl
  sweep_slots-alive j zero (s ∷ ss) live h =
      ap some (sweep_slot-alive j s (rw add-zero at live) h.0)
  sweep_slots-alive j (suc k) (s ∷ ss) live h =
      sweep_slots-alive (suc j) k ss (rw (add-suc, ← suc-add) at live) h.1

  sweep-alive :
      (k epoch : ℕ) (reg : Registry E)
      → flags k ≡ true
      → Typed E Owns 0 reg.slots
      → get_elem? (sweep E flags epoch reg).slots k ≡ get_elem? reg.slots k
  unfolding sweep
  sweep-alive k epoch reg live h = elim (Bool-cases (epoch == reg.seen_epoch)) [
    | inl e ↦ rw e refl
    | inr e ↦ rw e (sweep_slots-alive 0 k reg.slots (rw zero-add live) h)
  ]

  sweep-dead :
      (k epoch : ℕ) (reg : Registry E)
      → flags k ≡ false
      → epoch ≢ reg.seen_epoch
      → Typed E Owns 0 reg.slots
      → slot_count E (get_elem? (sweep E flags epoch reg).slots k) ≡ 0
  unfolding sweep
  sweep-dead k epoch reg dead new h =
      rw (eq-eq_false epoch reg.seen_epoch new)
        (sweep_slots-dead 0 k reg.slots (rw zero-add dead) h)

module _ (E : Elements) where
  -- What the last handle's drop leaves.
  dropped_state : LocalPool E → Process E → Process E
  unfolding drop_local_inner
  dropped_state p s = drop_local_inner E p (
      set_counters E p.live (record (s.counters p.live) { strong = (s.counters p.live).strong - 1 })
        s)

  release_last :
      (p : LocalPool E) (s : Process E)
      → (s.counters p.live).strong ≡ 1
      → release_local E p s ≡ dropped_state p s
  unfolding release_local dropped_state
  release_last p s last = rw (ap (λ n. n == 1) last) refl

  -- In every process that threads reach by creating pools while `NEXT_ID` does not wrap, leasing,
  -- borrowing (`with`), returning and counting buffers, cloning handles, dropping them while `DROP_EPOCH` does not
  -- wrap, and exiting: once the last handle of a pool `p` is dropped, where `DROP_EPOCH` does not
  -- wrap, the next access of any thread to its registry, here a count for any pool `q`, leaves no
  -- buffer of `p` parked on that thread.
  pub release-reclaims :
      (s : Process E) (p q : LocalPool E) (i : ℕ)
      → Reach E s
      → IsHandle E p s
      → (s.counters p.live).strong ≡ 1
      → s.drop_epoch + 1 < usize_mod
      → let after = (idle_len_local E q i (release_local E p s)).1 in
        slot_count E (get_elem? (after.registries i).slots p.id) ≡ 0
  unfolding idle_len_local dropped_state drop_local_inner with_registry current
  release-reclaims s p q i r k last room =
      let h = Reach-IsSafe E r in
      let t = dropped_state p s in
      rw (release_last p s last, eq_refl i)
        (sweep-dead E (Owner E s.created) t.flags p.id t.drop_epoch (s.registries i)
          (rw (k.flagged, eq_refl p.id)) (omega (arith, h.epoch i, fetch_add_lem s.drop_epoch 1))
          (h.typed i))

  -- What lies parked for a pool that is alive is as the last access left it.
  idle_len_local-alive :
      (q : LocalPool E) (i : ℕ) (u : Process E) (Owns : ℕ → E.TypeId → Type 0)
      → u.flags q.id ≡ true
      → Typed E Owns 0 (u.registries i).slots
      → (idle_len_local E q i u).0 ≡ returned (slot_count E (get_elem? (u.registries i).slots q.id))
  unfolding idle_len_local with_registry current
  idle_len_local-alive q i u Owns alive h =
      ap (λ o. returned (slot_count E o))
        (sweep-alive E Owns u.flags q.id u.drop_epoch (u.registries i) alive h)

  dropped_state-flags :
      (p : LocalPool E) (s : Process E) (j : ℕ)
      → p.live ≢ j
      → (dropped_state p s).flags j ≡ s.flags j
  unfolding dropped_state
  dropped_state-flags p s j differ = rw (eq-eq_false p.live j differ) refl

  -- In every process that threads reach by creating pools while `NEXT_ID` does not wrap, leasing,
  -- borrowing (`with`), returning and counting buffers, cloning handles, dropping them while `DROP_EPOCH` does not
  -- wrap, and exiting: after a handle of a pool is dropped, a thread has a buffer parked for
  -- another pool, one that is alive, exactly if it had one before.
  pub release-spares :
      (s : Process E) (p q : LocalPool E) (i : ℕ)
      → Reach E s
      → IsHandle E p s
      → IsHandle E q s
      → p.id ≢ q.id
      → s.flags q.live ≡ true
      → (idle_len_local E q i (release_local E p s)).0 ≡ (idle_len_local E q i s).0
  unfolding release_local dropped_state
  release-spares s p q i r k l differ alive =
      let h = Reach-IsSafe E r in
      let live = rw l.flagged at alive in
      rw (idle_len_local-alive q i s (Owner E s.created) live (h.typed i))
        (elim (Bool-cases ((s.counters p.live).strong == 1)) [
          | inl e ↦ rw e (
              idle_len_local-alive q i (dropped_state p s) (Owner E s.created)
                (dropped_state-flags p s q.id (λ d. differ (sym k.flagged ∙ d)) ∙ live) (h.typed i))
          | inr e ↦ rw e (
              idle_len_local-alive q i (set_counters E p.live _ s) (Owner E s.created) live
                (h.typed i))
        ])
