-- ===== src/Buffer/Guard.antt =====
-- src/buffer.rs: the guards `SharedPooled` and `SharedPooledOwned`, and the reference count that
-- keeps the state of a pool alive.
use par_buffer_pool.Base.{ℕ, ◌+◌, ◌-◌, none, some, List, [], ◌∷◌, ◌++◌, ◌==◌, if◌then◌else◌}
use par_buffer_pool.Base.Effect.{Op, pure, expect, modify, ◌>>=◌, ◌>>◌}
use par_buffer_pool.Buffer.State.{Mutex, write_pile, Machine, SharedPooled, SharedPooledOwned}
use par_buffer_pool.Buffer.Inner.{recycle, set_shards, set_reserve}

module _ {ℓ} {T : Type ℓ} where
  -- `Arc::clone` and the drop of an `Arc`. With the last reference the piles are dropped.
  abbrev pub set_strong : ℕ → Machine T → Machine T
  set_strong n s = record s { strong = n }

  unfoldable pub arc_clone : Op (Machine T) (Unit {0})
  arc_clone = modify (λ s. set_strong (s.strong + 1) s)

  unfoldable pub all_buffers : List (Mutex (List T)) → List T
  all_buffers [] = []
  all_buffers (m ∷ ms) = m.value ++ all_buffers ms

  unfoldable pub emptied : List (Mutex (List T)) → List (Mutex (List T))
  emptied [] = []
  emptied (m ∷ ms) = write_pile m [] ∷ emptied ms

  unfoldable pub drop_inner : Machine T → Machine T
  unfolding all_buffers emptied
  drop_inner s =
      let buffers = all_buffers s.shards ++ s.reserve.value in
      record (set_shards (emptied s.shards) (set_reserve [] s)) { dropped = buffers ++ s.dropped }

  unfoldable pub release_handle : Machine T → Machine T
  unfolding drop_inner
  release_handle s =
      if s.strong == 1 then drop_inner (set_strong 0 s) else set_strong (s.strong - 1) s

  -- Code that runs whether `m` returns or unwinds.
  abbrev pub finally {κ} :
      {A : Type κ} → Op (Machine T) A → (Machine T → Machine T) → Op (Machine T) A
  finally m cleanup s = ((m s).0, cleanup (m s).1)

  -- `Drop for SharedPooled`, on the thread `i`
  unfoldable pub drop_guard : ℕ → SharedPooled T → Op (Machine T) (Unit {0})
  drop_guard i g = elim g.buffer [ none ↦ pure tt | some b ↦ recycle i b ]

  -- `SharedPooled::into_inner`: the buffer leaves the guard before the guard is dropped.
  unfoldable pub into_inner : ℕ → SharedPooled T → Op (Machine T) T
  unfolding drop_guard
  into_inner i g = do b ← expect g.buffer; drop_guard i (record { buffer = none }); pure b

  -- `Deref`, and a change through `DerefMut` with what it gives back.
  unfoldable pub deref : SharedPooled T → Op (Machine T) T
  deref g = expect g.buffer

  unfoldable pub deref_mut {κ} :
      {R : Type κ} → SharedPooled T → (T → T × R) → Op (Machine T) (SharedPooled T × R)
  deref_mut g f = do b ← expect g.buffer; pure (record { buffer = some (f b).0 }, (f b).1)

  unfoldable pub deref_owned : SharedPooledOwned T → Op (Machine T) T
  deref_owned g = expect g.buffer

  unfoldable pub deref_mut_owned {κ} :
      {R : Type κ} → SharedPooledOwned T → (T → T × R) → Op (Machine T) (SharedPooledOwned T × R)
  deref_mut_owned g f = do b ← expect g.buffer; pure (record { buffer = some (f b).0 }, (f b).1)

  -- `Drop for SharedPooledOwned`; the field `inner` is dropped after it, also in a panic.
  unfoldable pub drop_owned : ℕ → SharedPooledOwned T → Op (Machine T) (Unit {0})
  unfolding release_handle
  drop_owned i g =
      finally (λ s. elim g.buffer [ none ↦ pure tt s | some b ↦ recycle i b s ]) release_handle

  unfoldable pub into_inner_owned : ℕ → SharedPooledOwned T → Op (Machine T) T
  unfolding drop_owned
  into_inner_owned i g = do drop_owned i (record { buffer = none }); expect g.buffer
