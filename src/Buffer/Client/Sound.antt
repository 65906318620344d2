-- ===== src/Buffer/Client/Sound.antt =====
-- src/buffer.rs: a pool after a history of calls from any threads.
use par_buffer_pool.Base.{
  ℕ, ◌+◌, ◌≤◌, ◌<◌, some, List, [], ◌∷◌, ◌++◌, ◌≡◌, refl, ap, arith, total, total-append, length,
  length-append, inl, inr, ◌⊎◌,
}
use native.Mathlib.Decide.{dec_lt}
use par_buffer_pool.Buffer.State.{Machine}
use par_buffer_pool.Buffer.Guard.{drop_guard, into_inner, drop_owned, into_inner_owned}
use par_buffer_pool.Buffer.Weights.{idle_weight, idle}
use par_buffer_pool.Buffer.Invariant.{IsWellFormed, IsWithinCap, Preserves, made}
use par_buffer_pool.Buffer.Client.{
  Client, start, Step, lease, lease_owned, give_back, detach, give_back_owned, detach_owned,
  put_back, take_all, supply, write_borrowed, write_owned, clone_handle, drop_handle, Reach, here,
  next,
}
use par_buffer_pool.Buffer.Client.Ledger.{outside, IsSound}
use par_buffer_pool.Buffer.Client.History.{
  lender, lease-IsSound, lease_owned-IsSound, give_back-IsSound, detach-IsSound,
  give_back_owned-IsSound, detach_owned-IsSound, put_back-IsSound, take_all-IsSound,
  clone_handle-IsSound, drop_handle-IsSound, held-IsSound,
}

total-replace {ℓ} :
    {T : Type ℓ} (w : T → ℕ) (xs ys : List T) (b b' : T)
    → w b' ≡ w b
    → total w (xs ++ (b' ∷ ys)) ≡ total w (xs ++ (b ∷ ys))
total-replace w xs ys b b' e =
    omega (arith, total-append w xs (b ∷ ys), total-append w xs (b' ∷ ys))

length-replace {ℓ} :
    {T : Type ℓ} (xs ys : List T) (b b' : T) → length (xs ++ (b' ∷ ys)) ≡ length (xs ++ (b ∷ ys))
length-replace xs ys b b' = omega (arith, length-append xs (b ∷ ys), length-append xs (b' ∷ ys))

module _ {ℓ} {T : Type ℓ} {Writes : T → T → Type ℓ} where
  start-IsSound : (s : Machine T) → IsWellFormed s → s.strong ≡ 1 → IsSound Writes s (start s)
  start-IsSound s h unique = record {
    references = omega arith;
    lending = λ z. refl;
    alive = λ p. h;
    within = λ p c. c;
    same_reset = refl;
    balanced = λ w p q. omega arith;
  }

  -- Every step keeps the books.
  pub Step-IsSound :
      {s : Machine T} {c d : Client T} → IsSound Writes s c → Step Writes c d → IsSound Writes s d
  unfolding into_inner drop_owned into_inner_owned drop_guard
  Step-IsSound h (lease i p) = lease-IsSound h i p
  Step-IsSound h (lease_owned i p) = lease_owned-IsSound h i p
  Step-IsSound h (give_back i b xs ys e) = give_back-IsSound h i b xs ys e
  Step-IsSound h (detach i b xs ys e) = detach-IsSound h i b xs ys e
  Step-IsSound h (give_back_owned i b xs ys e) = give_back_owned-IsSound h i b xs ys e
  Step-IsSound h (detach_owned i b xs ys e) = detach_owned-IsSound h i b xs ys e
  Step-IsSound h (put_back i b xs ys p e) = put_back-IsSound h i b xs ys p e
  Step-IsSound h (take_all p) = take_all-IsSound h p
  Step-IsSound {c = c} h (supply b) =
      held-IsSound h c.borrowed c.owned (b ∷ c.detached) (b ∷ c.supplied) refl h.lending
        (λ w q. omega arith)
  Step-IsSound {c = c} h (write_borrowed b b' xs ys a e) =
      held-IsSound h (xs ++ (b' ∷ ys)) c.owned c.detached c.supplied refl
        (λ z. absurd (omega (arith, lender h b xs ys e)))
        (λ w q. omega (arith, total-replace w xs ys b b' (q b b' a), ap (total w) e))
  Step-IsSound {c = c} h (write_owned b b' xs ys a e) =
      held-IsSound h c.borrowed (xs ++ (b' ∷ ys)) c.detached c.supplied
        (omega (arith, length-replace xs ys b b', ap length e)) h.lending
        (λ w q. omega (arith, total-replace w xs ys b b' (q b b' a), ap (total w) e))
  Step-IsSound h (clone_handle p) = clone_handle-IsSound h p
  Step-IsSound h (drop_handle p last) = drop_handle-IsSound h p last

  pub Reach-IsSound :
      {s : Machine T} {c : Client T}
      → IsWellFormed s
      → s.strong ≡ 1
      → Reach Writes s c
      → IsSound Writes s c
  Reach-IsSound {s} h unique here = start-IsSound s h unique
  Reach-IsSound h unique (next r st) = Step-IsSound (Reach-IsSound h unique r) st

module _ {ℓ} {T : Type ℓ} {Writes : T → T → Type ℓ} {s : Machine T} {c : Client T} where
  -- Weigh the buffers by any `w` that the reset hook and the writes of the program leave alone.
  -- In every state that a program reaches from a well-formed pool with one handle, the buffers
  -- that are idle, dropped, under guards or with the program weigh what the pool held at the
  -- start, what the program supplied, and what the initializer has made since, together.
  pub conservation :
      IsWellFormed s
      → s.strong ≡ 1
      → Reach Writes s c
      → (w : T → ℕ) → Preserves w s.reset
      → ((b b' : T) → Writes b b' → w b' ≡ w b)
      → idle_weight w c.machine + total w c.machine.dropped + outside w c + made w s
        ≡ idle_weight w s + total w s.dropped + total w c.supplied + made w c.machine
  conservation h unique r w p q = (Reach-IsSound h unique r).balanced w p q

  -- In every state that a program reaches from a well-formed pool with one handle and no more
  -- idle buffers than its cap: while the pool is alive and has a cap, the count `parked` is the
  -- number of idle buffers, and at most the cap.
  pub cap_holds :
      IsWellFormed s
      → s.strong ≡ 1
      → IsWithinCap s
      → Reach Writes s c
      → 0 < c.machine.strong
      → (p : ℕ) → c.machine.parked ≡ some p
      → (p ≡ idle c.machine) × (idle c.machine ≤ c.machine.max_idle)
  unfolding idle_weight
  cap_holds h unique within r alive p e =
      let sound = Reach-IsSound h unique r in
      let counted = (sound.alive alive).counted in
      let bounded = sound.within alive within in ((rw e at counted).0, rw e at bounded)

  -- In every state that a program reaches from a well-formed pool with one handle, the reference
  -- count is the number of handles and owning guards: with an owning guard alive it is not 0, and
  -- a borrowing guard has a handle.
  pub references_counted :
      IsWellFormed s
      → s.strong ≡ 1
      → Reach Writes s c
      → (c.machine.strong ≡ c.handles + length c.owned) × ((c.borrowed ≡ []) ⊎ (0 < c.handles))
  references_counted h unique r =
      let sound = Reach-IsSound h unique r in
      (
        sound.references,
        elim (dec_lt 0 c.handles) [ yes p ↦ inr p | no z ↦ inl (sound.lending (omega arith)) ],
      )
