-- ===== src/Buffer/Pool/With.antt =====
-- src/buffer.rs: `with` and `get_owned`, over the lease of `get`.
use par_buffer_pool.Base.{ℕ, ◌+◌, some, ◌≡◌, refl}
use par_buffer_pool.Base.Effect.{and_then, Outcome, returned, panicked}
use par_buffer_pool.Buffer.State.{Machine}
use par_buffer_pool.Buffer.Inner.{recycle}
use par_buffer_pool.Buffer.Guard.{drop_guard, deref_mut, arc_clone, set_strong}
use par_buffer_pool.Buffer.Pool.{get, get_owned, with}
use par_buffer_pool.Buffer.Pool.Lease.{guard}

-- The result of the closure, unless the return of the buffer panics.
abbrev pub unless_panicked {κ} : {R : Type κ} → Outcome (Unit {0}) → Outcome R → Outcome R
unless_panicked (returned u) r = r
unless_panicked panicked r = panicked

module _ {ℓ} {T : Type ℓ} where
  finish {κ} :
      {R : Type κ} (o : Outcome (Unit {0})) (u : Machine T) (r : Outcome R)
      → and_then o u (λ _ v. (r, v)) ≡ (unless_panicked o r, u)
  finish (returned x) u r = refl
  finish panicked u r = refl

  -- Where `get` leases a buffer `b`, `with f` recycles what `f` has made of `b`, whether `f`
  -- returned or panicked, and answers as `f` did unless that return panics.
  pub with_lem {κ} :
      {R : Type κ} (i : ℕ) (f : T → T × Outcome R) (s t : Machine T) (b : T)
      → get i s ≡ (returned (guard b), t)
      → with i f s ≡ (unless_panicked (recycle i (f b).0 t).0 (f b).1, (recycle i (f b).0 t).1)
  unfolding with drop_guard deref_mut
  with_lem i f s t b e = rw e (finish (recycle i (f b).0 t).0 (recycle i (f b).0 t).1 (f b).1)

  pub with_panics {κ} :
      {R : Type κ} (i : ℕ) (f : T → T × Outcome R) (s t : Machine T)
      → get i s ≡ (panicked, t)
      → with i f s ≡ (panicked, t)
  unfolding with
  with_panics i f s t e = rw e

  -- Where `get` leases a buffer, `get_owned` leases the same buffer from the same state, with one
  -- reference more.
  pub get_owned_lem :
      (i : ℕ) (s t : Machine T) (b : T)
      → get i s ≡ (returned (guard b), t)
      → get_owned i s ≡ (returned (record { buffer = some b }), set_strong (t.strong + 1) t)
  unfolding get_owned drop_guard arc_clone
  get_owned_lem i s t b e = rw e

  pub get_owned_panics :
      (i : ℕ) (s t : Machine T) → get i s ≡ (panicked, t) → get_owned i s ≡ (panicked, t)
  unfolding get_owned
  get_owned_panics i s t e = rw e
