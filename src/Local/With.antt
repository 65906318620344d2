-- ===== src/Local/With.antt =====
-- src/local.rs: `with`, over the lease of `get` and the return of the guard.
use par_buffer_pool.Base.{ℕ, none, some, ◌≡◌, inl, inr, ◌⊎◌, refl, ap, ◌∙◌}
use par_buffer_pool.Base.Effect.{Outcome, Outcome-cases, returned, panicked, and_then, ◌>>=◌}
use par_buffer_pool.Local.State.{Elements, LocalPool, Process}
use par_buffer_pool.Local.Pool.{
  LocalPooled, get_local, with_local, deref_mut_local, drop_local_guard, put_local,
}
use par_buffer_pool.Local.Safety.{
  IsSafe, IsHandle, IsLease, guarded_local, get_local-IsSafe, put_local-IsSafe, reset_outcome,
}

module _ (E : Elements) where
  open E use {Elem}

  -- The code that a full guard runs through in `with`.
  finish {κ} :
      {R : Type κ} (o : Outcome (Unit {0})) (u : Process E) (r : Outcome R)
      → (and_then o u (λ _ v. (r, v))).1 ≡ u
  finish (returned x) u r = refl
  finish panicked u r = refl

  module _ (p : LocalPool E) (i : ℕ) where
    with_local-leased {κ} :
        {R : Type κ} (f : Elem p.elem → Elem p.elem × Outcome R) (s t : Process E) (b : Elem p.elem)
        → get_local E p i s ≡ (returned (record { buffer = some b }), t)
        → with_local E p i f s
          ≡ and_then
              (put_local E p i (f b).0 t).0
              (put_local E p i (f b).0 t).1
              (λ _ v. ((f b).1, v))
    unfolding with_local deref_mut_local drop_local_guard put_local
    with_local-leased f s t b e =
        ap
          (λ (r : Outcome (LocalPooled E p.elem) × Process E). and_then r.0 r.1 (λ lease.
            deref_mut_local E p lease f >>= λ c. drop_local_guard E p i c.0 >>= λ _ v. (c.1, v)))
          e

    with_local-fails {κ} :
        {R : Type κ} (f : Elem p.elem → Elem p.elem × Outcome R) (s t : Process E)
        → get_local E p i s ≡ (panicked, t)
        → with_local E p i f s ≡ (panicked, t)
    unfolding with_local
    with_local-fails f s t e =
        ap
          (λ (r : Outcome (LocalPooled E p.elem) × Process E). and_then r.0 r.1 (λ lease.
            deref_mut_local E p lease f >>= λ c. drop_local_guard E p i c.0 >>= λ _ v. (c.1, v)))
          e

    -- A lease brings a buffer, or the initializer has panicked.
    lease_cases :
        (runs : ℕ) (r : Outcome (LocalPooled E p.elem))
        → IsLease E p i runs r
        → ((b : Elem p.elem) × (r ≡ returned (record { buffer = some b })))
          ⊎ ((r ≡ panicked) × (p.init runs ≡ panicked))
    lease_cases runs r (inl l) = inl l
    lease_cases runs r (inr e) = elim (Outcome-cases (p.init runs)) [
      | inl (b, q) ↦ inl (b, e ∙ ap (guarded_local E) q)
      | inr q ↦ inr (e ∙ ap (guarded_local E) q, q)
    ]

    paired :
        (o : Outcome (LocalPooled E p.elem)) (s : Process E)
        → (get_local E p i s).0 ≡ o
        → get_local E p i s ≡ (o, (get_local E p i s).1)
    paired o s e = ap (λ o. (o, (get_local E p i s).1)) e

    pub with_local-IsSafe {κ} :
        {R : Type κ} (f : Elem p.elem → Elem p.elem × Outcome R) (s : Process E)
        → IsHandle E p s
        → IsSafe E s
        → IsSafe E (with_local E p i f s).1
    with_local-IsSafe f s k h =
        let (safe, handle, l) = get_local-IsSafe E p i s k h in
        let t = (get_local E p i s).1 in
        elim (lease_cases _ _ l) [
          | inl (b, e) ↦
              let put = put_local E p i (f b).0 t in
              rw (with_local-leased f s t b (paired _ s e), finish put.0 put.1 (f b).1)
                (put_local-IsSafe E p i (f b).0 t handle safe).0
          | inr (e, q) ↦ rw (with_local-fails f s t (paired _ s e)) safe
        ]

    pub with_local-result {κ} :
        {R : Type κ} (f : Elem p.elem → Elem p.elem × Outcome R) (s : Process E)
        → IsHandle E p s
        → IsSafe E s
        → p.reset ≡ none
        → ((b : Elem p.elem) × ((get_local E p i s).0 ≡ returned (record { buffer = some b }))
            × ((with_local E p i f s).0 ≡ (f b).1))
          ⊎ ((p.init (s.counters p.live).init_runs ≡ panicked)
              × ((with_local E p i f s).0 ≡ panicked))
    with_local-result f s k h plain =
        let (safe, handle, l) = get_local-IsSafe E p i s k h in
        let t = (get_local E p i s).1 in
        elim (lease_cases _ _ l) [
          | inl (b, e) ↦
              let q = (put_local-IsSafe E p i (f b).0 t handle safe).1 in
              let calm =
                ap (λ z. reset_outcome E p i z (t.counters p.live).reset_runs (f b).0) plain in
              inl (b, e, rw (with_local-leased f s t b (paired _ s e), q, calm) refl)
          | inr (e, q) ↦ inr (q, rw (with_local-fails f s t (paired _ s e)) refl)
        ]
