-- ===== src/Buffer/Contract/Returns.antt =====
-- src/buffer.rs: `recycle` and the contract.
use par_buffer_pool.Base.{
  ℕ, List, [], ◌≡◌, refl, sym, ap, subst, ◌∙◌, Option-cases, Bool-cases, inl, inr, ◌⊎◌,
}
use par_buffer_pool.Base.Effect.{returned, panicked, Outcome-cases}
use par_buffer_pool.Buffer.State.{Machine, Mutex}
use par_buffer_pool.Buffer.Inner.{run_reset, reset_with, recycle, discard, set_parked}
use par_buffer_pool.Buffer.Inner.Forms.{Own, find_pile, has_room, claimed}
use par_buffer_pool.Buffer.Pool.{put}
use par_buffer_pool.Buffer.Invariant.{Counted, IsWellFormed}
use par_buffer_pool.Buffer.Invariant.Inner.{ran, settled, run_hook-returned, run_hook-panicked}
use par_buffer_pool.Buffer.Invariant.Return.{recycle_lem, ran-Keeps}
use par_buffer_pool.Buffer.Contract.{
  give_back, ResetsTo, ResetPanics, Allowed, kept, refused, hook_panics, perform, terms, idle_bag,
}
use par_buffer_pool.Buffer.Contract.Views.{parked_at-adds, size-idle_bag}
use par_buffer_pool.Buffer.Contract.Serves.{Serves, cap_of-claimed, HasRoom-cap_of, IsFull-cap_of}

module _ {ℓ} {T : Type ℓ} where
  -- The reset of a returned buffer: it goes on to the cap, or the hook panics and it is dropped.
  reset_allowed :
      (b : T) (s : Machine T)
      → ((b' : T) × (u : Machine T) × (run_reset b s ≡ (returned b', u))
          × ResetsTo s.reset b b'
          × ((u ≡ s) ⊎ (u ≡ ran s)))
        ⊎ ((b' : T) × (run_reset b s ≡ (panicked, discard b' (ran s))) × ResetPanics s.reset b)
  unfolding run_reset
  reset_allowed b s = elim (Option-cases s.reset) [
    | inl e ↦ inl (b, s, ap (λ r. reset_with r b s) e, rw e refl, inl refl)
    | inr (hook, e) ↦
        let p = hook s.reset_runs b in
        let run = ap (λ r. reset_with r b s) e in
        elim (Outcome-cases p.1) [
          | inl (u, o) ↦ inl (
            p.0,
            ran s,
            run ∙ run_hook-returned p s u o,
            rw e (s.reset_runs, ap (λ q. (p.0, q)) o),
            inr refl,
          )
          | inr o ↦ inr (
            p.0,
            run ∙ run_hook-panicked p s o,
            (hook, s.reset_runs, p.0, e, ap (λ q. (p.0, q)) o),
          )
        ]
  ]

  -- The buffer is parked or refused as the cap decides.
  settled-Serves :
      (i : ℕ) (b b' : T) (m : Mutex (List T)) (s : Machine T)
      → Own i s m
      → IsWellFormed s
      → ResetsTo s.reset b b'
      → Serves s (give_back i b) (returned []) (settled i b' m s)
  unfolding idle_bag
  settled-Serves i b b' m s own h to =
      let counted = subst (Counted s.parked) (sym (size-idle_bag s)) h.counted in
      elim (Bool-cases (has_room s.max_idle s.parked)) [
        | inl room ↦
            let claiming = set_parked (claimed s.max_idle s.parked) s in
            rw room (record {
              allowed =
                  subst (Allowed (terms s) (idle_bag s) (give_back i b) (returned []))
                    (sym (parked_at-adds i claiming m own b'))
                    (kept i b b' to (HasRoom-cap_of s.parked s.max_idle _ counted room));
              same_terms =
                  ap (λ c. record { init = s.init; reset = s.reset; cap = c })
                    (cap_of-claimed s.parked s.max_idle);
            })
        | inr full ↦ rw full (record {
          allowed = refused i b b' to (IsFull-cap_of s.parked s.max_idle _ counted full);
          same_terms = refl;
        })
      ]

  -- After a reset that returned in the state `v`.
  reset-Serves :
      (i : ℕ) (b b' : T) (s v : Machine T)
      → run_reset b s ≡ (returned b', v)
      → IsWellFormed v
      → ResetsTo v.reset b b'
      → Serves v (give_back i b) (perform (give_back i b) s).0 (perform (give_back i b) s).1
  unfolding perform put
  reset-Serves i b b' s v run h to =
      let (m, own) = find_pile i v h.sharded in
      rw (recycle_lem i b b' s v m run h own) (settled-Serves i b b' m v own h to)

  pub give_back-Serves :
      (i : ℕ) (b : T) (s : Machine T)
      → IsWellFormed s
      → Serves s (give_back i b) (perform (give_back i b) s).0 (perform (give_back i b) s).1
  unfolding perform put idle_bag
  give_back-Serves i b s h = elim (reset_allowed b s) [
    | inl (b', u, run, to, inl e) ↦
        reset-Serves i b b' s s (run ∙ ap (λ v. (returned b', v)) e) h to
    | inl (b', u, run, to, inr e) ↦
        let k =
          reset-Serves i b b' s (ran s) (run ∙ ap (λ v. (returned b', v)) e)
            (ran-Keeps s h).well_formed to in
        record { allowed = k.allowed; same_terms = k.same_terms }
    | inr (b', run, panics) ↦
        unfold recycle in rw run (record { allowed = hook_panics i b panics; same_terms = refl })
  ]
