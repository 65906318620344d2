-- ===== src/Buffer/Contract/Piles.antt =====
-- src/buffer.rs: one buffer more or less in one of the piles, with the order forgotten.
use mathlib.Core.List.{Perm, perm_middle, append_assoc, append-nil}
use mathlib.Core.List.Perm
use mathlib.Core.Option
use par_buffer_pool.Base.{
  ℕ, zero, suc, ◌<◌, some, List, [], ◌∷◌, ◌++◌, ◌≡◌, refl, sym, ap, subst, ◌∙◌, arith, length,
  get_elem?, set, push, set_self, get_elem?-some_lt,
}
use par_buffer_pool.Buffer.State.{Mutex}
use par_buffer_pool.Buffer.Guard.{all_buffers, emptied}

module _ {ℓ} {T : Type ℓ} where
  -- Of two pools that differ in one pile, one has `b` on top of it.
  pub all_buffers-set :
      (ms : List (Mutex (List T))) (k : ℕ) (m m' : Mutex (List T)) (b : T)
      → k < length ms
      → m'.value ≡ push m.value b
      → Perm (all_buffers (set ms k m')) (b ∷ all_buffers (set ms k m))
  unfolding all_buffers
  all_buffers-set [] k m m' b h e = elim h [ ]
  all_buffers-set (x ∷ ms) zero m m' b h e =
      rw (e, append_assoc m.value (b ∷ []) (all_buffers ms)) (perm_middle m.value (all_buffers ms))
  all_buffers-set (x ∷ ms) (suc k) m m' b h e =
      Perm.trans (Perm.append_left x.value (all_buffers-set ms k m m' b (omega arith) e))
        (perm_middle x.value (all_buffers (set ms k m)))

  -- A pile behind the others.
  pub append-push : (xs ys : List T) (b : T) → Perm (xs ++ push ys b) (b ∷ (xs ++ ys))
  append-push xs ys b =
      subst (λ zs. Perm zs (b ∷ (xs ++ ys))) (append_assoc xs ys (b ∷ []))
        (subst (λ zs. Perm (push (xs ++ ys) b) (b ∷ zs)) (append-nil (xs ++ ys))
          (perm_middle (xs ++ ys) []))

  -- A pile that is written back as it was.
  pub all_buffers-same :
      (ms : List (Mutex (List T))) (k : ℕ) (m m' : Mutex (List T))
      → get_elem? ms k ≡ some m
      → m'.value ≡ m.value
      → all_buffers (set ms k m') ≡ all_buffers ms
  unfolding all_buffers
  all_buffers-same [] k m m' h e = refl
  all_buffers-same (x ∷ ms) zero m m' h e =
      ap (λ v. v ++ all_buffers ms)
        (e ∙ sym (ap (λ (r : Mutex (List T)). r.value) (Option.some-injective x m h)))
  all_buffers-same (x ∷ ms) (suc k) m m' h e =
      ap (λ r. x.value ++ r) (all_buffers-same ms k m m' h e)

  pub all_buffers-emptied : (ms : List (Mutex (List T))) → all_buffers (emptied ms) ≡ []
  unfolding all_buffers emptied
  all_buffers-emptied [] = refl
  all_buffers-emptied (m ∷ ms) = all_buffers-emptied ms

  module _ (ms : List (Mutex (List T))) (k : ℕ) (m m' : Mutex (List T))
      (own : get_elem? ms k ≡ some m) where
    pub all_buffers-popped :
        (b : T) → m.value ≡ push m'.value b → Perm (all_buffers ms) (b ∷ all_buffers (set ms k m'))
    all_buffers-popped b e =
        subst (λ xs. Perm (all_buffers xs) (b ∷ all_buffers (set ms k m'))) (set_self ms k m own)
          (all_buffers-set ms k m' m b (get_elem?-some_lt ms k m own) e)

    pub all_buffers-pushed :
        (b : T) → m'.value ≡ push m.value b → Perm (all_buffers (set ms k m')) (b ∷ all_buffers ms)
    all_buffers-pushed b e =
        subst (λ xs. Perm (all_buffers (set ms k m')) (b ∷ all_buffers xs)) (set_self ms k m own)
          (all_buffers-set ms k m m' b (get_elem?-some_lt ms k m own) e)
