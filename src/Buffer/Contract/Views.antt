-- ===== src/Buffer/Contract/Views.antt =====
-- src/buffer.rs: the idle buffers as a bag, through the steps of `PoolInner`.
use mathlib.Core.List.Perm
use par_buffer_pool.Base.{
  ℕ, Option, none, some, List, ◌++◌, ◌≡◌, refl, sym, ap, ◌∙◌, push, pop, pop-Popped,
}
use par_buffer_pool.Buffer.State.{Machine, Mutex, write_pile}
use par_buffer_pool.Buffer.Guard.{all_buffers}
use par_buffer_pool.Buffer.Weights.{idle, one_each, total-one_each}
use par_buffer_pool.Buffer.Pool.Drain.{idle_buffers, total-idle_buffers}
use par_buffer_pool.Buffer.Inner.Forms.{
  Own, index, unparked, popped_shard, popped_reserve, parked_at,
}
use par_buffer_pool.Buffer.Bags.{of_list, add, size, exact}
use par_buffer_pool.Buffer.Contract.{idle_bag}
use par_buffer_pool.Buffer.Contract.Piles.{
  append-push, all_buffers-same, all_buffers-popped, all_buffers-pushed,
}

module _ {ℓ} {T : Type ℓ} where
  idle_bag-unparked : (o : Option T) (s : Machine T) → idle_bag (unparked o s) ≡ idle_bag s
  unfolding idle_bag
  idle_bag-unparked none s = refl
  idle_bag-unparked (some b) s = refl

  some_top : (xs : List T) (b : T) → (pop xs).0 ≡ some b → xs ≡ push (pop xs).1 b
  some_top xs b e = rw e at (pop-Popped xs)

  no_top : (xs : List T) → (pop xs).0 ≡ none → (pop xs).1 ≡ xs
  no_top xs e = let (a, b) = rw e at (pop-Popped xs) in b ∙ sym a

  module _ (i : ℕ) (s : Machine T) (m : Mutex (List T)) (own : Own i s m) where
    pub popped_shard-reuses :
        (b : T) → (pop m.value).0 ≡ some b → idle_bag s ≡ add b (idle_bag (popped_shard i m s))
    unfolding idle_bag add
    popped_shard-reuses b e =
        exact (
          Perm.append_right s.reserve.value (
            all_buffers-popped s.shards (index i s) m (write_pile m (pop m.value).1) own b
              (some_top m.value b e)))
        ∙ ap (add b) (sym (idle_bag-unparked (pop m.value).0 _))

    pub popped_shard-misses : (pop m.value).0 ≡ none → idle_bag (popped_shard i m s) ≡ idle_bag s
    unfolding idle_bag
    popped_shard-misses e =
        idle_bag-unparked (pop m.value).0 _
        ∙ ap (λ bs. of_list (bs ++ s.reserve.value))
            (all_buffers-same s.shards (index i s) m (write_pile m (pop m.value).1) own
              (no_top m.value e))

    pub parked_at-adds : (b : T) → idle_bag (parked_at i b m s) ≡ add b (idle_bag s)
    unfolding idle_bag add
    parked_at-adds b = exact (
        Perm.append_right s.reserve.value
          (all_buffers-pushed s.shards (index i s) m (write_pile m (push m.value b)) own b refl))

  pub popped_reserve-reuses :
      (s : Machine T) (b : T)
      → (pop s.reserve.value).0 ≡ some b
      → idle_bag s ≡ add b (idle_bag (popped_reserve s))
  unfolding idle_bag add
  popped_reserve-reuses s b e =
      ap (λ bs. of_list (all_buffers s.shards ++ bs)) (some_top s.reserve.value b e)
      ∙ exact (append-push (all_buffers s.shards) (pop s.reserve.value).1 b)
      ∙ ap (add b) (sym (idle_bag-unparked (pop s.reserve.value).0 _))

  pub popped_reserve-misses :
      (s : Machine T) → (pop s.reserve.value).0 ≡ none → idle_bag (popped_reserve s) ≡ idle_bag s
  unfolding idle_bag
  popped_reserve-misses s e =
      idle_bag-unparked (pop s.reserve.value).0 _
      ∙ ap (λ bs. of_list (all_buffers s.shards ++ bs)) (no_top s.reserve.value e)

  pub size-idle_bag : (s : Machine T) → size (idle_bag s) ≡ idle s
  unfolding idle_bag size
  size-idle_bag s = sym (total-one_each (idle_buffers s)) ∙ total-idle_buffers one_each s
