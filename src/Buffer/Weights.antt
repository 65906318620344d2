-- ===== src/Buffer/Weights.antt =====
-- src/buffer.rs: the idle buffers of a pool, weighed. With the weight 1 for each buffer this is
-- the number of idle buffers.
use par_buffer_pool.Base.{
  ℕ, ◌+◌, Option, none, some, List, [], ◌∷◌, length, set, push, pop, ◌≡◌, refl, ap, arith, total,
  total-set, total-append, pop-Popped, Popped,
}
use par_buffer_pool.Buffer.State.{Mutex, write_pile, Machine}
use par_buffer_pool.Buffer.Inner.{set_shards, set_reserve}
use par_buffer_pool.Buffer.Inner.Forms.{
  Own, popped_shard, popped_reserve, parked_at, unparked, index, with_id,
}

module _ {ℓ} {T : Type ℓ} where
  abbrev pub pile_weight : (T → ℕ) → Mutex (List T) → ℕ
  pile_weight w m = total w m.value

  unfoldable pub idle_weight : (T → ℕ) → Machine T → ℕ
  idle_weight w s = total (pile_weight w) s.shards + total w s.reserve.value

  abbrev pub one_each : T → ℕ
  one_each b = 1

  -- The number of idle buffers.
  abbrev pub idle : Machine T → ℕ
  idle s = idle_weight one_each s

  abbrev pub option_weight : (T → ℕ) → Option T → ℕ
  option_weight w none = 0
  option_weight w (some b) = w b

  pub total-one_each : (xs : List T) → total one_each xs ≡ length xs
  total-one_each [] = refl
  total-one_each (x ∷ xs) = omega (arith, total-one_each xs)

  pub total-push : (w : T → ℕ) (xs : List T) (b : T) → total w (push xs b) ≡ total w xs + w b
  total-push w xs b = omega (arith, total-append w xs (b ∷ []))

  total-Popped :
      (w : T → ℕ) (xs : List T) (o : Option T) (rest : List T)
      → Popped xs o rest
      → total w rest + option_weight w o ≡ total w xs
  total-Popped w xs none rest (e, r) = omega (arith, ap (total w) e, ap (total w) r)
  total-Popped w xs (some b) rest e = omega (arith, ap (total w) e, total-push w rest b)

  pub total-pop :
      (w : T → ℕ) (xs : List T) → total w (pop xs).1 + option_weight w (pop xs).0 ≡ total w xs
  total-pop w xs = total-Popped w xs _ _ (pop-Popped xs)

  idle_weight-unparked :
      (w : T → ℕ) (o : Option T) (s : Machine T) → idle_weight w (unparked o s) ≡ idle_weight w s
  unfolding idle_weight
  idle_weight-unparked w none s = refl
  idle_weight-unparked w (some b) s = refl

  module _ (w : T → ℕ) (i : ℕ) (s : Machine T) (m : Mutex (List T)) (own : Own i s m) where
    pub idle_weight-popped_shard :
        idle_weight w (popped_shard i m s) + option_weight w (pop m.value).0 ≡ idle_weight w s
    unfolding idle_weight
    idle_weight-popped_shard = omega (
      arith,
      idle_weight-unparked w (pop m.value).0
          (set_shards (set s.shards (index i s) (write_pile m (pop m.value).1)) (with_id i s)),
      total-set (pile_weight w) s.shards (index i s) m (write_pile m (pop m.value).1) own,
      total-pop w m.value,
    )

    pub idle_weight-parked_at : (b : T) → idle_weight w (parked_at i b m s) ≡ idle_weight w s + w b
    unfolding idle_weight
    idle_weight-parked_at b = omega (
      arith,
      total-set (pile_weight w) s.shards (index i s) m (write_pile m (push m.value b)) own,
      total-push w m.value b,
    )

  pub idle_weight-popped_reserve :
      (w : T → ℕ) (s : Machine T)
      → idle_weight w (popped_reserve s) + option_weight w (pop s.reserve.value).0 ≡ idle_weight w s
  unfolding idle_weight
  idle_weight-popped_reserve w s = omega (
    arith,
    idle_weight-unparked w (pop s.reserve.value).0 (set_reserve (pop s.reserve.value).1 s),
    total-pop w s.reserve.value,
  )

  pub idle_weight-stocked :
      (w : T → ℕ) (s : Machine T) (b : T)
      → idle_weight w (set_reserve (push s.reserve.value b) s) ≡ idle_weight w s + w b
  unfolding idle_weight
  idle_weight-stocked w s b = omega (arith, total-push w s.reserve.value b)
