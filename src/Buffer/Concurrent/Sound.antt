-- ===== src/Buffer/Concurrent/Sound.antt =====
-- src/buffer.rs: calls that overlap in any order.
use par_buffer_pool.Base.{ℕ, ◌+◌, ◌≤◌, some, List, [], ◌∷◌, ◌++◌, ◌≡◌, refl, ap, arith, total}
use par_buffer_pool.Buffer.State.{Machine}
use par_buffer_pool.Buffer.Weights.{idle_weight, idle}
use par_buffer_pool.Buffer.Invariant.{IsWellFormed, IsWithinCap, Preserves, made}
use par_buffer_pool.Buffer.Concurrent.{
  System, Step, Reach, here, next, begin_get, begin_recycle, begin_drain, run, finish, fail, write,
  supply, resetting, counting_lease, sweeping,
}
use par_buffer_pool.Buffer.Concurrent.Books.{in_flight, owed, refused}
use par_buffer_pool.Buffer.Concurrent.Consistent.{
  IsConsistent, call_weight, call_owed, call_refused, start-IsConsistent, begin-IsConsistent,
  end-IsConsistent, run-IsConsistent,
}
use par_buffer_pool.Buffer.Client.History.{total-middle}

module _ {ℓ} {T : Type ℓ} where
  -- What the program does by itself.
  held-IsConsistent :
      {s : Machine T} {y : System T} (held' supplied' before' after' : List T)
      → IsConsistent s y
      → ((w : T → ℕ)
          → total w held' + total w before' + total w y.supplied + total w y.after
            ≡ total w y.held + total w y.before + total w supplied' + total w after')
      → IsConsistent s
          (record y { held = held'; supplied = supplied'; before = before'; after = after' })
  held-IsConsistent held' supplied' before' after' h moved = record {
    sharded = h.sharded;
    same_reset = h.same_reset;
    tallied = h.tallied;
    roomy = h.roomy;
    agreed = h.agreed;
    balanced = λ w p. omega (arith, h.balanced w p, moved w);
  }

  Step-IsConsistent :
      {s : Machine T} {y z : System T} → IsConsistent s y → Step y z → IsConsistent s z
  Step-IsConsistent {y = y} h (begin_get i room) =
      begin-IsConsistent h (record { thread = i; phase = counting_lease }) y.held room tt refl refl
        (λ w. omega arith)
  Step-IsConsistent {y = y} h (begin_recycle i b xs ys room e) =
      begin-IsConsistent h (record { thread = i; phase = resetting b }) (xs ++ ys) room tt refl refl
        (λ w. omega (arith, total-middle w y.held xs ys b e))
  Step-IsConsistent {y = y} h (begin_drain i room) =
      begin-IsConsistent h (record { thread = i; phase = sweeping 0 0 [] }) y.held room refl refl
        refl (λ w. omega arith)
  Step-IsConsistent h (run c xs ys e) = run-IsConsistent h c xs ys e
  Step-IsConsistent h (finish c bs xs ys e q) =
      end-IsConsistent h c bs xs ys e (ap owed q) (ap refused q)
        (λ w. ap (λ p. total w (in_flight p)) q)
  Step-IsConsistent h (fail c xs ys e q) =
      end-IsConsistent h c [] xs ys e (ap owed q) (ap refused q)
        (λ w. ap (λ p. total w (in_flight p)) q)
  Step-IsConsistent {y = y} h (write b b' xs ys e) =
      held-IsConsistent (xs ++ (b' ∷ ys)) y.supplied (b ∷ y.before) (b' ∷ y.after) h (λ w.
        omega
          (arith, total-middle w y.held xs ys b e, total-middle w (xs ++ (b' ∷ ys)) xs ys b' refl))
  Step-IsConsistent {y = y} h (supply b) =
      held-IsConsistent (b ∷ y.held) (b ∷ y.supplied) y.before y.after h (λ w. omega arith)

  pub Reach-IsConsistent :
      {s : Machine T} {y : System T} → IsWellFormed s → IsWithinCap s → Reach s y → IsConsistent s y
  Reach-IsConsistent {s} h within here = start-IsConsistent s h within
  Reach-IsConsistent h within (next r st) = Step-IsConsistent (Reach-IsConsistent h within r) st

module _ {ℓ} {T : Type ℓ} {s : Machine T} {y : System T} where
  -- Let leases, returns and drains overlap in any order, one access to shared state at a time, in
  -- a well-formed pool within its cap, with so few of them that the cap and their number fit a
  -- `usize` together. While the pool has a cap, at every moment there are at most `max_idle` idle
  -- buffers, and the count `parked` is their number, with what calls in flight have claimed or
  -- taken and not yet uncounted, and with the claims that were refused and not yet given back.
  pub overlapping_cap_holds :
      IsWellFormed s
      → IsWithinCap s
      → Reach s y
      → (p : ℕ) → y.machine.parked ≡ some p
      → (p ≡ idle y.machine + total call_owed y.calls + total call_refused y.calls)
        × (idle y.machine ≤ y.machine.max_idle)
  unfolding idle_weight
  overlapping_cap_holds h within r p e =
      let agreed = (Reach-IsConsistent h within r).agreed in
      let books = rw e at agreed in (books.0, omega arith)

  -- Let leases, returns and drains overlap in the same way. Weigh the buffers by any `w` that the
  -- reset hook leaves alone. At every moment the buffers that are idle, dropped, inside calls in
  -- flight or with the program, and those that writes have replaced, weigh what the pool held at
  -- the start, what the program supplied, what its writes have made, and what the initializer has
  -- made since, together.
  pub overlapping_conservation :
      IsWellFormed s
      → IsWithinCap s
      → Reach s y
      → (w : T → ℕ) → Preserves w s.reset
      → idle_weight w y.machine
          + total w y.machine.dropped
          + total (call_weight w) y.calls
          + total w y.held
          + total w y.before
          + made w s
        ≡ idle_weight w s
          + total w s.dropped
          + total w y.supplied
          + total w y.after
          + made w y.machine
  overlapping_conservation h within r w p = (Reach-IsConsistent h within r).balanced w p
