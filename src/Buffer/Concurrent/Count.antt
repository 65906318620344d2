-- ===== src/Buffer/Concurrent/Count.antt =====
-- src/buffer.rs: the steps of a call that change the count `parked`, and all its steps together.
use mathlib.Core.Option
use par_buffer_pool.Base.{
  ℕ, ◌+◌, ◌≤◌, ◌%◌, Option, none, some, List, ◌≡◌, refl, sym, subst, arith, total, leb-eq_true,
  leb-eq_false, inl, inr, Option-cases,
}
use native.Mathlib.Decide.{dec_le}
use par_buffer_pool.Base.Words.{usize_mod, fetch_sub, fetch_add_lem, fetch_sub_lem}
use par_buffer_pool.Buffer.State.{Machine}
use par_buffer_pool.Buffer.Inner.Forms.{IsSharded}
use par_buffer_pool.Buffer.Weights.{idle_weight, idle, one_each}
use par_buffer_pool.Buffer.Invariant.{Preserves, held, made}
use par_buffer_pool.Buffer.Invariant.Inner.{IsSharded-of}
use par_buffer_pool.Buffer.Concurrent.{
  Phase, counting_lease, popping_shard, popping_reserve, counting_allocation, initializing, failed,
  unparking, resetting, claiming, giving_back, parking, sweeping, sweeping_reserve, unparking_all,
  finished, claim_slot, tick, Room,
}
use par_buffer_pool.Buffer.Concurrent.Books.{in_flight, owed, refused, IsTallied, Agreed}
use par_buffer_pool.Buffer.Concurrent.Tick.{
  Ticks, quiet-Ticks, counting_lease-Ticks, counting_allocation-Ticks, popping_shard-Ticks,
  popping_reserve-Ticks, parking-Ticks, sweeping-Ticks, sweeping_reserve-Ticks, initializing-Ticks,
  resetting-Ticks,
}

-- Where buffers or refused claims that the count holds are taken out of it.
Agreed-uncount :
    (p : Option ℕ) (most k r q r' q' d e n : ℕ)
    → e ≡ d % usize_mod
    → r + q ≡ r' + q' + d
    → r' ≤ r
    → q ≤ n
    → Room p most n
    → Agreed p most k r q
    → Agreed (Option.map (λ c. fetch_sub c e) p) most k r' q'
Agreed-uncount none most k r q r' q' d e n same sum le small room h = tt
Agreed-uncount (some p) most k r q r' q' d e n same sum le small room h =
    (omega (arith, fetch_sub_lem p e), omega arith)

Room-map : (f : ℕ → ℕ) (p : Option ℕ) (most n : ℕ) → Room p most n → Room (Option.map f p) most n
Room-map f none most n h = h
Room-map f (some p) most n h = h

module _ {ℓ} {T : Type ℓ} where
  -- A step that takes `d` out of the count.
  uncount-Ticks :
      (c d : Phase T) (s t : Machine T) (amount e : ℕ)
      → IsSharded t
      → e ≡ amount % usize_mod
      → t.parked ≡ Option.map (λ p. fetch_sub p e) s.parked
      → t.max_idle ≡ s.max_idle
      → t.reset ≡ s.reset
      → (IsTallied c → IsTallied d)
      → idle t ≡ idle s
      → owed c + refused c ≡ owed d + refused d + amount
      → owed d ≤ owed c
      → refused c ≤ 1
      → ((w : T → ℕ)
          → Preserves w s.reset
          → held w t + total w (in_flight d) + made w s
            ≡ held w s + total w (in_flight c) + made w t)
      → Ticks c s d t
  unfolding idle_weight
  uncount-Ticks c d s t amount e h same p m r tally still moved le small balance = record {
    sharded = h;
    same_cap = m;
    same_reset = r;
    tallied = tally;
    roomy = λ n k. rw (p, m) (Room-map (λ p. fetch_sub p e) s.parked s.max_idle n k);
    agreed = λ x q n u few room a.
        rw (p, m, still)
          (Agreed-uncount s.parked s.max_idle (idle s) (owed c + x) (refused c + q) (owed d + x)
            (refused d + q) amount e n same (omega arith) (omega arith) (omega arith) room a);
    balanced = balance;
  }

  unparking-Ticks :
      (i : ℕ) (b : T) (s : Machine T)
      → IsSharded s
      → Ticks (unparking b) s (tick i (unparking b) s).0 (tick i (unparking b) s).1
  unfolding tick idle_weight
  unparking-Ticks i b s h =
      uncount-Ticks (unparking b) _ s _ 1 1 (IsSharded-of s _ refl refl h) (omega arith) refl refl
        refl (λ u. tt) refl (omega arith) (omega arith) (omega arith) (λ w p. refl)

  giving_back-Ticks :
      (i : ℕ) (b : T) (s : Machine T)
      → IsSharded s
      → Ticks (giving_back b) s (tick i (giving_back b) s).0 (tick i (giving_back b) s).1
  unfolding tick idle_weight
  giving_back-Ticks i b s h =
      uncount-Ticks (giving_back b) _ s _ 1 1 (IsSharded-of s _ refl refl h) (omega arith) refl refl
        refl (λ u. tt) refl (omega arith) (omega arith) (omega arith) (λ w p. omega arith)

  unparking_all-Ticks :
      (i taken : ℕ) (bs : List T) (s : Machine T)
      → IsSharded s
      → IsTallied (unparking_all taken bs)
      → Ticks
          (unparking_all taken bs)
          s
          (tick i (unparking_all taken bs) s).0
          (tick i (unparking_all taken bs) s).1
  unfolding tick idle_weight
  unparking_all-Ticks i taken bs s h e =
      uncount-Ticks (unparking_all taken bs) _ s _ (total one_each bs) taken
        (IsSharded-of s _ refl refl h) e refl refl refl (λ u. tt) refl (omega arith) (omega arith)
        (omega arith) (λ w p. refl)

  -- A claim that goes through is owed a place; one that is refused is still counted.
  claimed-Ticks :
      (b : T) (p : ℕ) (s : Machine T)
      → IsSharded s
      → s.parked ≡ some p
      → Ticks (claiming b) s (claim_slot (some p) b s).0 (claim_slot (some p) b s).1
  unfolding idle_weight
  claimed-Ticks b p s h e = elim (dec_le s.max_idle p) [
    | yes full ↦ rw (leb-eq_true s.max_idle p full) (record {
      sharded = IsSharded-of s _ refl refl h;
      same_cap = refl;
      same_reset = refl;
      tallied = λ u. tt;
      roomy = λ n k. rw e at k;
      agreed = λ x q n u few room a.
          let room' = rw e at room in
          let a' = rw e at a in (omega (arith, fetch_add_lem p 1), omega arith);
      balanced = λ w z. refl;
    })
    | no free ↦ rw (leb-eq_false s.max_idle p (omega arith)) (record {
      sharded = IsSharded-of s _ refl refl h;
      same_cap = refl;
      same_reset = refl;
      tallied = λ u. tt;
      roomy = λ n k. rw e at k;
      agreed = λ x q n u few room a.
          let room' = rw e at room in
          let a' = rw e at a in (omega (arith, fetch_add_lem p 1), omega arith);
      balanced = λ w z. refl;
    })
  ]

  claiming-Ticks :
      (i : ℕ) (b : T) (s : Machine T)
      → IsSharded s
      → Ticks (claiming b) s (tick i (claiming b) s).0 (tick i (claiming b) s).1
  unfolding tick idle_weight
  claiming-Ticks i b s h = elim (Option-cases s.parked) [
    | inl e ↦
        subst (λ o. Ticks (claiming b) s (claim_slot o b s).0 (claim_slot o b s).1) (sym e)
          (record {
            sharded = h;
            same_cap = refl;
            same_reset = refl;
            tallied = λ u. tt;
            roomy = λ n k. k;
            agreed = λ x q n u few room a.
                subst (λ o. Agreed o s.max_idle (idle s) (1 + x) (0 + q)) (sym e) tt;
            balanced = λ w z. refl;
          })
    | inr (p, e) ↦
        subst (λ o. Ticks (claiming b) s (claim_slot o b s).0 (claim_slot o b s).1) (sym e)
          (claimed-Ticks b p s h e)
  ]

  failed-Ticks :
      (i : ℕ) (s : Machine T) → IsSharded s → Ticks failed s (tick i failed s).0 (tick i failed s).1
  unfolding tick
  failed-Ticks i s h =
      quiet-Ticks failed failed s s h refl refl refl (λ u. tt) refl refl (λ w p. refl)

  finished-Ticks :
      (i : ℕ) (bs : List T) (s : Machine T)
      → IsSharded s
      → Ticks (finished bs) s (tick i (finished bs) s).0 (tick i (finished bs) s).1
  unfolding tick
  finished-Ticks i bs s h =
      quiet-Ticks (finished bs) (finished bs) s s h refl refl refl (λ u. tt) refl refl (λ w p. refl)

  -- Every step of every call.
  pub tick-Ticks :
      (i : ℕ) (c : Phase T) (s : Machine T)
      → IsSharded s
      → IsTallied c
      → Ticks c s (tick i c s).0 (tick i c s).1
  tick-Ticks i counting_lease s h t = counting_lease-Ticks i s h
  tick-Ticks i popping_shard s h t = popping_shard-Ticks i s h
  tick-Ticks i popping_reserve s h t = popping_reserve-Ticks i s h
  tick-Ticks i counting_allocation s h t = counting_allocation-Ticks i s h
  tick-Ticks i initializing s h t = initializing-Ticks i s h
  tick-Ticks i failed s h t = failed-Ticks i s h
  tick-Ticks i (unparking b) s h t = unparking-Ticks i b s h
  tick-Ticks i (resetting b) s h t = resetting-Ticks i b s h
  tick-Ticks i (claiming b) s h t = claiming-Ticks i b s h
  tick-Ticks i (giving_back b) s h t = giving_back-Ticks i b s h
  tick-Ticks i (parking b) s h t = parking-Ticks i b s h
  tick-Ticks i (sweeping k taken bs) s h t = sweeping-Ticks i k taken bs s h
  tick-Ticks i (sweeping_reserve taken bs) s h t = sweeping_reserve-Ticks i taken bs s h
  tick-Ticks i (unparking_all taken bs) s h t = unparking_all-Ticks i taken bs s h t
  tick-Ticks i (finished bs) s h t = finished-Ticks i bs s h
