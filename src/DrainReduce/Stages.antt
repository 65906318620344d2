-- ===== src/DrainReduce/Stages.antt =====
-- examples/drain_reduce.rs: one step of a job, in a pool without a cap and a hook, whose
-- initializer returns.
use mathlib.Core.Option
use par_buffer_pool.Base.{
  ℕ, ◌+◌, ◌-◌, ◌≤◌, ◌%◌, Bool, true, Option, none, some, [], ◌≡◌, refl, sym, ap, ◌∙◌, arith, pop,
}
use par_buffer_pool.Base.Words.{usize_mod, fetch_sub, fetch_add-mod}
use par_buffer_pool.Base.Effect.{returned}
use par_buffer_pool.Buffer.State.{InitFn, Machine}
use par_buffer_pool.Buffer.Inner.{reset_with}
use par_buffer_pool.Buffer.Inner.Forms.{IsSharded, find_pile, lock_pile_lem, park_lem}
use par_buffer_pool.Buffer.Concurrent.{
  Phase, counting_lease, popping_shard, popping_reserve, counting_allocation, initializing, failed,
  unparking, resetting, claiming, giving_back, parking, sweeping, sweeping_reserve, unparking_all,
  finished, after_pop, claim_slot, tick,
}
use par_buffer_pool.Buffer.Concurrent.Jobs.{awaits, uncounted, allocating, waits}

module _ {ℓ} {T : Type ℓ} where
  abbrev pub Returns : InitFn T → Type ℓ
  Returns init = (n : ℕ) → (b : T) × (init n ≡ returned b)

  -- The pool has no cap and no hook, its initializer returns, and it has dropped nothing.
  pub record IsPlain (s : Machine T) : Type ℓ where
    pub uncapped : s.parked ≡ none
    pub unhooked : s.reset ≡ none
    pub makes : Returns s.init
    pub whole : s.dropped ≡ []

  -- What a step of a job from the phase `c` to `d` changes.
  pub record Stages (c : Phase T) (s : Machine T) (d : Phase T) (t : Machine T) : Type ℓ where
    pub plain : IsPlain t
    pub same_init : t.init ≡ s.init
    pub same_awaits : awaits d ≡ awaits c
    pub leasing :
        (n : ℕ) → s.leases ≡ n % usize_mod → t.leases ≡ (n + uncounted c - uncounted d) % usize_mod
    pub counting :
        (n : ℕ)
        → s.allocations ≡ (n + allocating c) % usize_mod
        → t.allocations ≡ (n + (t.init_runs - s.init_runs) + allocating d) % usize_mod
    pub fewer : uncounted d ≤ uncounted c
    pub runs : s.init_runs ≤ t.init_runs
    pub made_once : t.init_runs + waits d ≤ s.init_runs + waits c

  -- A step that counts nothing.
  quiet-Stages :
      (c d : Phase T) (s t : Machine T)
      → IsPlain s
      → t.parked ≡ s.parked
      → t.reset ≡ s.reset
      → t.init ≡ s.init
      → t.dropped ≡ s.dropped
      → t.leases ≡ s.leases
      → t.allocations ≡ s.allocations
      → t.init_runs ≡ s.init_runs
      → awaits d ≡ awaits c
      → uncounted d ≡ uncounted c
      → allocating d ≡ allocating c
      → waits d ≤ waits c
      → Stages c s d t
  quiet-Stages c d s t h p r i w l a n e u v k = record {
    plain = record {
      uncapped = p ∙ h.uncapped;
      unhooked = r ∙ h.unhooked;
      makes = rw i h.makes;
      whole = w ∙ h.whole;
    };
    same_init = i;
    same_awaits = e;
    leasing = λ m q. omega arith;
    counting = λ m q. omega arith;
    fewer = omega arith;
    runs = omega arith;
    made_once = omega arith;
  }

  after_pop-Stages :
      (c d : Phase T) (o : Option T) (s t : Machine T)
      → IsPlain s
      → t.parked ≡ s.parked
      → t.reset ≡ s.reset
      → t.init ≡ s.init
      → t.dropped ≡ s.dropped
      → t.leases ≡ s.leases
      → t.allocations ≡ s.allocations
      → t.init_runs ≡ s.init_runs
      → awaits c ≡ some true
      → awaits d ≡ some true
      → uncounted c ≡ 0
      → uncounted d ≡ 0
      → allocating c ≡ 0
      → allocating d ≡ 0
      → waits d ≤ waits c
      → Stages c s (after_pop d o) t
  after_pop-Stages c d none s t h p r i w l a n e f u v x y k =
      quiet-Stages c d s t h p r i w l a n (f ∙ sym e) (v ∙ sym u) (y ∙ sym x) k
  after_pop-Stages c d (some b) s t h p r i w l a n e f u v x y k =
      quiet-Stages c (unparking b) s t h p r i w l a n (sym e) (sym u) (sym x) (omega arith)

  pub tick-Stages :
      (i : ℕ) (c : Phase T) (r : Bool) (s : Machine T)
      → IsSharded s
      → IsPlain s
      → awaits c ≡ some r
      → Stages c s (tick i c s).0 (tick i c s).1
  unfolding tick
  tick-Stages i counting_lease r s h p e = record {
    plain = record {
      uncapped = p.uncapped;
      unhooked = p.unhooked;
      makes = p.makes;
      whole = p.whole;
    };
    same_init = refl;
    same_awaits = refl;
    leasing = λ n q. omega (arith, fetch_add-mod s.leases 1);
    counting = λ n q. omega arith;
    fewer = omega arith;
    runs = omega arith;
    made_once = omega arith;
  }
  tick-Stages i popping_shard r s h p e =
      let (m, own) = find_pile i s h in
      rw (own, lock_pile_lem m)
        (after_pop-Stages popping_shard popping_reserve (pop m.value).0 s _ p refl refl refl refl
          refl refl refl refl refl refl refl refl refl (omega arith))
  tick-Stages i popping_reserve r s h p e =
      after_pop-Stages popping_reserve counting_allocation _ s _ p refl refl refl refl refl refl
        refl refl refl refl refl refl refl (omega arith)
  tick-Stages i counting_allocation r s h p e = record {
    plain = record {
      uncapped = p.uncapped;
      unhooked = p.unhooked;
      makes = p.makes;
      whole = p.whole;
    };
    same_init = refl;
    same_awaits = refl;
    leasing = λ n q. omega arith;
    counting = λ n q. omega (arith, fetch_add-mod s.allocations 1);
    fewer = omega arith;
    runs = omega arith;
    made_once = omega arith;
  }
  tick-Stages i initializing r s h p e =
      let (b, k) = p.makes s.init_runs in
      rw k (record {
        plain = record {
          uncapped = p.uncapped;
          unhooked = p.unhooked;
          makes = p.makes;
          whole = p.whole;
        };
        same_init = refl;
        same_awaits = refl;
        leasing = λ n q. omega arith;
        counting = λ n q. omega arith;
        fewer = omega arith;
        runs = omega arith;
        made_once = omega arith;
      })
  tick-Stages i failed r s h p e = absurd (cc)
  tick-Stages i (unparking b) r s h p e =
      quiet-Stages _ _ s _ p (ap (Option.map (λ q. fetch_sub q 1)) p.uncapped ∙ sym p.uncapped) refl
        refl refl refl refl refl refl refl refl (omega arith)
  tick-Stages i (resetting b) r s h p e = rw (ap (λ o. reset_with o b s) p.unhooked) (
      quiet-Stages (resetting b) (claiming b) s s p refl refl refl refl refl refl refl refl refl
        refl (omega arith))
  tick-Stages i (claiming b) r s h p e = rw (ap (λ o. claim_slot o b s) p.uncapped) (
      quiet-Stages (claiming b) (parking b) s s p refl refl refl refl refl refl refl refl refl refl
        (omega arith))
  tick-Stages i (giving_back b) r s h p e = absurd (cc)
  tick-Stages i (parking b) r s h p e =
      let (m, own) = find_pile i s h in
      rw (park_lem i b s m own) (
        quiet-Stages (parking b) (finished []) s _ p refl refl refl refl refl refl refl refl refl
          refl (omega arith))
  tick-Stages i (sweeping k taken bs) r s h p e = absurd (cc)
  tick-Stages i (sweeping_reserve taken bs) r s h p e = absurd (cc)
  tick-Stages i (unparking_all taken bs) r s h p e = absurd (cc)
  tick-Stages i (finished bs) r s h p e =
      quiet-Stages (finished bs) (finished bs) s s p refl refl refl refl refl refl refl refl refl
        refl (omega arith)
