-- ===== src/DrainReduce/Exact.antt =====
-- examples/drain_reduce.rs: the result of the reduction, and what the example asserts of it.
use par_buffer_pool.Base.{
  refl, ℕ, ◌<◌, Option, List, [], ◌≡◌, sym, ap, subst, arith, total, length, inl, inr, ◌⊎◌, ◌≤◌,
  leb-eq_true, eq_refl,
}
use native.Mathlib.Decide.{dec_lt}
use par_buffer_pool.Base.Words.{usize_mod}
use par_buffer_pool.Base.Effect.{returned}
use par_buffer_pool.Sharding.{Threads}
use par_buffer_pool.Buffer.State.{Machine}
use par_buffer_pool.Buffer.Pool.{drain, stats}
use par_buffer_pool.Buffer.Pool.Drain.{drain_lem, idle_buffers, total-idle_buffers}
use par_buffer_pool.Buffer.Weights.{idle, one_each, total-one_each}
use par_buffer_pool.Buffer.Invariant.{Counted, Capped, IsWellFormed}
use par_buffer_pool.DrainReduce.{Reduction, start, Reach, sum, conclude}
use par_buffer_pool.DrainReduce.Books.{
  Books, self, job_weight, job_unadded, job_uncounted, job_allocating, job_waits,
}
use par_buffer_pool.DrainReduce.Steps.{Reach-Books}

Books-IsWellFormed : {all : List ℕ} {r : Reduction} → Books all r → IsWellFormed r.machine
Books-IsWellFormed {r = r} h = record {
  sharded = h.sharded;
  counted = subst (λ p. Counted p (idle r.machine)) (sym h.plain.uncapped) tt;
  capped = subst (λ p. Capped p r.machine.max_idle) (sym h.plain.uncapped) h.uncapped;
}

-- The buffers that lie idle when all jobs have ended, and the counters.
record Concludes (all : List ℕ) (m : Machine ℕ) : Type 0 where
  pub well_formed : IsWellFormed m
  pub summed : total self (idle_buffers m) ≡ total self all
  pub complete : length (idle_buffers m) ≡ m.allocations
  pub leased : m.leases ≡ length all
  pub worked : (length all ≡ 0) ⊎ (0 < m.allocations)

Books-Concludes :
    {all : List ℕ} {r : Reduction}
    → Books all r
    → r.todo ≡ []
    → r.jobs ≡ []
    → length all < usize_mod
    → Concludes all r.machine
Books-Concludes {r = r} h e f few =
    let m = r.machine in
    let no_todo = ap length e in
    let none_waits = ap (total job_waits) f in
    let none_allocates = ap (total job_allocating) f in
    record {
      well_formed = Books-IsWellFormed h;
      summed = omega (
        arith,
        h.summed,
        total-idle_buffers self m,
        ap (total self) e,
        ap (total (job_weight self)) f,
        ap (total job_unadded) f,
      );
      complete = omega (
        arith,
        h.counted,
        h.allocated,
        h.once,
        total-one_each (idle_buffers m),
        total-idle_buffers one_each m,
        ap (total (job_weight one_each)) f,
        none_allocates,
      );
      leased = omega (arith, h.leased, no_todo, ap (total job_uncounted) f);
      worked = elim (dec_lt 0 m.init_runs) [
        | yes p ↦ inr (omega (arith, h.allocated, h.once, none_allocates, none_waits))
        | no z ↦ inl (omega (arith, h.worked (omega arith), no_todo, none_waits))
      ];
    }

-- Begin with a new pool, whatever the threads and the parallelism, and items whose number fits a
-- `usize`. Let threads begin the items in any order, and let the leases, the additions and the
-- returns interleave in any way. Once every item was begun and ended, `drain` returns partial sums
-- whose sum is the sum of the items. There are as many of them as allocations were counted; the
-- leases counted are as many as the items; and there is an allocation unless there is no item.
pub reduction_exact :
    (threads : Threads) (parallelism : Option ℕ) (all : List ℕ) {r : Reduction}
    → Reach (start threads parallelism all) r
    → r.todo ≡ []
    → r.jobs ≡ []
    → length all < usize_mod
    → (partials : List ℕ) × ((drain r.machine).0 ≡ returned partials)
      × (sum partials ≡ sum all)
      × (length partials ≡ (stats r.machine).allocations)
      × ((stats r.machine).leases ≡ length all)
      × ((length all ≡ 0) ⊎ (0 < (stats r.machine).allocations))
unfolding stats
reduction_exact threads parallelism all {r} reach e f few =
    let k = Books-Concludes (Reach-Books threads parallelism all reach) e f few in
    (
      idle_buffers r.machine,
      ap (λ q. q.0) (drain_lem r.machine k.well_formed),
      k.summed,
      k.complete,
      k.leased,
      k.worked,
    )

-- Under the same conditions, with at least one item, the end of `main` returns: none of its
-- assertions fails, whatever way the threads interleaved.
pub conclude-returns :
    (threads : Threads) (parallelism : Option ℕ) (all : List ℕ) {r : Reduction}
    → Reach (start threads parallelism all) r
    → r.todo ≡ []
    → r.jobs ≡ []
    → 0 < length all
    → length all < usize_mod
    → (conclude all r.machine).0 ≡ returned tt
unfolding conclude stats
conclude-returns threads parallelism all {r} reach e f some few =
    let m = r.machine in
    let k = Books-Concludes (Reach-Books threads parallelism all reach) e f few in
    let worked : 1 ≤ m.allocations = elim k.worked [ inl z ↦ absurd (omega arith) | inr p ↦ p ] in
    rw
      (
        drain_lem m k.well_formed,
        k.summed,
        eq_refl (total self all),
        k.leased,
        eq_refl (length all),
        leb-eq_true 1 m.allocations worked,
        k.complete,
        eq_refl m.allocations,
      )
      refl
