-- ===== src/DrainReduce/Steps.antt =====
-- examples/drain_reduce.rs: every step of a reduction keeps its books.
use par_buffer_pool.Base.{
  ℕ, ◌+◌, ◌-◌, Option, List, [], ◌∷◌, ◌++◌, ◌≡◌, refl, ap, ap₂, ◌∙◌, arith, total, length,
  total-replaced,
}
use par_buffer_pool.Sharding.{Threads}
use par_buffer_pool.Buffer.Pool.{new}
use par_buffer_pool.Buffer.Pool.Build.{new_lem}
use par_buffer_pool.Buffer.Weights.{idle, one_each}
use par_buffer_pool.Buffer.Invariant.{made_by}
use par_buffer_pool.Buffer.Client.History.{total-middle, length-middle}
use par_buffer_pool.Buffer.Concurrent.{tick, counting_lease, resetting, finished}
use par_buffer_pool.Buffer.Concurrent.Count.{tick-Ticks}
use par_buffer_pool.DrainReduce.{
  zero_init, Job, Reduction, start, Step, begin, run, add_item, end_job, Reach, here, next,
}
use par_buffer_pool.Buffer.Concurrent.Jobs.{awaits, carried, waiting, unadded}
use par_buffer_pool.DrainReduce.Stages.{tick-Stages}
use par_buffer_pool.DrainReduce.Books.{
  Books, self, stray, job_weight, job_unadded, job_uncounted, job_allocating, job_waits, job_stray,
  made_by-self, made_by-one_each, staged-IsTallied, not_stray,
}

start-Books :
    (threads : Threads) (parallelism : Option ℕ) (all : List ℕ)
    → Books all (start threads parallelism all)
unfolding new
start-Books threads parallelism all =
    let (h, empty) = new_lem threads parallelism zero_init in
    record {
      sharded = h.sharded;
      plain = record { uncapped = refl; unhooked = refl; makes = λ n. (0, refl); whole = refl };
      zeros = refl;
      uncapped = refl;
      staged = refl;
      summed = omega (arith, empty self);
      counted = omega (arith, empty one_each);
      begun = omega arith;
      leased = omega arith;
      allocated = omega arith;
      once = omega arith;
      worked = λ e. omega arith;
    }

module _ {all : List ℕ} {r : Reduction} (h : Books all r) where
  begin-Books :
      (i x : ℕ) (xs ys : List ℕ)
      → r.todo ≡ xs ++ (x ∷ ys)
      → Books all (record r {
        todo = xs ++ ys;
        jobs = record { thread = i; item = x; phase = counting_lease } ∷ r.jobs;
      })
  begin-Books i x xs ys e =
      let few = length-middle r.todo xs ys x e in
      record {
        sharded = h.sharded;
        plain = h.plain;
        zeros = h.zeros;
        uncapped = h.uncapped;
        staged = omega (arith, h.staged);
        summed = omega (arith, h.summed, total-middle self r.todo xs ys x e);
        counted = omega (arith, h.counted);
        begun = omega (arith, h.begun, few);
        leased = omega (arith, h.leased, h.begun, few);
        allocated = omega (arith, h.allocated);
        once = omega (arith, h.once, few);
        worked = λ z. omega (arith, h.worked z, few);
      }

  run-Books :
      (j : Job) (xs ys : List Job)
      → r.jobs ≡ xs ++ (j ∷ ys)
      → Books all (record r {
        machine = (tick j.thread j.phase r.machine).1;
        jobs = xs ++ (record j { phase = (tick j.thread j.phase r.machine).0 } ∷ ys);
      })
  run-Books j xs ys e =
      let s = r.machine in
      let j' : Job = record j { phase = (tick j.thread j.phase s).0 } in
      let t = (tick j.thread j.phase s).1 in
      let known =
        not_stray (awaits j.phase)
          (omega (arith, h.staged, total-middle job_stray r.jobs xs ys j e)) in
      let k = tick-Stages j.thread j.phase known.0 s h.sharded h.plain known.1 in
      let b = tick-Ticks j.thread j.phase s h.sharded (staged-IsTallied j.phase known.0 known.1) in
      let zeros' = k.same_init ∙ h.zeros in
      let moved = λ (w : Job → ℕ). total-replaced w r.jobs xs ys j j' e in
      let whole = λ (w : ℕ → ℕ). ap (total w) h.plain.whole in
      let whole' = λ (w : ℕ → ℕ). ap (total w) k.plain.whole in
      let made_of = λ (w : ℕ → ℕ). ap (λ f. made_by w f s.init_runs) h.zeros in
      let made_of' = λ (w : ℕ → ℕ). ap (λ f. made_by w f t.init_runs) zeros' in
      let others = total job_allocating (xs ++ ys) in
      let counted' : idle t + total (job_weight one_each) (xs ++ (j' ∷ ys)) ≡ t.init_runs = omega (
        arith,
        h.counted,
        b.balanced one_each (rw h.plain.unhooked tt),
        moved (job_weight one_each),
        whole one_each,
        whole' one_each,
        made_of one_each,
        made_of' one_each,
        made_by-one_each s.init_runs,
        made_by-one_each t.init_runs,
      ) in
      record {
        sharded = b.sharded;
        plain = k.plain;
        zeros = zeros';
        uncapped = b.same_cap ∙ h.uncapped;
        staged = omega (arith, h.staged, moved job_stray, ap stray k.same_awaits);
        summed = omega (
          arith,
          h.summed,
          b.balanced self (rw h.plain.unhooked tt),
          moved (job_weight self),
          moved job_unadded,
          ap (λ a. unadded a j.item) k.same_awaits,
          whole self,
          whole' self,
          made_of self,
          made_of' self,
          made_by-self s.init_runs,
          made_by-self t.init_runs,
        );
        counted = counted';
        begun = omega (arith, h.begun, moved job_uncounted, k.fewer);
        leased = omega (
          arith,
          k.leasing (length all - length r.todo - total job_uncounted r.jobs) h.leased,
          moved job_uncounted,
          k.fewer,
          h.begun,
        );
        allocated = omega (
          arith,
          k.counting (s.init_runs + others)
              (omega (arith, h.allocated, total-middle job_allocating r.jobs xs ys j e)),
          k.runs,
          total-middle job_allocating (xs ++ (j' ∷ ys)) xs ys j' refl,
        );
        once = omega (arith, h.once, k.made_once, moved job_waits);
        worked = λ z.
            let same : carried j'.phase ≡ carried j.phase = omega (
              arith,
              h.counted,
              k.runs,
              total-middle (job_weight one_each) r.jobs xs ys j e,
              total-middle (job_weight one_each) (xs ++ (j' ∷ ys)) xs ys j' refl,
            ) in
            omega (
              arith,
              h.worked (omega (arith, k.runs)),
              moved job_waits,
              ap₂ waiting k.same_awaits same,
            );
      }

  add_item-Books :
      (j : Job) (b : ℕ) (xs ys : List Job)
      → r.jobs ≡ xs ++ (j ∷ ys)
      → j.phase ≡ finished (b ∷ [])
      → Books all (record r { jobs = xs ++ (record j { phase = resetting (b + j.item) } ∷ ys) })
  add_item-Books j b xs ys e q =
      let j' : Job = record j { phase = resetting (b + j.item) } in
      let moved = λ (w : Job → ℕ). total-replaced w r.jobs xs ys j j' e in
      let was = λ (w : Job → ℕ). ap (λ c. w (record j { phase = c })) q in
      record {
        sharded = h.sharded;
        plain = h.plain;
        zeros = h.zeros;
        uncapped = h.uncapped;
        staged = omega (arith, h.staged, moved job_stray, was job_stray);
        summed = omega (
          arith,
          h.summed,
          moved (job_weight self),
          was (job_weight self),
          moved job_unadded,
          was job_unadded,
        );
        counted = omega (arith, h.counted, moved (job_weight one_each), was (job_weight one_each));
        begun = omega (arith, h.begun, moved job_uncounted, was job_uncounted);
        leased = omega (arith, h.leased, moved job_uncounted, was job_uncounted);
        allocated = omega (arith, h.allocated, moved job_allocating, was job_allocating);
        once = omega (arith, h.once, moved job_waits, was job_waits);
        worked = λ z. omega (arith, h.worked z, moved job_waits, was job_waits);
      }

  end_job-Books :
      (j : Job) (xs ys : List Job)
      → r.jobs ≡ xs ++ (j ∷ ys)
      → j.phase ≡ finished []
      → Books all (record r { jobs = xs ++ ys })
  end_job-Books j xs ys e q =
      let gone = λ (w : Job → ℕ). total-middle w r.jobs xs ys j e in
      let was = λ (w : Job → ℕ). ap (λ c. w (record j { phase = c })) q in
      record {
        sharded = h.sharded;
        plain = h.plain;
        zeros = h.zeros;
        uncapped = h.uncapped;
        staged = omega (arith, h.staged, gone job_stray);
        summed = omega (
          arith,
          h.summed,
          gone (job_weight self),
          was (job_weight self),
          gone job_unadded,
          was job_unadded,
        );
        counted = omega (arith, h.counted, gone (job_weight one_each), was (job_weight one_each));
        begun = omega (arith, h.begun, gone job_uncounted);
        leased = omega (arith, h.leased, gone job_uncounted, was job_uncounted);
        allocated = omega (arith, h.allocated, gone job_allocating, was job_allocating);
        once = omega (arith, h.once, gone job_waits);
        worked = λ z. omega (arith, h.worked z, gone job_waits, was job_waits);
      }

pub Step-Books : {all : List ℕ} {r t : Reduction} → Books all r → Step r t → Books all t
Step-Books h (begin i x xs ys e) = begin-Books h i x xs ys e
Step-Books h (run j xs ys e) = run-Books h j xs ys e
Step-Books h (add_item j b xs ys e q) = add_item-Books h j b xs ys e q
Step-Books h (end_job j xs ys e q) = end_job-Books h j xs ys e q

pub Reach-Books :
    (threads : Threads) (parallelism : Option ℕ) (all : List ℕ) {r : Reduction}
    → Reach (start threads parallelism all) r
    → Books all r
Reach-Books threads parallelism all here = start-Books threads parallelism all
Reach-Books threads parallelism all (next q st) =
    Step-Books (Reach-Books threads parallelism all q) st
