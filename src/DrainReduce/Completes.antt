-- ===== src/DrainReduce/Completes.antt =====
-- examples/drain_reduce.rs: a reduction does not get stuck.
use par_buffer_pool.Base.{
  ℕ, zero, suc, ◌+◌, ◌*◌, ◌≤◌, ◌<◌, Bool, true, false, Option, some, none, List, [], ◌∷◌, ◌≡◌, refl,
  ap, arith, total, length,
}
use native.Mathlib.Decide.{dec_lt}
use par_buffer_pool.Sharding.{Threads}
use par_buffer_pool.Buffer.Concurrent.{Phase, tick}
use par_buffer_pool.Buffer.Concurrent.Progress.{
  remaining, tick-remaining, IsEnded, by_finishing, by_panic, remaining-IsEnded, tick-SameShape,
}
use par_buffer_pool.DrainReduce.{
  Job, Reduction, start, Step, begin, run, add_item, end_job, Reach, next,
}
use par_buffer_pool.Buffer.Concurrent.Jobs.{awaits}
use par_buffer_pool.DrainReduce.Stages.{tick-Stages}
use par_buffer_pool.DrainReduce.Books.{Books, not_stray, job_stray}
use par_buffer_pool.DrainReduce.Steps.{Step-Books, Reach-Books}

-- The steps that follow the call under way.
abbrev after_call : Option Bool → ℕ
after_call none = 0
after_call (some true) = 5
after_call (some false) = 1

-- The most steps that a job may have left in a pool of `n` shards.
abbrev job_steps : ℕ → Job → ℕ
job_steps n j = remaining n j.phase + after_call (awaits j.phase)

abbrev steps_left : Reduction → ℕ
steps_left r = total (job_steps (length r.machine.shards)) r.jobs + 11 * length r.todo

-- What remains to be done: nothing, or a step that brings the end nearer.
data Outlook (r : Reduction) : Type 0 where
  complete : r.todo ≡ [] → r.jobs ≡ [] → Outlook r
  nearer : (t : Reduction) → Step r t → steps_left t < steps_left r → Outlook r

-- A job whose call has ended adds its item, or is over.
ended_job-Outlook :
    (r : Reduction) (j : Job) (ys : List Job) (a : Bool) {c : Phase ℕ}
    → IsEnded c
    → r.jobs ≡ j ∷ ys
    → j.phase ≡ c
    → awaits c ≡ some a
    → Outlook r
ended_job-Outlook r j ys a (by_finishing []) e q k = nearer _ (end_job j [] ys e q) (
    omega (
      arith,
      ap (total (job_steps (length r.machine.shards))) e,
      ap (λ c. job_steps (length r.machine.shards) (record j { phase = c })) q,
    ))
ended_job-Outlook r j ys a (by_finishing (b ∷ [])) e q k = nearer _ (add_item j b [] ys e q) (
    omega (
      arith,
      ap (total (job_steps (length r.machine.shards))) e,
      ap (λ c. job_steps (length r.machine.shards) (record j { phase = c })) q,
    ))
ended_job-Outlook r j ys a (by_finishing (b ∷ c ∷ bs)) e q k = absurd (cc)
ended_job-Outlook r j ys a by_panic e q k = absurd (cc)

module _ {all : List ℕ} {r : Reduction} (h : Books all r) where
  job-Outlook : (j : Job) (ys : List Job) → r.jobs ≡ j ∷ ys → Outlook r
  job-Outlook j ys e =
      let n = length r.machine.shards in
      let (a, known) =
        not_stray (awaits j.phase) (omega (arith, h.staged, ap (total job_stray) e)) in
      elim (dec_lt 0 (remaining n j.phase)) [
        | yes p ↦
            let shape = tick-SameShape j.thread j.phase r.machine h.sharded in
            let k = tick-Stages j.thread j.phase a r.machine h.sharded h.plain known in
            let j' : Job = record j { phase = (tick j.thread j.phase r.machine).0 } in
            nearer _ (run j [] ys e) (
              omega (
                arith,
                tick-remaining j.thread j.phase r.machine h.sharded,
                ap after_call k.same_awaits,
                ap (total (job_steps n)) e,
                ap (λ n. total (job_steps n) (j' ∷ ys)) shape.0,
              ))
        | no z ↦ ended_job-Outlook r j ys a (remaining-IsEnded n j.phase (omega arith)) e refl known
      ]

  Books-Outlook : Outlook r
  Books-Outlook = jobs r.jobs refl
    where
      items : (todo : List ℕ) → r.todo ≡ todo → r.jobs ≡ [] → Outlook r
      items [] e f = complete e f
      items (x ∷ xs) e f = nearer _ (begin 0 x [] xs e) (omega (arith, ap length e))

      jobs : (js : List Job) → r.jobs ≡ js → Outlook r
      jobs [] e = items r.todo refl e
      jobs (j ∷ js) e = job-Outlook j js e

finishes :
    {all : List ℕ} {q r : Reduction} (n : ℕ)
    → Books all r
    → Reach q r
    → steps_left r ≤ n
    → (t : Reduction) × Reach q t × (t.todo ≡ []) × (t.jobs ≡ [])
finishes {r = r} zero h reach le = elim (Books-Outlook h) [
  | complete e f ↦ (r, reach, e, f)
  | nearer t st lt ↦ absurd (omega arith)
]
finishes {r = r} (suc n) h reach le = elim (Books-Outlook h) [
  | complete e f ↦ (r, reach, e, f)
  | nearer t st lt ↦ finishes n (Step-Books h st) (next reach st) (omega arith)
]

-- From every state of a reduction, however the threads have interleaved so far, there are steps
-- after which every item has been begun and every job has ended.
pub reduction_completes :
    (threads : Threads) (parallelism : Option ℕ) (all : List ℕ) {r : Reduction}
    → Reach (start threads parallelism all) r
    → (t : Reduction) × Reach (start threads parallelism all) t × (t.todo ≡ []) × (t.jobs ≡ [])
reduction_completes threads parallelism all {r} reach =
    finishes (steps_left r) (Reach-Books threads parallelism all reach) reach (omega arith)
