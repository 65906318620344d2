-- ===== src/RayonScratch/Loop.antt =====
-- examples/rayon_scratch.rs: the parallel loop.
use par_buffer_pool.Base.{
  ℕ, zero, suc, ◌+◌, ◌*◌, ◌≤◌, ◌<◌, ◌^◌, Bool, Option, none, List, [], ◌≡◌, refl, ap, ◌∙◌, arith,
  eq-eq_true, All, length, total,
}
use par_buffer_pool.Base.Text.{Text}
use par_buffer_pool.Base.Words.{usize_max}
use par_buffer_pool.Base.Effect.{returned}
use par_buffer_pool.Sharding.{Threads}
use par_buffer_pool.Buffer.State.{Machine}
use par_buffer_pool.Buffer.Pool.{stats}
use par_buffer_pool.Buffer.Pool.Lease.{reuses_lem}
use par_buffer_pool.Buffer.Crew.{Crew, Reach, all_resting, any_item}
use par_buffer_pool.Buffer.Crew.Results.{crew_run}
use par_buffer_pool.Buffer.Crew.Collect.{range_from, length-range_from}
use par_buffer_pool.Buffer.Crew.Sound.{weigh}
use par_buffer_pool.RayonScratch.{
  blobs, blobs_start, bytes_per_blob, blob_from, init_hex, hex_work, conclude,
}
use par_buffer_pool.RayonScratch.Hex.{encode-decodes}

blob_from-bytes :
    (b i n : ℕ) → All (λ k. k < 2 ^ 8) (blob_from b i n) × (length (blob_from b i n) ≡ n)
unfolding blob_from
blob_from-bytes b i zero = (tt, refl)
blob_from-bytes b i (suc n) =
    let (bytes, long) = blob_from-bytes b (i + 1) n in ((omega arith, bytes), omega (arith, long))

hex_work-returns : (b : ℕ) (hex : Text) → (hex_work b hex).1 ≡ returned (2 * bytes_per_blob)
unfolding hex_work
hex_work-returns b hex =
    let (bytes, long) = blob_from-bytes b 0 bytes_per_blob in
    (encode-decodes (blob_from b 0 bytes_per_blob) hex bytes).0 ∙ ap (λ n. returned (2 * n)) long

conclude-returns :
    (overflow_checks : Bool) (s : Machine Text)
    → s.leases ≡ blobs
    → s.allocations ≤ s.leases
    → (conclude overflow_checks s).0 ≡ returned tt
unfolding conclude stats
conclude-returns overflow_checks s e few =
    rw (reuses_lem overflow_checks s.leases s.allocations few, eq-eq_true s.leases blobs e) refl

-- Once the loop over the blobs is over, on any worker threads that do not use up the ids and
-- whatever way they interleaved: each of the 512 blobs, 0 to 511, has been encoded once (a sum of any
-- weights over the results is the one over the blobs) and has given its length, two digits for each
-- byte, whatever its buffer held before, and the rest of `main` returns, with and without overflow
-- checks.
pub rayon_scratch_returns :
    (threads : Threads) (parallelism : Option ℕ) (ids : List ℕ) (overflow_checks : Bool)
    {r : Crew Text ℕ ℕ} (is : List ℕ)
    → threads.next_tid + length ids < usize_max
    → Reach any_item hex_work (blobs_start threads parallelism ids) r
    → r.todo ≡ []
    → r.workers ≡ all_resting is
    → ((w : ℕ → ℕ) → total (weigh w) r.results ≡ total w (range_from 0 blobs))
      × All (λ q. q.1 ≡ returned (2 * bytes_per_blob)) r.results
      × ((conclude overflow_checks r.machine).0 ≡ returned tt)
unfolding stats
rayon_scratch_returns threads parallelism ids overflow_checks {r} is room q done off =
    let anything : Text → Type 0 = λ hex. Unit {0} in
    let (holds, each, leased, few, fewer, some_made) =
      crew_run anything threads parallelism init_hex none hex_work any_item (range_from 0 blobs) ids
        (λ n. ([], refl, tt)) (λ b hex u. tt) room (λ b. returned (2 * bytes_per_blob)) is
        (λ b hex u. hex_work-returns b hex) q done off in
    let n = length-range_from 0 blobs in
    (
      each,
      holds,
      conclude-returns overflow_checks r.machine (omega (arith, leased, n))
          (omega (arith, leased, n, fewer)),
    )
