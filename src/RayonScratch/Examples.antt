-- ===== src/RayonScratch/Examples.antt =====
-- examples/rayon_scratch.rs: the encoding of two bytes, and a run to the end.
use par_buffer_pool.Base.{
  ℕ, ◌*◌, true, none, some, List, [], ◌∷◌, ◌≡◌, refl, arith, total, length, All, All-any,
}
use par_buffer_pool.Base.Text.{Text}
use par_buffer_pool.Base.Effect.{returned}
use par_buffer_pool.Sharding.{no_ids}
use par_buffer_pool.Buffer.Crew.{Crew, Reach, here, all_resting, any_item}
use par_buffer_pool.Buffer.Crew.Sound.{weigh}
use par_buffer_pool.Buffer.Crew.Outlook.{Taker}
use par_buffer_pool.Buffer.Crew.Completes.{crew_completes}
use par_buffer_pool.Buffer.Crew.Collect.{range_from}
use par_buffer_pool.RayonScratch.{
  blobs, bytes_per_blob, init_hex, encode, hex_work, blobs_start, conclude, push_bytes,
}
use par_buffer_pool.RayonScratch.Hex.{decode, encode-decodes}
use par_buffer_pool.RayonScratch.Loop.{rayon_scratch_returns}

-- A byte 0x1f after some text.
one_byte : push_bytes (0x1f ∷ []) (0x2d ∷ []) ≡ (returned tt, 0x2d ∷ 0x31 ∷ 0x66 ∷ [])
unfolding push_bytes
one_byte = refl

abbrev two_bytes : List ℕ
two_bytes = 0x1f ∷ 0xa0 ∷ []

encode-decodes_example :
    let (result, hex) = encode two_bytes (0x2d ∷ []) in
    (result ≡ returned (2 * length two_bytes)) × (decode hex ≡ some two_bytes)
encode-decodes_example = encode-decodes two_bytes (0x2d ∷ []) ((omega arith), (omega arith, tt))

abbrev ids : List ℕ
ids = 2 ∷ 3 ∷ []

abbrev ended :
    (r : Crew Text ℕ ℕ) × Reach any_item hex_work (blobs_start no_ids none ids) r
    × (r.todo ≡ [])
    × (r.workers ≡ all_resting ids)
ended =
    crew_completes (λ hex. Unit {0}) no_ids none init_hex none hex_work any_item
      (range_from 0 blobs) ids (λ n. ([], refl, tt)) (λ b hex u. tt) (omega arith)
      (All-any (Taker any_item ids) (range_from 0 blobs) (λ x. (2, tt, [], 3 ∷ [], refl))) here

rayon_scratch_returns_example :
    ((w : ℕ → ℕ) → total (weigh w) ended.0.results ≡ total w (range_from 0 blobs))
    × All (λ q. q.1 ≡ returned (2 * bytes_per_blob)) ended.0.results
    × ((conclude true ended.0.machine).0 ≡ returned tt)
rayon_scratch_returns_example =
    rayon_scratch_returns no_ids none ids true ids (omega arith) ended.1 ended.2 ended.3
