-- ===== src/RayonScratch.antt =====
-- examples/rayon_scratch.rs: blobs of bytes, hex-encoded in parallel in buffers of a pool without a
-- hook.
pub mod Hex
pub mod Loop
mod Examples
use Prim.Native.Nat.{bit_and}
use par_buffer_pool.Base.{
  Option, none, ℕ, zero, suc, ◌+◌, ◌*◌, ◌/◌, ◌%◌, ◌^◌, Bool, List, [], ◌∷◌, ◌==◌, push, get_elem?,
}
use par_buffer_pool.Base.Text.{Text, len}
use par_buffer_pool.Base.Effect.{
  Outcome, returned, Op, pure, gets, expect, modify, assert, ◌>>=◌, ◌>>◌,
}
use par_buffer_pool.Sharding.{Threads}
use par_buffer_pool.Buffer.State.{Machine, InitFn}
use par_buffer_pool.Buffer.Pool
use par_buffer_pool.Buffer.Crew.{Work, Crew, start, build}
use par_buffer_pool.Buffer.Crew.Collect.{range_from}

abbrev pub blobs : ℕ
blobs = 512

abbrev pub bytes_per_blob : ℕ
bytes_per_blob = 4096

-- b"0123456789abcdef"
abbrev pub hex_digits : List ℕ
hex_digits =
    0x30 ∷ 0x31 ∷ 0x32 ∷ 0x33 ∷ 0x34 ∷ 0x35 ∷ 0x36 ∷ 0x37 ∷ 0x38 ∷ 0x39 ∷ 0x61 ∷ 0x62 ∷ 0x63 ∷ 0x64
    ∷ 0x65 ∷ 0x66 ∷ []

-- `(0..n).map(|i| (b * 31 + i) as u8)`, from `i` on.
unfoldable pub blob_from : ℕ → ℕ → ℕ → List ℕ
blob_from b i zero = []
blob_from b i (suc n) = (b * 31 + i) % 2 ^ 8 ∷ blob_from b (i + 1) n

-- `|| String::with_capacity(2 * BYTES_PER_BLOB)`
abbrev pub init_hex : InitFn Text
init_hex n = returned []

-- `hex.push(HEX_DIGITS[i] as char)`: an index out of bounds is a panic.
abbrev pub push_digit : ℕ → Op Text (Unit {0})
push_digit i = do d ← expect (get_elem? hex_digits i); modify (λ hex. push hex d)

-- `for &byte in blob`
unfoldable pub push_bytes : List ℕ → Op Text (Unit {0})
push_bytes [] = pure tt
push_bytes (byte ∷ blob) = do
  push_digit (byte / 2 ^ 4)
  push_digit (bit_and byte 0x0f)
  push_bytes blob

-- `hex.clear()`, the loop, and `hex.len()`.
unfoldable pub encode : List ℕ → Op Text ℕ
unfolding push_bytes
encode blob = do modify (λ hex. []); push_bytes blob; gets len

-- The body of the parallel loop, for the blob `b`.
unfoldable pub hex_work : Work Text ℕ ℕ
unfolding encode blob_from
hex_work b hex = let (result, hex') = encode (blob_from b 0 bytes_per_blob) hex in (hex', result)

-- The rest of `main`.
unfoldable pub conclude : Bool → Op (Machine Text) (Unit {0})
unfolding Pool.stats Pool.reuses
conclude overflow_checks = do
  counts ← gets Pool.stats
  n ← λ s. (Pool.reuses overflow_checks counts, s)
  assert (counts.leases == blobs)

-- The pool that `main` builds, and the worker threads `ids` before the loop.
abbrev pub blobs_start : Threads → Option ℕ → List ℕ → Crew Text ℕ ℕ
blobs_start threads parallelism ids =
    start (build threads parallelism init_hex none) (range_from 0 blobs) ids
