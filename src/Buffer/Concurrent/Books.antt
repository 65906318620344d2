-- ===== src/Buffer/Concurrent/Books.antt =====
-- src/buffer.rs: what the count `parked` owes to the calls in flight, and the buffers in them.
use par_buffer_pool.Base.{ℕ, arith, ◌+◌, ◌≤◌, ◌%◌, Option, none, some, List, [], ◌∷◌, ◌≡◌, total}
use par_buffer_pool.Base.Words.{usize_mod}
use par_buffer_pool.Buffer.Weights.{one_each}
use par_buffer_pool.Buffer.Invariant.{Counted, Capped, WithinCap}
use par_buffer_pool.Buffer.Concurrent.{
  Room, Phase, counting_lease, popping_shard, popping_reserve, counting_allocation, initializing,
  failed, unparking, resetting, claiming, giving_back, parking, sweeping, sweeping_reserve,
  unparking_all, finished,
}

module _ {ℓ} {T : Type ℓ} where
  -- The buffers that a call holds.
  abbrev pub in_flight : Phase T → List T
  in_flight counting_lease = []
  in_flight popping_shard = []
  in_flight popping_reserve = []
  in_flight counting_allocation = []
  in_flight initializing = []
  in_flight failed = []
  in_flight (unparking b) = b ∷ []
  in_flight (resetting b) = b ∷ []
  in_flight (claiming b) = b ∷ []
  in_flight (giving_back b) = b ∷ []
  in_flight (parking b) = b ∷ []
  in_flight (sweeping k taken bs) = bs
  in_flight (sweeping_reserve taken bs) = bs
  in_flight (unparking_all taken bs) = bs
  in_flight (finished bs) = bs

  -- What the call has counted and not parked, or has taken from the piles and not yet uncounted.
  abbrev pub owed : Phase T → ℕ
  owed counting_lease = 0
  owed popping_shard = 0
  owed popping_reserve = 0
  owed counting_allocation = 0
  owed initializing = 0
  owed failed = 0
  owed (unparking b) = 1
  owed (resetting b) = 0
  owed (claiming b) = 0
  owed (giving_back b) = 0
  owed (parking b) = 1
  owed (sweeping k taken bs) = total one_each bs
  owed (sweeping_reserve taken bs) = total one_each bs
  owed (unparking_all taken bs) = total one_each bs
  owed (finished bs) = 0

  -- A claim that was refused and is still in the count.
  abbrev pub refused : Phase T → ℕ
  refused counting_lease = 0
  refused popping_shard = 0
  refused popping_reserve = 0
  refused counting_allocation = 0
  refused initializing = 0
  refused failed = 0
  refused (unparking b) = 0
  refused (resetting b) = 0
  refused (claiming b) = 0
  refused (giving_back b) = 1
  refused (parking b) = 0
  refused (sweeping k taken bs) = 0
  refused (sweeping_reserve taken bs) = 0
  refused (unparking_all taken bs) = 0
  refused (finished bs) = 0

  -- A drain knows how many buffers it has taken.
  abbrev pub IsTallied : Phase T → Type 0
  IsTallied counting_lease = Unit {0}
  IsTallied popping_shard = Unit {0}
  IsTallied popping_reserve = Unit {0}
  IsTallied counting_allocation = Unit {0}
  IsTallied initializing = Unit {0}
  IsTallied failed = Unit {0}
  IsTallied (unparking b) = Unit {0}
  IsTallied (resetting b) = Unit {0}
  IsTallied (claiming b) = Unit {0}
  IsTallied (giving_back b) = Unit {0}
  IsTallied (parking b) = Unit {0}
  IsTallied (sweeping k taken bs) = taken ≡ total one_each bs % usize_mod
  IsTallied (sweeping_reserve taken bs) = taken ≡ total one_each bs % usize_mod
  IsTallied (unparking_all taken bs) = taken ≡ total one_each bs % usize_mod
  IsTallied (finished bs) = Unit {0}

  pub refused-le : (c : Phase T) → refused c ≤ 1
  refused-le counting_lease = omega arith
  refused-le popping_shard = omega arith
  refused-le popping_reserve = omega arith
  refused-le counting_allocation = omega arith
  refused-le initializing = omega arith
  refused-le failed = omega arith
  refused-le (unparking b) = omega arith
  refused-le (resetting b) = omega arith
  refused-le (claiming b) = omega arith
  refused-le (giving_back b) = omega arith
  refused-le (parking b) = omega arith
  refused-le (sweeping k taken bs) = omega arith
  refused-le (sweeping_reserve taken bs) = omega arith
  refused-le (unparking_all taken bs) = omega arith
  refused-le (finished bs) = omega arith

-- Where a cap is kept: the count is the idle buffers with what is owed and what was refused, and
-- the first two together are within the cap.
abbrev pub Agreed : Option ℕ → (cap idle owed refused : ℕ) → Type 0
Agreed none cap k r q = Unit {0}
Agreed (some p) cap k r q = (p ≡ k + r + q) × (k + r ≤ cap)

-- The count after a step, and a step that moves `d` of what is idle to what is owed.
pub Agreed-of :
    (p : Option ℕ) (cap k r q k' r' q' : ℕ)
    → k' + r' ≡ k + r
    → q' ≡ q
    → Agreed p cap k r q
    → Agreed p cap k' r' q'
Agreed-of none n k r q k' r' q' e f h = tt
Agreed-of (some p) n k r q k' r' q' e f h = (omega arith, omega arith)

pub Agreed-start :
    (p : Option ℕ) (most k : ℕ) → Counted p k → WithinCap p most k → Agreed p most k 0 0
Agreed-start none most k c w = tt
Agreed-start (some p) most k c w = (omega arith, omega arith)

pub Room-start : (p : Option ℕ) (most k : ℕ) → Counted p k → Capped p most → Room p most 0
Room-start none most k c h = tt
Room-start (some p) most k c h = omega arith

pub Room-le : (p : Option ℕ) (most n k : ℕ) → k ≤ n → Room p most n → Room p most k
Room-le none most n k le h = tt
Room-le (some p) most n k le h = omega arith
