-- ===== src/Buffer/Contract/Serves.antt =====
-- src/buffer.rs: one call, and what the contract allows.
use mathlib.Core.Option
use par_buffer_pool.Base.{ℕ, true, false, Option, none, some, List, ◌≡◌, refl, ap, arith}
use par_buffer_pool.Base.Effect.{Outcome}
use par_buffer_pool.Buffer.State.{Machine}
use par_buffer_pool.Buffer.Inner.Forms.{has_room, claimed, unparked}
use par_buffer_pool.Buffer.Invariant.{Counted}
use par_buffer_pool.Buffer.Contract.{Command, HasRoom, IsFull, Allowed, cap_of, terms, idle_bag}

-- The cap stays in force when the count moves, and decides as the contract says.
pub cap_of-map : (f : ℕ → ℕ) (p : Option ℕ) (n : ℕ) → cap_of (Option.map f p) n ≡ cap_of p n
cap_of-map f none n = refl
cap_of-map f (some c) n = refl

pub cap_of-claimed : (p : Option ℕ) (n : ℕ) → cap_of (claimed n p) n ≡ cap_of p n
cap_of-claimed none n = refl
cap_of-claimed (some c) n = refl

pub HasRoom-cap_of :
    (p : Option ℕ) (most n : ℕ) → Counted p n → has_room most p ≡ true → HasRoom (cap_of p most) n
HasRoom-cap_of none most n c h = tt
HasRoom-cap_of (some p) most n c h = ground arith

pub IsFull-cap_of :
    (p : Option ℕ) (most n : ℕ) → Counted p n → has_room most p ≡ false → IsFull (cap_of p most) n
IsFull-cap_of none most n c h = absurd (cc)
IsFull-cap_of (some p) most n c h = ground arith

module _ {ℓ} {T : Type ℓ} where
  -- A call that the contract allows, and after which the pool is on the same terms.
  pub record Serves (s : Machine T) (c : Command T) (a : Outcome (List T)) (t : Machine T)
      : Type ℓ where
    pub allowed : Allowed (terms s) (idle_bag s) c a (idle_bag t)
    pub same_terms : terms t ≡ terms s

  pub terms-unparked : (o : Option T) (s : Machine T) → terms (unparked o s) ≡ terms s
  terms-unparked none s = refl
  terms-unparked (some b) s =
      ap (λ c. record { init = s.init; reset = s.reset; cap = c })
        (cap_of-map _ s.parked s.max_idle)
