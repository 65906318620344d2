-- ===== src/Buffer/Invariant/Counts.antt =====
-- src/buffer.rs: the count `parked` and the cap, apart from the piles.
use mathlib.Core.Option
use par_buffer_pool.Base.{ℕ, ◌+◌, ◌≤◌, ◌<◌, Option, none, some, ◌≡◌, refl, arith, true, false}
use par_buffer_pool.Base.Words.{usize_mod, fetch_sub, fetch_sub_lem}
use par_buffer_pool.Buffer.Inner.Forms.{has_room, claimed, Fits}
use par_buffer_pool.Buffer.Invariant.{Counted, Capped, WithinCap}

pub Counted-unpark :
    (p : Option ℕ) (n n' : ℕ)
    → n' + 1 ≡ n
    → Counted p n
    → Counted (Option.map (λ c. fetch_sub c 1) p) n'
Counted-unpark none n n' e h = tt
Counted-unpark (some c) n n' e h = (omega (arith, fetch_sub_lem c 1), omega arith)

pub Capped-map : (f : ℕ → ℕ) (p : Option ℕ) (n : ℕ) → Capped p n → Capped (Option.map f p) n
Capped-map f none n h = h
Capped-map f (some c) n h = h

pub WithinCap-map :
    (f : ℕ → ℕ) (p : Option ℕ) (n k k' : ℕ)
    → k' ≤ k
    → WithinCap p n k
    → WithinCap (Option.map f p) n k'
WithinCap-map f none n k k' le h = tt
WithinCap-map f (some c) n k k' le h = omega arith

pub Counted-claim :
    (n : ℕ) (p : Option ℕ) (k k' : ℕ)
    → k' ≡ k + 1
    → has_room n p ≡ true
    → Capped p n
    → Counted p k
    → Counted (claimed n p) k'
Counted-claim n none k k' e room c h = tt
Counted-claim n (some p) k k' e room c h = ground arith

pub Capped-claim : (n : ℕ) (p : Option ℕ) → Capped p n → Capped (claimed n p) n
Capped-claim n none c = c
Capped-claim n (some p) c = c

pub WithinCap-claim :
    (n : ℕ) (p : Option ℕ) (k k' : ℕ)
    → k' ≡ k + 1
    → has_room n p ≡ true
    → Counted p k
    → WithinCap (claimed n p) n k'
WithinCap-claim n none k k' e room h = tt
WithinCap-claim n (some p) k k' e room h = ground arith

pub claimed-full : (n : ℕ) (p : Option ℕ) → has_room n p ≡ false → claimed n p ≡ p
claimed-full n none e = refl
claimed-full n (some p) e = ground arith

pub Fits-Counted : (p : Option ℕ) (n : ℕ) → Counted p n → Fits p
Fits-Counted none n h = tt
Fits-Counted (some p) n h = omega arith

pub Capped-lt : (p : Option ℕ) (n : ℕ) → Capped p n → n < usize_mod
Capped-lt none n h = omega arith
Capped-lt (some p) n h = omega arith
