-- ===== src/Buffer/Client/Ledger.antt =====
-- src/buffer.rs: the books of a history: handles, guards, and the weight of all buffers.
use par_buffer_pool.Base.{ℕ, ◌+◌, ◌<◌, List, [], ◌≡◌, ◌∙◌, arith, total, length}
use par_buffer_pool.Buffer.State.{Machine}
use par_buffer_pool.Buffer.Invariant.{IsWellFormed, IsWithinCap, Preserves, held, made, Keeps}
use par_buffer_pool.Buffer.Client.{Client}
use par_buffer_pool.Buffer.Client.Handles.{Follows}

module _ {ℓ} {T : Type ℓ} where
  -- The buffers outside the pool: under guards, and with the program.
  abbrev pub outside : (T → ℕ) → Client T → ℕ
  outside w c = total w c.borrowed + total w c.owned + total w c.detached

  -- What holds of a program that started with the pool `s`.
  pub record IsSound (Writes : T → T → Type ℓ) (s : Machine T) (c : Client T) : Type ℓ where
    pub references : c.machine.strong ≡ c.handles + length c.owned
    pub lending : c.handles ≡ 0 → c.borrowed ≡ []
    pub alive : 0 < c.machine.strong → IsWellFormed c.machine
    pub within : 0 < c.machine.strong → IsWithinCap s → IsWithinCap c.machine
    pub same_reset : c.machine.reset ≡ s.reset
    pub balanced :
        (w : T → ℕ)
        → Preserves w s.reset
        → ((b b' : T) → Writes b b' → w b' ≡ w b)
        → held w c.machine + outside w c + made w s
          ≡ held w s + total w c.supplied + made w c.machine

  module _ {Writes : T → T → Type ℓ} {s : Machine T} {c : Client T} (h : IsSound Writes s c) where
    -- A call that moves buffers between the pool and the program.
    pub call-IsSound :
        {t u : Machine T} {g o : (T → ℕ) → ℕ} (n : ℕ) (xs ys zs : List T)
        → 0 < c.machine.strong
        → Keeps c.machine t g o
        → Follows t u
        → u.strong ≡ n + length ys
        → (n ≡ 0 → xs ≡ [])
        → ((w : T → ℕ) → total w xs + total w ys + total w zs + g w ≡ outside w c + o w)
        → IsSound Writes s
            (record c { machine = u; handles = n; borrowed = xs; owned = ys; detached = zs })
    call-IsSound n xs ys zs pos k f refs lends moved = record {
      references = refs;
      lending = lends;
      alive = λ p. f.alive p k.well_formed;
      within = λ p q. f.within p (k.within (h.within pos q));
      same_reset = f.same_reset ∙ k.same_reset ∙ h.same_reset;
      balanced = λ w p q. omega (
        arith,
        h.balanced w p q,
        k.balanced w (rw h.same_reset p),
        f.weight w,
        f.making w,
        moved w,
      );
    }
