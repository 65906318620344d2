-- ===== src/Buffer/Client/History.antt =====
-- src/buffer.rs: the steps of a program and the books of `Ledger`, one lemma per step.
use par_buffer_pool.Base.{
  ℕ, ◌+◌, ◌-◌, ◌<◌, Option, none, some, List, [], ◌∷◌, ◌++◌, ◌≡◌, refl, ap, ◌∙◌, arith, total,
  total-append, length, length-append,
}
use native.Mathlib.Decide.{dec_lt}
use par_buffer_pool.Base.Effect.{Outcome, returned, panicked}
use par_buffer_pool.Buffer.State.{Machine, SharedPooled}
use par_buffer_pool.Buffer.Inner.{recycle}
use par_buffer_pool.Buffer.Guard.{release_handle, drop_guard, arc_clone}
use par_buffer_pool.Buffer.Pool.{get, get_owned, put, drain, clone, drop_pool}
use par_buffer_pool.Buffer.Pool.Lease.{guard, guarded, get_lem}
use par_buffer_pool.Buffer.Pool.With.{get_owned_lem, get_owned_panics}
use par_buffer_pool.Buffer.Pool.Drain.{drain_lem, drained, drained-Keeps, idle_buffers}
use par_buffer_pool.Buffer.Invariant.{Keeps, Keeps-refl, nothing}
use par_buffer_pool.Buffer.Invariant.Return.{recycle-Keeps}
use par_buffer_pool.Buffer.Invariant.Pool.{lease_weight, get-Keeps, put-Keeps, drop_guard-Keeps}
use par_buffer_pool.Buffer.Weights.{option_weight}
use par_buffer_pool.Buffer.Client.{Client, lent, lent_owned, handed_all, option_list}
use par_buffer_pool.Buffer.Client.Handles.{
  set_strong-Follows, release_handle-Follows, release_handle-strong,
}
use par_buffer_pool.Buffer.Client.Ledger.{outside, IsSound, call-IsSound}

module _ {ℓ} {T : Type ℓ} where
  total-lent :
      (w : T → ℕ) (r : Outcome (SharedPooled T)) (xs : List T)
      → total w (lent r ++ xs) ≡ lease_weight r w + total w xs
  total-lent w (returned g) xs = option g.buffer
    where
      option : (o : Option T) → total w (option_list o ++ xs) ≡ option_weight w o + total w xs
      option none = omega arith
      option (some b) = refl
  total-lent w panicked xs = omega arith

  -- Taking one buffer out of a list, or putting another in its place.
  pub total-middle :
      (w : T → ℕ) (all xs ys : List T) (b : T)
      → all ≡ xs ++ (b ∷ ys)
      → total w (xs ++ ys) + w b ≡ total w all
  total-middle w all xs ys b e =
      omega (arith, ap (total w) e, total-append w xs (b ∷ ys), total-append w xs ys)

  pub length-middle :
      (all xs ys : List T) (b : T) → all ≡ xs ++ (b ∷ ys) → length (xs ++ ys) + 1 ≡ length all
  length-middle all xs ys b e =
      omega (arith, ap length e, length-append xs (b ∷ ys), length-append xs ys)

  module _ {Writes : T → T → Type ℓ} {s : Machine T} {c : Client T} (h : IsSound Writes s c) where
    abbrev m : Machine T
    m = c.machine

    held_handle : 0 < c.handles → 0 < m.strong
    held_handle p = omega (arith, h.references)

    -- A borrowed buffer comes from a handle that is alive.
    pub lender : (b : T) (xs ys : List T) → c.borrowed ≡ xs ++ (b ∷ ys) → 0 < c.handles
    lender b xs ys e = elim (dec_lt 0 c.handles) [
      | yes p ↦ p
      | no z ↦
          absurd
            (omega (arith, length-middle c.borrowed xs ys b e, ap length (h.lending (omega arith))))
    ]

    pub lease-IsSound :
        (i : ℕ)
        → 0 < c.handles
        → IsSound Writes s
            (record c { machine = (get i m).1; borrowed = lent (get i m).0 ++ c.borrowed })
    lease-IsSound i p =
        let k = get-Keeps i m (h.alive (held_handle p)) in
        call-IsSound h c.handles _ c.owned c.detached (held_handle p) k
          (set_strong-Follows (get i m).1.strong (get i m).1) (k.same_strong ∙ h.references)
          (λ z. absurd (omega arith)) (λ w. omega (arith, total-lent w (get i m).0 c.borrowed))

    pub lease_owned-IsSound :
        (i : ℕ)
        → 0 < c.handles
        → IsSound Writes s (record c {
          machine = (get_owned i m).1;
          owned = lent_owned (get_owned i m).0 ++ c.owned;
        })
    lease_owned-IsSound i p =
        let (o, t, e) = get_lem i m (h.alive (held_handle p)).sharded in
        let k = rw e at (get-Keeps i m (h.alive (held_handle p))) in go o t e k
      where
        go :
            (o : Outcome T) (t : Machine T)
            → get i m ≡ (guarded o, t)
            → Keeps m t nothing (lease_weight (guarded o))
            → IsSound Writes s (record c {
              machine = (get_owned i m).1;
              owned = lent_owned (get_owned i m).0 ++ c.owned;
            })
        go (returned b) t e k = rw (get_owned_lem i m t b e) (
            call-IsSound h c.handles c.borrowed (b ∷ c.owned) c.detached (held_handle p) k
              (set_strong-Follows (t.strong + 1) t) (omega (arith, k.same_strong, h.references))
              h.lending (λ w. omega arith))
        go panicked t e k = rw (get_owned_panics i m t e) (
            call-IsSound h c.handles c.borrowed c.owned c.detached (held_handle p) k
              (set_strong-Follows t.strong t) (k.same_strong ∙ h.references) h.lending
              (λ w. omega arith))

    pub give_back-IsSound :
        (i : ℕ) (b : T) (xs ys : List T)
        → c.borrowed ≡ xs ++ (b ∷ ys)
        → IsSound Writes s
            (record c { machine = (drop_guard i (guard b) m).1; borrowed = xs ++ ys })
    give_back-IsSound i b xs ys e =
        let p = lender b xs ys e in
        let k = drop_guard-Keeps i (some b) m (h.alive (held_handle p)) in
        call-IsSound h c.handles (xs ++ ys) c.owned c.detached (held_handle p) k
          (set_strong-Follows _ (drop_guard i (guard b) m).1) (k.same_strong ∙ h.references)
          (λ z. absurd (omega arith)) (λ w. omega (arith, total-middle w c.borrowed xs ys b e))

    pub detach-IsSound :
        (i : ℕ) (b : T) (xs ys : List T)
        → c.borrowed ≡ xs ++ (b ∷ ys)
        → IsSound Writes s (record c { borrowed = xs ++ ys; detached = b ∷ c.detached })
    detach-IsSound i b xs ys e =
        let p = lender b xs ys e in
        call-IsSound h c.handles (xs ++ ys) c.owned (b ∷ c.detached) (held_handle p)
          (Keeps-refl m (h.alive (held_handle p))) (set_strong-Follows _ m) h.references
          (λ z. absurd (omega arith)) (λ w. omega (arith, total-middle w c.borrowed xs ys b e))

    owner : (b : T) (xs ys : List T) → c.owned ≡ xs ++ (b ∷ ys) → 0 < m.strong
    owner b xs ys e = omega (arith, h.references, length-middle c.owned xs ys b e)

    pub give_back_owned-IsSound :
        (i : ℕ) (b : T) (xs ys : List T)
        → c.owned ≡ xs ++ (b ∷ ys)
        → IsSound Writes s
            (record c { machine = release_handle (recycle i b m).1; owned = xs ++ ys })
    give_back_owned-IsSound i b xs ys e =
        let p = owner b xs ys e in
        let k = recycle-Keeps i b m (h.alive p) in
        call-IsSound h c.handles c.borrowed (xs ++ ys) c.detached p k
          (release_handle-Follows (recycle i b m).1)
          (omega (
            arith,
            release_handle-strong (recycle i b m).1,
            k.same_strong,
            h.references,
            length-middle c.owned xs ys b e,
          ))
          h.lending (λ w. omega (arith, total-middle w c.owned xs ys b e))

    pub detach_owned-IsSound :
        (i : ℕ) (b : T) (xs ys : List T)
        → c.owned ≡ xs ++ (b ∷ ys)
        → IsSound Writes s
            (record c { machine = release_handle m; owned = xs ++ ys; detached = b ∷ c.detached })
    detach_owned-IsSound i b xs ys e =
        let p = owner b xs ys e in
        call-IsSound h c.handles c.borrowed (xs ++ ys) (b ∷ c.detached) p (Keeps-refl m (h.alive p))
          (release_handle-Follows m)
          (omega (arith, release_handle-strong m, h.references, length-middle c.owned xs ys b e))
          h.lending (λ w. omega (arith, total-middle w c.owned xs ys b e))

    pub put_back-IsSound :
        (i : ℕ) (b : T) (xs ys : List T)
        → 0 < c.handles
        → c.detached ≡ xs ++ (b ∷ ys)
        → IsSound Writes s (record c { machine = (put i b m).1; detached = xs ++ ys })
    put_back-IsSound i b xs ys p e =
        let k = put-Keeps i b m (h.alive (held_handle p)) in
        call-IsSound h c.handles c.borrowed c.owned (xs ++ ys) (held_handle p) k
          (set_strong-Follows _ (put i b m).1) (k.same_strong ∙ h.references) h.lending
          (λ w. omega (arith, total-middle w c.detached xs ys b e))

    pub take_all-IsSound :
        0 < c.handles
        → IsSound Writes s
            (record c { machine = (drain m).1; detached = handed_all (drain m).0 ++ c.detached })
    take_all-IsSound p =
        let k = drained-Keeps m (h.alive (held_handle p)) in
        rw (drain_lem m (h.alive (held_handle p))) (
          call-IsSound h c.handles c.borrowed c.owned (idle_buffers m ++ c.detached) (held_handle p)
            k (set_strong-Follows _ (drained m)) h.references h.lending
            (λ w. omega (arith, total-append w (idle_buffers m) c.detached)))

    pub clone_handle-IsSound :
        0 < c.handles
        → IsSound Writes s (record c { machine = (clone m).1; handles = c.handles + 1 })
    unfolding clone arc_clone
    clone_handle-IsSound p =
        call-IsSound h (c.handles + 1) c.borrowed c.owned c.detached (held_handle p)
          (Keeps-refl m (h.alive (held_handle p))) (set_strong-Follows (m.strong + 1) m)
          (omega (arith, h.references)) (λ z. absurd (omega arith)) (λ w. omega arith)

    pub drop_handle-IsSound :
        0 < c.handles
        → (c.handles ≡ 1 → c.borrowed ≡ [])
        → IsSound Writes s (record c { machine = (drop_pool m).1; handles = c.handles - 1 })
    unfolding drop_pool
    drop_handle-IsSound p last =
        call-IsSound h (c.handles - 1) c.borrowed c.owned c.detached (held_handle p)
          (Keeps-refl m (h.alive (held_handle p))) (release_handle-Follows m)
          (omega (arith, h.references, release_handle-strong m)) (λ z. last (omega arith))
          (λ w. omega arith)

    -- The program's own changes to what it holds.
    pub held-IsSound :
        (xs ys zs new : List T)
        → length ys ≡ length c.owned
        → (c.handles ≡ 0 → xs ≡ [])
        → ((w : T → ℕ)
            → ((b b' : T) → Writes b b' → w b' ≡ w b)
            → total w xs + total w ys + total w zs + total w c.supplied ≡ outside w c + total w new)
        → IsSound Writes s (record c { borrowed = xs; owned = ys; detached = zs; supplied = new })
    held-IsSound xs ys zs new e lends moved = record {
      references = rw e h.references;
      lending = lends;
      alive = h.alive;
      within = h.within;
      same_reset = h.same_reset;
      balanced = λ w p q. omega (arith, h.balanced w p q, moved w q);
    }
