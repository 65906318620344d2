-- ===== src/Buffer/Concurrent/Consistent.antt =====
-- src/buffer.rs: the books of all the calls in flight together.
use par_buffer_pool.Base.{
  ℕ, ◌+◌, ◌≤◌, List, [], ◌∷◌, ◌++◌, ◌≡◌, refl, subst, ◌∙◌, arith, total, total-append, length,
}
use par_buffer_pool.Buffer.State.{Machine}
use par_buffer_pool.Buffer.Inner.Forms.{IsSharded}
use par_buffer_pool.Buffer.Weights.{idle}
use par_buffer_pool.Buffer.Invariant.{IsWellFormed, IsWithinCap, Preserves, held, made}
use par_buffer_pool.Buffer.Concurrent.{Call, System, start, Room, tick}
use par_buffer_pool.Buffer.Concurrent.Books.{
  in_flight, owed, refused, IsTallied, Agreed, Agreed-of, Agreed-start, Room-start, Room-le,
  refused-le,
}
use par_buffer_pool.Buffer.Concurrent.Count.{tick-Ticks}
use par_buffer_pool.Buffer.Client.History.{total-middle, length-middle}

module _ {ℓ} {T : Type ℓ} where
  abbrev pub call_weight : (T → ℕ) → Call T → ℕ
  call_weight w c = total w (in_flight c.phase)

  abbrev pub call_owed : Call T → ℕ
  call_owed c = owed c.phase

  abbrev pub call_refused : Call T → ℕ
  call_refused c = refused c.phase

  abbrev pub AllTallied : List (Call T) → Type 0
  AllTallied [] = Unit {0}
  AllTallied (c ∷ cs) = IsTallied c.phase × AllTallied cs

  -- A program that began with the pool `s`.
  pub record IsConsistent (s : Machine T) (y : System T) : Type ℓ where
    pub sharded : IsSharded y.machine
    pub same_reset : y.machine.reset ≡ s.reset
    pub tallied : AllTallied y.calls
    pub roomy : Room y.machine.parked y.machine.max_idle (length y.calls)
    pub agreed :
        Agreed y.machine.parked y.machine.max_idle
          (idle y.machine)
          (total call_owed y.calls)
          (total call_refused y.calls)
    pub balanced :
        (w : T → ℕ)
        → Preserves w s.reset
        → held w y.machine
            + total (call_weight w) y.calls
            + total w y.held
            + total w y.before
            + made w s
          ≡ held w s + total w y.supplied + total w y.after + made w y.machine

  total-refused : (cs : List (Call T)) → total call_refused cs ≤ length cs
  total-refused [] = omega arith
  total-refused (c ∷ cs) = omega (arith, refused-le c.phase, total-refused cs)

  AllTallied-middle :
      (xs ys : List (Call T)) (c : Call T)
      → AllTallied (xs ++ (c ∷ ys))
      → IsTallied c.phase × AllTallied (xs ++ ys)
  AllTallied-middle [] ys c h = h
  AllTallied-middle (x ∷ xs) ys c h = let (t, r) = AllTallied-middle xs ys c h.1 in (t, (h.0, r))

  AllTallied-insert :
      (xs ys : List (Call T)) (c : Call T)
      → IsTallied c.phase
      → AllTallied (xs ++ ys)
      → AllTallied (xs ++ (c ∷ ys))
  AllTallied-insert [] ys c t h = (t, h)
  AllTallied-insert (x ∷ xs) ys c t h = (h.0, AllTallied-insert xs ys c t h.1)

  pub start-IsConsistent :
      (s : Machine T) → IsWellFormed s → IsWithinCap s → IsConsistent s (start s)
  start-IsConsistent s h within = record {
    sharded = h.sharded;
    same_reset = refl;
    tallied = tt;
    roomy = Room-start s.parked s.max_idle (idle s) h.counted h.capped;
    agreed = Agreed-start s.parked s.max_idle (idle s) h.counted within;
    balanced = λ w p. omega arith;
  }

  module _ {s : Machine T} {y : System T} (h : IsConsistent s y) where
    -- A call begins with buffers from the program.
    pub begin-IsConsistent :
        (c : Call T) (held' : List T)
        → Room y.machine.parked y.machine.max_idle (length y.calls + 1)
        → IsTallied c.phase
        → owed c.phase ≡ 0
        → refused c.phase ≡ 0
        → ((w : T → ℕ) → total w held' + call_weight w c ≡ total w y.held)
        → IsConsistent s (record y { calls = c ∷ y.calls; held = held' })
    begin-IsConsistent c held' room t o r moved = record {
      sharded = h.sharded;
      same_reset = h.same_reset;
      tallied = (t, h.tallied);
      roomy = Room-le y.machine.parked y.machine.max_idle (length y.calls + 1) _ (omega arith) room;
      agreed =
          Agreed-of y.machine.parked y.machine.max_idle (idle y.machine) (total call_owed y.calls)
            (total call_refused y.calls) (idle y.machine) _ _ (omega arith) (omega arith) h.agreed;
      balanced = λ w p. omega (arith, h.balanced w p, moved w);
    }

    -- A call ends and hands its buffers to the program.
    pub end-IsConsistent :
        (c : Call T) (bs : List T) (xs ys : List (Call T))
        → y.calls ≡ xs ++ (c ∷ ys)
        → owed c.phase ≡ 0
        → refused c.phase ≡ 0
        → ((w : T → ℕ) → call_weight w c ≡ total w bs)
        → IsConsistent s (record y { calls = xs ++ ys; held = bs ++ y.held })
    end-IsConsistent c bs xs ys e o r handed = record {
      sharded = h.sharded;
      same_reset = h.same_reset;
      tallied = (AllTallied-middle xs ys c (subst AllTallied e h.tallied)).1;
      roomy =
          Room-le y.machine.parked y.machine.max_idle (length y.calls) _
            (omega (arith, length-middle y.calls xs ys c e)) h.roomy;
      agreed =
          Agreed-of y.machine.parked y.machine.max_idle (idle y.machine) (total call_owed y.calls)
            (total call_refused y.calls) (idle y.machine) _ _
            (omega (arith, total-middle call_owed y.calls xs ys c e))
            (omega (arith, total-middle call_refused y.calls xs ys c e)) h.agreed;
      balanced = λ w p. omega (
        arith,
        h.balanced w p,
        handed w,
        total-append w bs y.held,
        total-middle (call_weight w) y.calls xs ys c e,
      );
    }

    pub run-IsConsistent :
        (c : Call T) (xs ys : List (Call T))
        → y.calls ≡ xs ++ (c ∷ ys)
        → IsConsistent s (record y {
          machine = (tick c.thread c.phase y.machine).1;
          calls = xs ++ (record c { phase = (tick c.thread c.phase y.machine).0 } ∷ ys);
        })
    run-IsConsistent c xs ys e =
        let (t, others) = AllTallied-middle xs ys c (subst AllTallied e h.tallied) in
        let k = tick-Ticks c.thread c.phase y.machine h.sharded t in
        let d : Call T = record c { phase = (tick c.thread c.phase y.machine).0 } in
        let u = (tick c.thread c.phase y.machine).1 in
        let few = length-middle y.calls xs ys c e in
        let r = total call_owed (xs ++ ys) in
        let q = total call_refused (xs ++ ys) in
        record {
          sharded = k.sharded;
          same_reset = k.same_reset ∙ h.same_reset;
          tallied = AllTallied-insert xs ys d (k.tallied t) others;
          roomy =
              Room-le u.parked u.max_idle (length y.calls) _
                (omega (arith, few, length-middle (xs ++ (d ∷ ys)) xs ys d refl))
                (k.roomy (length y.calls) h.roomy);
          agreed =
              Agreed-of u.parked u.max_idle (idle u) (owed d.phase + r) (refused d.phase + q)
                (idle u) _ _ (omega (arith, total-middle call_owed (xs ++ (d ∷ ys)) xs ys d refl))
                (omega (arith, total-middle call_refused (xs ++ (d ∷ ys)) xs ys d refl))
                (k.agreed r q (length y.calls) t (omega (arith, total-refused (xs ++ ys), few))
                  h.roomy
                  (Agreed-of y.machine.parked y.machine.max_idle (idle y.machine)
                    (total call_owed y.calls) (total call_refused y.calls) (idle y.machine) _ _
                    (omega (arith, total-middle call_owed y.calls xs ys c e))
                    (omega (arith, total-middle call_refused y.calls xs ys c e)) h.agreed));
          balanced = λ w p. omega (
            arith,
            h.balanced w p,
            k.balanced w (rw h.same_reset p),
            total-middle (call_weight w) y.calls xs ys c e,
            total-middle (call_weight w) (xs ++ (d ∷ ys)) xs ys d refl,
          );
        }
