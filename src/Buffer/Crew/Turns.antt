-- ===== src/Buffer/Crew/Turns.antt =====
-- src/buffer.rs: what one step of a lease or of a return changes in a pool without a cap that holds
-- no reserve, whose initializer and hook return.
use par_buffer_pool.Base.{
  ℕ, ◌+◌, ◌-◌, ◌≤◌, ◌<◌, ◌%◌, Option, none, some, List, [], ◌≡◌, refl, sym, ap, ◌∙◌, arith, length,
  total, get_elem?, set, get_elem?-set_self, get_elem?-set_ne, get_elem?-some_lt, All, total-set,
  length-set, subst,
}
use mathlib.Core.Option
use native.Mathlib.Decide.{ℕ_discrete}
use par_buffer_pool.Base.Words.{usize_mod, usize_max}
use par_buffer_pool.Base.Effect.{returned}
use par_buffer_pool.Sharding.{after_tid}
use par_buffer_pool.Buffer.State.{Mutex, write_pile, Machine}
use par_buffer_pool.Buffer.Inner.{set_shards}
use par_buffer_pool.Buffer.Inner.Forms.{IsSharded, index, with_id, Own}
use par_buffer_pool.Buffer.Invariant.Inner.{IsSharded-of}
use par_buffer_pool.Buffer.Weights.{idle_weight, idle, one_each, pile_weight}
use par_buffer_pool.Buffer.Concurrent.{Phase}
use par_buffer_pool.Buffer.Concurrent.Jobs.{uncounted, allocating, carried, waits}
use par_buffer_pool.Buffer.Crew.Phases.{spare}
use par_buffer_pool.Buffer.Crew.Homes.{
  place, unassigned, place-le, place-elsewhere, place-after_tid, place-after_tid_other,
  unassigned-after_tid, ids-after_tid,
}

module _ {ℓ} {T : Type ℓ} where
  -- No cap and no reserve; every buffer that the pool gives out has `P`.
  pub record IsReady (P : T → Type ℓ) (s : Machine T) : Type ℓ where
    pub sharded : IsSharded s
    pub uncapped : s.parked ≡ none
    pub unreserved : s.reserve.value ≡ []
    pub makes : (n : ℕ) → (b : T) × (s.init n ≡ returned b) × P b
    pub stocked : (j : ℕ) (m : Mutex (List T)) → get_elem? s.shards j ≡ some m → All P m.value

  -- What a step of thread `i` from the phase `c` to `d` changes.
  pub record Turn (P : T → Type ℓ) (i : ℕ) (c : Phase T) (s : Machine T) (d : Phase T)
      (t : Machine T) : Type ℓ where
    pub ready : IsReady P t
    pub same_reset : t.reset ≡ s.reset
    pub leasing :
        (n : ℕ) → s.leases ≡ n % usize_mod → t.leases ≡ (n + uncounted c - uncounted d) % usize_mod
    pub counting :
        (n : ℕ)
        → s.allocations ≡ (n + allocating c) % usize_mod
        → t.allocations ≡ (n + (t.init_runs - s.init_runs) + allocating d) % usize_mod
    pub fewer : uncounted d ≤ uncounted c
    pub runs : s.init_runs ≤ t.init_runs
    pub conserved : idle t + carried d + s.init_runs ≡ idle s + carried c + t.init_runs
    pub made_once : t.init_runs + waits d ≤ s.init_runs + waits c
    pub homes :
        (k j n : ℕ) → place s.threads s.shard_mask k j n ≤ place t.threads t.shard_mask k j n
    pub assigned : (k : ℕ) → unassigned t.threads k ≤ unassigned s.threads k
    pub ids :
        t.threads.next_tid + unassigned t.threads i ≤ s.threads.next_tid + unassigned s.threads i
    pub housed :
        (j : ℕ) (m' : Mutex (List T))
        → get_elem? t.shards j ≡ some m'
        → (m : Mutex (List T)) × (get_elem? s.shards j ≡ some m)
          × ((n : ℕ)
              → length m.value ≤ n + place s.threads s.shard_mask i j (spare c)
              → length m'.value ≤ n + place t.threads t.shard_mask i j (spare d))

  abbrev pub counters : ℕ → ℕ → Option ℕ → ℕ → ℕ → Machine T → Machine T
  counters l a p n m s = record s {
    inner = record s.inner { leases = l; allocations = a; parked = p };
    init_runs = n;
    reset_runs = m;
  }

  -- A step that touches no pile.
  pub still-Turn :
      (P : T → Type ℓ) (i : ℕ) (c d : Phase T) (s : Machine T) (l a : ℕ) (p : Option ℕ) (n m : ℕ)
      → IsReady P s
      → p ≡ none
      → ((k : ℕ) → s.leases ≡ k % usize_mod → l ≡ (k + uncounted c - uncounted d) % usize_mod)
      → ((k : ℕ)
          → s.allocations ≡ (k + allocating c) % usize_mod
          → a ≡ (k + (n - s.init_runs) + allocating d) % usize_mod)
      → uncounted d ≤ uncounted c
      → s.init_runs ≤ n
      → carried d + s.init_runs ≡ carried c + n
      → spare d ≡ spare c
      → n + waits d ≤ s.init_runs + waits c
      → Turn P i c s d (counters l a p n m s)
  unfolding idle_weight
  still-Turn P i c d s l a p n m h uncap leases allocs few run kept same once = record {
    ready = record {
      sharded = IsSharded-of s _ refl refl h.sharded;
      uncapped = uncap;
      unreserved = h.unreserved;
      makes = h.makes;
      stocked = h.stocked;
    };
    same_reset = refl;
    leasing = leases;
    counting = allocs;
    fewer = few;
    runs = run;
    conserved = omega (arith, kept);
    made_once = omega (arith, once);
    homes = λ k j x. omega arith;
    assigned = λ k. omega arith;
    ids = omega arith;
    housed = λ j m' e. (m', e, λ x le. rw same (omega (arith, le)));
  }

  -- A step that touches no pile and counts nothing.
  pub quiet-Turn :
      (P : T → Type ℓ) (i : ℕ) (c d : Phase T) (s : Machine T) (p : Option ℕ) (m : ℕ)
      → IsReady P s
      → p ≡ none
      → uncounted d ≡ uncounted c
      → allocating d ≡ allocating c
      → carried d ≡ carried c
      → spare d ≡ spare c
      → waits d ≤ waits c
      → Turn P i c s d (counters s.leases s.allocations p s.init_runs m s)
  quiet-Turn P i c d s p m h uncap u a k v w =
      still-Turn P i c d s s.leases s.allocations p s.init_runs m h uncap (λ n e. omega arith)
        (λ n e. omega arith) (omega arith) (omega arith) (omega arith) v (omega arith)

  abbrev pub repiled : ℕ → Mutex (List T) → List T → Machine T → Machine T
  repiled i m v s = set_shards (set s.shards (index i s) (write_pile m v)) (with_id i s)

  module _ (P : T → Type ℓ) (i : ℕ) (s : Machine T) (m : Mutex (List T)) (v : List T)
      (own : Own i s m) where
    own_pile :
        (j : ℕ) (m' : Mutex (List T))
        → index i s ≡ j
        → get_elem? (repiled i m v s).shards j ≡ some m'
        → m' ≡ write_pile m v
    own_pile j m' same e =
        let there =
          get_elem?-set_self s.shards (index i s) (write_pile m v)
            (get_elem?-some_lt s.shards (index i s) m own) in
        let here = subst (λ x. get_elem? (repiled i m v s).shards x ≡ some m') (sym same) e in
        sym (Option.some-injective (write_pile m v) m' (sym there ∙ here))

    -- A step that searches or fills the pile of the thread.
    pub repiled-Turn :
        (c d : Phase T)
        → IsReady P s
        → s.threads.next_tid < usize_max
        → All P v
        → uncounted c ≡ 0
        → uncounted d ≡ 0
        → allocating c ≡ 0
        → allocating d ≡ 0
        → total one_each v + carried d ≡ total one_each m.value + carried c
        → ((n : ℕ) → length m.value ≤ n + spare c → length v ≤ n + spare d)
        → waits d ≤ waits c
        → Turn P i c s d (repiled i m v s)
    unfolding idle_weight
    repiled-Turn c d h room fine uc ud ac ad kept spared once = record {
      ready = record {
        sharded =
            IsSharded-of s _ (length-set s.shards (index i s) (write_pile m v)) refl h.sharded;
        uncapped = h.uncapped;
        unreserved = h.unreserved;
        makes = h.makes;
        stocked = λ j m' e. elim (ℕ_discrete (index i s) j) [
          | yes same ↦ subst (λ q. All P q.value) (sym (own_pile j m' same e)) fine
          | no other ↦
              h.stocked j m'
                (sym (get_elem?-set_ne s.shards (index i s) j (write_pile m v) other) ∙ e)
        ];
      };
      same_reset = refl;
      leasing = λ k e. omega arith;
      counting = λ k e. omega arith;
      fewer = omega arith;
      runs = omega arith;
      conserved = omega (
        arith,
        kept,
        total-set (pile_weight one_each) s.shards (index i s) m (write_pile m v) own,
      );
      made_once = omega (arith, once);
      homes = λ k j n. place-after_tid_other s.threads i room s.shard_mask k j n;
      assigned = λ k. unassigned-after_tid s.threads i room k;
      ids = ids-after_tid s.threads i room;
      housed = λ j m' e. elim (ℕ_discrete (index i s) j) [
        | yes same ↦ (
          m,
          subst (λ x. get_elem? s.shards x ≡ some m) same own,
          λ n le. omega (
            arith,
            spared n (omega (arith, place-le s.threads s.shard_mask i j (spare c))),
            ap (λ q. length q.value) (own_pile j m' same e),
            subst (λ x. place (after_tid s.threads i) s.shard_mask i x (spare d) ≡ spare d) same
                (place-after_tid s.threads i room s.shard_mask (spare d)),
          ),
        )
        | no other ↦ (
          m',
          sym (get_elem?-set_ne s.shards (index i s) j (write_pile m v) other) ∙ e,
          λ n le. omega (arith, place-elsewhere s.threads s.shard_mask i j (spare c) other),
        )
      ];
    }
