-- ===== src/Local/State.antt =====
-- src/local.rs: type-erased buffers, the registries of the threads, and the state that all pools
-- of a process share.
use par_buffer_pool.Base.{ℕ, Bool, Option, List, ◌≡◌, subst, ◌==◌, if◌then◌else◌}
use par_buffer_pool.Base.Effect.{Outcome}

-- The element types of the program, and their `TypeId`s.
pub record Elements : Type 1 where
  pub TypeId : Type 0
  pub Elem : TypeId → Type 0
  pub same_type : Discrete TypeId

module _ (E : Elements) where
  open E use {TypeId, Elem, same_type}

  -- `Box<dyn Any + Send>`
  pub record Erased : Type 0 where
    pub type_id : TypeId
    pub value : Elem type_id

  pub data Downcast (t : TypeId) : Type 0 where
    fits : Elem t → Downcast t
    foreign : Erased → Downcast t

  unfoldable pub downcast_if : (t : TypeId) (e : Erased) → Dec (e.type_id ≡ t) → Downcast t
  downcast_if t e (yes q) = fits (subst Elem q e.value)
  downcast_if t e (no d) = foreign e

  unfoldable pub downcast : (t : TypeId) → Erased → Downcast t
  unfolding downcast_if
  downcast t e = downcast_if t e (same_type e.type_id t)

  -- An `Arc<AtomicBool>` is the address of its flag.
  pub record Slot : Type 0 where
    pub live : ℕ
    pub buf : Option Erased

  -- `released` keeps the buffers of which this thread's registry has run the destructors.
  pub record Registry : Type 0 where
    pub seen_epoch : ℕ
    pub slots : List Slot
    pub released : List Erased

  -- `ThreadLocalPool` with the part of its `LocalInner` that is fixed once it is built.
  pub record LocalPool : Type 0 where
    pub elem : TypeId
    pub id : ℕ
    pub live : ℕ
    pub init : ℕ → Outcome (Elem elem)
    pub reset : Option (ℕ → Elem elem → Elem elem × Outcome (Unit {0}))

  -- The part that changes: the count of the `Arc`, the statistics, and how often each closure ran.
  pub record Counters : Type 0 where
    pub strong : ℕ
    pub leases : ℕ
    pub allocations : ℕ
    pub init_runs : ℕ
    pub reset_runs : ℕ

  -- `created` lists the pools in the order of their creation.
  pub record Process : Type 0 where
    pub next_id : ℕ
    pub drop_epoch : ℕ
    pub next_flag : ℕ
    pub flags : ℕ → Bool
    pub registries : ℕ → Registry
    pub counters : ℕ → Counters
    pub created : List LocalPool

abbrev pub update {ℓ} : {A : Type ℓ} → (ℕ → A) → ℕ → A → ℕ → A
update f i v j = if i == j then v else f j
