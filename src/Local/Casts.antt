-- ===== src/Local/Casts.antt =====
-- src/local.rs: the downcasts of `get` and `park_erased`.
use par_buffer_pool.Base.{◌≡◌, refl, ap, subst, ◌∙◌}
use mathlib.Core.HLevel.{hedberg}
use mathlib.Core.Path.{subst_refl}
use par_buffer_pool.Local.State.{Elements, Erased, fits, downcast, downcast_if}

module _ (E : Elements) where
  open E use {TypeId, Elem, same_type}

  downcast_if-own :
      (t : TypeId) (e : Erased E) (d : Dec (e.type_id ≡ t))
      → e.type_id ≡ t
      → (b : Elem t) × (downcast_if E t e d ≡ fits b)
  unfolding downcast_if
  downcast_if-own t e (yes r) q = (subst Elem r e.value, refl)
  downcast_if-own t e (no d) q = absurd (d q)

  pub downcast-own :
      (t : TypeId) (e : Erased E) → e.type_id ≡ t → (b : Elem t) × (downcast E t e ≡ fits b)
  unfolding downcast
  downcast-own t e q = downcast_if-own t e (same_type e.type_id t) q

  abbrev pub erase : (t : TypeId) → Elem t → Erased E
  erase t b = record { type_id = t; value = b }

  downcast_if-erase :
      (t : TypeId) (b : Elem t) (d : Dec (t ≡ t)) → downcast_if E t (erase t b) d ≡ fits b
  unfolding downcast_if
  downcast_if-erase t b (yes r) =
      ap fits (ap (λ q. subst Elem q b) (hedberg same_type t t r refl) ∙ subst_refl Elem b)
  downcast_if-erase t b (no d) = absurd (d refl)

  -- A buffer comes back out of its box as it went in.
  pub downcast-erase : (t : TypeId) (b : Elem t) → downcast E t (erase t b) ≡ fits b
  unfolding downcast
  downcast-erase t b = downcast_if-erase t b (same_type t t)
