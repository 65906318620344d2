-- ===== src/Buffer/Bags.antt =====
-- Finite lists of buffers up to order.
use native.Mathlib.Nat.{ℕ_set}
use mathlib.Core.Quot
use mathlib.Core.Logic.{∥∥₁_elim}
use mathlib.Core.Quot.{Quot, Quot-set}
use mathlib.Core.List.{Perm, Permᴰ}
use mathlib.Core.List.Perm
use par_buffer_pool.Base.{ℕ, List, ◌∷◌, ◌≡◌, refl, ap, length, ◌∙◌, suc}

abbrev pub Bag {ℓ} : Type ℓ → Type ℓ
Bag T = Quot {α = List T} Perm

module _ {ℓ} {T : Type ℓ} where
  length-Permᴰ : {xs ys : List T} → Permᴰ xs ys → length xs ≡ length ys
  length-Permᴰ Permᴰ.nil = refl
  length-Permᴰ (Permᴰ.cons e d) = ap suc (length-Permᴰ d)
  length-Permᴰ (Permᴰ.swap e f) = refl
  length-Permᴰ (Permᴰ.trans d e) = length-Permᴰ d ∙ length-Permᴰ e

  pub length-Perm : (xs ys : List T) → Perm xs ys → length xs ≡ length ys
  length-Perm xs ys p = ∥∥₁_elim p (ℕ_set _ _) length-Permᴰ

  abbrev pub of_list : List T → Bag T
  of_list = Quot.mk

  unfoldable pub add : T → Bag T → Bag T
  add b = Quot.lift Quot-set (λ xs. of_list (b ∷ xs)) (λ xs ys p. Quot.sound (Perm.cons b p))

  unfoldable pub size : Bag T → ℕ
  size = Quot.lift ℕ_set length length-Perm

  pub exact : {xs ys : List T} → Perm xs ys → of_list xs ≡ of_list ys
  exact p = Quot.sound p
