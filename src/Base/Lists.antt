-- ===== src/Base/Lists.antt =====
-- Lists measured, indexed and weighed by native numbers, and the two ends of a `Vec`.
use Prim.Native.Nat.{ℕ, zero, suc, ◌+◌, ◌≤◌, ◌<◌}
use mathlib.Core.Path.{◌≡◌, refl, sym, ap}
use mathlib.Core.Logic.{◌≢◌}
use mathlib.Core.List.{List, [], ◌∷◌, ◌++◌}
use mathlib.Core.Option
use mathlib.Core.Option.{Option, none, some}
use native.Mathlib.Omega.{arith}

module _ {ℓ} {A : Type ℓ} where
  abbrev pub length : List A → ℕ
  length [] = 0
  length (x ∷ xs) = suc (length xs)

  abbrev pub get_elem? : List A → ℕ → Option A
  get_elem? [] i = none
  get_elem? (x ∷ xs) zero = some x
  get_elem? (x ∷ xs) (suc i) = get_elem? xs i

  abbrev pub set : List A → ℕ → A → List A
  set [] i v = []
  set (x ∷ xs) zero v = v ∷ xs
  set (x ∷ xs) (suc i) v = x ∷ set xs i v

  abbrev pub replicate : ℕ → A → List A
  replicate zero a = []
  replicate (suc n) a = a ∷ replicate n a

  -- The sum of a weight over a list.
  abbrev pub total : (A → ℕ) → List A → ℕ
  total w [] = 0
  total w (x ∷ xs) = w x + total w xs

module _ {ℓ} {A : Type ℓ} where
  pub length-append : (xs ys : List A) → length (xs ++ ys) ≡ length xs + length ys
  length-append [] ys = omega arith
  length-append (x ∷ xs) ys = omega (arith, length-append xs ys)

  pub length-set : (xs : List A) (i : ℕ) (v : A) → length (set xs i v) ≡ length xs
  length-set [] i v = refl
  length-set (x ∷ xs) zero v = refl
  length-set (x ∷ xs) (suc i) v = ap suc (length-set xs i v)

  pub length-replicate : (n : ℕ) (a : A) → length (replicate n a) ≡ n
  length-replicate zero a = refl
  length-replicate (suc n) a = ap suc (length-replicate n a)

  pub get_elem?-set_self :
      (xs : List A) (i : ℕ) (v : A) → i < length xs → get_elem? (set xs i v) i ≡ some v
  get_elem?-set_self [] i v h = elim h [ ]
  get_elem?-set_self (x ∷ xs) zero v h = refl
  get_elem?-set_self (x ∷ xs) (suc i) v h = get_elem?-set_self xs i v (omega arith)

  pub get_elem?-set_ne :
      (xs : List A) (i j : ℕ) (v : A) → i ≢ j → get_elem? (set xs i v) j ≡ get_elem? xs j
  get_elem?-set_ne [] i j v h = refl
  get_elem?-set_ne (x ∷ xs) zero zero v h = absurd (h refl)
  get_elem?-set_ne (x ∷ xs) zero (suc j) v h = refl
  get_elem?-set_ne (x ∷ xs) (suc i) zero v h = refl
  get_elem?-set_ne (x ∷ xs) (suc i) (suc j) v h = get_elem?-set_ne xs i j v (λ e. h (ap suc e))

  pub get_elem?-lt : (xs : List A) (i : ℕ) → i < length xs → (a : A) × (get_elem? xs i ≡ some a)
  get_elem?-lt [] i h = elim h [ ]
  get_elem?-lt (x ∷ xs) zero h = (x, refl)
  get_elem?-lt (x ∷ xs) (suc i) h = get_elem?-lt xs i (omega arith)

  pub total-append : (w : A → ℕ) (xs ys : List A) → total w (xs ++ ys) ≡ total w xs + total w ys
  total-append w [] ys = omega arith
  total-append w (x ∷ xs) ys = omega (arith, total-append w xs ys)

  pub total-set :
      (w : A → ℕ) (xs : List A) (i : ℕ) (a b : A)
      → get_elem? xs i ≡ some a
      → total w (set xs i b) + w a ≡ total w xs + w b
  total-set w [] i a b h = ground arith
  total-set w (x ∷ xs) zero a b h = ground arith
  total-set w (x ∷ xs) (suc i) a b h = omega (arith, total-set w xs i a b h)

  pub total-replicate : (w : A → ℕ) (n : ℕ) (a : A) → w a ≡ 0 → total w (replicate n a) ≡ 0
  total-replicate w zero a h = refl
  total-replicate w (suc n) a h = omega (arith, total-replicate w n a h)

-- `Vec::push` and `Vec::pop`: the last element is the top.
module _ {ℓ} {A : Type ℓ} where
  abbrev pub push : List A → A → List A
  push xs a = xs ++ (a ∷ [])

  abbrev pub pop : List A → Option A × List A
  pop [] = (none, [])
  pop (x ∷ []) = (some x, [])
  pop (x ∷ y ∷ ys) = ((pop (y ∷ ys)).0, x ∷ (pop (y ∷ ys)).1)

  pub pop-push : (xs : List A) (a : A) → pop (push xs a) ≡ (some a, xs)
  pop-push [] a = refl
  pop-push (x ∷ []) a = refl
  pop-push (x ∷ y ∷ ys) a = λ i. ((pop-push (y ∷ ys) a i).0, x ∷ (pop-push (y ∷ ys) a i).1)

  -- What `pop` leaves and what it takes make up the list.
  abbrev pub Popped : List A → Option A → List A → Type ℓ
  Popped xs none rest = (xs ≡ []) × (rest ≡ [])
  Popped xs (some a) rest = xs ≡ rest ++ (a ∷ [])

  pub pop-Popped : (xs : List A) → Popped xs (pop xs).0 (pop xs).1
  pop-Popped [] = (refl, refl)
  pop-Popped (x ∷ []) = refl
  pop-Popped (x ∷ y ∷ ys) = extend (pop (y ∷ ys)).0 (pop (y ∷ ys)).1 (pop-Popped (y ∷ ys))
    where
      extend :
          (o : Option A) (rest : List A) → Popped (y ∷ ys) o rest → Popped (x ∷ y ∷ ys) o (x ∷ rest)
      extend none rest h = absurd (ground arith)
      extend (some a) rest h = ap (◌∷◌ x) h

module _ {ℓ} {A : Type ℓ} where
  -- Writing the old entry back undoes a write.
  pub set-restore :
      (xs : List A) (i : ℕ) (a b : A) → get_elem? xs i ≡ some a → set (set xs i b) i a ≡ xs
  set-restore [] i a b h = refl
  set-restore (x ∷ xs) zero a b h = ap (λ o. first o ∷ xs) (sym h)
    where
      first : Option A → A
      first none = x
      first (some y) = y
  set-restore (x ∷ xs) (suc i) a b h = ap (◌∷◌ x) (set-restore xs i a b h)

module _ {ℓ} {A : Type ℓ} where
  -- What stands in a list stands there when more is appended.
  pub get_elem?-append :
      (xs ys : List A) (i : ℕ) (a : A) → get_elem? xs i ≡ some a → get_elem? (xs ++ ys) i ≡ some a
  get_elem?-append [] ys i a e = cc
  get_elem?-append (x ∷ xs) ys zero a e = e
  get_elem?-append (x ∷ xs) ys (suc i) a e = get_elem?-append xs ys i a e

  pub get_elem?-append_last :
      (xs : List A) (a : A) → get_elem? (xs ++ (a ∷ [])) (length xs) ≡ some a
  get_elem?-append_last [] a = refl
  get_elem?-append_last (x ∷ xs) a = get_elem?-append_last xs a

  -- The place after `xs`.
  pub get_elem?-at : (xs ys : List A) (a : A) → get_elem? (xs ++ (a ∷ ys)) (length xs) ≡ some a
  get_elem?-at [] ys a = refl
  get_elem?-at (x ∷ xs) ys a = get_elem?-at xs ys a

  pub set-at : (xs ys : List A) (a b : A) → set (xs ++ (a ∷ ys)) (length xs) b ≡ xs ++ (b ∷ ys)
  set-at [] ys a b = refl
  set-at (x ∷ xs) ys a b = ap (◌∷◌ x) (set-at xs ys a b)

  pub length-snoc : (xs : List A) (a : A) → length (xs ++ (a ∷ [])) ≡ length xs + 1
  length-snoc xs a = omega (arith, length-append xs (a ∷ []))

  pub get_elem?-end : (xs : List A) → get_elem? xs (length xs) ≡ none
  get_elem?-end [] = refl
  get_elem?-end (x ∷ xs) = get_elem?-end xs

  pub set_self : (xs : List A) (i : ℕ) (a : A) → get_elem? xs i ≡ some a → set xs i a ≡ xs
  set_self [] i a e = refl
  set_self (x ∷ xs) zero a e = ap (λ y. y ∷ xs) (sym (Option.some-injective x a e))
  set_self (x ∷ xs) (suc i) a e = ap (◌∷◌ x) (set_self xs i a e)

  pub get_elem?-some_lt : (xs : List A) (i : ℕ) (a : A) → get_elem? xs i ≡ some a → i < length xs
  get_elem?-some_lt [] i a e = cc
  get_elem?-some_lt (x ∷ xs) zero a e = omega arith
  get_elem?-some_lt (x ∷ xs) (suc i) a e = omega (arith, get_elem?-some_lt xs i a e)

-- A predicate on every element, and the weights of a list of which one element changes.
abbrev pub All {ℓ κ} : {A : Type ℓ} → (A → Type κ) → List A → Type κ
All P [] = Unit {_}
All P (x ∷ xs) = P x × All P xs

module _ {ℓ κ} {A : Type ℓ} (P : A → Type κ) (a b : A) where
  pub All-middle : (xs ys : List A) → All P (xs ++ (a ∷ ys)) → P a
  All-middle [] ys h = h.0
  All-middle (x ∷ xs) ys h = All-middle xs ys h.1

  pub All-replaced : (xs ys : List A) → All P (xs ++ (a ∷ ys)) → P b → All P (xs ++ (b ∷ ys))
  All-replaced [] ys h p = (p, h.1)
  All-replaced (x ∷ xs) ys h p = (h.0, All-replaced xs ys h.1 p)

module _ {ℓ κ} {A : Type ℓ} (P : A → Type κ) where
  pub All-any : (xs : List A) → ((a : A) → P a) → All P xs
  All-any [] h = tt
  All-any (x ∷ xs) h = (h x, All-any xs h)

  pub All-append : (xs ys : List A) → All P xs → All P ys → All P (xs ++ ys)
  All-append [] ys h k = k
  All-append (x ∷ xs) ys h k = (h.0, All-append xs ys h.1 k)

  pub All-removed : (xs ys : List A) (a : A) → All P (xs ++ (a ∷ ys)) → All P (xs ++ ys)
  All-removed [] ys a h = h.1
  All-removed (x ∷ xs) ys a h = (h.0, All-removed xs ys a h.1)

module _ {ℓ} {A : Type ℓ} where
  pub total-le : (f g : A → ℕ) (xs : List A) → ((a : A) → f a ≤ g a) → total f xs ≤ total g xs
  total-le f g [] h = omega arith
  total-le f g (x ∷ xs) h = omega (arith, h x, total-le f g xs h)

  pub total-sum : (f g : A → ℕ) (xs : List A) → total (λ a. f a + g a) xs ≡ total f xs + total g xs
  total-sum f g [] = omega arith
  total-sum f g (x ∷ xs) = omega (arith, total-sum f g xs)

  -- One element in the place of another.
  pub total-replaced :
      (w : A → ℕ) (all xs ys : List A) (a b : A)
      → all ≡ xs ++ (a ∷ ys)
      → total w (xs ++ (b ∷ ys)) + w a ≡ total w all + w b
  total-replaced w all xs ys a b e =
      omega (arith, ap (total w) e, total-append w xs (a ∷ ys), total-append w xs (b ∷ ys))

  -- The same where the weight grows as well.
  pub total-le_replaced :
      (f g : A → ℕ) (all xs ys : List A) (a b : A)
      → all ≡ xs ++ (a ∷ ys)
      → ((x : A) → f x ≤ g x)
      → total f all + g b ≤ total g (xs ++ (b ∷ ys)) + f a
  total-le_replaced f g all xs ys a b e h = omega (
    arith,
    ap (total f) e,
    total-append f xs (a ∷ ys),
    total-append g xs (b ∷ ys),
    total-le f g xs h,
    total-le f g ys h,
  )

  pub get_elem?-replicate : (n i : ℕ) (a b : A) → get_elem? (replicate n a) i ≡ some b → b ≡ a
  get_elem?-replicate zero i a b e = cc
  get_elem?-replicate (suc n) zero a b e = sym (Option.some-injective a b e)
  get_elem?-replicate (suc n) (suc i) a b e = get_elem?-replicate n i a b e

-- What two facts about each element give of it.
pub All-both {ℓ κ μ ν} :
    {A : Type ℓ} (P : A → Type κ) (Q : A → Type μ) (R : A → Type ν) (xs : List A)
    → ((a : A) → P a → Q a → R a)
    → All P xs
    → All Q xs
    → All R xs
All-both P Q R [] f h k = tt
All-both P Q R (x ∷ xs) f h k = (f x h.0 k.0, All-both P Q R xs f h.1 k.1)
