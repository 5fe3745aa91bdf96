-- ===== src/Base/Sort.antt =====
-- `sorted`: the stable sort by an order that the caller gives as a test.
use Prim.Native.Nat.{suc}
use mathlib.Core.Path.{◌≡◌, refl}
use mathlib.Core.Logic.{◌⊎◌, inl, inr}
use mathlib.Core.Bool.{Bool, true, false}
use mathlib.Core.List.Perm
use mathlib.Core.List.{List, [], ◌∷◌, Perm}
use native.Mathlib.Omega.{arith}
use artea.Base.Tests.{Eq, Bool-cases, if◌then◌else◌}
use artea.Base.Codes.{Text, contains, text_leb, eq_text}
use artea.Base.Lists.{IsUnique, All, length}

module _ {ℓ} {A : Type ℓ} (le : A → A → Bool) where
  -- Before the first item that is not smaller, so that equal items keep their order.
  unfoldable pub insert : A → List A → List A
  insert x [] = x ∷ []
  insert x (y ∷ ys) = if le x y then x ∷ y ∷ ys else y ∷ insert x ys

  unfoldable pub sort_by : List A → List A
  unfolding insert
  sort_by [] = []
  sort_by (x ∷ xs) = insert x (sort_by xs)

  -- Each item is at most the next.
  abbrev pub IsSorted : List A → Type 0
  IsSorted [] = Unit
  IsSorted (x ∷ []) = Unit
  IsSorted (x ∷ y ∷ ys) = (le x y ≡ true) × IsSorted (y ∷ ys)

  length-insert : (x : A) (xs : List A) → length (insert x xs) ≡ suc (length xs)
  unfolding insert
  length-insert x [] = refl
  length-insert x (y ∷ ys) = ground (arith, length-insert x ys)

  pub length-sort_by : (xs : List A) → length (sort_by xs) ≡ length xs
  unfolding sort_by
  length-sort_by [] = refl
  length-sort_by (x ∷ xs) = ground (arith, length-insert x (sort_by xs), length-sort_by xs)

  insert-perm : (x : A) (xs : List A) → Perm (insert x xs) (x ∷ xs)
  unfolding insert
  insert-perm x [] = Perm.rfl
  insert-perm x (y ∷ ys) = elim (Bool-cases (le x y)) [
    | inl h ↦ rw h Perm.rfl
    | inr h ↦ rw h (Perm.trans (Perm.cons y (insert-perm x ys)) (Perm.swap x y ys))
  ]

  pub sort_by-perm : (xs : List A) → Perm (sort_by xs) xs
  unfolding sort_by
  sort_by-perm [] = Perm.rfl
  sort_by-perm (x ∷ xs) = Perm.trans (insert-perm x (sort_by xs)) (Perm.cons x (sort_by-perm xs))

module _ {ℓ} {A : Type ℓ} (le : A → A → Bool)
    (total : (x y : A) → (le x y ≡ true) ⊎ (le y x ≡ true)) where
  insert-IsSorted : (x : A) (xs : List A) → IsSorted le xs → IsSorted le (insert le x xs)
  unfolding insert
  insert-IsSorted x [] h = tt
  insert-IsSorted x (y ∷ []) h = ground (arith, total x y)
  insert-IsSorted x (y ∷ z ∷ zs) h =
      ground (arith, total x y, total x z, insert-IsSorted x (z ∷ zs) h.1)

  pub sort_by-IsSorted : (xs : List A) → IsSorted le (sort_by le xs)
  unfolding sort_by
  sort_by-IsSorted [] = tt
  sort_by-IsSorted (x ∷ xs) = insert-IsSorted x (sort_by le xs) (sort_by-IsSorted xs)

module _ {ℓ κ} {A : Type ℓ} (le : A → A → Bool) (P : A → Type κ) where
  All-insert : (x : A) (xs : List A) → P x → All P xs → All P (insert le x xs)
  unfolding insert
  All-insert x [] p h = (p, tt)
  All-insert x (y ∷ ys) p h = elim (Bool-cases (le x y)) [
    | inl t ↦ rw t (p, h)
    | inr t ↦ rw t (h.0, All-insert x ys p h.1)
  ]

  pub All-sort_by : (xs : List A) → All P xs → All P (sort_by le xs)
  unfolding sort_by
  All-sort_by [] h = tt
  All-sort_by (x ∷ xs) h = All-insert x (sort_by le xs) h.0 (All-sort_by xs h.1)

module _ {ℓ} {A : Type ℓ} ⦃e : Eq A⦄ (le : A → A → Bool) where
  contains-insert : (z x : A) (xs : List A) → contains z (insert le x xs) ≡ contains z (x ∷ xs)
  unfolding insert contains
  contains-insert z x [] = refl
  contains-insert z x (y ∷ ys) = ground (arith, contains-insert z x ys)

  pub contains-sort_by : (z : A) (xs : List A) → contains z (sort_by le xs) ≡ contains z xs
  unfolding sort_by contains
  contains-sort_by z [] = refl
  contains-sort_by z (x ∷ xs) =
      ground (arith, contains-insert z x (sort_by le xs), contains-sort_by z xs)

  insert-IsUnique :
      (x : A) (xs : List A) → contains x xs ≡ false → IsUnique xs → IsUnique (insert le x xs)
  unfolding insert contains
  insert-IsUnique x [] h u = ground arith
  insert-IsUnique x (y ∷ ys) h u =
      ground (arith, insert-IsUnique x ys, contains-insert y x ys, e.beq_iff x y, e.beq_iff y x)

  pub sort_by-IsUnique : (xs : List A) → IsUnique xs → IsUnique (sort_by le xs)
  unfolding sort_by
  sort_by-IsUnique [] u = tt
  sort_by-IsUnique (x ∷ xs) u =
      insert-IsUnique x (sort_by le xs) (rw contains-sort_by u.0) (sort_by-IsUnique xs u.1)

-- `sorted` of strings.
abbrev pub sorted : List Text → List Text
sorted = sort_by text_leb
