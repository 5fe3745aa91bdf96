-- ===== src/Base/Any.antt =====
-- Tests of the items of a list, and the pieces of a list.
use Prim.Native.Nat.{ℕ, zero, suc}
use mathlib.Core.Path.{◌≡◌, refl}
use mathlib.Core.Logic.{◌⊎◌, inl, inr}
use mathlib.Core.Bool.{Bool, true, not, ◌||◌}
use mathlib.Core.List.{List, [], ◌∷◌, ◌++◌}
use native.Mathlib.Omega.{arith}
use artea.Base.Tests.{Eq, Bool-cases}
use artea.Base.Codes.{eq_text, contains}
use artea.Base.Lists.{take, drop, all, any, IsUnique, contains-append}

module _ {ℓ} {A : Type ℓ} where
  pub any-append : (p : A → Bool) (xs ys : List A) → any p (xs ++ ys) ≡ (any p xs || any p ys)
  unfolding any
  any-append p [] ys = refl
  any-append p (x ∷ xs) ys = ground (arith, any-append p xs ys)

  pub all_imp :
      (p q : A → Bool)
      → ((x : A) → p x ≡ true → q x ≡ true)
      → (xs : List A) → all p xs ≡ true
      → all q xs ≡ true
  unfolding all
  all_imp p q h [] a = refl
  all_imp p q h (x ∷ xs) a = ground (arith, h x, all_imp p q h xs)

  pub any_imp :
      (p q : A → Bool)
      → ((x : A) → p x ≡ true → q x ≡ true)
      → (xs : List A) → any p xs ≡ true
      → any q xs ≡ true
  unfolding any
  any_imp p q h [] a = a
  any_imp p q h (x ∷ xs) a = ground (arith, h x, any_imp p q h xs)

  -- An item that passes a test, with what stands before and after it
  pub any_split :
      (p : A → Bool) (xs : List A)
      → any p xs ≡ true
      → (before after : List A) × (x : A) × (p x ≡ true) × (xs ≡ before ++ x ∷ after)
  unfolding any
  any_split p [] h = cc
  any_split p (x ∷ xs) h = elim (Bool-cases (p x)) [
    | inl t ↦ ([], xs, x, t, refl)
    | inr f ↦
        let (before, after, y, t, e) = any_split p xs (ground arith) in
        (x ∷ before, after, y, t, ground (arith, e))
  ]

  pub not-all : (p : A → Bool) (xs : List A) → (all p xs ≡ true) ⊎ (any (λ x. not (p x)) xs ≡ true)
  unfolding any all
  not-all p [] = inl refl
  not-all p (x ∷ xs) = ground (arith, not-all p xs)

  pub append-take-drop : (n : ℕ) (xs : List A) → take n xs ++ drop n xs ≡ xs
  append-take-drop zero xs = refl
  append-take-drop (suc n) [] = refl
  append-take-drop (suc n) (x ∷ xs) = rw (append-take-drop n xs) refl

module _ {ℓ} {A : Type ℓ} ⦃e : Eq A⦄ where
  pub append-IsUnique : (xs ys : List A) → IsUnique (xs ++ ys) → IsUnique xs × IsUnique ys
  append-IsUnique [] ys u = (tt, u)
  append-IsUnique (x ∷ xs) ys u = ground (arith, append-IsUnique xs ys u.1, contains-append x xs ys)

  pub contains-take-drop :
      (n : ℕ) (x : A) (xs : List A)
      → contains x xs ≡ (contains x (take n xs) || contains x (drop n xs))
  contains-take-drop n x xs =
      ground (arith, append-take-drop n xs, contains-append x (take n xs) (drop n xs))

  pub any-found :
      (p : A → Bool) (x : A) (xs : List A) → contains x xs ≡ true → p x ≡ true → any p xs ≡ true
  unfolding contains any
  any-found p x [] h t = cc
  any-found p x (y ∷ xs) h t = ground (arith, any-found p x xs, e.beq_iff y x)

  found-any :
      (p : A → Bool) (xs : List A)
      → any p xs ≡ true
      → (x : A) × (contains x xs ≡ true) × (p x ≡ true)
  unfolding contains any
  found-any p [] h = cc
  found-any p (y ∷ xs) h = elim (Bool-cases (p y)) [
    | inl t ↦ (y, ground (arith, e.beq_iff y y), t)
    | inr t ↦ let (x, c, q) = found-any p xs (ground (arith, t)) in (x, ground (arith, c), q)
  ]

  pub any-same :
      (p : A → Bool) (xs ys : List A)
      → ((x : A) → contains x xs ≡ contains x ys)
      → any p xs ≡ any p ys
  any-same p xs ys h = elim (Bool-cases (any p xs)) [
    | inl t ↦
        let (x, c, q) = found-any p xs t in ground (arith, t, any-found p x ys (rw (← h x) c) q)
    | inr t ↦ elim (Bool-cases (any p ys)) [
      | inl u ↦
          let (x, c, q) = found-any p ys u in ground (arith, t, any-found p x xs (rw (h x) c) q)
      | inr u ↦ ground (arith, t, u)
    ]
  ]
