-- ===== src/Compiler/Pypi/Lines.antt =====
-- The lines that a loop over sorted names emits, read as a dictionary.
use artea.Base.{
  ◌≡◌, refl, ◌∙◌, true, false, ◌||◌, Option, none, some, List, [], ◌∷◌, ◌++◌, Text, eq_text,
  text_eq_iff, ◌==◌, contains, Result, ok, >>=-eq-ok, ok-injective, if◌then◌else◌, arith, traverse,
  Eq,
}
use mathlib.Core.Path.{subst}
use artea.Base.Dict.{Dict, get, keys}
use artea.Base.Lists.{IsUnique, contains-append}
use artea.Policy.{PolicyError}
use artea.Compiler.Pypi.{Line}

module _ (f : Text → Result PolicyError Line) (spec : Text → Text)
    (line_of : (name : Text) (line : Line) → f name ≡ ok line → line ≡ (name, spec name)) where
  pub get-traverse :
      (names : List Text) {lines : List Line} (n : Text)
      → traverse f names ≡ ok lines
      → get n lines ≡ (if contains n names then some (spec n) else none)
  unfolding traverse get contains
  get-traverse [] n h = subst (λ (x : List Line). get n x ≡ none) (ok-injective h) refl
  get-traverse (name ∷ names) n h =
      let (line, one, h) = >>=-eq-ok (f name) _ h in
      let (rest, later, h) = >>=-eq-ok (traverse f names) _ h in
      subst
        (λ (x : List Line).
          get n x ≡ (if name == n || contains n names then some (spec n) else none))
        (ok-injective h)
        (rw (line_of name line one)
          (ground (arith, get-traverse names n later, text_eq_iff name n)))

  pub keys-traverse :
      (names : List Text) {lines : List Line} → traverse f names ≡ ok lines → keys lines ≡ names
  unfolding traverse
  keys-traverse [] h = subst (λ (x : List Line). keys x ≡ []) (ok-injective h) refl
  keys-traverse (name ∷ names) h =
      let (line, one, h) = >>=-eq-ok (f name) _ h in
      let (rest, later, h) = >>=-eq-ok (traverse f names) _ h in
      subst (λ (x : List Line). keys x ≡ name ∷ names) (ok-injective h)
        (rw (line_of name line one, keys-traverse names later) refl)

-- The entry of the first of two dictionaries that has one.
abbrev pub or_else {ℓ} : {A : Type ℓ} → Option A → Option A → Option A
or_else (some a) o = some a
or_else none o = o

module _ {ℓ} {K V : Type ℓ} ⦃e : Eq K⦄ where
  pub get-append : (k : K) (c d : Dict K V) → get k (c ++ d) ≡ or_else (get k c) (get k d)
  unfolding get
  get-append k [] d = refl
  get-append k ((j, v) ∷ c) d = ground (arith, get-append k c d)

  pub keys-append : (c d : Dict K V) → keys (c ++ d) ≡ keys c ++ keys d
  keys-append [] d = refl
  keys-append ((k, v) ∷ c) d = rw (keys-append c d) refl

module _ {ℓ} {A : Type ℓ} ⦃e : Eq A⦄ where
  pub append-IsUnique :
      (xs ys : List A)
      → IsUnique xs
      → IsUnique ys
      → ((x : A) → contains x xs ≡ true → contains x ys ≡ false)
      → IsUnique (xs ++ ys)
  unfolding contains
  append-IsUnique [] ys u w apart = w
  append-IsUnique (x ∷ xs) ys u w apart = (
    contains-append x xs ys ∙ ground (arith, u.0, apart x, e.beq_iff x x),
    append-IsUnique xs ys u.1 w (λ z m. apart z (ground arith)),
  )

  -- A value of both lists stands twice.
  pub append-IsUnique_imp :
      (xs ys : List A) (x : A) → IsUnique (xs ++ ys) → contains x xs ≡ true → contains x ys ≡ false
  unfolding contains
  append-IsUnique_imp [] ys x u m = cc
  append-IsUnique_imp (z ∷ xs) ys x u m =
      ground (arith, append-IsUnique_imp xs ys x u.1, contains-append z xs ys, e.beq_iff z x, u.0)
