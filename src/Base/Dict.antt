-- ===== src/Base/Dict.antt =====
-- Python's `dict`: an association list in the order of insertion, with its laws in `if` form.
use Prim.Native.Nat.{◌+◌, ◌≤◌}
use mathlib.Core.Path.{◌≡◌, refl}
use mathlib.Core.Logic.{inl, inr}
use mathlib.Core.Bool.{false, not, ◌&&◌, ◌||◌}
use mathlib.Core.Option.{Option, none, some, get_or}
use mathlib.Core.List.{List, [], ◌∷◌, ◌++◌}
use native.Mathlib.Omega.{arith}
use artea.Base.Tests.{Eq, ◌==◌, Bool-cases, is_some, if◌then◌else◌}
use artea.Base.Codes.{contains}
use artea.Base.Lists.{IsUnique, length, contains-append}

abbrev pub Dict {ℓ} : Type ℓ → Type ℓ → Type ℓ
Dict K V = List (K × V)

module _ {ℓ} {K V : Type ℓ} where
  abbrev pub keys : Dict K V → List K
  keys [] = []
  keys ((k, v) ∷ d) = k ∷ keys d

  abbrev pub values : Dict K V → List V
  values [] = []
  values ((k, v) ∷ d) = v ∷ values d

module _ {ℓ} {K V : Type ℓ} ⦃e : Eq K⦄ where
  -- `d.get(k)`
  unfoldable pub get : K → Dict K V → Option V
  get k [] = none
  get k ((j, v) ∷ d) = if j == k then some v else get k d

  -- `d[k] = v`: a key that is there keeps its place.
  unfoldable pub put : K → V → Dict K V → Dict K V
  put k v [] = (k, v) ∷ []
  put k v ((j, w) ∷ d) = if j == k then (j, v) ∷ d else (j, w) ∷ put k v d

  -- `d.pop(k, None)` and `del d[k]`
  unfoldable pub remove : K → Dict K V → Dict K V
  remove k [] = []
  remove k ((j, v) ∷ d) = if j == k then d else (j, v) ∷ remove k d

  -- Every key stands once, as in any `dict`.
  abbrev pub IsDict : Dict K V → Type 0
  IsDict d = IsUnique (keys d)

  pub get-put :
      (k j : K) (v : V) (d : Dict K V) → get j (put k v d) ≡ (if k == j then some v else get j d)
  unfolding get put
  get-put k j v [] = refl
  get-put k j v ((i, w) ∷ d) =
      ground (arith, e.beq_iff k j, e.beq_iff i k, e.beq_iff i j, get-put k j v d)

  pub contains-keys : (k : K) (d : Dict K V) → contains k (keys d) ≡ is_some (get k d)
  unfolding get contains
  contains-keys k [] = refl
  contains-keys k ((j, v) ∷ d) = ground (arith, contains-keys k d)

  pub get-remove :
      (k j : K) (d : Dict K V) → IsDict d → get j (remove k d) ≡ (if k == j then none else get j d)
  unfolding get remove
  get-remove k j [] u = ground arith
  get-remove k j ((i, w) ∷ d) u =
      ground (
        arith,
        e.beq_iff k j,
        e.beq_iff i k,
        e.beq_iff i j,
        get-remove k j d u.1,
        contains-keys j d,
      )

  pub contains-put :
      (j k : K) (v : V) (d : Dict K V)
      → contains j (keys (put k v d)) ≡ (k == j || contains j (keys d))
  unfolding put contains
  contains-put j k v [] = ground arith
  contains-put j k v ((i, w) ∷ d) =
      ground (arith, contains-put j k v d, e.beq_iff i k, e.beq_iff k j, e.beq_iff i j)

  pub put-IsDict : (k : K) (v : V) (d : Dict K V) → IsDict d → IsDict (put k v d)
  unfolding put contains
  put-IsDict k v [] u = ground arith
  put-IsDict k v ((i, w) ∷ d) u =
      ground (arith, put-IsDict k v d u.1, contains-put i k v d, e.beq_iff i k, e.beq_iff k i)

  pub contains-remove :
      (j k : K) (d : Dict K V)
      → IsDict d
      → contains j (keys (remove k d)) ≡ (not (k == j) && contains j (keys d))
  unfolding remove contains
  contains-remove j k [] u = ground arith
  contains-remove j k ((i, w) ∷ d) u =
      ground (arith, contains-remove j k d u.1, e.beq_iff i k, e.beq_iff k j, e.beq_iff i j)

  pub remove-IsDict : (k : K) (d : Dict K V) → IsDict d → IsDict (remove k d)
  unfolding remove
  remove-IsDict k [] u = tt
  remove-IsDict k ((i, w) ∷ d) u = ground (arith, remove-IsDict k d u.1, contains-remove i k d u.1)

  pub length-put-le : (k : K) (v : V) (d : Dict K V) → length (put k v d) ≤ length d + 1
  unfolding put
  length-put-le k v [] = ground arith
  length-put-le k v ((i, w) ∷ d) = ground (arith, length-put-le k v d)

  -- The length of a dictionary after `del`.
  pub length-remove :
      (k : K) (d : Dict K V)
      → length (remove k d) + (if contains k (keys d) then 1 else 0) ≡ length d
  unfolding remove contains
  length-remove k [] = ground arith
  length-remove k ((i, w) ∷ d) = ground (arith, length-remove k d)

module _ {ℓ} {K V : Type ℓ} ⦃e : Eq K⦄ where
  -- The list under a key, empty if there is none.
  abbrev pub items_at : K → Dict K (List V) → List V
  items_at k d = get_or (get k d) []

  -- `d.setdefault(k, []).append(v)`
  unfoldable pub push : K → V → Dict K (List V) → Dict K (List V)
  push k v d = put k (items_at k d ++ v ∷ []) d

  pub push-IsDict : (k : K) (v : V) (d : Dict K (List V)) → IsDict d → IsDict (push k v d)
  unfolding push
  push-IsDict k v d u = put-IsDict k _ d u

  pub get-push :
      (k j : K) (v : V) (d : Dict K (List V))
      → get j (push k v d) ≡ (if k == j then some (items_at k d ++ v ∷ []) else get j d)
  unfolding push
  get-push k j v d = get-put k j _ d

  pub items_at-push_self :
      (k : K) (v : V) (d : Dict K (List V)) → items_at k (push k v d) ≡ items_at k d ++ v ∷ []
  items_at-push_self k v d = ground (arith, get-push k k v d, e.beq_iff k k)

module _ {ℓ} {A : Type ℓ} ⦃e : Eq A⦄ where
  snoc-IsUnique : (x : A) (s : List A) → contains x s ≡ false → IsUnique s → IsUnique (s ++ x ∷ [])
  unfolding contains
  snoc-IsUnique x [] h u = ground arith
  snoc-IsUnique x (y ∷ s) h u = ground (
    arith,
    snoc-IsUnique x s (ground arith) u.1,
    contains-append y s (x ∷ []),
    e.beq_iff x y,
    e.beq_iff y x,
  )

  -- `s.add(x)`: a set is a list in which no value stands twice.
  unfoldable pub add : A → List A → List A
  add x s = if contains x s then s else s ++ x ∷ []

  pub contains-add : (x y : A) (s : List A) → contains y (add x s) ≡ (x == y || contains y s)
  unfolding add contains
  contains-add x y s = ground (arith, contains-append y s (x ∷ []), e.beq_iff x y)

  pub add-IsUnique : (x : A) (s : List A) → IsUnique s → IsUnique (add x s)
  unfolding add contains
  add-IsUnique x s u = elim (Bool-cases (contains x s)) [
    | inl h ↦ rw h u
    | inr h ↦ rw h (snoc-IsUnique x s h u)
  ]
