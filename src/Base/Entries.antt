-- ===== src/Base/Entries.antt =====
-- The entries and the values of a dictionary.
use mathlib.Core.Path.{◌≡◌}
use mathlib.Core.Logic.{inl, inr}
use mathlib.Core.Bool.{true, ◌||◌}
use mathlib.Core.Option.{none, some}
use mathlib.Core.List.{List, [], ◌∷◌}
use native.Mathlib.Omega.{arith}
use artea.Base.Tests.{Eq, ◌==◌, Bool-cases}
use artea.Base.Codes.{Text, eq_text, contains}
use artea.Base.Lists.{All, All-append}
use artea.Base.Dict.{Dict, get, put, values, add}

module _ {ℓ} {K V : Type ℓ} ⦃d : Eq K⦄ ⦃e : Eq V⦄ where
  pub get-values : (k : K) (v : V) (m : Dict K V) → get k m ≡ some v → contains v (values m) ≡ true
  unfolding get contains
  get-values k v [] h = cc
  get-values k v ((j, w) ∷ m) h = ground (arith, get-values k v m, e.beq_iff w v)

  pub put-values :
      (k : K) (v u : V) (m : Dict K V)
      → get k m ≡ none
      → contains u (values (put k v m)) ≡ (contains u (values m) || v == u)
  unfolding get put contains
  put-values k v u [] h = ground arith
  put-values k v u ((j, w) ∷ m) h = ground (arith, put-values k v u m)

pub add-All : (P : Text → Type 0) (x : Text) (s : List Text) → P x → All P s → All P (add x s)
unfolding add
add-All P x s p h = elim (Bool-cases (contains x s)) [
  | inl t ↦ rw (add, t) h
  | inr t ↦ rw (add, t) (All-append P s (x ∷ []) h (p, tt))
]

module _ {V : Type 0} (P : Text × V → Type 0) where
  pub get-All : (k : Text) (v : V) (d : Dict Text V) → get k d ≡ some v → All P d → P (k, v)
  unfolding get
  get-All k v [] h a = cc
  get-All k v ((j, w) ∷ d) h a = elim (Bool-cases (j == k)) [
    | inl t ↦
        let e : j ≡ k = (eq_text.beq_iff j k).0 t in
        let u : w ≡ v = ground (arith, t, h) in rw (← e, ← u) a.0
    | inr t ↦ get-All k v d (ground (arith, t, h)) a.1
  ]

  pub put-All : (k : Text) (v : V) (d : Dict Text V) → P (k, v) → All P d → All P (put k v d)
  unfolding put
  put-All k v [] p a = (p, tt)
  put-All k v ((j, w) ∷ d) p a = elim (Bool-cases (j == k)) [
    | inl t ↦ let e : j ≡ k = (eq_text.beq_iff j k).0 t in rw (put, t) (rw e p, a.1)
    | inr t ↦ rw (put, t) (a.0, put-All k v d p a.1)
  ]
