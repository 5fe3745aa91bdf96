-- ===== src/Osv/Decide/Unique.antt =====
-- `_unique_versions` of policy-sync/policy_sync/osv.py keeps each different version where it first stands.
use mathlib.Core.List.{append_assoc, append-nil}
use artea.Base.{
  ◌≡◌, refl, sym, ap, ◌∙◌, Bool, true, false, not, ◌&&◌, List, [], ◌∷◌, ◌++◌, map, Text, eq_text,
  text_eq_iff, ◌==◌, contains, ok, ok-injective, arith, Bool-cases, inl, inr,
}
use artea.Base.Lists.{keep, contains-append}
use artea.Osv.Json.{Json, null, boolean, number, string, array, object}
use artea.Osv.Decide.{unique_versions, unique_from, read_version}

-- The different texts, in the order in which they first stand in a list
unfoldable pub first_occurrences : List Text → List Text
unfolding keep
first_occurrences [] = []
first_occurrences (v ∷ vs) = v ∷ keep (λ u. not (u == v)) (first_occurrences vs)

-- The texts that are new after those of `out`
abbrev fresh : List Text → List Text → List Text
fresh out vs = keep (λ u. not (contains u out)) vs

keep-keep : (p q : Text → Bool) (vs : List Text) → keep p (keep q vs) ≡ keep (λ u. q u && p u) vs
unfolding keep
keep-keep p q [] = refl
keep-keep p q (v ∷ vs) = ground (arith, keep-keep p q vs)

keep-same :
    (p q : Text → Bool) → ((u : Text) → p u ≡ q u) → (vs : List Text) → keep p vs ≡ keep q vs
unfolding keep
keep-same p q h [] = refl
keep-same p q h (v ∷ vs) = ground (arith, h v, keep-same p q h vs)

keep-all : (vs : List Text) → keep (λ u. true) vs ≡ vs
unfolding keep
keep-all [] = refl
keep-all (v ∷ vs) = rw (keep-all vs) refl

-- A text that is there already adds nothing; one that is not stands next.
fresh-old :
    (out : List Text) (v : Text) (vs : List Text)
    → contains v out ≡ true
    → fresh out (first_occurrences (v ∷ vs)) ≡ fresh out (first_occurrences vs)
unfolding first_occurrences keep
fresh-old out v vs h = rw h (
    keep-keep (λ u. not (contains u out)) (λ u. not (u == v)) (first_occurrences vs)
    ∙ keep-same _ _ (λ u. ground (arith, text_eq_iff u v, h)) (first_occurrences vs))

fresh-new :
    (out : List Text) (v : Text) (vs : List Text)
    → contains v out ≡ false
    → fresh out (first_occurrences (v ∷ vs)) ≡ v ∷ fresh (out ++ v ∷ []) (first_occurrences vs)
unfolding first_occurrences keep contains
fresh-new out v vs h = rw h (
    ap (λ rest. v ∷ rest)
      (keep-keep (λ u. not (contains u out)) (λ u. not (u == v)) (first_occurrences vs)
        ∙ keep-same _ _
            (λ u. ground (arith, contains-append u out (v ∷ []), text_eq_iff u v, text_eq_iff v u))
            (first_occurrences vs)))

unique_from-fresh :
    (out : List Text) (js : List Json) {versions : List Text}
    → unique_from out js ≡ ok versions
    → (texts : List Text) × (js ≡ map string texts)
      × (versions ≡ out ++ fresh out (first_occurrences texts))
unfolding unique_from read_version
unique_from-fresh out [] h =
    ([], refl, sym (ok-injective h) ∙ unfold first_occurrences keep in sym (append-nil out))
unique_from-fresh out (string (c ∷ s) ∷ js) h = elim (Bool-cases (contains (c ∷ s) out)) [
  | inl t ↦
      let (texts, e, r) = unique_from-fresh out js (rw (unique_from, t) at h) in
      (
        (c ∷ s) ∷ texts,
        rw e refl,
        r ∙ ap (λ rest. out ++ rest) (sym (fresh-old out (c ∷ s) texts t)),
      )
  | inr t ↦
      let (texts, e, r) = unique_from-fresh (out ++ (c ∷ s) ∷ []) js (rw (unique_from, t) at h) in
      (
        (c ∷ s) ∷ texts,
        rw e refl,
        r
            ∙ append_assoc out ((c ∷ s) ∷ [])
                (fresh (out ++ (c ∷ s) ∷ []) (first_occurrences texts))
            ∙ ap (λ rest. out ++ rest) (sym (fresh-new out (c ∷ s) texts t)),
      )
]
unique_from-fresh out (string [] ∷ js) h = cc
unique_from-fresh out (null ∷ js) h = cc
unique_from-fresh out (boolean b ∷ js) h = cc
unique_from-fresh out (number n ∷ js) h = cc
unique_from-fresh out (array a ∷ js) h = cc
unique_from-fresh out (object ms ∷ js) h = cc

-- A request that is read is a list of texts, of which each different one is kept where it first stands.
pub unique_versions-first_occurrences :
    (request : List Json) {versions : List Text}
    → unique_versions request ≡ ok versions
    → (texts : List Text) × (request ≡ map string texts) × (versions ≡ first_occurrences texts)
unfolding unique_versions
unique_versions-first_occurrences request h =
    let (texts, e, r) = unique_from-fresh [] request h in
    (texts, e, r ∙ unfold contains in keep-all (first_occurrences texts))
