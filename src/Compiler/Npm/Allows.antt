-- ===== src/Compiler/Npm/Allows.antt =====
-- What `_resolve_npm` makes of the denies and the allows, for each package.
use artea.Base.{
  ◌≡◌, refl, ◌∙◌, Bool, true, false, Option, none, some, List, [], ◌∷◌, ◌++◌, map, Text, eq_text,
  text_eq_iff, ◌==◌, contains, ok, >>=-eq-ok, is_some, if◌then◌else◌, arith, Bool-cases, inl, inr,
  ok-injective, raise_if-eq-ok,
}
use mathlib.Core.Path.{subst}
use mathlib.Core.List.{append-nil, append_assoc}
use artea.Base.Dict.{
  Dict, IsDict, get, push, keys, items_at, items_at-push_self, get-push, get-remove, remove-IsDict,
  contains-keys,
}
use artea.Base.Sort.{sorted}
use artea.Policy.{allow_in_scope, range_carving, npm}
use artea.Adapters.{Adapter}
use artea.Compiler.{Ranges, Denies, reject_range_carving, drop_denies}
use artea.Compiler.Npm.{
  allow_whole, allow_wholes, point_complement, carve, carve_all, carve_package, allow_exact,
  allow_exacts,
}

-- Both dictionaries have each key once.
abbrev pub IsDenies : Denies → Type 0
IsDenies d = IsDict d.whole × IsDict d.ranges

pub drop_denies-IsDenies : (name : Text) (d : Denies) → IsDenies d → IsDenies (drop_denies name d)
unfolding drop_denies
drop_denies-IsDenies name d u = (remove-IsDict name d.whole u.0, remove-IsDict name d.ranges u.1)

-- What an entry is after the whole-package allows.
abbrev pub unless {ℓ} : {A : Type ℓ} → Bool → Option A → Option A
unless b o = if b then none else o

pub allow_whole-eq :
    (scopes : List Text) (name : Text) (d : Denies) {d' : Denies}
    → allow_whole scopes name d ≡ ok d'
    → drop_denies name d ≡ d'
unfolding allow_whole
allow_whole-eq scopes name d h =
    ok-injective (raise_if-eq-ok _ allow_in_scope (ok (drop_denies name d)) h).1

pub allow_wholes-IsDenies :
    (scopes names : List Text) (d : Denies) {d' : Denies}
    → allow_wholes scopes names d ≡ ok d'
    → IsDenies d
    → IsDenies d'
unfolding allow_wholes
allow_wholes-IsDenies scopes [] d {d'} h u = subst IsDenies (let e : d ≡ d' = cc in e) u
allow_wholes-IsDenies scopes (name ∷ names) d h u =
    let (d1, one, h) = >>=-eq-ok (allow_whole scopes name d) _ h in
    allow_wholes-IsDenies scopes names d1 h
      (subst IsDenies (allow_whole-eq scopes name d one) (drop_denies-IsDenies name d u))

-- A package that is allowed as a whole has no entry left, and every other has the one it had.
pub get-allow_wholes :
    (scopes names : List Text) (d : Denies) {d' : Denies}
    → allow_wholes scopes names d ≡ ok d'
    → IsDenies d
    → (n : Text)
    → (get n d'.whole ≡ unless (contains n names) (get n d.whole))
      × (get n d'.ranges ≡ unless (contains n names) (get n d.ranges))
unfolding allow_wholes contains
get-allow_wholes scopes [] d {d'} h u n = let e : d' ≡ d = cc in rw e (refl, refl)
get-allow_wholes scopes (name ∷ names) d {d'} h u n =
    let (d1, one, h) = >>=-eq-ok (allow_whole scopes name d) _ h in
    let e = allow_whole-eq scopes name d one in
    let u1 = subst IsDenies e (drop_denies-IsDenies name d u) in
    let (w, r) = get-allow_wholes scopes names d1 h u1 n in
    let w1 : get n d1.whole ≡ unless (name == n) (get n d.whole) =
      subst (λ (x : Denies). get n x.whole ≡ unless (name == n) (get n d.whole)) e
        (unfold drop_denies in get-remove name n d.whole u.0) in
    let r1 : get n d1.ranges ≡ unless (name == n) (get n d.ranges) =
      subst (λ (x : Denies). get n x.ranges ≡ unless (name == n) (get n d.ranges)) e
        (unfold drop_denies in get-remove name n d.ranges u.1) in
    (ground arith, ground arith)

-- The entries that the carve-outs of a package add.
unfoldable pub point_entries : Option Text → List Text → List (Text × Option Text)
point_entries reason = map (λ v. (point_complement v, reason))

-- What the exact-version allows of a package leave of its whole-package deny, and make of its
-- ranges.
abbrev pub carved_whole : Option (List Text) → Option (Option Text) → Option (Option Text)
carved_whole none w = w
carved_whole (some vs) w = none

abbrev pub carved_ranges :
    Option (List Text)
    → Option (Option Text)
    → List (Text × Option Text)
    → List (Text × Option Text)
carved_ranges none w old = old
carved_ranges (some vs) none old = old
carved_ranges (some vs) (some reason) old = old ++ point_entries reason (sorted vs)

absent_of_unique :
    (name : Text) (rest : Dict Text (List Text))
    → contains name (keys rest) ≡ false
    → get name rest ≡ none
absent_of_unique name rest h = ground (arith, contains-keys name rest)

abbrev pub Carved : Dict Text (List Text) → Denies → Denies → Text → Type 0
Carved allows d d' n =
    (get n d'.whole ≡ carved_whole (get n allows) (get n d.whole))
    × (items_at n d'.ranges ≡ carved_ranges (get n allows) (get n d.whole) (items_at n d.ranges))
    × (is_some (get n allows) ≡ true → is_some (get n d.ranges) ≡ false)

Carved-cons_ne :
    (name : Text) (vs : List Text) (rest : Dict Text (List Text)) (d d1 d' : Denies) (n : Text)
    → (name == n) ≡ false
    → get n d1.whole ≡ get n d.whole
    → get n d1.ranges ≡ get n d.ranges
    → Carved rest d1 d' n
    → Carved ((name, vs) ∷ rest) d d' n
unfolding get
Carved-cons_ne name vs rest d d1 d' n ne w r c = rw (ne, ← w, ← r) c

Carved-cons_self :
    (name : Text) (vs : List Text) (rest : Dict Text (List Text)) (d d1 d' : Denies)
    → get name rest ≡ none
    → is_some (get name d.ranges) ≡ false
    → get name d1.whole ≡ none
    → items_at name d1.ranges ≡ carved_ranges (some vs) (get name d.whole) (items_at name d.ranges)
    → Carved rest d1 d' name
    → Carved ((name, vs) ∷ rest) d d' name
unfolding get
Carved-cons_self name vs rest d d1 d' absent clear w r c =
    let (cw, cr, _) = rw absent at c in
    rw ((text_eq_iff name name).1 refl) (cw ∙ w, cr ∙ r, λ _. clear)

module _ (adapter : Adapter) where
  carve-eq :
      (name : Text) (reason : Option Text) (v : Text) (ranges : Ranges) {r : Ranges}
      → carve adapter name reason v ranges ≡ ok r
      → push name (point_complement v, reason) ranges ≡ r
  unfolding carve
  carve-eq name reason v ranges h = ground arith

  carve_all-items_at :
      (name : Text) (reason : Option Text) (vs : List Text) (ranges : Ranges) {r : Ranges}
      → carve_all adapter name reason vs ranges ≡ ok r
      → items_at name r ≡ items_at name ranges ++ point_entries reason vs
  unfolding carve_all point_entries
  carve_all-items_at name reason [] ranges {r} h = let e : r ≡ ranges = cc in rw (e, append-nil)
  carve_all-items_at name reason (v ∷ vs) ranges {r} h =
      let (r1, one, h) = >>=-eq-ok (carve adapter name reason v ranges) _ h in
      carve_all-items_at name reason vs r1 h
      ∙ rw
          (
            ← carve-eq name reason v ranges one,
            items_at-push_self name (point_complement v, reason) ranges,
          )
          (append_assoc (items_at name ranges) _ _)

  carve_all-get_ne :
      (name : Text) (reason : Option Text) (vs : List Text) (ranges : Ranges) {r : Ranges}
      (n : Text)
      → carve_all adapter name reason vs ranges ≡ ok r
      → (name == n) ≡ false
      → get n r ≡ get n ranges
  unfolding carve_all
  carve_all-get_ne name reason [] ranges {r} n h ne = let e : r ≡ ranges = cc in rw e
  carve_all-get_ne name reason (v ∷ vs) ranges {r} n h ne =
      let (r1, one, h) = >>=-eq-ok (carve adapter name reason v ranges) _ h in
      carve_all-get_ne name reason vs r1 n h ne
      ∙ rw (← carve-eq name reason v ranges one, get-push, ne)

  carve_package_self :
      (name : Text) (vs : List Text) (w : Option (Option Text)) (d : Denies) {d' : Denies}
      → get name d.whole ≡ w
      → IsDict d.whole
      → carve_package adapter name vs w d ≡ ok d'
      → (get name d'.whole ≡ none)
        × (items_at name d'.ranges ≡ carved_ranges (some vs) w (items_at name d.ranges))
  unfolding carve_package
  carve_package_self name vs none d {d'} e u h = let same : d' ≡ d = cc in rw same (e, refl)
  carve_package_self name vs (some reason) d {d'} e u h =
      let (r, all_ok, h) = >>=-eq-ok (carve_all adapter name reason (sorted vs) d.ranges) _ h in
      let same = ok-injective h in
      (
        subst (λ (x : Denies). get name x.whole ≡ none) same
            (get-remove name name d.whole u ∙ ground (arith, text_eq_iff name name)),
        subst
            (λ (x : Denies).
              items_at name x.ranges ≡ items_at name d.ranges ++ point_entries reason (sorted vs))
            same (carve_all-items_at name reason (sorted vs) d.ranges all_ok),
      )

  carve_package_ne :
      (name : Text) (vs : List Text) (w : Option (Option Text)) (d : Denies) {d' : Denies}
      (n : Text)
      → IsDict d.whole
      → carve_package adapter name vs w d ≡ ok d'
      → (name == n) ≡ false
      → (get n d'.whole ≡ get n d.whole) × (get n d'.ranges ≡ get n d.ranges)
  unfolding carve_package
  carve_package_ne name vs none d {d'} n u h ne = let same : d' ≡ d = cc in rw same (refl, refl)
  carve_package_ne name vs (some reason) d {d'} n u h ne =
      let (r, all_ok, h) = >>=-eq-ok (carve_all adapter name reason (sorted vs) d.ranges) _ h in
      let same = ok-injective h in
      (
        subst (λ (x : Denies). get n x.whole ≡ get n d.whole) same
            (get-remove name n d.whole u ∙ rw ne),
        subst (λ (x : Denies). get n x.ranges ≡ get n d.ranges) same
            (carve_all-get_ne name reason (sorted vs) d.ranges n all_ok ne),
      )

  carve_package-IsDict :
      (name : Text) (vs : List Text) (w : Option (Option Text)) (d : Denies) {d' : Denies}
      → IsDict d.whole
      → carve_package adapter name vs w d ≡ ok d'
      → IsDict d'.whole
  unfolding carve_package
  carve_package-IsDict name vs none d {d'} u h =
      subst (λ (x : Denies). IsDict x.whole) (ok-injective h) u
  carve_package-IsDict name vs (some reason) d {d'} u h =
      let (r, _, h) = >>=-eq-ok (carve_all adapter name reason (sorted vs) d.ranges) _ h in
      subst (λ (x : Denies). IsDict x.whole) (ok-injective h) (remove-IsDict name d.whole u)

  allow_exact-eq :
      (name : Text) (vs : List Text) (d : Denies) {d' : Denies}
      → allow_exact adapter name vs d ≡ ok d'
      → (is_some (get name d.ranges) ≡ false)
        × (carve_package adapter name vs (get name d.whole) d ≡ ok d')
  unfolding allow_exact reject_range_carving
  allow_exact-eq name vs d h = raise_if-eq-ok _ (range_carving npm name) _ h

  pub allow_exacts-Carved :
      (allows : Dict Text (List Text)) (d : Denies) {d' : Denies}
      → allow_exacts adapter allows d ≡ ok d'
      → IsDict allows
      → IsDict d.whole
      → (n : Text) → Carved allows d d' n
  unfolding allow_exacts get
  allow_exacts-Carved [] d {d'} h u w n = let same : d' ≡ d = cc in rw same (refl, refl, λ x. cc)
  allow_exacts-Carved ((name, vs) ∷ rest) d {d'} h u w n =
      let (d1, one, h) = >>=-eq-ok (allow_exact adapter name vs d) _ h in
      let (clear, one) = allow_exact-eq name vs d one in
      let w1 = carve_package-IsDict name vs (get name d.whole) d w one in
      elim (Bool-cases (name == n)) [
        | inl e ↦
            let (ww, rr) = carve_package_self name vs (get name d.whole) d refl w one in
            let absent = absent_of_unique name rest u.0 in
            let same = (text_eq_iff name n).0 e in
            subst (Carved ((name, vs) ∷ rest) d d') same (
              Carved-cons_self name vs rest d d1 d' absent clear ww rr
                (allow_exacts-Carved rest d1 h u.1 w1 name))
        | inr ne ↦
            let (ww, rr) = carve_package_ne name vs (get name d.whole) d n w one ne in
            Carved-cons_ne name vs rest d d1 d' n ne ww rr (allow_exacts-Carved rest d1 h u.1 w1 n)
      ]
