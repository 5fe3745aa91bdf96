-- ===== src/Compiler/Pypi/Allows.antt =====
-- What the exact-version allows of `_emit_pypi` make of each package.
use mathlib.Core.Path.{subst}
use artea.Base.{
  ◌≡◌, refl, sym, ap, ◌∙◌, Bool, true, false, not, ◌||◌, Option, none, some, List, [], ◌∷◌, Text,
  eq_text, text_eq_iff, ◌==◌, contains, ok, >>=-eq-ok, is_some, if◌then◌else◌, arith, Bool-cases,
  inl, inr, ◌⊎◌, ok-injective, raise_if-eq-ok,
}
use artea.Base.Dict.{
  Dict, IsDict, get, remove, keys, get-put, get-remove, put-IsDict, remove-IsDict, contains-keys,
}
use artea.Policy.{range_carving, pypi}
use artea.Compiler.{EcosystemRules, copy_deny_buckets, reject_range_carving}
use artea.Compiler.Laws.{IsClassified}
use artea.Compiler.Pypi.{Emission, pass_wholes, pin, pass_exact, pass_exacts, pass_allows}
use artea.Compiler.Pypi.View.{
  View, view, IsEmission, whole_view, pass_wholes-IsEmission, view-pass_wholes,
}

-- The version that the exact-version allows of a package pin it to.
abbrev pub pin_view : List Text → Option Text → Option Text
pin_view [] old = old
pin_view (v ∷ []) old = some v
pin_view (v ∷ w ∷ vs) old = old

unfoldable pub exact_view : Bool → Bool → Option (List Text) → View → View
exact_view dd wa none v = v
exact_view dd true (some vs) v = v
exact_view dd false (some vs) v = record {
  whole = none;
  ranges = v.ranges;
  exact = if not (is_some v.whole || dd) then v.exact else pin_view vs v.exact;
  allowed = v.allowed;
}

pin-IsEmission :
    (name : Text) (vs : List Text) (e : Emission) {e' : Emission}
    → IsEmission e
    → pin name vs e ≡ ok e'
    → IsEmission e'
unfolding pin
pin-IsEmission name [] e c h = subst IsEmission (ok-injective h) c
pin-IsEmission name (v ∷ []) e c h = subst IsEmission (ok-injective h) (record {
  whole = c.whole;
  ranges = c.ranges;
  exact = put-IsDict name v e.exact_passthrough c.exact;
  allow = c.allow;
})
pin-IsEmission name (v ∷ w ∷ vs) e c h = absurd (cc h)

view-pin_self :
    (name : Text) (vs : List Text) (e : Emission) {e' : Emission}
    → pin name vs e ≡ ok e'
    → view name e' ≡ record (view name e) { exact = pin_view vs (view name e).exact }
unfolding pin view
view-pin_self name [] e {e'} h =
    subst (λ (x : Emission). view name x ≡ view name e) (ok-injective h) refl
view-pin_self name (v ∷ []) e {e'} h =
    subst (λ (x : Emission). view name x ≡ record (view name e) { exact = some v }) (ok-injective h)
      (rw (get-put, (text_eq_iff name name).1 refl) refl)
view-pin_self name (v ∷ w ∷ vs) e h = absurd (cc h)

view-pin_ne :
    (name : Text) (vs : List Text) (n : Text) (e : Emission) {e' : Emission}
    → (name == n) ≡ false
    → pin name vs e ≡ ok e'
    → view n e' ≡ view n e
unfolding pin view
view-pin_ne name [] n e ne h = subst (λ (x : Emission). view n x ≡ view n e) (ok-injective h) refl
view-pin_ne name (v ∷ []) n e ne h =
    subst (λ (x : Emission). view n x ≡ view n e) (ok-injective h) (rw (get-put, ne) refl)
view-pin_ne name (v ∷ w ∷ vs) n e ne h = absurd (cc h)

-- The package without its deny.
popped : Text → Emission → Emission
popped name e = record e { denies = record e.denies { whole = remove name e.denies.whole } }

popped-IsEmission : (name : Text) (e : Emission) → IsEmission e → IsEmission (popped name e)
unfolding popped
popped-IsEmission name e c = record {
  whole = remove-IsDict name e.denies.whole c.whole;
  ranges = c.ranges;
  exact = c.exact;
  allow = c.allow;
}

view-popped_self :
    (name : Text) (e : Emission)
    → IsEmission e
    → view name (popped name e) ≡ record (view name e) { whole = none }
unfolding popped view
view-popped_self name e c =
    rw (get-remove name name e.denies.whole c.whole, (text_eq_iff name name).1 refl) refl

view-popped_ne :
    (name n : Text) (e : Emission)
    → IsEmission e
    → (name == n) ≡ false
    → view n (popped name e) ≡ view n e
unfolding popped view
view-popped_ne name n e c ne = rw (get-remove name n e.denies.whole c.whole, ne) refl

-- A call that returns has either skipped a package that is allowed as a whole, or found no range
-- denied, dropped the deny, and pinned the package if there was a deny or denying is the default.
abbrev Passed : List Text → Bool → Text → List Text → Emission → Emission → Type 0
Passed wa dd name vs e e' =
    ((contains name wa ≡ true) × (e ≡ e'))
    ⊎ ((contains name wa ≡ false)
        × ((is_some (get name e.denies.ranges) ≡ false)
            × ((if not (is_some (get name e.denies.whole) || dd)
                  then ok (popped name e)
                  else pin name vs (popped name e))
                ≡ ok e')))

pass_exact-Passed :
    (wa : List Text) (dd : Bool) (name : Text) (vs : List Text) (e : Emission) {e' : Emission}
    → pass_exact wa dd name vs e ≡ ok e'
    → Passed wa dd name vs e e'
unfolding pass_exact reject_range_carving popped
pass_exact-Passed wa dd name vs e h = elim (Bool-cases (contains name wa)) [
  | inl m ↦ inl (m, ok-injective (rw m at h))
  | inr m ↦ inr (m, raise_if-eq-ok _ (range_carving pypi name) _ (rw m at h))
]

branch-IsEmission :
    (b : Bool) (name : Text) (vs : List Text) (e : Emission) {e' : Emission}
    → IsEmission e
    → (if b then ok e else pin name vs e) ≡ ok e'
    → IsEmission e'
branch-IsEmission true name vs e c h = subst IsEmission (ok-injective h) c
branch-IsEmission false name vs e c h = pin-IsEmission name vs e c h

view-branch_self :
    (b : Bool) (name : Text) (vs : List Text) (e : Emission) {e' : Emission}
    → (if b then ok e else pin name vs e) ≡ ok e'
    → view name e' ≡ record (view name e) {
      exact = if b then (view name e).exact else pin_view vs (view name e).exact;
    }
view-branch_self true name vs e {e'} h =
    subst (λ (x : Emission). view name x ≡ view name e) (ok-injective h) refl
view-branch_self false name vs e h = view-pin_self name vs e h

view-branch_ne :
    (b : Bool) (name : Text) (vs : List Text) (n : Text) (e : Emission) {e' : Emission}
    → (name == n) ≡ false
    → (if b then ok e else pin name vs e) ≡ ok e'
    → view n e' ≡ view n e
view-branch_ne true name vs n e {e'} ne h =
    subst (λ (x : Emission). view n x ≡ view n e) (ok-injective h) refl
view-branch_ne false name vs n e ne h = view-pin_ne name vs n e ne h

Passed-IsEmission :
    (wa : List Text) (dd : Bool) (name : Text) (vs : List Text) (e : Emission) {e' : Emission}
    → IsEmission e
    → Passed wa dd name vs e e'
    → IsEmission e'
Passed-IsEmission wa dd name vs e c (inl (_, h)) = subst IsEmission h c
Passed-IsEmission wa dd name vs e c (inr (_, (_, h))) =
    branch-IsEmission _ name vs (popped name e) (popped-IsEmission name e c) h

view-Passed_self :
    (wa : List Text) (dd : Bool) (name : Text) (vs : List Text) (e : Emission) {e' : Emission}
    → IsEmission e
    → Passed wa dd name vs e e'
    → view name e' ≡ exact_view dd (contains name wa) (some vs) (view name e)
unfolding exact_view
view-Passed_self wa dd name vs e c (inl (m, h)) =
    rw m (subst (λ (x : Emission). view name x ≡ view name e) h refl)
view-Passed_self wa dd name vs e c (inr (m, (_, h))) =
    view-branch_self _ name vs (popped name e) h
    ∙ rw (m, view-popped_self name e c) (unfold view in refl)

view-Passed_ne :
    (wa : List Text) (dd : Bool) (name : Text) (vs : List Text) (n : Text) (e : Emission)
    {e' : Emission}
    → IsEmission e
    → (name == n) ≡ false
    → Passed wa dd name vs e e'
    → view n e' ≡ view n e
view-Passed_ne wa dd name vs n e c ne (inl (_, h)) =
    subst (λ (x : Emission). view n x ≡ view n e) h refl
view-Passed_ne wa dd name vs n e c ne (inr (_, (_, h))) =
    view-branch_ne _ name vs n (popped name e) ne h ∙ view-popped_ne name n e c ne

-- After the loop: what each package has become, and that none with an exact-version allow that
-- counts has a range denied.
abbrev pub Pinned : List Text → Bool → Dict Text (List Text) → Emission → Emission → Text → Type 0
Pinned wa dd allows e e' n =
    (view n e' ≡ exact_view dd (contains n wa) (get n allows) (view n e))
    × (contains n wa ≡ false → is_some (get n allows) ≡ true → is_some (view n e).ranges ≡ false)

clear_of_Passed :
    (wa : List Text) (dd : Bool) (name : Text) (vs : List Text) (e : Emission) {e' : Emission}
    → Passed wa dd name vs e e'
    → contains name wa ≡ false
    → is_some (view name e).ranges ≡ false
unfolding view
clear_of_Passed wa dd name vs e (inl (m, _)) m' = ground arith
clear_of_Passed wa dd name vs e (inr (_, (clear, _))) m' = clear

absent_of_unique :
    (name : Text) (rest : Dict Text (List Text))
    → contains name (keys rest) ≡ false
    → get name rest ≡ none
absent_of_unique name rest h = ground (arith, contains-keys name rest)

Pinned-cons_self :
    (wa : List Text) (dd : Bool) (name : Text) (vs : List Text) (rest : Dict Text (List Text))
    (e e1 e' : Emission) (n : Text)
    → (name == n) ≡ true
    → get name rest ≡ none
    → view name e1 ≡ exact_view dd (contains name wa) (some vs) (view name e)
    → (contains name wa ≡ false → is_some (view name e).ranges ≡ false)
    → view n e' ≡ exact_view dd (contains n wa) (get n rest) (view n e1)
    → Pinned wa dd ((name, vs) ∷ rest) e e' n
unfolding get exact_view
Pinned-cons_self wa dd name vs rest e e1 e' n eq absent one clear later =
    let same = (text_eq_iff name n).0 eq in
    subst
      (λ x.
        view x e' ≡ exact_view dd (contains x wa) (get x rest) (view x e1)
        → Pinned wa dd ((name, vs) ∷ rest) e e' x)
      same (λ later. rw ((text_eq_iff name name).1 refl) (later ∙ rw absent one, λ m _. clear m))
      later

Pinned-cons_ne :
    (wa : List Text) (dd : Bool) (name : Text) (vs : List Text) (rest : Dict Text (List Text))
    (e e1 e' : Emission) (n : Text)
    → (name == n) ≡ false
    → view n e1 ≡ view n e
    → Pinned wa dd rest e1 e' n
    → Pinned wa dd ((name, vs) ∷ rest) e e' n
unfolding get
Pinned-cons_ne wa dd name vs rest e e1 e' n ne one p = rw (ne, ← one) p

pass_exacts-IsEmission :
    (wa : List Text) (dd : Bool) (allows : Dict Text (List Text)) (e : Emission) {e' : Emission}
    → pass_exacts wa dd allows e ≡ ok e'
    → IsEmission e
    → IsEmission e'
unfolding pass_exacts
pass_exacts-IsEmission wa dd [] e h c = subst IsEmission (ok-injective h) c
pass_exacts-IsEmission wa dd ((name, vs) ∷ rest) e h c =
    let (e1, one, h) = >>=-eq-ok (pass_exact wa dd name vs e) _ h in
    let p = pass_exact-Passed wa dd name vs e one in
    pass_exacts-IsEmission wa dd rest e1 h (Passed-IsEmission wa dd name vs e c p)

pub pass_exacts-Pinned :
    (wa : List Text) (dd : Bool) (allows : Dict Text (List Text)) (e : Emission) {e' : Emission}
    → pass_exacts wa dd allows e ≡ ok e'
    → IsDict allows
    → IsEmission e
    → (n : Text) → Pinned wa dd allows e e' n
unfolding pass_exacts get exact_view
pass_exacts-Pinned wa dd [] e {e'} h u c n =
    (subst (λ (x : Emission). view n x ≡ view n e) (ok-injective h) refl, λ a b. cc)
pass_exacts-Pinned wa dd ((name, vs) ∷ rest) e {e'} h u c n =
    let (e1, one, h) = >>=-eq-ok (pass_exact wa dd name vs e) _ h in
    let p = pass_exact-Passed wa dd name vs e one in
    let (later, clear) =
      pass_exacts-Pinned wa dd rest e1 h u.1 (Passed-IsEmission wa dd name vs e c p) n in
    elim (Bool-cases (name == n)) [
      | inl eq ↦
          Pinned-cons_self wa dd name vs rest e e1 e' n eq (absent_of_unique name rest u.0)
            (view-Passed_self wa dd name vs e c p) (clear_of_Passed wa dd name vs e p) later
      | inr ne ↦
          Pinned-cons_ne wa dd name vs rest e e1 e' n ne (view-Passed_ne wa dd name vs n e c ne p)
            (later, clear)
    ]

-- The denies and allows of a package before the loops.
abbrev pub first_view : EcosystemRules → Text → View
first_view eco n = record {
  whole = get n eco.whole_denies;
  ranges = get n eco.range_denies;
  exact = none;
  allowed = false;
}

abbrev first_emission : EcosystemRules → Emission
first_emission eco = record {
  denies = copy_deny_buckets eco;
  exact_passthrough = [];
  allow_passthrough = [];
}

first-IsEmission : (eco : EcosystemRules) → IsClassified eco → IsEmission (first_emission eco)
unfolding copy_deny_buckets
first-IsEmission eco c = record { whole = c.whole; ranges = c.ranges; exact = tt; allow = tt }

module _ (eco : EcosystemRules) (dd : Bool) {e : Emission} (c : IsClassified eco)
    (h : pass_allows eco dd ≡ ok e) where
  pub pass_allows-Pinned :
      (n : Text)
      → Pinned eco.whole_allows dd eco.exact_allows
          (pass_wholes dd eco.whole_allows (first_emission eco))
          e
          n
  unfolding pass_allows
  pass_allows-Pinned n =
      pass_exacts-Pinned eco.whole_allows dd eco.exact_allows _ h c.exact
        (pass_wholes-IsEmission dd eco.whole_allows (first_emission eco) (first-IsEmission eco c)) n

  pub view-pass_allows :
      (n : Text)
      → view n e
        ≡ exact_view dd
            (contains n eco.whole_allows)
            (get n eco.exact_allows)
            (whole_view dd (contains n eco.whole_allows) (first_view eco n))
  view-pass_allows n =
      (pass_allows-Pinned n).0
      ∙ rw (view-pass_wholes dd eco.whole_allows n (first_emission eco) (first-IsEmission eco c))
          (unfold view copy_deny_buckets get contains in refl)

  pub pass_allows-IsEmission : IsEmission e
  unfolding pass_allows
  pass_allows-IsEmission =
      pass_exacts-IsEmission eco.whole_allows dd eco.exact_allows _ h
        (pass_wholes-IsEmission dd eco.whole_allows (first_emission eco) (first-IsEmission eco c))

  -- A package with an exact-version allow that counts has no range denied.
  pub pass_allows-clear :
      (n : Text)
      → contains n eco.whole_allows ≡ false
      → is_some (get n eco.exact_allows) ≡ true
      → is_some (get n eco.range_denies) ≡ false
  unfolding whole_view view copy_deny_buckets
  pass_allows-clear n m s =
      let v : view n (pass_wholes dd eco.whole_allows (first_emission eco)) ≡ first_view eco n =
        view-pass_wholes dd eco.whole_allows n (first_emission eco) (first-IsEmission eco c)
        ∙ rw m refl in
      ap (λ (x : View). is_some x.ranges) (sym v) ∙ (pass_allows-Pinned n).1 m s
