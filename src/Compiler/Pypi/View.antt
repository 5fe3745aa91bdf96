-- ===== src/Compiler/Pypi/View.antt =====
-- What `_emit_pypi` holds of a package, and what the whole-package allows make of it.
use artea.Base.{
  ◌≡◌, refl, ◌∙◌, Bool, true, false, ◌||◌, Option, none, List, [], ◌∷◌, Text, eq_text, ◌==◌,
  contains, Bool-cases, inl, inr,
}
use artea.Base.Dict.{IsDict, get, get-remove, remove-IsDict, contains-add, add-IsUnique}
use artea.Base.Lists.{IsUnique}
use artea.Compiler.{drop_denies}
use artea.Compiler.Pypi.{Emission, pass_whole, pass_wholes}

-- What the allows of a package leave of its denies and make of it.
pub record View : Type 0 where
  pub whole : Option (Option Text)
  pub ranges : Option (List (Text × Option Text))
  pub exact : Option Text
  pub allowed : Bool

unfoldable pub view : Text → Emission → View
unfolding get contains
view n e = record {
  whole = get n e.denies.whole;
  ranges = get n e.denies.ranges;
  exact = get n e.exact_passthrough;
  allowed = contains n e.allow_passthrough;
}

pub record IsEmission (e : Emission) : Type 0 where
  pub whole : IsDict e.denies.whole
  pub ranges : IsDict e.denies.ranges
  pub exact : IsDict e.exact_passthrough
  pub allow : IsUnique e.allow_passthrough

pass_whole-IsEmission :
    (dd : Bool) (name : Text) (e : Emission) → IsEmission e → IsEmission (pass_whole dd name e)
unfolding pass_whole drop_denies
pass_whole-IsEmission true name e c = record {
  whole = remove-IsDict name e.denies.whole c.whole;
  ranges = remove-IsDict name e.denies.ranges c.ranges;
  exact = c.exact;
  allow = add-IsUnique name e.allow_passthrough c.allow;
}
pass_whole-IsEmission false name e c = record {
  whole = remove-IsDict name e.denies.whole c.whole;
  ranges = remove-IsDict name e.denies.ranges c.ranges;
  exact = c.exact;
  allow = c.allow;
}

pub pass_wholes-IsEmission :
    (dd : Bool) (names : List Text) (e : Emission)
    → IsEmission e
    → IsEmission (pass_wholes dd names e)
unfolding pass_wholes
pass_wholes-IsEmission dd [] e c = c
pass_wholes-IsEmission dd (name ∷ names) e c =
    pass_wholes-IsEmission dd names (pass_whole dd name e) (pass_whole-IsEmission dd name e c)

-- A package that is allowed as a whole has no deny left, and is listed under default-deny.
unfoldable pub whole_view : Bool → Bool → View → View
whole_view dd true v = record {
  whole = none;
  ranges = none;
  exact = v.exact;
  allowed = dd || v.allowed;
}
whole_view dd false v = v

view-pass_whole :
    (dd : Bool) (name n : Text) (e : Emission)
    → IsEmission e
    → view n (pass_whole dd name e) ≡ whole_view dd (name == n) (view n e)
unfolding view pass_whole drop_denies whole_view
view-pass_whole true name n e c = elim (Bool-cases (name == n)) [
  | inl h ↦
      rw
        (
          get-remove name n e.denies.whole c.whole,
          get-remove name n e.denies.ranges c.ranges,
          contains-add,
          h,
        )
        refl
  | inr h ↦
      rw
        (
          get-remove name n e.denies.whole c.whole,
          get-remove name n e.denies.ranges c.ranges,
          contains-add,
          h,
        )
        refl
]
view-pass_whole false name n e c = elim (Bool-cases (name == n)) [
  | inl h ↦
      rw (get-remove name n e.denies.whole c.whole, get-remove name n e.denies.ranges c.ranges, h)
        refl
  | inr h ↦
      rw (get-remove name n e.denies.whole c.whole, get-remove name n e.denies.ranges c.ranges, h)
        refl
]

whole_view-twice :
    (dd a b : Bool) (v : View) → whole_view dd b (whole_view dd a v) ≡ whole_view dd (a || b) v
unfolding whole_view
whole_view-twice true true true v = refl
whole_view-twice false true true v = refl
whole_view-twice dd true false v = refl
whole_view-twice dd false true v = refl
whole_view-twice dd false false v = refl

pub view-pass_wholes :
    (dd : Bool) (names : List Text) (n : Text) (e : Emission)
    → IsEmission e
    → view n (pass_wholes dd names e) ≡ whole_view dd (contains n names) (view n e)
unfolding pass_wholes contains whole_view
view-pass_wholes dd [] n e c = refl
view-pass_wholes dd (name ∷ names) n e c =
    view-pass_wholes dd names n (pass_whole dd name e) (pass_whole-IsEmission dd name e c)
    ∙ (rw (view-pass_whole dd name n e c) refl
        ∙ whole_view-twice dd (name == n) (contains n names) (view n e))
