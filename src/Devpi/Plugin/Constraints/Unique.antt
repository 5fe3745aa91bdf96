-- ===== src/Devpi/Plugin/Constraints/Unique.antt =====
-- Which constraints the devpi plugin takes (`parse_constraints` of
-- devpi/artea_devpi_policy/src/artea_devpi_policy/main.py), and those that the compiler emits.
use mathlib.Core.List.{append-nil, append_assoc}
use artea.Base.{
  ◌≡◌, refl, ◌∙◌, ap, sym, Bool, true, false, none, some, List, [], ◌∷◌, ◌++◌, map, Text, codes,
  eq_text, text_eq, ◌==◌, contains, Result, ok, err, ◌>>=◌, arith, Bool-cases, Option-cases,
  Result-cases, inl, inr, ◌⊎◌,
}
use artea.Base.Dict.{Dict, get, put, keys, get-put}
use artea.Base.Lists.{All, IsUnique}
use artea.Compiler.Pypi.{Line, line_text, star_line}
use artea.Devpi.Plugin.{Packaging, PluginError, already_exists}
use artea.Devpi.Plugin.Constraints.{
  ConstraintsDict, no_constraints, add_requirement, add_constraint, add_constraints,
  parse_constraints,
}

put-absent :
    {V : Type 0} (k : Text) (v : V) (d : Dict Text V)
    → get k d ≡ none
    → put k v d ≡ d ++ (k, v) ∷ []
unfolding get put
put-absent k v [] h = refl
put-absent k v ((j, w) ∷ d) h = elim (Bool-cases (j == k)) [
  | inl e ↦ absurd (cc (rw e at h))
  | inr e ↦ rw e (ap (λ r. (j, w) ∷ r) (put-absent k v d (rw e at h)))
]

-- The constraints of a policy: its lines, and `*` if denying is the default
abbrev pub emitted_constraints : List Line → Bool → List Text
emitted_constraints lines default_deny = map line_text lines ++ star_line default_deny

module _ (pkg : Packaging) (specifier : Line → pkg.Specifier) where
  abbrev entry : Line → Text × pkg.Specifier
  entry line = (line.0, specifier line)

  -- The line is no `*`, and is read as its project with the specifier.
  abbrev pub IsRead : Line → Type 0
  IsRead line =
      ((line_text line == codes "*") ≡ false)
      × (pkg.parse_requirement (line_text line) ≡ some (line.0, specifier line))

  abbrev IsFree : Dict Text pkg.Specifier → Line → Type 0
  IsFree d line = get line.0 d ≡ none

  absent-put :
      (p : Text) (s : pkg.Specifier) (d : Dict Text pkg.Specifier) (lines : List Line)
      → All (IsFree (put p s d)) lines
      → (contains p (keys lines) ≡ false) × All (IsFree d) lines
  unfolding contains
  absent-put p s d [] h = ground arith
  absent-put p s d (l ∷ lines) h = ground (
    arith,
    get-put p l.0 s d,
    absent-put p s d lines h.1,
    eq_text.beq_iff p l.0,
    eq_text.beq_iff l.0 p,
    h.0,
  )

  put-All-IsFree :
      (p : Text) (s : pkg.Specifier) (d : Dict Text pkg.Specifier) (lines : List Line)
      → contains p (keys lines) ≡ false
      → All (IsFree d) lines
      → All (IsFree (put p s d)) lines
  unfolding contains
  put-All-IsFree p s d [] apart h = tt
  put-All-IsFree p s d (l ∷ lines) apart h = ground (
    arith,
    get-put p l.0 s d,
    put-All-IsFree p s d lines (ground arith) h.1,
    eq_text.beq_iff p l.0,
    eq_text.beq_iff l.0 p,
    h.0,
  )

  add_requirement-absent :
      (l : Line) (c : ConstraintsDict pkg)
      → IsRead l
      → IsFree c.entries l
      → add_constraint pkg (line_text l) c
        ≡ ok (record c { entries = put l.0 (specifier l) c.entries })
  unfolding add_constraint add_requirement
  add_requirement-absent l c (plain, read) absent = rw (plain, read, absent) refl

  add_requirement-present :
      (l : Line) (c : ConstraintsDict pkg) {s : pkg.Specifier}
      → IsRead l
      → get l.0 c.entries ≡ some s
      → add_constraint pkg (line_text l) c ≡ err (already_exists l.0)
  unfolding add_constraint add_requirement
  add_requirement-present l c (plain, read) present = rw (plain, read, present) refl

  abbrev with_entries :
      ConstraintsDict pkg → Dict Text pkg.Specifier → Result PluginError (ConstraintsDict pkg)
  with_entries c d = ok (record c { entries = d })

  -- The constraints after all of the lines, or the first project that stands twice
  abbrev Outcome : List Line → ConstraintsDict pkg → Type 0
  Outcome lines c =
      ((add_constraints pkg (map line_text lines) c
          ≡ ok (record c { entries = c.entries ++ map entry lines }))
        × All (IsFree c.entries) lines
        × IsUnique (keys lines))
      ⊎ ((p : Text) × (add_constraints pkg (map line_text lines) c ≡ err (already_exists p))
          × (¬ (All (IsFree c.entries) lines × IsUnique (keys lines))))

  add_constraints-Outcome :
      (lines : List Line) (c : ConstraintsDict pkg) → All IsRead lines → Outcome lines c
  unfolding add_constraints
  add_constraints-Outcome [] c reads =
      inl (ap (with_entries c) (sym (append-nil c.entries)), tt, tt)
  add_constraints-Outcome (l ∷ lines) c (read, reads) = elim (Option-cases (get l.0 c.entries)) [
    | inl absent ↦
        elim (add_constraints-Outcome lines (record c { entries = put l.0 (specifier l) c.entries })
          reads) [
            | inl (done, free, unique) ↦
                let (apart, others) = absent-put l.0 (specifier l) c.entries lines free in
                inl (
                  rw (add_requirement-absent l c read absent, done)
                      (ap (with_entries c) (
                        ap (λ d. d ++ map entry lines)
                          (put-absent l.0 (specifier l) c.entries absent)
                        ∙ append_assoc c.entries (entry l ∷ []) (map entry lines))),
                  (absent, others),
                  (apart, unique),
                )
            | inr (p, refused, twice) ↦ inr (
              p,
              rw (add_requirement-absent l c read absent, refused) refl,
              λ h. twice (put-All-IsFree l.0 (specifier l) c.entries lines h.1.0 h.0.1, h.1.1),
            )
          ]
    | inr (s, present) ↦
        inr (l.0, rw (add_requirement-present l c read present) refl, λ h. cc (h.0.0, present))
  ]

  add_constraints-append :
      (xs ys : List Text) (c : ConstraintsDict pkg)
      → add_constraints pkg (xs ++ ys) c ≡ (add_constraints pkg xs c >>= add_constraints pkg ys)
  unfolding add_constraints
  add_constraints-append [] ys c = refl
  add_constraints-append (x ∷ xs) ys c = elim (Result-cases (add_constraint pkg x c)) [
    | inl (more, e) ↦ rw e (add_constraints-append xs ys more)
    | inr (raised, e) ↦ rw e refl
  ]

  pub parse_constraints_unique :
      (lines : List Line) (default_deny : Bool)
      → All IsRead lines
      → IsUnique (keys lines)
      → parse_constraints pkg (emitted_constraints lines default_deny)
        ≡ ok (record { constrain_all = default_deny; entries = map entry lines })
  unfolding parse_constraints add_constraints add_constraint star_line text_eq
  parse_constraints_unique lines default_deny reads unique =
      add_constraints-append (map line_text lines) (star_line default_deny) (no_constraints pkg)
      ∙ elim (add_constraints-Outcome lines (no_constraints pkg) reads) [
        | inl (done, _, _) ↦ rw done (star default_deny)
        | inr (p, _, twice) ↦ absurd (twice (none_yet lines, unique))
      ]
    where
      star :
          (deny : Bool) {d : Dict Text pkg.Specifier}
          → add_constraints pkg (star_line deny) (record { constrain_all = false; entries = d })
            ≡ ok (record { constrain_all = deny; entries = d })
      star true = refl
      star false = refl

      none_yet : (ls : List Line) → All (IsFree []) ls
      none_yet [] = tt
      none_yet (l ∷ ls) = (refl, none_yet ls)

  pub parse_constraints-twice :
      (lines : List Line) (default_deny : Bool)
      → All IsRead lines
      → ¬ IsUnique (keys lines)
      → (p : Text) × (parse_constraints pkg (emitted_constraints lines default_deny)
          ≡ err (already_exists p))
  unfolding parse_constraints
  parse_constraints-twice lines default_deny reads twice =
      elim (add_constraints-Outcome lines (no_constraints pkg) reads) [
        | inl (_, _, unique) ↦ absurd (twice unique)
        | inr (p, refused, _) ↦ (
          p,
          add_constraints-append (map line_text lines) (star_line default_deny) (no_constraints pkg)
              ∙ rw refused refl,
        )
      ]
