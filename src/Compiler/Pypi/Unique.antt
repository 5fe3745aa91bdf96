-- ===== src/Compiler/Pypi/Unique.antt =====
-- The index that reads the pypi artifact refuses one that has two lines of a project
-- (`parse_constraints` of devpi/artea_devpi_policy/src/artea_devpi_policy/main.py).
use artea.Base.{
  ◌≡◌, refl, ◌∙◌, Bool, true, false, not, ◌&&◌, Option, none, some, List, [], ◌++◌, Text, codes,
  eq_text, text_leb, contains, ok, >>=-eq-ok, ok-injective, is_some, if◌then◌else◌, arith, traverse,
}
use mathlib.Core.Path.{subst}
use artea.Base.Dict.{Dict, get, keys, items_at}
use artea.Base.Lists.{IsUnique, contains-append}
use artea.Base.Sort.{sorted, contains-sort_by, sort_by-IsUnique}
use artea.Policy.{Rule, pypi}
use artea.Adapters.{Adapter}
use artea.Compiler.{Ranges, EcosystemRules, classify}
use artea.Compiler.Laws.{classify-IsClassified}
use artea.Compiler.Pypi.{
  Line, Emission, range_line, valid_line, pinned, emit_pypi_ranges, emit_pypi_wholes,
  emit_pypi_allows, pass_allows, emit_pypi_lines,
}
use artea.Compiler.Pypi.View.{View, view, IsEmission, whole_view}
use artea.Compiler.Pypi.Allows.{
  exact_view, view-pass_allows, pass_allows-IsEmission, pass_allows-clear,
}
use artea.Compiler.Pypi.Lines.{keys-traverse, keys-append, append-IsUnique, append-IsUnique_imp}
use artea.Compiler.Pypi.Decides.{valid_line-eq, range_line-eq, combined, contains-sorted-keys}

-- The names of a loop that default-deny skips.
abbrev unless_deny : Bool → List Text → List Text
unless_deny dd names = if dd then [] else names

keys-emit_pypi_ranges :
    (ranges : Ranges) (dd : Bool) {lines : List Line}
    → emit_pypi_ranges ranges dd ≡ ok lines
    → keys lines ≡ unless_deny dd (sorted (keys ranges))
unfolding emit_pypi_ranges
keys-emit_pypi_ranges ranges true h = subst (λ (x : List Line). keys x ≡ []) (ok-injective h) refl
keys-emit_pypi_ranges ranges false h =
    keys-traverse (range_line ranges) (λ name. combined (items_at name ranges))
      (range_line-eq ranges) (sorted (keys ranges)) h

keys-emit_pypi_wholes :
    (whole : Dict Text (Option Text)) (dd : Bool) {lines : List Line}
    → emit_pypi_wholes whole dd ≡ ok lines
    → keys lines ≡ unless_deny dd (sorted (keys whole))
unfolding emit_pypi_wholes
keys-emit_pypi_wholes whole true h = subst (λ (x : List Line). keys x ≡ []) (ok-injective h) refl
keys-emit_pypi_wholes whole false h =
    keys-traverse (λ name. valid_line name (codes "==0")) (λ _. codes "==0")
      (λ name. valid_line-eq name (codes "==0")) (sorted (keys whole)) h

keys-emit_pypi_allows :
    (exact : Dict Text Text) (allow : List Text) {lines : List Line}
    → emit_pypi_allows exact allow ≡ ok lines
    → keys lines ≡ sorted (keys exact) ++ sorted allow
unfolding emit_pypi_allows
keys-emit_pypi_allows exact allow h =
    let (first, one, h) =
      >>=-eq-ok (traverse (λ name. valid_line name (pinned exact name)) (sorted (keys exact))) _
        h in
    let (rest, two, h) = >>=-eq-ok (traverse (λ name. valid_line name []) (sorted allow)) _ h in
    let a =
      keys-traverse (λ name. valid_line name (pinned exact name)) (pinned exact)
        (λ name. valid_line-eq name (pinned exact name)) (sorted (keys exact)) one in
    let b =
      keys-traverse (λ name. valid_line name []) (λ _. []) (λ name. valid_line-eq name [])
        (sorted allow) two in
    subst (λ (x : List Line). keys x ≡ sorted (keys exact) ++ sorted allow) (ok-injective h)
      (rw (keys-append first rest, a, b) refl)

keys-emit_pypi_lines :
    (eco : EcosystemRules) (dd : Bool) {lines : List Line}
    → emit_pypi_lines eco dd ≡ ok lines
    → (e : Emission) × (pass_allows eco dd ≡ ok e)
      × (keys lines
          ≡ unless_deny dd (sorted (keys e.denies.ranges))
            ++ (unless_deny dd (sorted (keys e.denies.whole))
                ++ (sorted (keys e.exact_passthrough) ++ sorted e.allow_passthrough)))
unfolding emit_pypi_lines
keys-emit_pypi_lines eco dd h =
    let (e, passed, h) = >>=-eq-ok (pass_allows eco dd) _ h in
    let (ranges, one, h) = >>=-eq-ok (emit_pypi_ranges e.denies.ranges dd) _ h in
    let (wholes, two, h) = >>=-eq-ok (emit_pypi_wholes e.denies.whole dd) _ h in
    let (allows, three, h) =
      >>=-eq-ok (emit_pypi_allows e.exact_passthrough e.allow_passthrough) _ h in
    (
      e,
      passed,
      subst
          (λ (x : List Line).
            keys x
            ≡ unless_deny dd (sorted (keys e.denies.ranges))
              ++ (unless_deny dd (sorted (keys e.denies.whole))
                  ++ (sorted (keys e.exact_passthrough) ++ sorted e.allow_passthrough)))
          (ok-injective h)
          (rw
            (
              keys-append ranges (wholes ++ allows),
              keys-append wholes allows,
              keys-emit_pypi_ranges e.denies.ranges dd one,
              keys-emit_pypi_wholes e.denies.whole dd two,
              keys-emit_pypi_allows e.exact_passthrough e.allow_passthrough three,
            )
            refl),
    )

-- No two of the four groups of lines share a project, but for the ranges and the wholes.
abbrev Apart : Bool → View → Type 0
Apart dd v =
    ((not dd && is_some v.ranges) ≡ true → is_some v.exact ≡ false)
    × (((not dd && is_some v.ranges) ≡ true → v.allowed ≡ false)
        × (((not dd && is_some v.whole) ≡ true → is_some v.exact ≡ false)
            × (((not dd && is_some v.whole) ≡ true → v.allowed ≡ false)
                × (is_some v.exact ≡ true → v.allowed ≡ false))))

view-Apart :
    (dd wa : Bool) (ea : Option (List Text)) (w : Option (Option Text))
    (r : Option (List (Text × Option Text)))
    → (wa ≡ false → is_some ea ≡ true → is_some r ≡ false)
    → Apart dd (
        exact_view dd wa ea
          (whole_view dd wa (record { whole = w; ranges = r; exact = none; allowed = false })))
unfolding exact_view whole_view
view-Apart dd true none w r clear = ground arith
view-Apart dd true (some vs) w r clear = ground arith
view-Apart dd false none w r clear = ground arith
view-Apart dd false (some vs) w r clear = ground arith

view-clear :
    (dd wa : Bool) (ea : Option (List Text)) (w : Option (Option Text))
    (r : Option (List (Text × Option Text))) {v : View}
    → v
      ≡ exact_view dd wa ea
          (whole_view dd wa (record { whole = w; ranges = r; exact = none; allowed = false }))
    → (dd ≡ false → wa ≡ false → is_some r ≡ true → is_some w ≡ false)
    → (not dd && is_some v.ranges) ≡ true
    → (not dd && is_some v.whole) ≡ false
unfolding exact_view whole_view
view-clear dd true none w r e h = rw e (ground arith)
view-clear dd true (some vs) w r e h = rw e (ground arith)
view-clear dd false none w r e h = rw e (ground arith)
view-clear dd false (some vs) w r e h = rw e (ground arith)

-- A package with both and no allow keeps both.
view-both :
    (ea : Option (List Text)) (w : Option (Option Text)) (r : Option (List (Text × Option Text)))
    {v : View}
    → v
      ≡ exact_view false false ea
          (whole_view false false (record { whole = w; ranges = r; exact = none; allowed = false }))
    → (is_some ea ≡ true → is_some r ≡ false)
    → is_some r ≡ true
    → is_some w ≡ true
    → (is_some v.ranges ≡ true) × (is_some v.whole ≡ true)
unfolding exact_view whole_view
view-both none w r e clear h k = rw e (h, k)
view-both (some vs) w r e clear h k = absurd (cc (clear refl, h))

unless_deny-IsUnique :
    (dd : Bool) (names : List Text) → IsUnique names → IsUnique (unless_deny dd names)
unless_deny-IsUnique true names u = tt
unless_deny-IsUnique false names u = u

contains-unless_deny :
    {V : Type 0} (dd : Bool) (n : Text) (d : Dict Text V)
    → contains n (unless_deny dd (sorted (keys d))) ≡ (not dd && is_some (get n d))
unfolding contains
contains-unless_deny true n d = refl
contains-unless_deny false n d = contains-sorted-keys n d

-- The names of the four groups stand once if no package has both a range and a deny left.
groups-IsUnique :
    (dd : Bool) (e : Emission)
    → IsEmission e
    → ((n : Text) → Apart dd (view n e))
    → ((n : Text)
        → (not dd && is_some (view n e).ranges) ≡ true
        → (not dd && is_some (view n e).whole) ≡ false)
    → IsUnique (
        unless_deny dd (sorted (keys e.denies.ranges))
        ++ (unless_deny dd (sorted (keys e.denies.whole))
            ++ (sorted (keys e.exact_passthrough) ++ sorted e.allow_passthrough)))
unfolding view
groups-IsUnique dd e c apart clear =
    let allows =
      append-IsUnique _ _ (sort_by-IsUnique text_leb (keys e.exact_passthrough) c.exact)
        (sort_by-IsUnique text_leb e.allow_passthrough c.allow)
        (λ n.
          rw (contains-sorted-keys n e.exact_passthrough, contains-sort_by) ((apart n).1.1.1.1)) in
    let wholes =
      append-IsUnique _ _
        (unless_deny-IsUnique dd _ (sort_by-IsUnique text_leb (keys e.denies.whole) c.whole)) allows
        (λ n.
          rw
            (
              contains-unless_deny dd n e.denies.whole,
              contains-append,
              contains-sorted-keys n e.exact_passthrough,
              contains-sort_by,
            )
            (let (_, (_, (a, (b, _)))) = apart n in ground arith)) in
    append-IsUnique _ _
      (unless_deny-IsUnique dd _ (sort_by-IsUnique text_leb (keys e.denies.ranges) c.ranges)) wholes
      (λ n.
        rw
          (
            contains-unless_deny dd n e.denies.ranges,
            contains-append,
            contains-unless_deny dd n e.denies.whole,
            contains-append,
            contains-sorted-keys n e.exact_passthrough,
            contains-sort_by,
          )
          (let (a, (b, _)) = apart n in let k = clear n in ground arith))

-- A package in the first two groups makes the list repeat it.
twice :
    (e : Emission) (n : Text)
    → IsUnique (
        sorted (keys e.denies.ranges)
        ++ (sorted (keys e.denies.whole)
            ++ (sorted (keys e.exact_passthrough) ++ sorted e.allow_passthrough)))
    → is_some (view n e).ranges ≡ true
    → is_some (view n e).whole ≡ true
    → ⊥
unfolding view
twice e n u a b =
    let apart =
      append-IsUnique_imp (sorted (keys e.denies.ranges)) _ n u
        (contains-sorted-keys n e.denies.ranges ∙ a) in
    let apart = rw (contains-append, contains-sorted-keys n e.denies.whole, b) at apart in cc apart

module _ (adapter : Adapter) (rules : List Rule) (default_deny : Bool) {eco : EcosystemRules}
    {lines : List Line} (classified : classify rules pypi adapter ≡ ok eco)
    (emitted : emit_pypi_lines eco default_deny ≡ ok lines) where
  -- Where the rules compile, no project has two lines, if denying is the default or if no package
  -- that is not allowed as a whole is denied both as a whole and by a range.
  pub emit_pypi_lines-IsUnique :
      ((n : Text)
        → default_deny ≡ false
        → contains n eco.whole_allows ≡ false
        → is_some (get n eco.range_denies) ≡ true
        → is_some (get n eco.whole_denies) ≡ false)
      → IsUnique (keys lines)
  emit_pypi_lines-IsUnique clear =
      let c = classify-IsClassified rules pypi adapter classified in
      let (e, passed, k) = keys-emit_pypi_lines eco default_deny emitted in
      rw k (
        groups-IsUnique default_deny e (pass_allows-IsEmission eco default_deny c passed)
          (λ n. rw (view-pass_allows eco default_deny c passed n) (
            view-Apart default_deny (contains n eco.whole_allows) (get n eco.exact_allows)
              (get n eco.whole_denies) (get n eco.range_denies)
              (pass_allows-clear eco default_deny c passed n)))
          (λ n.
            view-clear default_deny (contains n eco.whole_allows) (get n eco.exact_allows)
              (get n eco.whole_denies) (get n eco.range_denies)
              (view-pass_allows eco default_deny c passed n) (clear n)))

  -- A package that is denied both as a whole and by a range, and is not allowed, compiles, where
  -- allowing is the default, to two lines of the project.
  pub whole_and_range-duplicate :
      (n : Text)
      → default_deny ≡ false
      → contains n eco.whole_allows ≡ false
      → is_some (get n eco.range_denies) ≡ true
      → is_some (get n eco.whole_denies) ≡ true
      → ¬ IsUnique (keys lines)
  whole_and_range-duplicate n d w r h u =
      let c = classify-IsClassified rules pypi adapter classified in
      let (e, passed, k) = keys-emit_pypi_lines eco default_deny emitted in
      let (a, b) =
        view-both (get n eco.exact_allows) (get n eco.whole_denies) (get n eco.range_denies)
          (rw (d, w) at (view-pass_allows eco default_deny c passed n))
          (pass_allows-clear eco default_deny c passed n w) r h in
      twice e n (rw (k, d) at u) a b
