-- ===== src/Compiler/Pypi/Decides.antt =====
-- What the pypi artifact says of each project.
use artea.Base.{
  ◌≡◌, refl, sym, ◌∙◌, Bool, true, false, not, ◌&&◌, Option, none, some, List, [], ◌∷◌, ◌++◌, Text,
  codes, eq_text, contains, Result, ok, err, >>=-eq-ok, ok-injective, is_some, if◌then◌else◌,
  traverse, raise_if-eq-ok, >>-eq-ok,
}
use mathlib.Core.Path.{subst}
use mathlib.Core.Option.{get_or}
use artea.Base.Dict.{Dict, get, keys, items_at, contains-keys}
use artea.Base.Sort.{sorted, sort_by, contains-sort_by}
use artea.Base.Strip.{join}
use artea.Policy.{PolicyError, Rule, pypi, empty_allow_set}
use artea.Adapters.{Adapter}
use artea.Adapters.Pypi.{complement}
use artea.Compiler.{Ranges, EcosystemRules, classify}
use artea.Compiler.Laws.{classify-IsClassified}
use artea.Compiler.Pypi.{
  Line, Emission, pair_leb, range_line, valid_line, pinned, emit_pypi_ranges, emit_pypi_wholes,
  emit_pypi_allows, pass_allows, emit_pypi_lines, check_combined, validate_pypi_line,
}
use artea.Compiler.Pypi.View.{View, view, whole_view}
use artea.Compiler.Pypi.Allows.{exact_view, view-pass_allows, pass_allows-clear}
use artea.Compiler.Pypi.Lines.{get-traverse, or_else, get-append}

-- The intersection of the complements of the ranges, in their order.
unfoldable pub joined : Result PolicyError (List Text) → Text
unfolding join
joined (ok specs) = join (codes ",") specs
joined (err e) = []

unfoldable pub combined : List (Text × Option Text) → Text
unfolding joined traverse sort_by pair_leb
combined rs = joined (traverse (λ r. complement r.0) (sort_by pair_leb rs))

pub valid_line-eq :
    (name spec : Text) (line : Line) → valid_line name spec ≡ ok line → line ≡ (name, spec)
unfolding valid_line
valid_line-eq name spec line h =
    sym (ok-injective (>>-eq-ok (validate_pypi_line (name ++ spec)) _ h).1)

pub range_line-eq :
    (ranges : Ranges) (name : Text) (line : Line)
    → range_line ranges name ≡ ok line
    → line ≡ (name, combined (items_at name ranges))
unfolding range_line combined joined
range_line-eq ranges name line h =
    let (specs, s, h) =
      >>=-eq-ok (traverse (λ r. complement r.0) (sort_by pair_leb (items_at name ranges))) _ h in
    let h = (>>-eq-ok (check_combined name (join (codes ",") specs)) _ h).1 in
    let h = (raise_if-eq-ok _ (empty_allow_set name (join (codes ",") specs)) _ h).1 in
    let h = (>>-eq-ok (validate_pypi_line (name ++ join (codes ",") specs)) _ h).1 in
    rw s (sym (ok-injective h))

pub contains-sorted-keys :
    {V : Type 0} (n : Text) (d : Dict Text V) → contains n (sorted (keys d)) ≡ is_some (get n d)
contains-sorted-keys n d = contains-sort_by _ n (keys d) ∙ contains-keys n d

get-emit_pypi_ranges :
    (ranges : Ranges) (dd : Bool) (n : Text) {lines : List Line}
    → emit_pypi_ranges ranges dd ≡ ok lines
    → get n lines
      ≡ (if not dd && is_some (get n ranges) then some (combined (items_at n ranges)) else none)
unfolding emit_pypi_ranges get
get-emit_pypi_ranges ranges true n h =
    subst (λ (x : List Line). get n x ≡ none) (ok-injective h) refl
get-emit_pypi_ranges ranges false n h =
    get-traverse (range_line ranges) (λ name. combined (items_at name ranges))
      (range_line-eq ranges) (sorted (keys ranges)) n h
    ∙ rw (contains-sorted-keys n ranges) refl

get-emit_pypi_wholes :
    (whole : Dict Text (Option Text)) (dd : Bool) (n : Text) {lines : List Line}
    → emit_pypi_wholes whole dd ≡ ok lines
    → get n lines ≡ (if not dd && is_some (get n whole) then some (codes "==0") else none)
unfolding emit_pypi_wholes get
get-emit_pypi_wholes whole true n h =
    subst (λ (x : List Line). get n x ≡ none) (ok-injective h) refl
get-emit_pypi_wholes whole false n h =
    get-traverse (λ name. valid_line name (codes "==0")) (λ _. codes "==0")
      (λ name. valid_line-eq name (codes "==0")) (sorted (keys whole)) n h
    ∙ rw (contains-sorted-keys n whole) refl

get-emit_pypi_allows :
    (exact : Dict Text Text) (allow : List Text) (n : Text) {lines : List Line}
    → emit_pypi_allows exact allow ≡ ok lines
    → get n lines
      ≡ or_else
          (if is_some (get n exact) then some (pinned exact n) else none)
          (if contains n allow then some [] else none)
unfolding emit_pypi_allows
get-emit_pypi_allows exact allow n h =
    let (first, one, h) =
      >>=-eq-ok (traverse (λ name. valid_line name (pinned exact name)) (sorted (keys exact))) _
        h in
    let (rest, two, h) = >>=-eq-ok (traverse (λ name. valid_line name []) (sorted allow)) _ h in
    let a =
      get-traverse (λ name. valid_line name (pinned exact name)) (pinned exact)
        (λ name. valid_line-eq name (pinned exact name)) (sorted (keys exact)) n one in
    let b =
      get-traverse (λ name. valid_line name []) (λ _. []) (λ name. valid_line-eq name [])
        (sorted allow) n two in
    subst
      (λ (x : List Line).
        get n x
        ≡ or_else (if is_some (get n exact) then some (pinned exact n) else none)
            (if contains n allow then some [] else none))
      (ok-injective h)
      (rw (get-append n first rest, a, b, contains-sorted-keys n exact, contains-sort_by) refl)

-- The line of a package, by what `_emit_pypi` holds of it.
abbrev pub when {ℓ} : {A : Type ℓ} → Bool → A → Option A
when b a = if b then some a else none

unfoldable pub view_line : Bool → View → Option Text
view_line dd v = or_else (when (not dd && is_some v.ranges) (combined (get_or v.ranges []))) (
    or_else (when (not dd && is_some v.whole) (codes "==0"))
      (or_else (when (is_some v.exact) (codes "==" ++ get_or v.exact [])) (when v.allowed [])))

get-emit_pypi_lines :
    (eco : EcosystemRules) (dd : Bool) (n : Text) {lines : List Line}
    → emit_pypi_lines eco dd ≡ ok lines
    → (e : Emission) × (pass_allows eco dd ≡ ok e) × (get n lines ≡ view_line dd (view n e))
unfolding emit_pypi_lines view_line view
get-emit_pypi_lines eco dd n h =
    let (e, passed, h) = >>=-eq-ok (pass_allows eco dd) _ h in
    let (ranges, one, h) = >>=-eq-ok (emit_pypi_ranges e.denies.ranges dd) _ h in
    let (wholes, two, h) = >>=-eq-ok (emit_pypi_wholes e.denies.whole dd) _ h in
    let (allows, three, h) =
      >>=-eq-ok (emit_pypi_allows e.exact_passthrough e.allow_passthrough) _ h in
    (
      e,
      passed,
      subst (λ (x : List Line). get n x ≡ view_line dd (view n e)) (ok-injective h)
          (rw
            (
              get-append n ranges (wholes ++ allows),
              get-append n wholes allows,
              get-emit_pypi_ranges e.denies.ranges dd n one,
              get-emit_pypi_wholes e.denies.whole dd n two,
              get-emit_pypi_allows e.exact_passthrough e.allow_passthrough n three,
            )
            refl),
    )

-- The specifier of a package whose exact versions are allowed.
abbrev pub pin_spec : List Text → Option Text
pin_spec [] = none
pin_spec (v ∷ []) = some (codes "==" ++ v)
pin_spec (v ∷ w ∷ vs) = none

abbrev pub pin_or : Option (List Text) → Option Text → Option Text
pin_or none o = o
pin_or (some vs) o = pin_spec vs

-- What the rules say of a package, by docs/policy-schema.md: an allow of the package wins over its
-- denies; a deny of the whole package leaves the version that is allowed, or none; a deny of ranges
-- leaves what their complements have in common.
unfoldable pub project_constraint : EcosystemRules → Bool → Text → Option Text
unfolding get contains
project_constraint eco dd n =
    if contains n eco.whole_allows
    then (if dd then some [] else none)
    else if dd
    then pin_or (get n eco.exact_allows) none
    else if is_some (get n eco.whole_denies)
    then pin_or (get n eco.exact_allows) (some (codes "==0"))
    else if is_some (get n eco.range_denies)
    then some (combined (items_at n eco.range_denies))
    else none

view_line-decides :
    (dd wa : Bool) (ea : Option (List Text)) (w : Option (Option Text))
    (r : Option (List (Text × Option Text)))
    → (wa ≡ false → is_some ea ≡ true → is_some r ≡ false)
    → (dd ≡ false → wa ≡ false → is_some r ≡ true → is_some w ≡ false)
    → view_line dd (
        exact_view dd wa ea
          (whole_view dd wa (record { whole = w; ranges = r; exact = none; allowed = false })))
      ≡ (if wa
          then (if dd then some [] else none)
          else if dd
          then pin_or ea none
          else if is_some w
          then pin_or ea (some (codes "==0"))
          else if is_some r
          then some (combined (get_or r []))
          else none)
unfolding view_line exact_view whole_view
view_line-decides true true none w r clear apart = refl
view_line-decides true true (some vs) w r clear apart = refl
view_line-decides false true none w r clear apart = refl
view_line-decides false true (some vs) w r clear apart = refl
view_line-decides true false none w r clear apart = refl
view_line-decides true false (some []) none r clear apart = refl
view_line-decides true false (some []) (some x) r clear apart = refl
view_line-decides true false (some (v ∷ [])) none r clear apart = refl
view_line-decides true false (some (v ∷ [])) (some x) r clear apart = refl
view_line-decides true false (some (v ∷ w' ∷ vs)) none r clear apart = refl
view_line-decides true false (some (v ∷ w' ∷ vs)) (some x) r clear apart = refl
view_line-decides false false none none none clear apart = refl
view_line-decides false false none none (some rs) clear apart = refl
view_line-decides false false none (some x) none clear apart = refl
view_line-decides false false none (some x) (some rs) clear apart =
    absurd (cc (apart refl refl refl))
view_line-decides false false (some vs) w (some rs) clear apart = absurd (cc (clear refl refl))
view_line-decides false false (some vs) none none clear apart = refl
view_line-decides false false (some []) (some x) none clear apart = refl
view_line-decides false false (some (v ∷ [])) (some x) none clear apart = refl
view_line-decides false false (some (v ∷ w' ∷ vs)) (some x) none clear apart = refl

module _ (adapter : Adapter) (rules : List Rule) (default_deny : Bool) {eco : EcosystemRules}
    {lines : List Line} (classified : classify rules pypi adapter ≡ ok eco)
    (emitted : emit_pypi_lines eco default_deny ≡ ok lines) where
  -- Where the rules compile, and unless denying is not the default and a package that is not allowed
  -- as a whole is denied both as a whole and by a range, the first line of a project, if there is
  -- one, constrains it as the rules say: a project that is allowed as a whole has no line, or a bare one
  -- where denying is the default. Any other has, where denying is the default, the pin to its allowed
  -- exact version, or no line. Where it is not, a project that is denied as a whole has the pin to its
  -- allowed exact version, or `==0`, one that is denied by ranges has their complements, and the rest
  -- have no line.
  pub emit_pypi_lines-decides :
      ((n : Text)
        → default_deny ≡ false
        → contains n eco.whole_allows ≡ false
        → is_some (get n eco.range_denies) ≡ true
        → is_some (get n eco.whole_denies) ≡ false)
      → (n : Text) → get n lines ≡ project_constraint eco default_deny n
  unfolding project_constraint
  emit_pypi_lines-decides apart n =
      let c = classify-IsClassified rules pypi adapter classified in
      let (e, passed, line) = get-emit_pypi_lines eco default_deny n emitted in
      line
      ∙ rw (view-pass_allows eco default_deny c passed n) (
          view_line-decides default_deny (contains n eco.whole_allows) (get n eco.exact_allows)
            (get n eco.whole_denies) (get n eco.range_denies)
            (pass_allows-clear eco default_deny c passed n) (apart n))
