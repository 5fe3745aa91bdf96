-- ===== src/Compiler/Npm/Decides.antt =====
-- The artifact blocks what the rules deny and no rule allows.
use mathlib.Core.Path.{subst}
use mathlib.Core.Option.{get_or}
use artea.Base.{
  ◌≤◌, ◌≡◌, ◌≢◌, refl, ap, ◌∙◌, Bool, true, false, not, ◌&&◌, ◌||◌, Option, none, some, List, [],
  ◌∷◌, Text, eq_text, text_eq_iff, text_leb, ◌==◌, contains, ok, >>=-eq-ok, ok-injective, arith,
  is_some, Bool-cases, inl, inr,
}
use artea.Base.Dict.{Dict, get, keys, items_at, contains-keys}
use artea.Base.Lists.{length, any}
use artea.Base.Sort.{sorted, contains-sort_by, sort_by}
use artea.Adapters.{Adapter}
use artea.Policy.{Rule, npm}
use artea.Compiler.{EcosystemRules, Denies, copy_deny_buckets, classify}
use artea.Compiler.Laws.{IsClassified, classify-IsClassified}
use artea.Compiler.Npm.{
  scopes_of, covered_by_scope, before_slash, allow_wholes, allow_exacts, point_complement,
  resolve_denies, Resolved, resolve_npm,
}
use artea.Compiler.Npm.Allows.{
  unless, get-allow_wholes, allow_wholes-IsDenies, point_entries, carved_whole, carved_ranges,
  Carved, allow_exacts-Carved, IsDenies,
}

-- How the filter reads the artifact: `satisfies range version` is `semver.satisfies`.
abbrev pub Satisfies : Type 0
Satisfies = Text → Text → Bool

pub two_loops :
    (adapter : Adapter) (eco : EcosystemRules) {d : Denies}
    → resolve_denies adapter eco ≡ ok d
    → (d1 : Denies) × (allow_wholes (scopes_of eco) eco.whole_allows (copy_deny_buckets eco)
        ≡ ok d1)
      × (allow_exacts adapter eco.exact_allows d1 ≡ ok d)
unfolding resolve_denies
two_loops adapter eco h =
    >>=-eq-ok (allow_wholes (scopes_of eco) eco.whole_allows (copy_deny_buckets eco)) _ h

-- The entries of a package after the exact-version allows, from those before.
abbrev Outcome :
    Option (List Text)
    → Option (Option Text)
    → Option (List (Text × Option Text))
    → Denies
    → Text
    → Type 0
Outcome exact w r d n =
    (get n d.whole ≡ carved_whole exact w)
    × (items_at n d.ranges ≡ carved_ranges exact w (get_or r []))
    × (is_some exact ≡ true → is_some r ≡ false)

Carved-Outcome :
    (allows : Dict Text (List Text)) (d1 d : Denies) (n : Text) {w : Option (Option Text)}
    {r : Option (List (Text × Option Text))}
    → Carved allows d1 d n
    → get n d1.whole ≡ w
    → get n d1.ranges ≡ r
    → Outcome (get n allows) w r d n
Carved-Outcome allows d1 d n h w r = rw (← w, ← r) h

pub copied-IsDenies : (eco : EcosystemRules) → IsClassified eco → IsDenies (copy_deny_buckets eco)
unfolding copy_deny_buckets
copied-IsDenies eco c = (c.whole, c.ranges)

module _ (satisfies : Satisfies) where
  abbrev pub hits : Text → Text × Option Text → Bool
  hits v e = satisfies e.0 v

  -- A package is blocked by its scope, by its name, or by one of its ranges.
  unfoldable pub blocks : Resolved → Text → Text → Bool
  blocks r n v =
      covered_by_scope n r.scopes || (contains n r.packages || any (hits v) (items_at n r.ranges))

  -- What the classified rules deny, by docs/policy-schema.md: an allow of the package, or of this
  -- version, wins over each deny, of the namespace, of the whole package or of a range.
  unfoldable pub denied : EcosystemRules → Text → Text → Bool
  denied eco n v =
      not (contains n eco.whole_allows || contains v (items_at n eco.exact_allows))
      && (covered_by_scope n (scopes_of eco)
          || (is_some (get n eco.whole_denies) || any (hits v) (items_at n eco.range_denies)))

  decide_one :
      (v : Text) (a : Bool) (exact : Option (List Text)) (w : Option (Option Text))
      (r : Option (List (Text × Option Text)))
      → exact ≢ some []
      → length (get_or exact []) ≤ 1
      → ((x : Text)
          → contains x (get_or exact []) ≡ true
          → satisfies (point_complement x) v ≡ not (x == v))
      → (is_some exact ≡ true → is_some (unless a r) ≡ false)
      → (is_some (carved_whole exact (unless a w))
          || any (hits v) (carved_ranges exact (unless a w) (get_or (unless a r) [])))
        ≡ (not a && (is_some w && not (contains v (get_or exact [])) || any (hits v) (get_or r [])))
  unfolding contains any point_entries
  decide_one v true none w r ne one point clear = refl
  decide_one v false none none r ne one point clear = refl
  decide_one v false none (some w) r ne one point clear = refl
  decide_one v a (some []) w r ne one point clear = absurd (ne refl)
  decide_one v true (some (x ∷ [])) w r ne one point clear = refl
  decide_one v false (some (x ∷ [])) none none ne one point clear = refl
  decide_one v false (some (x ∷ [])) none (some es) ne one point clear = cc
  decide_one v false (some (x ∷ [])) (some w) none ne one point clear =
      unfold sort_by in rw (point x (ground (arith, text_eq_iff x x))) (ground arith)
  decide_one v false (some (x ∷ [])) (some w) (some es) ne one point clear = cc (clear refl)
  decide_one v a (some (x ∷ y ∷ xs)) w r ne one point clear = absurd (omega arith)

  covered_by_scope-sorted :
      (n : Text) (scopes : List Text)
      → covered_by_scope n (sorted scopes) ≡ covered_by_scope n scopes
  unfolding covered_by_scope
  covered_by_scope-sorted n scopes = rw (contains-sort_by text_leb (before_slash n) scopes)

  sorted-blocks :
      (scopes : List Text) (d : Denies) (n v : Text)
      → blocks
          (record { scopes = sorted scopes; packages = sorted (keys d.whole); ranges = d.ranges })
          n
          v
        ≡ (covered_by_scope n scopes
            || (is_some (get n d.whole) || any (hits v) (items_at n d.ranges)))
  unfolding blocks
  sorted-blocks scopes d n v = rw (
    covered_by_scope-sorted n scopes,
    contains-sort_by text_leb n (keys d.whole),
    contains-keys n d.whole,
  )

  -- The sorting changes nothing.
  pub resolve_npm-blocks :
      (adapter : Adapter) (eco : EcosystemRules) {r : Resolved}
      → resolve_npm eco adapter ≡ ok r
      → (n v : Text)
      → (d : Denies) × (resolve_denies adapter eco ≡ ok d)
        × (blocks r n v ≡ (
            covered_by_scope n (scopes_of eco)
            || (is_some (get n d.whole) || any (hits v) (items_at n d.ranges))))
  unfolding resolve_npm
  resolve_npm-blocks adapter eco {r} h n v =
      let (d, d_ok, h) = >>=-eq-ok (resolve_denies adapter eco) _ h in
      (
        d,
        d_ok,
        subst
            (λ (x : Resolved). blocks x n v ≡ (
              covered_by_scope n (scopes_of eco)
              || (is_some (get n d.whole) || any (hits v) (items_at n d.ranges))))
            (ok-injective h) (sorted-blocks (scopes_of eco) d n v),
      )

  -- A carved range that the version satisfies blocks it.
  carved-hit :
      (v : Text) (reason : Option Text) (x : Text) (vs : List Text)
      → contains x vs ≡ true
      → satisfies (point_complement x) v ≡ true
      → any (hits v) (point_entries reason vs) ≡ true
  unfolding point_entries any contains
  carved-hit v reason x [] m s = m
  carved-hit v reason x (y ∷ vs) m s = ground (arith, carved-hit v reason x vs, text_eq_iff y x)

  carved_ranges-hit :
      (v : Text) (reason : Option Text) (x : Text) (exact : Option (List Text))
      (r : Option (List (Text × Option Text)))
      → contains x (get_or exact []) ≡ true
      → (is_some exact ≡ true → is_some r ≡ false)
      → satisfies (point_complement x) v ≡ true
      → any (hits v) (carved_ranges exact (some reason) (get_or r [])) ≡ true
  unfolding contains
  carved_ranges-hit v reason x none r m clear s = cc
  carved_ranges-hit v reason x (some vs) (some es) m clear s = cc (clear refl)
  carved_ranges-hit v reason x (some vs) none m clear s =
      carved-hit v reason x (sorted vs) (contains-sort_by text_leb x vs ∙ m) s

  no_range :
      (v : Text) (exact : Option (List Text)) (r : Option (List (Text × Option Text)))
      → contains v (get_or exact []) ≡ true
      → (is_some exact ≡ true → is_some r ≡ false)
      → any (hits v) (get_or r []) ≡ false
  unfolding contains any
  no_range v none r m clear = cc
  no_range v (some vs) none m clear = refl
  no_range v (some vs) (some es) m clear = cc (clear refl)

  module _ (adapter : Adapter) (eco : EcosystemRules) (c : IsClassified eco) {d : Denies}
      (resolved : resolve_denies adapter eco ≡ ok d) (n v : Text) where
    -- The two loops, one after the other.
    after_loops :
        Outcome
          (get n eco.exact_allows)
          (unless (contains n eco.whole_allows) (get n eco.whole_denies))
          (unless (contains n eco.whole_allows) (get n eco.range_denies))
          d
          n
    after_loops =
        let (d1, wholes, exacts) = two_loops adapter eco resolved in
        let start = copied-IsDenies eco c in
        let copied = copy_deny_buckets eco in
        let u = allow_wholes-IsDenies (scopes_of eco) eco.whole_allows copied wholes start in
        let (w, r) = get-allow_wholes (scopes_of eco) eco.whole_allows copied wholes start n in
        Carved-Outcome eco.exact_allows d1 d n
          (allow_exacts-Carved adapter eco.exact_allows d1 exacts c.exact u.0 n)
          (unfold copy_deny_buckets in w) (unfold copy_deny_buckets in r)

    decides :
        length (items_at n eco.exact_allows) ≤ 1
        → ((x : Text)
            → contains x (items_at n eco.exact_allows) ≡ true
            → satisfies (point_complement x) v ≡ not (x == v))
        → (is_some (get n d.whole) || any (hits v) (items_at n d.ranges)) ≡ (
            not (contains n eco.whole_allows)
            && (is_some (get n eco.whole_denies) && not (contains v (items_at n eco.exact_allows))
                || any (hits v) (items_at n eco.range_denies)))
    decides one point =
        let (w, r, clear) = after_loops in
        rw (w, r)
          (decide_one v (contains n eco.whole_allows) (get n eco.exact_allows)
            (get n eco.whole_denies) (get n eco.range_denies) (c.some_version n) one point clear)

    -- No range that blocks is denied where an exact version is allowed, and the package is not.
    unranged :
        contains n eco.whole_allows ≡ false
        → contains v (items_at n eco.exact_allows) ≡ true
        → any (hits v) (items_at n eco.range_denies) ≡ false
    unranged unlisted m =
        no_range v (get n eco.exact_allows) (get n eco.range_denies) m
          (rw unlisted at (after_loops.2))

    -- The range carved out for an allowed version other than this one blocks this one.
    carved-blocks :
        (x : Text) {reason : Option Text}
        → contains n eco.whole_allows ≡ false
        → get n eco.whole_denies ≡ some reason
        → contains x (items_at n eco.exact_allows) ≡ true
        → satisfies (point_complement x) v ≡ true
        → any (hits v) (items_at n d.ranges) ≡ true
    carved-blocks x {reason} unlisted whole m s =
        let (w, r, clear) = after_loops in
        rw (r, unlisted, whole)
          (carved_ranges-hit v reason x (get n eco.exact_allows) (get n eco.range_denies) m
            (rw unlisted at clear) s)

or_hit : (a b : Bool) {c : Bool} → c ≡ true → (a || (b || c)) ≡ true
or_hit a b h = ground arith

-- An allow wins over each deny where no namespace is denied that covers what it allows, and no range.
allow_wins :
    (cov wa ce w hit : Bool)
    → (cov ≡ true → (wa || ce) ≡ false)
    → (wa ≡ false → ce ≡ true → hit ≡ false)
    → (cov || (not wa && (w && not ce || hit))) ≡ (not (wa || ce) && (cov || (w || hit)))
allow_wins cov wa ce w hit free clear = ground arith

module _ (satisfies : Satisfies) (adapter : Adapter) (rules : List Rule) {eco : EcosystemRules}
    {r : Resolved} (classified : classify rules npm adapter ≡ ok eco)
    (resolved : resolve_npm eco adapter ≡ ok r) (n v : Text) where
  -- Where the rules are classified and resolved without an error, at most one exact version of the
  -- package is allowed, a version satisfies the range `<x || >x` of an allowed x exactly if it is not
  -- x, and no denied namespace covers a package that is allowed as a whole or at this version, the
  -- artifact blocks this version of the package exactly if the rules deny it: if neither the package
  -- nor the version is allowed, and its namespace, the whole package or a range that the version
  -- satisfies is denied.
  pub resolve_npm-decides :
      length (items_at n eco.exact_allows) ≤ 1
      → ((x : Text)
          → contains x (items_at n eco.exact_allows) ≡ true
          → satisfies (point_complement x) v ≡ not (x == v))
      → (covered_by_scope n (scopes_of eco) ≡ true
          → (contains n eco.whole_allows || contains v (items_at n eco.exact_allows)) ≡ false)
      → blocks satisfies r n v ≡ denied satisfies eco n v
  unfolding denied
  resolve_npm-decides one point free =
      let (d, d_ok, e) = resolve_npm-blocks satisfies adapter eco resolved n v in
      let c = classify-IsClassified rules npm adapter classified in
      e
      ∙ ap (◌||◌ (covered_by_scope n (scopes_of eco)))
          (decides satisfies adapter eco c d_ok n v one point)
      ∙ allow_wins (covered_by_scope n (scopes_of eco)) (contains n eco.whole_allows)
          (contains v (items_at n eco.exact_allows)) (is_some (get n eco.whole_denies))
          (any (hits satisfies v) (items_at n eco.range_denies)) free
          (unranged satisfies adapter eco c d_ok n v)

  -- Where the rules are classified and resolved without an error, two exact versions allowed against
  -- a deny of a package that is not allowed as a whole un-block nothing: every version that
  -- satisfies the range `<x || >x` of each of the two exactly if it is not x is blocked, and so are
  -- the two allowed ones.
  pub two_exact_allows-blocked :
      (x y : Text) {reason : Option Text}
      → x ≢ y
      → contains n eco.whole_allows ≡ false
      → get n eco.whole_denies ≡ some reason
      → contains x (items_at n eco.exact_allows) ≡ true
      → contains y (items_at n eco.exact_allows) ≡ true
      → satisfies (point_complement x) v ≡ not (x == v)
      → satisfies (point_complement y) v ≡ not (y == v)
      → blocks satisfies r n v ≡ true
  two_exact_allows-blocked x y ne unlisted whole mx my px py =
      let (d, d_ok, e) = resolve_npm-blocks satisfies adapter eco resolved n v in
      let c = classify-IsClassified rules npm adapter classified in
      e
      ∙ or_hit _ _ (elim (Bool-cases (x == v)) [
        | inl same ↦
            carved-blocks satisfies adapter eco c d_ok n v y unlisted whole my
              (py ∙ ground (arith, text_eq_iff x v, text_eq_iff y v))
        | inr other ↦
            carved-blocks satisfies adapter eco c d_ok n v x unlisted whole mx (px ∙ rw other)
      ])
