-- ===== src/Compiler/Npm/Scope.antt =====
-- An allow of a package under a denied namespace (`_resolve_npm` of policy-sync/policy_sync/compiler.py).
use mathlib.Core.Path.{subst}
use artea.Base.{
  ◌≡◌, refl, ◌∙◌, Bool, true, false, ◌||◌, List, [], ◌∷◌, Text, eq_text, text_eq_iff, ◌==◌,
  contains, ok, >>=-eq-ok, is_some, arith, Bool-cases, inl, inr, raise_if-eq-ok,
}
use artea.Base.Dict.{get, get-remove}
use artea.Policy.{Rule, npm, allow_in_scope}
use artea.Adapters.{Adapter}
use artea.Compiler.{EcosystemRules, Denies, copy_deny_buckets, drop_denies, classify}
use artea.Compiler.Laws.{classify-IsClassified}
use artea.Compiler.Npm.{
  scopes_of, covered_by_scope, allow_whole, allow_wholes, Resolved, resolve_npm,
}
use artea.Compiler.Npm.Allows.{IsDenies, allow_whole-eq, drop_denies-IsDenies}
use artea.Compiler.Npm.Decides.{Satisfies, blocks, resolve_npm-blocks, two_loops, copied-IsDenies}

abbrev has_deny : Text → Denies → Bool
has_deny n d = is_some (get n d.whole) || is_some (get n d.ranges)

drop_denies-other :
    (name n : Text) (d : Denies)
    → IsDenies d
    → (name == n) ≡ false
    → has_deny n (drop_denies name d) ≡ has_deny n d
unfolding drop_denies
drop_denies-other name n d u other =
    rw (get-remove name n d.whole u.0, get-remove name n d.ranges u.1, other) refl

allow_whole-had :
    (scopes : List Text) (n : Text) (d : Denies) {d' : Denies}
    → covered_by_scope n scopes ≡ true
    → allow_whole scopes n d ≡ ok d'
    → has_deny n d ≡ true
unfolding allow_whole
allow_whole-had scopes n d cov h =
    let (passed, _) = raise_if-eq-ok _ allow_in_scope (ok (drop_denies n d)) h in
    ground (arith, cov, passed)

-- What is allowed under a denied namespace without an error is denied by its name.
allow_wholes-had :
    (scopes names : List Text) (d : Denies) {d' : Denies} (n : Text)
    → covered_by_scope n scopes ≡ true
    → allow_wholes scopes names d ≡ ok d'
    → IsDenies d
    → contains n names ≡ true
    → has_deny n d ≡ true
unfolding allow_wholes contains
allow_wholes-had scopes [] d n cov h u m = cc
allow_wholes-had scopes (name ∷ names) d n cov h u m =
    let (d1, one, h) = >>=-eq-ok (allow_whole scopes name d) _ h in
    let e = allow_whole-eq scopes name d one in
    let u1 = subst IsDenies e (drop_denies-IsDenies name d u) in
    elim (Bool-cases (name == n)) [
      | inl t ↦
          let same : name ≡ n = (text_eq_iff name n).0 t in
          allow_whole-had scopes n d cov (rw same at one)
      | inr t ↦
          let later = allow_wholes-had scopes names d1 n cov h u1 (ground (arith, t, m)) in
          let kept : has_deny n d1 ≡ has_deny n d =
            subst (λ (x : Denies). has_deny n x ≡ has_deny n d) e
              (drop_denies-other name n d u t) in
          rw (← kept) later
    ]

module _ (satisfies : Satisfies) (adapter : Adapter) (rules : List Rule) {eco : EcosystemRules}
    {r : Resolved} (classified : classify rules npm adapter ≡ ok eco)
    (resolved : resolve_npm eco adapter ≡ ok r) (n v : Text) where
  -- Where the rules are classified and resolved without an error, a package that is allowed as a whole
  -- under a denied namespace is denied by its name as well, and the allow has no effect: the artifact
  -- blocks each of its versions.
  pub allowed_in_scope-blocked :
      covered_by_scope n (scopes_of eco) ≡ true
      → contains n eco.whole_allows ≡ true
      → ((is_some (get n eco.whole_denies) || is_some (get n eco.range_denies)) ≡ true)
        × (blocks satisfies r n v ≡ true)
  unfolding copy_deny_buckets
  allowed_in_scope-blocked cov allowed =
      let (d, d_ok, e) = resolve_npm-blocks satisfies adapter eco resolved n v in
      let (d1, wholes, exacts) = two_loops adapter eco d_ok in
      let c = classify-IsClassified rules npm adapter classified in
      (
        allow_wholes-had (scopes_of eco) eco.whole_allows (copy_deny_buckets eco) n cov wholes
            (copied-IsDenies eco c) allowed,
        e ∙ rw cov refl,
      )
