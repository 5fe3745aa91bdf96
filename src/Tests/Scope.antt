-- ===== src/Tests/Scope.antt =====
-- A package of a denied namespace that is denied by its name and allowed.
use artea.Base.{
  ◌≡◌, refl, true, none, some, List, [], ◌∷◌, Text, codes, eq_text, text_eq, text_leb, ok, is_some,
  ◌||◌, contains,
}
use artea.Base.Dict.{get, put, add, remove}
use artea.Base.Lists.{keep}
use artea.Base.Sort.{sort_by}
use artea.Base.Strip.{starts_with}
use artea.Policy.{Rule, Action, deny, allow, npm}
use artea.Adapters.{npm_adapter}
use artea.Adapters.Npm
use artea.Compiler.{
  EcosystemRules, classify, classify_from, classify_rule, classify_target, classify_name,
  classify_namespace, add_whole, add_namespace, copy_deny_buckets, drop_denies,
}
use artea.Compiler.Npm.{
  Resolved, resolve_npm, resolve_denies, allow_wholes, allow_whole, allow_exacts, scopes_of,
  covered_by_scope, before_slash,
}
use artea.Compiler.Npm.Decides.{blocks}
use artea.Compiler.Npm.Scope.{allowed_in_scope-blocked}

abbrev evil_pkg : Text
evil_pkg = codes "@evil/pkg"

abbrev named : Action → Rule
named action = record {
  ecosystem = npm;
  name = some evil_pkg;
  namespace = none;
  versions = none;
  action = action;
  reason = none;
  source = codes "manual";
  expires = none;
}

abbrev scope_rules : List Rule
scope_rules =
    record (named deny) { name = none; namespace = some (codes "@evil") }
    ∷ named deny
    ∷ named allow
    ∷ []

abbrev scope_eco : EcosystemRules
scope_eco = record {
  namespace_denies = codes "@evil" ∷ [];
  whole_denies = (evil_pkg, none) ∷ [];
  range_denies = [];
  whole_allows = evil_pkg ∷ [];
  exact_allows = [];
  namespace_allows = [];
}

scope_classified : classify scope_rules npm npm_adapter ≡ ok scope_eco
unfolding classify classify_from classify_rule classify_target classify_name classify_namespace
    add_whole add_namespace put get add contains text_eq Npm.normalize_name Npm.supports_namespace
    Npm.normalize_namespace
scope_classified = refl

abbrev scope_resolved : Resolved
scope_resolved = record { scopes = codes "@evil" ∷ []; packages = []; ranges = [] }

scope_resolves : resolve_npm scope_eco npm_adapter ≡ ok scope_resolved
unfolding resolve_npm resolve_denies allow_wholes allow_whole allow_exacts scopes_of
    covered_by_scope before_slash keep contains copy_deny_buckets drop_denies get remove text_eq
    sort_by text_leb starts_with
scope_resolves = refl

allowed_in_scope-blocked_example :
    ((is_some (get evil_pkg scope_eco.whole_denies)
        || is_some (get evil_pkg scope_eco.range_denies))
      ≡ true)
    × (blocks (λ range v. true) scope_resolved evil_pkg (codes "1.0.0") ≡ true)
allowed_in_scope-blocked_example =
    allowed_in_scope-blocked (λ range v. true) npm_adapter scope_rules scope_classified
      scope_resolves evil_pkg (codes "1.0.0")
      (unfold covered_by_scope before_slash scopes_of keep contains text_eq starts_with in refl)
      (unfold contains text_eq in refl)
