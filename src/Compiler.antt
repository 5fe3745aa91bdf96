-- ===== src/Compiler.antt =====
-- policy-sync/policy_sync/compiler.py: the rules of one ecosystem, classified. The emitters are
-- `Compiler/Npm.antt` and `Compiler/Pypi.antt`, and `compile_policy` is `Compiler/Compile.antt`.
pub mod Laws
pub mod Quote
pub mod Npm
pub mod Pypi
pub mod Compile
use artea.Base.{
  ℕ, suc, Bool, true, false, not, Option, none, some, List, [], ◌∷◌, Text, eq_text, ◌==◌, Result,
  ok, err, ◌>>=◌, ◌>>◌, raise_if, is_some, if◌then◌else◌,
}
use artea.Base.Dict.{Dict, get, put, push, remove, add, items_at}
use artea.Policy.{
  PolicyError, Action, deny, allow, Rule, no_namespaces, bad_range, allow_range, nameless,
  range_carving,
}
use artea.Adapters.{Adapter}

-- `list[tuple[str, str | None]]`: the ranges that are denied for a package, with their reasons.
abbrev pub Ranges : Type 0
Ranges = Dict Text (List (Text × Option Text))

-- `_EcosystemRules`; a set is a list in which no value stands twice.
pub record EcosystemRules : Type 0 where
  pub namespace_denies : List Text
  pub whole_denies : Dict Text (Option Text)
  pub range_denies : Ranges
  pub whole_allows : List Text
  pub exact_allows : Dict Text (List Text)
  pub namespace_allows : List Text

abbrev pub no_rules : EcosystemRules
no_rules = record {
  namespace_denies = [];
  whole_denies = [];
  range_denies = [];
  whole_allows = [];
  exact_allows = [];
  namespace_allows = [];
}

-- `exact_allows.setdefault(name, set()).add(v)`
unfoldable pub add_exact : Text → Text → Dict Text (List Text) → Dict Text (List Text)
add_exact name v d = put name (add v (items_at name d)) d

unfoldable pub add_namespace : Action → Text → EcosystemRules → EcosystemRules
add_namespace deny ns out = record out { namespace_denies = add ns out.namespace_denies }
add_namespace allow ns out = record out { namespace_allows = add ns out.namespace_allows }

unfoldable pub add_whole : Action → Text → Option Text → EcosystemRules → EcosystemRules
add_whole deny name reason out = record out { whole_denies = put name reason out.whole_denies }
add_whole allow name reason out = record out { whole_allows = add name out.whole_allows }

module _ (adapter : Adapter) (ecosystem : Text) where
  unfoldable pub classify_namespace :
      ℕ → Rule → Text → EcosystemRules → Result PolicyError EcosystemRules
  classify_namespace i rule namespace out =
      if adapter.supports_namespace
      then (do ns ← adapter.normalize_namespace namespace; ok (add_namespace rule.action ns out))
      else err (no_namespaces i ecosystem)

  -- The error of the range, under the rule and the package that it belongs to.
  unfoldable pub check_range : ℕ → Text → Text → Result PolicyError (Unit {0})
  check_range i name range = elim (adapter.validate_range range) [
    | ok _ ↦ ok tt
    | err e ↦ err (bad_range i ecosystem name e)
  ]

  unfoldable pub classify_range :
      Action → ℕ → Text → Text → Option Text → EcosystemRules → Result PolicyError EcosystemRules
  classify_range deny i name range reason out =
      ok (record out { range_denies = push name (range, reason) out.range_denies })
  classify_range allow i name range reason out =
      if adapter.is_exact range
      then (do
        v ← adapter.exact_value range
        ok (record out { exact_allows = add_exact name v out.exact_allows }))
      else err (allow_range i range)

  unfoldable pub classify_name :
      ℕ → Rule → Option Text → Text → EcosystemRules → Result PolicyError EcosystemRules
  classify_name i rule none name out = ok (add_whole rule.action name rule.reason out)
  classify_name i rule (some range) name out = do
    check_range i name range
    classify_range rule.action i name range rule.reason out

  -- A rule of this ecosystem. One with neither name nor namespace, which no parsed rule is, fails
  -- in the adapter.
  unfoldable pub classify_target :
      ℕ → Rule → Option Text → Option Text → EcosystemRules → Result PolicyError EcosystemRules
  classify_target i rule (some ns) name out = classify_namespace i rule ns out
  classify_target i rule none none out = err (nameless i)
  classify_target i rule none (some raw) out = do
    name ← adapter.normalize_name raw
    classify_name i rule rule.versions name out

  unfoldable pub classify_rule : ℕ → Rule → EcosystemRules → Result PolicyError EcosystemRules
  classify_rule i rule out =
      if rule.ecosystem == ecosystem
      then classify_target i rule rule.namespace rule.name out
      else ok out

  unfoldable pub classify_from : ℕ → List Rule → EcosystemRules → Result PolicyError EcosystemRules
  classify_from i [] out = ok out
  classify_from i (rule ∷ rules) out = do
    out' ← classify_rule i rule out
    classify_from (suc i) rules out'

-- `_classify`
unfoldable pub classify : List Rule → Text → Adapter → Result PolicyError EcosystemRules
classify rules ecosystem adapter = classify_from adapter ecosystem 0 rules no_rules

-- The buckets that an emitter changes.
pub record Denies : Type 0 where
  pub whole : Dict Text (Option Text)
  pub ranges : Ranges

-- `_copy_deny_buckets`
unfoldable pub copy_deny_buckets : EcosystemRules → Denies
copy_deny_buckets eco = record { whole = eco.whole_denies; ranges = eco.range_denies }

-- `_reject_range_carving`
unfoldable pub reject_range_carving : Text → Ranges → Text → Result PolicyError (Unit {0})
reject_range_carving name ranges ecosystem =
    raise_if (is_some (get name ranges)) (range_carving ecosystem name)

-- `whole.pop(name, None); ranges.pop(name, None)`
unfoldable pub drop_denies : Text → Denies → Denies
drop_denies name d = record { whole = remove name d.whole; ranges = remove name d.ranges }
