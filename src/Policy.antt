-- ===== src/Policy.antt =====
-- policy-sync/policy_sync/policy_model.py: the unified policy. `Policy/Parse.antt` has the parser.
pub mod MinAge
pub mod Parse
use mathlib.Core.Option.{get_or}
use artea.Base.{ℕ, Bool, Option, List, [], ◌∷◌, Text, codes, eq_text}
use artea.Base.Dict.{Dict, get}
use artea.Value.{Value}

-- `PolicyError`, with a constructor for each message and what the message shows. `Place` is the
-- `where` of the messages.
pub data Place : Type 0 where
  at_rule : ℕ → Place
  at_defaults at_upstream at_osv : Place
  at_ecosystem : Text → Place

pub data PolicyError : Type 0 where
  not_utf8 not_toml bad_upstream bad_osv bad_malicious bad_rules bad_defaults bad_ecosystems :
      PolicyError
  bad_schema : Value → PolicyError
  min_age_type min_age_syntax min_age_negative : PolicyError
  unknown_top_level : List Text → PolicyError
  unknown_key : Place → List Text → PolicyError
  bad_action : Place → PolicyError
  bad_override : Text → PolicyError
  rule_type ecosystem_required name_or_namespace bad_name bad_namespace reserved_name
        versions_with_namespace bad_versions bad_reason bad_source bad_expires :
      ℕ → PolicyError
  unknown_ecosystem : ℕ → Text → PolicyError
  -- adapters.py
  invalid_semver_range not_exact_npm invalid_pypi_name invalid_specifier not_exact_pypi
        not_invertible :
      Text → PolicyError
  pypi_has_no_namespaces : PolicyError
  -- compiler.py
  nameless : ℕ → PolicyError
  no_namespaces : ℕ → Text → PolicyError
  bad_range : ℕ → Text → Text → PolicyError → PolicyError
  allow_range : ℕ → Text → PolicyError
  range_carving : Text → Text → PolicyError
  allow_in_scope npm_default_deny : PolicyError
  no_carve_out : Text → Text → PolicyError
  not_one_specifier empty_allow_set : Text → Text → PolicyError
  several_exact_allows : Text → List Text → PolicyError
  -- osv.py
  osv_unknown_ecosystem : Text → PolicyError
  bad_osv_version : PolicyError

pub data Action : Type 0 where
  deny allow : Action

pub record Rule : Type 0 where
  pub ecosystem : Text
  pub name : Option Text
  pub namespace : Option Text
  pub versions : Option Text
  pub action : Action
  pub reason : Option Text
  pub source : Text
  pub expires : Option Text

pub record Defaults : Type 0 where
  pub action : Action
  pub ecosystems : Dict Text Action

unfoldable pub for_ecosystem : Defaults → Text → Action
unfolding get
for_ecosystem d ecosystem = get_or (get ecosystem d.ecosystems) d.action

pub record Policy : Type 0 where
  pub schema : Value
  pub defaults : Defaults
  pub rules : List Rule
  pub min_age : Text
  pub osv_malicious_packages : Bool

abbrev pub npm : Text
npm = codes "npm"

abbrev pub pypi : Text
pypi = codes "pypi"

abbrev pub known_ecosystems : List Text
known_ecosystems = npm ∷ pypi ∷ []
