-- ===== src/Devpi/Plugin/Constraints.antt =====
-- `parse_constraints` and the checks of an index config in
-- devpi/artea_devpi_policy/src/artea_devpi_policy/main.py
pub mod Unique
use mathlib.Core.Option.{get_or}
use artea.Base.{
  Bool, true, false, ◌||◌, Option, none, some, List, [], ◌∷◌, ◌++◌, map, Text, codes, eq_text, ◌==◌,
  nat_eq, if◌then◌else◌, is_some, Result, ok, err, ◌>>=◌, ◌>>◌, is_ok, ◌&&◌,
}
use artea.Base.Dict.{Dict, get, put}
use artea.Base.Lists.{any}
use artea.Base.Strip.{strip, strip_right}
use artea.Osv.Json.{
  Json, null, boolean, number, string, array, object, Members, array_of, items, find,
}
use artea.Devpi.Lines.{constraint_lines}
use artea.Devpi.Plugin.{
  Packaging, PluginError, unparsable, attribute_error, key_error, already_exists, bad_pypi_json_url,
  bad_osv_url, invalid_index_config,
}
use artea.Devpi.Plugin.Duration.{parse_iso_duration_seconds}

-- `ConstraintsDict`
pub record Constraints (Specifier : Type 0) : Type 0 where
  pub constrain_all : Bool
  pub entries : Dict Text Specifier

module _ (pkg : Packaging) where
  abbrev pub ConstraintsDict : Type 0
  ConstraintsDict = Constraints pkg.Specifier

  abbrev pub no_constraints : ConstraintsDict
  no_constraints = record { constrain_all = false; entries = [] }

  -- A constraint that is not `*`
  unfoldable pub add_requirement :
      Option (Text × pkg.Specifier) → ConstraintsDict → Result PluginError ConstraintsDict
  unfolding get put
  add_requirement none result = err unparsable
  add_requirement (some (project, specifier)) result =
      if is_some (get project result.entries)
      then err (already_exists project)
      else ok (record result { entries = put project specifier result.entries })

  unfoldable pub add_constraint : Text → ConstraintsDict → Result PluginError ConstraintsDict
  unfolding add_requirement
  add_constraint constraint result =
      if constraint == codes "*"
      then ok (record result { constrain_all = true })
      else add_requirement (pkg.parse_requirement constraint) result

  unfoldable pub add_constraints : List Text → ConstraintsDict → Result PluginError ConstraintsDict
  unfolding add_constraint
  add_constraints [] result = ok result
  add_constraints (c ∷ cs) result = do more ← add_constraint c result; add_constraints cs more

  -- `parse_constraints` of a list
  unfoldable pub parse_constraints : List Text → Result PluginError ConstraintsDict
  unfolding add_constraints
  parse_constraints lines = add_constraints lines no_constraints

unfoldable pub texts_of : List Json → Option (List Text)
texts_of [] = some []
texts_of (string s ∷ js) = elim (texts_of js) [ none ↦ none | some ss ↦ some (s ∷ ss) ]
texts_of (j ∷ js) = none

module _ (pkg : Packaging) where
  -- `parse_constraints` of an index property; what is no text does not parse.
  unfoldable pub parse_constraints_of : Option Json → Result PluginError (ConstraintsDict pkg)
  unfolding constraint_lines parse_constraints texts_of items
  parse_constraints_of none = err key_error
  parse_constraints_of (some (string s)) = parse_constraints pkg (constraint_lines s)
  parse_constraints_of (some (array js)) = elim (texts_of (items js)) [
    | none ↦ err unparsable
    | some lines ↦ parse_constraints pkg lines
  ]
  parse_constraints_of (some j) = err attribute_error

  -- `validate_config`
  unfoldable pub validate_config : Members → Result PluginError (Unit {0})
  unfolding parse_constraints_of parse_iso_duration_seconds find
  validate_config newconfig =
      if is_ok (parse_constraints_of (find (codes "constraints") newconfig))
        && is_ok (
            parse_iso_duration_seconds
              (get_or (find (codes "min_upstream_age") newconfig) (string (codes "P0D"))))
      then ok tt
      else err invalid_index_config

unfoldable pub is_blank : Text → Bool
is_blank [] = true
is_blank (c ∷ s) = false

-- `value.rstrip("/")`
unfoldable pub rstrip_slash : Text → Text
unfolding strip_right
rstrip_slash s = strip_right (nat_eq b'/') s

-- `normalize_indexconfig_value`, for each of its keys
unfoldable pub normalize_constraints : Json → Result PluginError Json
unfolding constraint_lines
normalize_constraints (array js) = ok (array js)
normalize_constraints (string s) = ok (array (array_of (map string (constraint_lines s))))
normalize_constraints j = err attribute_error

unfoldable pub normalize_min_age : Json → Result PluginError Json
unfolding parse_iso_duration_seconds
normalize_min_age j = do seconds ← parse_iso_duration_seconds j; ok j

unfoldable pub normalize_pypi_json_url : Json → Result PluginError Json
unfolding strip rstrip_slash
normalize_pypi_json_url (string s) =
    if is_blank (strip s) then err bad_pypi_json_url else ok (string (rstrip_slash s))
normalize_pypi_json_url j = err bad_pypi_json_url

unfoldable pub normalize_osv_url : Json → Result PluginError Json
unfolding rstrip_slash
normalize_osv_url null = ok (string [])
normalize_osv_url (string s) = ok (string (rstrip_slash s))
normalize_osv_url j = err bad_osv_url

unfoldable pub normalize_indexconfig_value : Text → Json → Result PluginError Json
unfolding normalize_constraints normalize_min_age normalize_pypi_json_url normalize_osv_url
normalize_indexconfig_value key value =
    if key == codes "constraints"
    then normalize_constraints value
    else if key == codes "min_upstream_age"
    then normalize_min_age value
    else if key == codes "pypi_json_url"
    then normalize_pypi_json_url value
    else if key == codes "osv_url"
    then normalize_osv_url value
    else ok value
