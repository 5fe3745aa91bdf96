-- ===== src/Osv/Records.antt =====
-- The records of a package in policy-sync/policy_sync/osv.py, and the versions that they name. A
-- set of texts is a list in which none stands twice.
pub mod Ecosystem
pub mod Verdicts
pub mod Wanted
pub mod Pages
use mathlib.Core.Option.{get_or}
use artea.Base.{
  Bool, true, false, not, ◌&&◌, ◌||◌, Option, none, some, List, [], ◌∷◌, map, Text, codes, eq_text,
  ◌==◌, Result, ok, err, if◌then◌else◌, contains,
}
use artea.Base.Dict.{Dict, get, put, add, values}
use artea.Base.Lists.{any, keep}
use artea.Base.Sort.{sorted}
use artea.Base.Strip.{starts_with}
use artea.Policy.{npm}
use artea.Adapters.{Adapter}
use artea.Osv.{Verdict, OsvError}
use artea.Osv.Json.{Json, string, array, object, Members, items, at, truthy}
use artea.Osv.Decide.{adapters}
use artea.Osv.Semver.{semver_range_affected_versions}

-- `value or []`, if it is a list
unfoldable pub list_of : Json → Option (List Json)
unfolding truthy items
list_of (array js) = some (items js)
list_of j = if truthy j then none else some []

-- The normalized name is the one that is asked for; a name that is refused is not.
unfoldable pub names : Adapter → Text → Text → Bool
names adapter raw_name name = elim (adapter.normalize_name raw_name) [
  | err e ↦ false
  | ok n ↦ n == name
]

-- The first adapter of the ecosystem decides.
unfoldable pub names_in : List Adapter → Text → Text → Text → Bool
unfolding names
names_in [] osv_ecosystem raw_name name = false
names_in (a ∷ rest) osv_ecosystem raw_name name =
    if a.osv_ecosystem == osv_ecosystem
    then names a raw_name name
    else names_in rest osv_ecosystem raw_name name

unfoldable pub is_named : Json → Text → Text → Bool
unfolding names_in
is_named (string raw_name) osv_ecosystem name =
    names_in (values adapters) osv_ecosystem raw_name name
is_named j osv_ecosystem name = false

unfoldable pub is_ecosystem : Json → Text → Bool
is_ecosystem (string s) osv_ecosystem = s == osv_ecosystem
is_ecosystem j osv_ecosystem = false

unfoldable pub matches_package : Json → Text → Text → Bool
unfolding at is_named is_ecosystem
matches_package (object pkg) osv_ecosystem name =
    is_ecosystem (at (codes "ecosystem") pkg) osv_ecosystem
    && is_named (at (codes "name") pkg) osv_ecosystem name
matches_package j osv_ecosystem name = false

-- `_affected_matches_package`
unfoldable pub affected_matches_package : Members → Text → Text → Bool
unfolding matches_package at
affected_matches_package item osv_ecosystem name =
    matches_package (at (codes "package") item) osv_ecosystem name

-- `out.update(version for version in raw_versions if isinstance(version, str) and version)`
unfoldable pub update_texts : List Json → List Text → List Text
unfolding add
update_texts [] out = out
update_texts (string (c ∷ s) ∷ js) out = update_texts js (add (c ∷ s) out)
update_texts (j ∷ js) out = update_texts js out

unfoldable pub update : List Text → List Text → List Text
unfolding add
update [] out = out
update (v ∷ vs) out = update vs (add v out)

-- What the loops over `affected` carry: whether an entry was decided, and the versions so far.
abbrev pub Found : Type 0
Found = Bool × List Text

unfoldable pub add_versions : Text → Json → Found → Option Found
unfolding update_texts items
add_versions osv_ecosystem (array raw_versions) found =
    if osv_ecosystem == npm then some (true, update_texts (items raw_versions) found.1) else none
add_versions osv_ecosystem j found = some found

unfoldable pub add_ranges : List Json → List Text → List Text → Option (List Text)
unfolding update semver_range_affected_versions
add_ranges [] wanted out = some out
add_ranges (object raw_range ∷ js) wanted out =
    elim (semver_range_affected_versions raw_range wanted) [
      | none ↦ none
      | some vs ↦ add_ranges js wanted (update vs out)
    ]
add_ranges (j ∷ js) wanted out = none

unfoldable pub add_range_list : Json → List Text → List Text → Option Found
unfolding add_ranges items
add_range_list (array raw_ranges) wanted out = elim (add_ranges (items raw_ranges) wanted out) [
  | none ↦ none
  | some vs ↦ some (true, vs)
]
add_range_list j wanted out = none

unfoldable pub add_ranges_of : Text → Json → List Text → Found → Option Found
unfolding add_range_list truthy
add_ranges_of osv_ecosystem raw_ranges wanted found =
    if not (truthy raw_ranges)
    then some found
    else if osv_ecosystem == npm
    then add_range_list raw_ranges wanted found.1
    else none

-- An entry of `affected` in `_locally_affected_versions`
unfoldable pub local_entry : Text → Text → List Text → Json → Found → Option Found
unfolding affected_matches_package add_versions add_ranges_of at
local_entry osv_ecosystem name wanted (object item) found =
    if not (affected_matches_package item osv_ecosystem name)
    then some found
    else elim (add_versions osv_ecosystem (at (codes "versions") item) found) [
      | none ↦ none
      | some more ↦ add_ranges_of osv_ecosystem (at (codes "ranges") item) wanted more
    ]
local_entry osv_ecosystem name wanted j found = some found

-- An entry of `affected` in `_exact_affected_versions`
unfoldable pub exact_versions : Text → Json → Json → Found → Option Found
unfolding add_versions truthy
exact_versions osv_ecosystem (array raw_versions) ranges found =
    add_versions osv_ecosystem (array raw_versions) found
exact_versions osv_ecosystem j ranges found = if truthy ranges then none else some found

unfoldable pub exact_entry : Text → Text → Json → Found → Option Found
unfolding affected_matches_package exact_versions at
exact_entry osv_ecosystem name (object item) found =
    if not (affected_matches_package item osv_ecosystem name)
    then some found
    else exact_versions osv_ecosystem (at (codes "versions") item) (at (codes "ranges") item) found
exact_entry osv_ecosystem name j found = some found

-- The loop over `affected`
unfoldable pub scan : (Json → Found → Option Found) → List Json → Found → Option (List Text)
scan entry [] found = if found.0 then some found.1 else none
scan entry (j ∷ js) found = elim (entry j found) [ none ↦ none | some more ↦ scan entry js more ]

unfoldable pub scan_affected : (Json → Found → Option Found) → Members → Option (List Text)
unfolding scan list_of at
scan_affected entry vuln = elim (list_of (at (codes "affected") vuln)) [
  | none ↦ none
  | some affected ↦ scan entry affected (false, [])
]

unfoldable pub exact_affected_versions : Text → Text → Members → Option (List Text)
unfolding scan_affected exact_entry
exact_affected_versions osv_ecosystem name vuln =
    scan_affected (exact_entry osv_ecosystem name) vuln

unfoldable pub locally_affected_versions : Text → Text → Members → List Text → Option (List Text)
unfolding scan_affected local_entry
locally_affected_versions osv_ecosystem name vuln wanted =
    scan_affected (local_entry osv_ecosystem name wanted) vuln

-- The id of a record, if it is the one of a malicious package.
unfoldable pub mal_id : Json → Option Text
unfolding starts_with
mal_id (string s) = if starts_with s (codes "MAL-") then some s else none
mal_id j = none

unfoldable pub is_malicious : Json → Bool
unfolding mal_id at
is_malicious (object vuln) = elim (mal_id (at (codes "id") vuln)) [ none ↦ false | some i ↦ true ]
is_malicious j = false

unfoldable pub page_has_malicious_record : Members → Bool
unfolding list_of any is_malicious at
page_has_malicious_record page = elim (list_of (at (codes "vulns") page)) [
  | none ↦ false
  | some vulns ↦ any is_malicious vulns
]
