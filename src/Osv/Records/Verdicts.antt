-- ===== src/Osv/Records/Verdicts.antt =====
-- The verdicts that the records of a package give in policy-sync/policy_sync/osv.py.
use mathlib.Core.Option.{get_or}
use artea.Base.{
  Bool, true, false, Option, none, some, List, [], ◌∷◌, Text, codes, eq_text, Result, ok, err,
  if◌then◌else◌, contains,
}
use artea.Base.Dict.{Dict, get, put, add}
use artea.Base.Lists.{keep}
use artea.Base.Sort.{sorted}
use artea.Osv.{Verdict, OsvError, package_shape}
use artea.Osv.Json.{Json, object, Members, at}
use artea.Osv.Records.{list_of, mal_id, locally_affected_versions}

-- `ids_by_version`, which has each wanted version as a key
abbrev pub IdsByVersion : Type 0
IdsByVersion = Dict Text (List Text)

unfoldable pub add_id : Text → List Text → IdsByVersion → IdsByVersion
unfolding get put add
add_id vuln_id [] ids = ids
add_id vuln_id (v ∷ vs) ids = add_id vuln_id vs (put v (add vuln_id (get_or (get v ids) [])) ids)

unfoldable pub apply_vuln : Text → Text → List Text → Json → IdsByVersion → Bool × IdsByVersion
unfolding mal_id at locally_affected_versions add_id contains keep
apply_vuln osv_ecosystem name wanted (object vuln) ids = elim (mal_id (at (codes "id") vuln)) [
  | none ↦ (true, ids)
  | some vuln_id ↦ elim (locally_affected_versions osv_ecosystem name vuln wanted) [
    | none ↦ (false, ids)
    | some vs ↦ (true, add_id vuln_id (keep (λ v. contains v vs) wanted) ids)
  ]
]
apply_vuln osv_ecosystem name wanted j ids = (true, ids)

-- `_apply_package_vulns`: whether every record was decided, with the ids, which it changes.
unfoldable pub apply_package_vulns :
    Text → Text → List Text → List Json → IdsByVersion → Bool × IdsByVersion
unfolding apply_vuln
apply_package_vulns osv_ecosystem name wanted [] ids = (true, ids)
apply_package_vulns osv_ecosystem name wanted (j ∷ js) ids =
    let step = apply_vuln osv_ecosystem name wanted j ids in
    let rest = apply_package_vulns osv_ecosystem name wanted js step.1 in
    if step.0 then rest else step

unfoldable pub is_blocked : List Text → Bool
is_blocked [] = false
is_blocked (i ∷ is) = true

unfoldable pub verdict_of : IdsByVersion → Text → Verdict
unfolding get is_blocked
verdict_of ids v =
    let found = get_or (get v ids) [] in
    record { version = v; blocked = is_blocked found; ids = sorted found }

unfoldable pub verdicts_into : IdsByVersion → List Text → Dict Text Verdict → Dict Text Verdict
unfolding verdict_of put
verdicts_into ids [] d = d
verdicts_into ids (v ∷ vs) d = verdicts_into ids vs (put v (verdict_of ids v) d)

-- `_package_verdicts`
unfoldable pub package_verdicts : List Text → IdsByVersion → Dict Text Verdict
unfolding verdicts_into
package_verdicts versions ids = verdicts_into ids versions []

unfoldable pub initial_ids : List Text → IdsByVersion → IdsByVersion
unfolding put
initial_ids [] ids = ids
initial_ids (v ∷ vs) ids = initial_ids vs (put v [] ids)

unfoldable pub distinct : List Text → List Text → List Text
unfolding add
distinct [] set = set
distinct (v ∷ vs) set = distinct vs (add v set)

-- The rest of `_verdicts_from_package_page`, on the list of records
unfoldable pub verdicts_of_vulns : Text → Text → List Json → List Text → Option (Dict Text Verdict)
unfolding apply_package_vulns package_verdicts initial_ids distinct
verdicts_of_vulns osv_ecosystem name vulns versions =
    let ids = initial_ids versions [] in
    let applied = apply_package_vulns osv_ecosystem name (distinct versions []) vulns ids in
    if applied.0 then some (package_verdicts versions applied.1) else none

-- `_verdicts_from_package_page`
unfoldable pub verdicts_from_package_page :
    Text → Text → Members → List Text → Result OsvError (Option (Dict Text Verdict))
unfolding list_of verdicts_of_vulns at
verdicts_from_package_page osv_ecosystem name page versions =
    elim (list_of (at (codes "vulns") page)) [
      | none ↦ err package_shape
      | some vulns ↦ ok (verdicts_of_vulns osv_ecosystem name vulns versions)
    ]
