-- ===== src/Osv/Summary.antt =====
-- `OsvClient.summarize_package` of policy-sync/policy_sync/osv.py. The first page and the answers to the
-- requests for the others are parameters; the answers depend on the number of pages that are left as well.
pub mod Listed
pub mod Blocked
use mathlib.Core.Option.{get_or}
use artea.Base.{
  ℕ, zero, suc, Bool, true, false, not, Option, none, some, List, [], ◌∷◌, map, Text, codes,
  eq_text, text_leb, if◌then◌else◌, Result, ok, err, ◌>>=◌,
}
use artea.Base.Dict.{Dict, get, put, add}
use artea.Base.Sort.{sort_by, sorted}
use artea.Policy.{PolicyError, Policy, Rule}
use artea.Adapters.{Adapter}
use artea.Osv.{
  Verdict, OsvError, package_pagination, package_shape, decided, policy_unavailable, disabled,
  needs_versions, no_policy, osv_disabled, lacks_exact_versions, Decision,
}
use artea.Osv.Json.{Json, object, Members, at}
use artea.Osv.Records.{list_of, mal_id, exact_affected_versions}
use artea.Osv.Records.Verdicts.{IdsByVersion}
use artea.Osv.Records.Pages.{max_pages, payload, token_of, page_vulns}
use artea.Osv.Decide.{adapter_for, override_applies}

-- What `summarize_package` raises
pub data Failure : Type 0 where
  refused : PolicyError → Failure
  unanswered : OsvError → Failure

unfoldable pub raises : {E A : Type 0} → (E → Failure) → Result E A → Result Failure A
raises failure (ok a) = ok a
raises failure (err e) = err (failure e)

-- `ids_by_version.setdefault(version, set()).add(vuln_id)`
unfoldable pub add_to : Text → Text → IdsByVersion → IdsByVersion
unfolding get put add
add_to vuln_id version ids = put version (add vuln_id (get_or (get version ids) [])) ids

module _ (adapter : Adapter) (name : Text) (rules : List Rule) where
  -- The loop over the exact versions of a record
  unfoldable pub add_exact : Text → List Text → IdsByVersion → Result PolicyError IdsByVersion
  unfolding override_applies add_to
  add_exact vuln_id [] ids = ok ids
  add_exact vuln_id (version ∷ versions) ids = do
    overridden ← override_applies adapter name version adapter.ecosystem rules
    add_exact vuln_id versions (if overridden then ids else add_to vuln_id version ids)

  -- A record that is not decided ends the loop.
  unfoldable pub add_versions_of :
      Text → Option (List Text) → IdsByVersion → Result PolicyError (Option IdsByVersion)
  unfolding add_exact
  add_versions_of vuln_id none ids = ok none
  add_versions_of vuln_id (some versions) ids = do
    more ← add_exact vuln_id versions ids
    ok (some more)

  unfoldable pub add_record : Json → IdsByVersion → Result PolicyError (Option IdsByVersion)
  unfolding mal_id exact_affected_versions add_versions_of at
  add_record (object vuln) ids = elim (mal_id (at (codes "id") vuln)) [
    | none ↦ ok (some ids)
    | some vuln_id ↦
        add_versions_of vuln_id (exact_affected_versions adapter.osv_ecosystem name vuln) ids
  ]
  add_record j ids = ok (some ids)

  -- The loop over the records of a page
  unfoldable pub add_records : List Json → IdsByVersion → Result PolicyError (Option IdsByVersion)
  unfolding add_record
  add_records [] ids = ok (some ids)
  add_records (j ∷ js) ids = elim (add_record j ids) [
    | err e ↦ err e
    | ok none ↦ ok none
    | ok (some more) ↦ add_records js more
  ]

  module _ (first : Result OsvError Members) (post : ℕ → Members → Result OsvError Members) where
    unfoldable pub get_page : ℕ → Text → Result OsvError Members
    unfolding payload
    get_page left [] = first
    get_page left (c ∷ token) = post left (payload adapter.osv_ecosystem name (c ∷ token))

    unfoldable pub summary_page :
        ℕ → Text → IdsByVersion → Result Failure (Text × Option IdsByVersion)
    unfolding raises get_page page_vulns token_of add_records at
    summary_page left token ids = do
      page ← raises unanswered (get_page left token)
      vulns ← raises unanswered (page_vulns page)
      more ← raises refused (add_records vulns ids)
      ok (token_of (at (codes "next_page_token") page), more)

    -- The loop over the pages, with the pages that are left
    unfoldable pub summary_pages : ℕ → Text → IdsByVersion → Result Failure (Option IdsByVersion)
    unfolding summary_page
    summary_pages zero token ids = err (unanswered package_pagination)
    summary_pages (suc left) token ids = elim (summary_page left token ids) [
      | err e ↦ err e
      | ok (next, none) ↦ ok none
      | ok ([], some more) ↦ ok (some more)
      | ok (c ∷ next, some more) ↦ summary_pages left (c ∷ next) more
    ]

-- The order of the items of a dictionary, whose keys are different
abbrev pub version_leb : Text × List Text → Text × List Text → Bool
version_leb (v, a) (w, b) = text_leb v w

abbrev pub blocked_verdict : Text × List Text → Verdict
blocked_verdict (version, ids) = record { version = version; blocked = true; ids = sorted ids }

unfoldable pub summary_of : Option IdsByVersion → Decision
unfolding sort_by
summary_of none = record {
  status = needs_versions;
  verdicts = [];
  reason = some lacks_exact_versions;
}
summary_of (some ids) = record {
  status = decided;
  verdicts = map blocked_verdict (sort_by version_leb ids);
  reason = none;
}

-- The first page of a package, and the answer to a request
module _ (first : Text → Text → Result OsvError Members)
    (post : ℕ → Members → Result OsvError Members) where
  unfoldable pub summarize_parsed : Option Policy → Adapter → Text → Result Failure Decision
  unfolding summary_pages summary_of
  summarize_parsed none adapter name =
      ok (record { status = policy_unavailable; verdicts = []; reason = some no_policy })
  summarize_parsed (some policy) adapter name =
      if not policy.osv_malicious_packages
      then ok (record { status = disabled; verdicts = []; reason = some osv_disabled })
      else do
        found ←
            summary_pages adapter name policy.rules (first adapter.osv_ecosystem name) post
              max_pages [] []
        ok (summary_of found)

  -- `summarize_package`
  unfoldable pub summarize_package : Option Policy → Text → Text → Result Failure Decision
  unfolding adapter_for summarize_parsed raises
  summarize_package policy ecosystem name = do
    adapter ← raises refused (adapter_for ecosystem)
    normalized_name ← raises refused (adapter.normalize_name name)
    summarize_parsed policy adapter normalized_name
