-- ===== src/Tests/Summary.antt =====
-- The summary of a package in policy-sync/policy_sync/osv.py, with a record that names two versions, one
-- of which the policy allows.
use artea.Base.{
  ℕ, ◌≡◌, refl, true, none, some, [], ◌∷◌, Text, text_eq, text_leb, codes, Result, ok, err,
  contains,
}
use artea.Base.Dict.{get, put, add}
use artea.Base.Lists.{All}
use artea.Base.Strip.{starts_with}
use artea.Base.Sort.{sort_by}
use artea.Policy.{npm}
use artea.Base.Strip
use artea.Adapters.Npm
use artea.Tests.Verdicts.{policy}
use artea.Adapters.{Adapter}
use artea.Osv.{OsvError, no_response, decided, Decision}
use artea.Osv.Json.{Json, string, array, object, Members, member, end, nil, cons, at, items, truthy}
use artea.Osv.Decide.{adapter_for, override_applies, override_rule, override_named, covers}
use artea.Osv.Summary.{
  summarize_package, summarize_parsed, raises, summary_pages, summary_page, get_page, add_records,
  add_record, add_versions_of, add_exact, add_to, summary_of,
}
use artea.Osv.Records.{
  list_of, mal_id, exact_affected_versions, scan_affected, scan, exact_entry, exact_versions,
  affected_matches_package, add_versions,
}
use artea.Osv.Records.Pages.{page_vulns, token_of}
use artea.Osv.Summary.Blocked.{Blocks, summarize_package-Blocks}

abbrev affected_entry : Json
affected_entry = object (
    member (codes "package")
      (object (
        member (codes "ecosystem") (string npm)
          (member (codes "name") (string (codes "left-pad")) end)))
      (member (codes "versions")
        (array (cons (string (codes "1.0.0")) (cons (string (codes "3.0.0")) nil))) end))

abbrev first_page : Members
first_page =
    member (codes "vulns")
      (array (
        cons
          (object (
            member (codes "id") (string (codes "MAL-1"))
              (member (codes "affected") (array (cons affected_entry nil)) end)))
          nil))
      end

abbrev only_page : Text → Text → Result OsvError Members
only_page osv_ecosystem name = ok first_page

abbrev no_more : ℕ → Members → Result OsvError Members
no_more left request = err no_response

abbrev summary : Decision
summary = record {
  status = decided;
  verdicts = record { version = codes "1.0.0"; blocked = true; ids = codes "MAL-1" ∷ [] } ∷ [];
  reason = none;
}

summarizes : summarize_package only_page no_more (some policy) npm (codes "left-pad") ≡ ok summary
unfolding summarize_package summarize_parsed adapter_for raises summary_pages summary_page get_page
    page_vulns list_of items truthy at token_of mal_id add_records add_record add_versions_of
    add_exact add_to exact_affected_versions scan_affected scan exact_entry exact_versions
    affected_matches_package add_versions override_applies override_rule override_named covers
    summary_of sort_by text_leb add put get contains text_eq starts_with Npm.normalize_name
    Npm.is_exact Npm.exact_value Npm.exact_allows Strip.is_space
summarizes = refl

summarize_package-Blocks_example :
    (adapter : Adapter) × (normalized_name : Text) × (adapter_for npm ≡ ok adapter)
    × (adapter.normalize_name (codes "left-pad") ≡ ok normalized_name)
    × All (Blocks adapter normalized_name policy.rules) summary.verdicts
summarize_package-Blocks_example =
    summarize_package-Blocks only_page no_more policy npm (codes "left-pad") summarizes
