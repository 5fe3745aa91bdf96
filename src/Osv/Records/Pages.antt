-- ===== src/Osv/Records/Pages.antt =====
-- The package query of policy-sync/policy_sync/osv.py, page by page. The answer of OSV to a request
-- is a parameter, which depends on the number of requests that are left as well.
use artea.Base.{
  ℕ, zero, suc, Bool, Option, none, some, List, [], ◌∷◌, Text, codes, eq_text, Result, ok, err,
  ◌>>=◌, if◌then◌else◌,
}
use artea.Base.Dict.{Dict}
use artea.Osv.{Verdict, OsvError, package_pagination, package_shape}
use artea.Osv.Json.{Json, string, object, Members, member, end, at}
use artea.Osv.Records.{list_of}
use artea.Osv.Records.Verdicts.{
  IdsByVersion, apply_package_vulns, package_verdicts, initial_ids, distinct,
}

-- `MAX_PAGES`
abbrev pub max_pages : ℕ
max_pages = 8

abbrev pub package_member : Text → Text → Members → Members
package_member osv_ecosystem name rest =
    member (codes "package")
      (object (
        member (codes "name") (string name)
          (member (codes "ecosystem") (string osv_ecosystem) end)))
      rest

-- The payload of a request; no token is the empty text.
unfoldable pub payload : Text → Text → Text → Members
payload osv_ecosystem name [] = package_member osv_ecosystem name end
payload osv_ecosystem name (c ∷ token) =
    package_member osv_ecosystem name (member (codes "page_token") (string (c ∷ token)) end)

-- The token of the next page, or the empty text
unfoldable pub token_of : Json → Text
token_of (string s) = s
token_of j = []

-- The records of a page
unfoldable pub page_vulns : Members → Result OsvError (List Json)
unfolding list_of at
page_vulns page = elim (list_of (at (codes "vulns") page)) [
  | none ↦ err package_shape
  | some vulns ↦ ok vulns
]

module _ (post : ℕ → Members → Result OsvError Members) (osv_ecosystem name : Text) where
  -- One turn of the loop gives the ids and the token of the next page, or no ids.
  unfoldable pub read_page :
      List Text → ℕ → Text → IdsByVersion → Result OsvError (Bool × (Text × IdsByVersion))
  unfolding payload token_of page_vulns apply_package_vulns at
  read_page wanted left token ids = do
    page ← post left (payload osv_ecosystem name token)
    vulns ← page_vulns page
    let applied = apply_package_vulns osv_ecosystem name wanted vulns ids
    ok (applied.0, (token_of (at (codes "next_page_token") page), applied.1))

  -- The loop, with the pages that are left
  unfoldable pub query_pages :
      List Text → ℕ → Text → IdsByVersion → Result OsvError (Option IdsByVersion)
  unfolding read_page
  query_pages wanted zero token ids = err package_pagination
  query_pages wanted (suc left) token ids = elim (read_page wanted left token ids) [
    | err e ↦ err e
    | ok (decided, ([], more)) ↦ ok (if decided then some more else none)
    | ok (decided, (c ∷ next, more)) ↦
        let rest = query_pages wanted left (c ∷ next) more in if decided then rest else ok none
  ]

  -- `_query_package_unbatched`
  unfoldable pub query_package_unbatched : List Text → Result OsvError (Option (Dict Text Verdict))
  unfolding query_pages package_verdicts initial_ids distinct
  query_package_unbatched versions =
      elim (query_pages (distinct versions []) max_pages [] (initial_ids versions [])) [
        | err e ↦ err e
        | ok none ↦ ok none
        | ok (some ids) ↦ ok (some (package_verdicts versions ids))
      ]
