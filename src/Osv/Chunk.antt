-- ===== src/Osv/Chunk.antt =====
-- `_query_chunk` of policy-sync/policy_sync/osv.py, the query of each version, page by page. The answer
-- of OSV to a request is a parameter, which depends on the number of requests that are left as well.
pub mod Rounds
pub mod Total
use mathlib.Core.Option.{get_or}
use artea.Base.{
  ℕ, zero, suc, Bool, true, false, not, Option, none, some, List, [], ◌∷◌, map, Text, codes,
  eq_text, nat_eq, if◌then◌else◌, Result, ok, err, ◌>>=◌,
}
use artea.Base.Dict.{Dict, get, put, add}
use artea.Base.Lists.{length}
use artea.Osv.{
  Verdict, OsvError, querybatch_pagination, querybatch_shape, querybatch_result_shape, vulns_shape,
}
use artea.Osv.Json.{Json, string, array, object, Members, member, end, array_of, items, at}
use artea.Osv.Records.{list_of, mal_id}
use artea.Osv.Records.Verdicts.{IdsByVersion, package_verdicts, initial_ids}
use artea.Osv.Records.Pages.{max_pages, token_of, package_member}

-- `page_tokens`
abbrev pub Tokens : Type 0
Tokens = Dict Text Text

-- The token of a version, or the empty text
unfoldable pub token_at : Text → Tokens → Text
unfolding get
token_at version tokens = get_or (get version tokens) []

unfoldable pub token_member : Text → Members
token_member [] = end
token_member (c ∷ token) = member (codes "page_token") (string (c ∷ token)) end

unfoldable pub query_of : Text → Text → Tokens → Text → Json
unfolding token_member token_at
query_of osv_ecosystem name tokens version = object (
    package_member osv_ecosystem name
      (member (codes "version") (string version) (token_member (token_at version tokens))))

unfoldable pub batch_payload : Text → Text → Tokens → List Text → Members
unfolding query_of
batch_payload osv_ecosystem name tokens pending =
    member (codes "queries") (array (array_of (map (query_of osv_ecosystem name tokens) pending)))
      end

-- The ids of malicious packages among the records
unfoldable pub add_mal_ids : List Json → List Text → List Text
unfolding mal_id add at
add_mal_ids [] ids = ids
add_mal_ids (object vuln ∷ vulns) ids =
    add_mal_ids vulns (elim (mal_id (at (codes "id") vuln)) [ none ↦ ids | some i ↦ add i ids ])
add_mal_ids (j ∷ vulns) ids = add_mal_ids vulns ids

-- What a round leaves: the versions with a further page, the tokens and the ids
abbrev pub Round : Type 0
Round = List Text × (Tokens × IdsByVersion)

unfoldable pub put_token : Text → Text → Tokens → Tokens
unfolding put
put_token version [] tokens = tokens
put_token version (c ∷ token) tokens = put version (c ∷ token) tokens

unfoldable pub is_blank : Text → Bool
is_blank [] = true
is_blank (c ∷ s) = false

-- The result of one version, before the results of the others
unfoldable pub with_result : Text → Text → Result OsvError Round → Result OsvError Round
unfolding is_blank
with_result version token (err e) = err e
with_result version token (ok (next, rest)) =
    ok ((if is_blank token then next else version ∷ next), rest)

-- The loop over the results
unfoldable pub read_results : List Text → List Json → Tokens → IdsByVersion → Result OsvError Round
unfolding list_of add_mal_ids token_of put_token with_result get put at
read_results [] [] tokens ids = ok ([], (tokens, ids))
read_results [] (j ∷ js) tokens ids = err querybatch_shape
read_results (v ∷ vs) [] tokens ids = err querybatch_shape
read_results (v ∷ vs) (object result ∷ js) tokens ids = elim (list_of (at (codes "vulns") result)) [
  | none ↦ err vulns_shape
  | some vulns ↦
      let token = token_of (at (codes "next_page_token") result) in
      with_result v token (
        read_results vs js (put_token v token tokens)
          (put v (add_mal_ids vulns (get_or (get v ids) [])) ids))
]
read_results (v ∷ vs) (j ∷ js) tokens ids = err querybatch_result_shape

unfoldable pub results_of : ℕ → Json → Result OsvError (List Json)
unfolding items
results_of n (array js) =
    if nat_eq (length (items js)) n then ok (items js) else err querybatch_shape
results_of n j = err querybatch_shape

module _ (post : ℕ → Members → Result OsvError Members) (osv_ecosystem name : Text) where
  unfoldable pub round : ℕ → List Text → Tokens → IdsByVersion → Result OsvError Round
  unfolding batch_payload results_of read_results at
  round left pending tokens ids = do
    answer ← post left (batch_payload osv_ecosystem name tokens pending)
    results ← results_of (length pending) (at (codes "results") answer)
    read_results pending results tokens ids

  -- The loop, with the rounds that are left
  unfoldable pub query_rounds : ℕ → List Text → Tokens → IdsByVersion → Result OsvError IdsByVersion
  unfolding round
  query_rounds zero [] tokens ids = ok ids
  query_rounds zero (v ∷ vs) tokens ids = err querybatch_pagination
  query_rounds (suc left) [] tokens ids = ok ids
  query_rounds (suc left) (v ∷ vs) tokens ids = elim (round left (v ∷ vs) tokens ids) [
    | err e ↦ err e
    | ok (next, (tokens', ids')) ↦ query_rounds left next tokens' ids'
  ]

  -- `_query_chunk`
  unfoldable pub query_chunk : List Text → Result OsvError (Dict Text Verdict)
  unfolding query_rounds package_verdicts initial_ids
  query_chunk versions = do
    ids ← query_rounds max_pages versions [] (initial_ids versions [])
    ok (package_verdicts versions ids)
