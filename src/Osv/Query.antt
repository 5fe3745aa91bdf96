-- ===== src/Osv/Query.antt =====
-- `OsvClient._query_osv` of policy-sync/policy_sync/osv.py: the query of the package, and the chunks of
-- versions that it leaves. The first page and the answers of OSV are parameters, and so is the order in
-- which the chunks are completed.
pub mod Complete
use artea.Base.{
  ℕ, zero, suc, Bool, true, false, Option, none, some, List, [], ◌∷◌, Text, codes, eq_text,
  if◌then◌else◌, Result, ok, err, ◌>>=◌,
}
use artea.Base.Dict.{Dict, put}
use artea.Base.Lists.{take, drop, length}
use artea.Osv.{Verdict, OsvError}
use artea.Osv.Json.{Members, at, truthy}
use artea.Osv.Records.Verdicts.{verdicts_from_package_page}
use artea.Osv.Records.Pages.{query_package_unbatched}
use artea.Osv.Chunk.{query_chunk}

abbrev pub Verdicts : Type 0
Verdicts = Dict Text Verdict

-- `versions[start:start + batch_size]` for each start; a round for each version is enough.
unfoldable pub chunks_from : ℕ → ℕ → List Text → List (List Text)
chunks_from zero batch_size versions = []
chunks_from (suc rounds) batch_size [] = []
chunks_from (suc rounds) batch_size (v ∷ versions) =
    take batch_size (v ∷ versions) ∷ chunks_from rounds batch_size (drop batch_size (v ∷ versions))

unfoldable pub chunks_of : ℕ → List Text → List (List Text)
unfolding chunks_from
chunks_of batch_size versions = chunks_from (length versions) batch_size versions

-- `out.update(verdicts)`
unfoldable pub update : Verdicts → Verdicts → Verdicts
unfolding put
update [] out = out
update ((v, verdict) ∷ verdicts) out = update verdicts (put v verdict out)

module _ (post : List Text → ℕ → Members → Result OsvError Members)
    (osv_ecosystem name : Text) where
  -- The results of the chunks, in the order in which they are completed
  unfoldable pub collect : List (List Text) → Verdicts → Result OsvError Verdicts
  unfolding query_chunk update
  collect [] out = ok out
  collect (chunk ∷ chunks) out = do
    verdicts ← query_chunk (post chunk) osv_ecosystem name chunk
    collect chunks (update verdicts out)

  -- The case of two chunks or more
  unfoldable pub query_chunks :
      (List (List Text) → List (List Text))
      → List Text
      → List (List Text)
      → Result OsvError Verdicts
  unfolding collect query_chunk
  query_chunks completed versions [] = query_chunk (post versions) osv_ecosystem name versions
  query_chunks completed versions (chunk ∷ []) =
      query_chunk (post versions) osv_ecosystem name versions
  query_chunks completed versions (chunk ∷ other ∷ chunks) =
      collect (completed (chunk ∷ other ∷ chunks)) []

  -- `_query_osv_versions`
  unfoldable pub query_osv_versions :
      ℕ → (List (List Text) → List (List Text)) → List Text → Result OsvError Verdicts
  unfolding query_chunks chunks_of
  query_osv_versions batch_size completed versions =
      query_chunks completed versions (chunks_of batch_size versions)

  module _ (first_page : Result OsvError Members)
      (more : ℕ → Members → Result OsvError Members) where
    -- `_query_package`
    unfoldable pub query_package : List Text → Result OsvError (Option Verdicts)
    unfolding query_package_unbatched verdicts_from_package_page truthy at
    query_package versions = do
      page ← first_page
      if truthy (at (codes "next_page_token") page)
          then query_package_unbatched more osv_ecosystem name versions
          else verdicts_from_package_page osv_ecosystem name page versions

    -- `_query_osv`
    unfoldable pub query_osv :
        ℕ → (List (List Text) → List (List Text)) → List Text → Result OsvError Verdicts
    unfolding query_package query_osv_versions
    query_osv batch_size completed versions = elim (query_package versions) [
      | err e ↦ err e
      | ok (some verdicts) ↦ ok verdicts
      | ok none ↦ query_osv_versions batch_size completed versions
    ]
