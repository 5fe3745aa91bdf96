-- ===== src/Osv/Chunk/Total.antt =====
-- `_query_chunk` of policy-sync/policy_sync/osv.py ends: what it collects from a server that answers
-- every query with a page.
use artea.Base.{
  ℕ, zero, suc, ◌≡◌, refl, true, none, some, List, [], ◌∷◌, map, Text, codes, eq_text, nat_eq_iff,
  if◌then◌else◌, contains, Result, ok, arith,
}
use artea.Base.Dict.{Dict, get, put, get-put}
use artea.Base.Lists.{length, keep, IsUnique, keep-IsUnique, contains-keep}
use artea.Osv.{Verdict, OsvError}
use artea.Osv.Json.{Json, array, object, Members, array_of, at}
use artea.Osv.Records.Verdicts.{
  IdsByVersion, verdict_of, verdicts_into, package_verdicts, initial_ids,
}
use artea.Osv.Records.Pages.{max_pages}
use artea.Osv.Chunk.{Tokens, token_at, batch_payload, results_of, round, query_rounds, query_chunk}
use artea.Osv.Chunk.Rounds.{
  items-array_of, length-map, ids_at, ends, chain_ids, chain_verdict, Listed, tokens_after,
  ids_after, going, read_results_lem, token_at-tokens_after, ids_at-ids_after,
}

module _ (page : Text → Text → Members) (vulns : Text → Text → List Json) where
  module _ (post : ℕ → Members → Result OsvError Members) (osv_ecosystem name : Text) where
    -- The server answers each query of a request with the page of the version under its token.
    abbrev pub Serves : Type 0
    Serves =
        (left : ℕ) (tokens : Tokens) (vs : List Text)
        → (answer : Members) × (post left (batch_payload osv_ecosystem name tokens vs) ≡ ok answer)
          × (at (codes "results") answer
              ≡ array (array_of (map (λ v. object (page v (token_at v tokens))) vs)))

    results_of-pages :
        (t : Text → Text) (vs : List Text)
        → results_of (length vs) (array (array_of (map (λ v. object (page v (t v))) vs)))
          ≡ ok (map (λ v. object (page v (t v))) vs)
    unfolding results_of
    results_of-pages t vs =
        rw
          (
            items-array_of (map (λ v. object (page v (t v))) vs),
            length-map (λ v. object (page v (t v))) vs,
            (nat_eq_iff (length vs) (length vs)).1 refl,
          )
          refl

    round_lem :
        Serves
        → Listed page vulns
        → (left : ℕ) (vs : List Text) (tokens : Tokens) (ids : IdsByVersion)
        → let t : Text → Text = λ v. token_at v tokens in
          round post osv_ecosystem name left vs tokens ids
          ≡ ok (
            keep (going page vulns t) vs,
            (tokens_after page vulns t vs tokens, ids_after page vulns t vs ids),
          )
    unfolding round
    round_lem serves listed left vs tokens ids =
        let t : Text → Text = λ v. token_at v tokens in
        let (answer, posted, results) = serves left tokens vs in
        rw (posted, results, results_of-pages t vs)
          (read_results_lem page vulns t listed vs tokens ids)

    module _ (left : ℕ) (pending : List Text) (tokens : Tokens) where
      abbrev asked_at : Text → Text
      asked_at v = token_at v tokens

      later_ends :
          ((v : Text)
            → contains v pending ≡ true
            → ends page vulns (suc left) v (asked_at v) ≡ true)
          → (v : Text) → contains v (keep (going page vulns asked_at) pending) ≡ true
          → ends page vulns left v (token_at v (tokens_after page vulns asked_at pending tokens))
            ≡ true
      unfolding ends
      later_ends ending v h = ground (
        arith,
        contains-keep (going page vulns asked_at) v pending,
        ending v,
        token_at-tokens_after page vulns asked_at v pending tokens,
      )

      later_ids :
          (ids last : IdsByVersion) (v : Text)
          → IsUnique pending
          → ids_at v last ≡ (
              if contains v (keep (going page vulns asked_at) pending)
              then chain_ids page vulns left v
                  (token_at v (tokens_after page vulns asked_at pending tokens))
                  (ids_at v (ids_after page vulns asked_at pending ids))
              else ids_at v (ids_after page vulns asked_at pending ids))
          → ids_at v last ≡ (
              if contains v pending
              then chain_ids page vulns (suc left) v (asked_at v) (ids_at v ids)
              else ids_at v ids)
      unfolding chain_ids
      later_ids ids last v u h = ground (
        arith,
        contains-keep (going page vulns asked_at) v pending,
        token_at-tokens_after page vulns asked_at v pending tokens,
        ids_at-ids_after page vulns asked_at v pending ids u,
      )

    query_rounds-collects :
        Serves
        → Listed page vulns
        → (left : ℕ) (pending : List Text) (tokens : Tokens) (ids : IdsByVersion) → IsUnique pending
        → ((v : Text)
            → contains v pending ≡ true
            → ends page vulns left v (token_at v tokens) ≡ true)
        → (last : IdsByVersion) × (query_rounds post osv_ecosystem name left pending tokens ids
            ≡ ok last)
          × ((v : Text)
              → ids_at v last ≡ (
                  if contains v pending
                  then chain_ids page vulns left v (token_at v tokens) (ids_at v ids)
                  else ids_at v ids))
    unfolding query_rounds ends contains
    query_rounds-collects serves listed zero [] tokens ids u ending = (ids, refl, λ v. refl)
    query_rounds-collects serves listed (suc left) [] tokens ids u ending = (ids, refl, λ v. refl)
    query_rounds-collects serves listed zero (w ∷ ws) tokens ids u ending =
        absurd (ground (arith, ending w, eq_text.beq_iff w w))
    query_rounds-collects serves listed (suc left) (w ∷ ws) tokens ids u ending =
        let pending : List Text = w ∷ ws in
        let t : Text → Text = λ v. token_at v tokens in
        let (last, returned, collected) =
          query_rounds-collects serves listed left (keep (going page vulns t) pending)
            (tokens_after page vulns t pending tokens) (ids_after page vulns t pending ids)
            (keep-IsUnique (going page vulns t) pending u)
            (later_ends left pending tokens ending) in
        (
          last,
          rw (query_rounds, round_lem serves listed left pending tokens ids) returned,
          λ v. later_ids left pending tokens ids last v u (collected v),
        )

    get-verdicts_into :
        (ids : IdsByVersion) (v : Text) (vs : List Text) (d : Dict Text Verdict)
        → get v (verdicts_into ids vs d)
          ≡ (if contains v vs then some (verdict_of ids v) else get v d)
    unfolding verdicts_into contains
    get-verdicts_into ids v [] d = refl
    get-verdicts_into ids v (w ∷ vs) d = ground (
      arith,
      get-verdicts_into ids v vs (put w (verdict_of ids w) d),
      get-put w v (verdict_of ids w) d,
      eq_text.beq_iff w v,
    )

    ids_at-initial_ids :
        (v : Text) (vs : List Text) (ids : IdsByVersion)
        → ids_at v ids ≡ []
        → ids_at v (initial_ids vs ids) ≡ []
    unfolding initial_ids
    ids_at-initial_ids v [] ids h = h
    ids_at-initial_ids v (w ∷ vs) ids h =
        ids_at-initial_ids v vs (put w [] ids) (ground (arith, get-put w v [] ids))

    -- Every version of a chunk gets the verdict of all its pages: if the server answers each query with
    -- the page of the version under the token that is sent, the records of each page are a list, no
    -- version is asked for twice and the pages of each version end within `max_pages`, then the query
    -- ends with verdicts on these versions and no others, each blocked if a malicious id stands on some
    -- page of that version, with all these ids, sorted.
    pub query_chunk_total :
        Serves
        → Listed page vulns
        → (versions : List Text) → IsUnique versions
        → ((v : Text) → contains v versions ≡ true → ends page vulns max_pages v [] ≡ true)
        → (verdicts : Dict Text Verdict) × (query_chunk post osv_ecosystem name versions
            ≡ ok verdicts)
          × ((v : Text)
              → get v verdicts
                ≡ (if contains v versions then some (chain_verdict page vulns v) else none))
    unfolding query_chunk package_verdicts verdict_of token_at chain_verdict
    query_chunk_total serves listed versions u ending =
        let (last, returned, collected) =
          query_rounds-collects serves listed max_pages versions [] (initial_ids versions []) u
            ending in
        (
          package_verdicts versions last,
          rw returned refl,
          λ v. ground (
            arith,
            get-verdicts_into last v versions [],
            collected v,
            ids_at-initial_ids v versions [] refl,
          ),
        )
