-- ===== src/Osv/Query/Complete.antt =====
-- The chunks of `_query_osv_versions` in policy-sync/policy_sync/osv.py, in whatever order they are
-- completed.
use artea.Base.{
  ℕ, zero, suc, ◌<◌, ◌≤◌, ◌≡◌, refl, Bool, true, none, some, List, [], ◌∷◌, Text, eq_text, eq_texts,
  ◌==◌, if◌then◌else◌, contains, Result, ok, arith, Bool-cases, inl, inr, >>=-eq-ok, ok-injective,
}
use artea.Base.Dict.{IsDict, get, put, get-put, put-IsDict, contains-keys}
use artea.Base.Any.{append-take-drop, append-IsUnique, contains-take-drop, any-found, any-same}
use artea.Base.Lists.{take, drop, length, any, IsUnique, length-drop}
use artea.Osv.{OsvError}
use artea.Osv.Json.{Json, Members}
use artea.Osv.Records.Verdicts.{
  IdsByVersion, verdict_of, verdicts_into, package_verdicts, initial_ids,
}
use artea.Osv.Records.Pages.{max_pages}
use artea.Osv.Chunk.{query_chunk, query_rounds}
use artea.Osv.Chunk.Rounds.{Listed, ends, chain_verdict}
use artea.Osv.Chunk.Total.{Serves, query_chunk_total}
use artea.Osv.Query.{
  Verdicts, chunks_from, chunks_of, update, collect, query_chunks, query_osv_versions,
}

-- Every chunk is a list of versions that are asked for, none of them twice.
module _ (batch_size : ℕ) (positive : 0 < batch_size) where
  chunks-IsUnique :
      (rounds : ℕ) (versions chunk : List Text)
      → IsUnique versions
      → contains chunk (chunks_from rounds batch_size versions) ≡ true
      → IsUnique chunk
  unfolding chunks_from contains
  chunks-IsUnique zero versions chunk u h = cc
  chunks-IsUnique (suc rounds) [] chunk u h = cc
  chunks-IsUnique (suc rounds) (v ∷ versions) chunk u h =
      let first = take batch_size (v ∷ versions) in
      let rest = drop batch_size (v ∷ versions) in
      let parts = append-IsUnique first rest (rw (append-take-drop batch_size (v ∷ versions)) u) in
      elim (Bool-cases (first == chunk)) [
        | inl t ↦ rw (← (eq_texts.beq_iff first chunk).0 t) parts.0
        | inr t ↦ chunks-IsUnique rounds rest chunk parts.1 (ground (arith, t, h))
      ]

  contains-chunks :
      (rounds : ℕ) (v : Text) (versions : List Text)
      → length versions ≤ rounds
      → any (contains v) (chunks_from rounds batch_size versions) ≡ contains v versions
  unfolding chunks_from any contains
  contains-chunks zero v [] h = refl
  contains-chunks zero v (w ∷ versions) h = absurd (omega arith)
  contains-chunks (suc rounds) v [] h = refl
  contains-chunks (suc rounds) v (w ∷ versions) h = ground (
    arith,
    contains-chunks rounds v (drop batch_size (w ∷ versions)),
    contains-take-drop batch_size v (w ∷ versions),
    length-drop batch_size (w ∷ versions),
  )

verdicts_into-IsDict :
    (ids : IdsByVersion) (vs : List Text) (d : Verdicts)
    → IsDict d
    → IsDict (verdicts_into ids vs d)
unfolding verdicts_into
verdicts_into-IsDict ids [] d u = u
verdicts_into-IsDict ids (v ∷ vs) d u =
    verdicts_into-IsDict ids vs (put v (verdict_of ids v) d) (put-IsDict v (verdict_of ids v) d u)

-- After `out.update(d)` the verdicts of d stand before those of out.
get-update :
    (v : Text) (d out : Verdicts)
    → IsDict d
    → get v (update d out) ≡ elim (get v d) [ none ↦ get v out | some verdict ↦ some verdict ]
unfolding update get
get-update v [] out u = refl
get-update v ((w, verdict) ∷ d) out u = ground (
  arith,
  get-update v d (put w verdict out) u.1,
  get-put w v verdict out,
  contains-keys w d,
  eq_text.beq_iff w v,
)

query_chunk-IsDict :
    (post : ℕ → Members → Result OsvError Members) (osv_ecosystem name : Text)
    (versions : List Text) {verdicts : Verdicts}
    → query_chunk post osv_ecosystem name versions ≡ ok verdicts
    → IsDict verdicts
unfolding query_chunk package_verdicts
query_chunk-IsDict post osv_ecosystem name versions returned =
    let (ids, queried, rest) =
      >>=-eq-ok
        (query_rounds post osv_ecosystem name max_pages versions [] (initial_ids versions [])) _
        returned in
    rw (← ok-injective rest) (verdicts_into-IsDict ids versions [] tt)

module _ (page : Text → Text → Members) (vulns : Text → Text → List Json)
    (post : List Text → ℕ → Members → Result OsvError Members) (osv_ecosystem name : Text) where
  abbrev ServesAll : Type 0
  ServesAll = (chunk : List Text) → Serves page vulns (post chunk) osv_ecosystem name

  -- A chunk that can be queried to the end
  abbrev IsQueried : List Text → Type 0
  IsQueried chunk =
      IsUnique chunk
      × ((v : Text) → contains v chunk ≡ true → ends page vulns max_pages v [] ≡ true)

  abbrev Collected : (Text → Bool) → Verdicts → Verdicts → Type 0
  Collected asked out last =
      (v : Text) → get v last ≡ (if asked v then some (chain_verdict page vulns v) else get v out)

  collect_lem :
      ServesAll
      → Listed page vulns
      → (chunks : List (List Text)) (out : Verdicts)
      → ((chunk : List Text) → contains chunk chunks ≡ true → IsQueried chunk)
      → (last : Verdicts) × (collect post osv_ecosystem name chunks out ≡ ok last)
        × Collected (λ v. any (contains v) chunks) out last
  unfolding collect any contains
  collect_lem serves listed [] out queried = (out, refl, λ v. refl)
  collect_lem serves listed (chunk ∷ chunks) out queried =
      let (unique, ending) = queried chunk (ground (arith, eq_texts.beq_iff chunk chunk)) in
      let (verdicts, returned, answered) =
        query_chunk_total page vulns (post chunk) osv_ecosystem name (serves chunk) listed chunk
          unique ending in
      let (last, collected, found) =
        collect_lem serves listed chunks (update verdicts out)
          (λ other h. queried other (ground (arith, h))) in
      let d = query_chunk-IsDict (post chunk) osv_ecosystem name chunk returned in
      (
        last,
        rw (collect, returned) collected,
        λ v. ground (arith, found v, get-update v verdicts out d, answered v),
      )

  abbrev pub Answered : List Text → Result OsvError Verdicts → Type 0
  Answered versions result =
      (verdicts : Verdicts) × (result ≡ ok verdicts)
      × ((v : Text)
          → get v verdicts
            ≡ (if contains v versions then some (chain_verdict page vulns v) else none))

  module _ (serves : ServesAll) (listed : Listed page vulns) where
    whole-Answered :
        (versions : List Text)
        → IsQueried versions
        → Answered versions (query_chunk (post versions) osv_ecosystem name versions)
    whole-Answered versions (unique, ending) =
        query_chunk_total page vulns (post versions) osv_ecosystem name (serves versions) listed
          versions unique ending

    module _ (completed : List (List Text) → List (List Text))
        (same : (chunks : List (List Text)) (chunk : List Text)
          → contains chunk (completed chunks) ≡ contains chunk chunks) where
      query_chunks-Answered :
          (versions : List Text) (chunks : List (List Text))
          → IsQueried versions
          → ((chunk : List Text) → contains chunk chunks ≡ true → IsQueried chunk)
          → ((v : Text) → any (contains v) chunks ≡ contains v versions)
          → Answered versions (query_chunks post osv_ecosystem name completed versions chunks)
      unfolding query_chunks get
      query_chunks-Answered versions [] whole queried covers = whole-Answered versions whole
      query_chunks-Answered versions (c ∷ []) whole queried covers = whole-Answered versions whole
      query_chunks-Answered versions (c ∷ d ∷ cs) whole queried covers =
          let chunks : List (List Text) = c ∷ d ∷ cs in
          let (last, collected, found) =
            collect_lem serves listed (completed chunks) []
              (λ chunk h. queried chunk (rw (← same chunks chunk) h)) in
          (
            last,
            collected,
            λ v. ground (
              arith,
              found v,
              any-same (contains v) (completed chunks) chunks (same chunks),
              covers v,
            ),
          )

      -- Every version gets the verdict of all its pages, however many chunks there are and in whatever
      -- order they are completed: if the server answers each query of each chunk with the page of the
      -- version under the token that is sent, the records of each page are a list, the completed
      -- chunks are those that were begun, the batch size is positive, no version is asked for twice and
      -- the pages of each end within `max_pages`, then the query of the versions ends with verdicts on
      -- these versions and no others, each blocked if a malicious id stands on some page of that
      -- version, with all these ids, sorted.
      pub query_osv_versions_total :
          (batch_size : ℕ)
          → 0 < batch_size
          → (versions : List Text) → IsUnique versions
          → ((v : Text) → contains v versions ≡ true → ends page vulns max_pages v [] ≡ true)
          → Answered versions
              (query_osv_versions post osv_ecosystem name batch_size completed versions)
      unfolding query_osv_versions chunks_of
      query_osv_versions_total batch_size positive versions unique ending =
          let rounds = length versions in
          let chunks = chunks_from rounds batch_size versions in
          let covers : (v : Text) → any (contains v) chunks ≡ contains v versions =
            λ v. contains-chunks batch_size positive rounds v versions (omega arith) in
          query_chunks-Answered versions chunks (unique, ending)
            (λ chunk h. (
              chunks-IsUnique batch_size positive rounds versions chunk unique h,
              λ v c. ending v (ground (arith, covers v, any-found (contains v) chunk chunks h c)),
            ))
            covers
