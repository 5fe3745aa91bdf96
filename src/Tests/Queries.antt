-- ===== src/Tests/Queries.antt =====
-- The queries of policy-sync/policy_sync/osv.py against a server whose pages are known.
use artea.Base.{
  ℕ, ◌≡◌, refl, true, not, ◌&&◌, false, Bool, eq_texts, ◌⊎◌, ◌*◌, ◌≤◌, List, [], ◌∷◌, map, Text,
  text_eq, codes, eq_text, ◌==◌, if◌then◌else◌, contains, Result, ok, arith,
}
use artea.Base.Dict.{get, put}
use artea.Osv.{OsvError}
use artea.Osv.Json.{
  Json, null, string, array, object, Members, member, end, Jsons, nil, array_of, items, at,
}
use artea.Osv.Records.{list_of}
use artea.Osv.Records.Pages.{max_pages, token_of}
use artea.Base.Lists.{length, all}
use artea.Osv.Query.{query_osv_versions}
use artea.Osv.Query.Complete.{Answered, query_osv_versions_total}
use artea.Osv.Batch.{
  Key, Client, World, Batch, Shared, Thread, asks, missed, sleeps, waits, resolves, Step, turn, Run,
  here, next, start, run, cached_page, after_cache, join, lead_or_wait,
}
use artea.Osv.Batch.Ends.{Run-ends, is_returned}
use artea.Osv.Chunk.{Tokens, is_blank, token_at, token_member, query_of, batch_payload}
use artea.Osv.Chunk.Rounds.{items-array_of, Listed, ends}
use artea.Osv.Chunk.Total.{Serves}

module _ (page : Text → Text → Members) where
  abbrev answer_to : Json → Json
  answer_to (object query) =
      object
        (page (token_of (at (codes "version") query)) (token_of (at (codes "page_token") query)))
  answer_to j = null

  abbrev answers : Json → Jsons
  answers (array queries) = array_of (map answer_to (items queries))
  answers j = nil

  abbrev serve : ℕ → Members → Result OsvError Members
  serve left request =
      ok (member (codes "results") (array (answers (at (codes "queries") request))) end)

  token_of-token_member :
      (token : Text) → token_of (at (codes "page_token") (token_member token)) ≡ token
  unfolding token_member at token_of text_eq
  token_of-token_member [] = refl
  token_of-token_member (c ∷ token) = refl

  answer_to-query_of :
      (eco name v : Text) (tokens : Tokens)
      → answer_to (query_of eco name tokens v) ≡ object (page v (token_at v tokens))
  unfolding query_of at token_of text_eq
  answer_to-query_of eco name v tokens = rw (token_of-token_member (token_at v tokens)) refl

  answers_lem :
      (eco name : Text) (tokens : Tokens) (vs : List Text)
      → map answer_to (items (array_of (map (query_of eco name tokens) vs)))
        ≡ map (λ v. object (page v (token_at v tokens))) vs
  unfolding items array_of
  answers_lem eco name tokens [] = refl
  answers_lem eco name tokens (v ∷ vs) =
      rw (answer_to-query_of eco name v tokens, answers_lem eco name tokens vs) refl

  serve-Serves : (eco name : Text) → Serves page (λ v t. []) serve eco name
  unfolding batch_payload at text_eq array_of
  serve-Serves eco name left tokens vs = (_, refl, rw (answers_lem eco name tokens vs) refl)

-- The records of a page with one id
abbrev record_with : Text → List Json
record_with id = object (member (codes "id") (string id) end) ∷ []

abbrev first_version : Text
first_version = codes "1.0.0"

-- The first version has two pages, whose second one has the malicious id; the others have no record.
abbrev records_of : Text → Text → List Json
records_of v token =
    if not (v == first_version)
    then []
    else if is_blank token
    then record_with (codes "GHSA-1")
    else record_with (codes "MAL-1")

abbrev two_pages : Text → Text → Members
two_pages v token = member (codes "vulns") (array (array_of (records_of v token))) (
    member (codes "next_page_token")
      (if v == first_version && is_blank token then string (codes "next") else null) end)

two_pages-Listed : Listed two_pages records_of
unfolding list_of at text_eq
two_pages-Listed v token = rw (items-array_of (records_of v token)) refl

abbrev asked_versions : List Text
asked_versions = codes "1.0.0" ∷ codes "2.0.0" ∷ []

two_pages_end :
    (v : Text) → contains v asked_versions ≡ true → ends two_pages records_of max_pages v [] ≡ true
unfolding contains ends is_blank at token_of text_eq
two_pages_end v h =
    ground (arith, eq_text.beq_iff (codes "1.0.0") v, eq_text.beq_iff (codes "2.0.0") v)

-- The second chunk is completed first.
abbrev second_first : List (List Text) → List (List Text)
second_first (a ∷ b ∷ chunks) = b ∷ a ∷ chunks
second_first chunks = chunks

second_first_lem :
    (chunks : List (List Text)) (chunk : List Text)
    → contains chunk (second_first chunks) ≡ contains chunk chunks
unfolding contains
second_first_lem [] chunk = refl
second_first_lem (a ∷ []) chunk = refl
second_first_lem (a ∷ b ∷ chunks) chunk = ground arith

query_osv_versions_total_example :
    Answered two_pages records_of
      (λ chunk. serve two_pages)
      (codes "npm")
      (codes "left-pad")
      asked_versions
      (query_osv_versions
        (λ chunk. serve two_pages)
        (codes "npm")
        (codes "left-pad")
        1
        second_first
        asked_versions)
unfolding contains text_eq
query_osv_versions_total_example =
    query_osv_versions_total two_pages records_of (λ chunk. serve two_pages) (codes "npm")
      (codes "left-pad") (λ chunk. serve-Serves two_pages (codes "npm") (codes "left-pad"))
      two_pages-Listed second_first second_first_lem 1 (omega arith) asked_versions
      (refl, (refl, tt)) two_pages_end

abbrev small_client : Client
small_client = record {
  batch_size = 100;
  max_entries = 10;
  positive_ttl = 3600;
  negative_ttl = 900;
}

abbrev quiet_world : World
quiet_world = record { now = 0; post = λ request. ok end }

abbrev left_pad : Key
left_pad = (codes "npm", codes "left-pad")

abbrev first_batch : Batch
first_batch = (left_pad, 0) ∷ []

abbrev shared_with : Batch → Bool → ℕ → Shared
shared_with pending active objects = record {
  pages = [];
  pending = pending;
  active = active;
  objects = objects;
  outcomes = [];
}

-- Two threads ask for one package: the first leads a batch, which the second waits for.
abbrev batch_taken : List Thread × Shared
batch_taken = (resolves 0 first_batch first_batch [] ∷ waits 0 ∷ [], shared_with [] false 1)

two_ask : Run small_client (start (left_pad ∷ left_pad ∷ []) []) 5 batch_taken
unfolding run cached_page after_cache join lead_or_wait get put text_eq
two_ask =
    let none_yet = shared_with [] false 0 in
    let led = shared_with first_batch true 1 in
    let taken = shared_with [] false 1 in
    let w = quiet_world in
    next
      (next
        (next
          (next
            (next here (
              turn w [] (asks left_pad ∷ []) (asks left_pad) (missed left_pad) none_yet none_yet
                refl))
            (turn w (missed left_pad ∷ []) [] (asks left_pad) (missed left_pad) none_yet none_yet
              refl))
          (turn w [] (missed left_pad ∷ []) (missed left_pad) (sleeps 0) none_yet led refl))
        (turn w (sleeps 0 ∷ []) [] (missed left_pad) (waits 0) led led refl))
      (turn w [] (waits 0 ∷ []) (sleeps 0) (resolves 0 first_batch first_batch []) led taken refl)

Run-ends_example :
    (5 ≤ 6 * length (left_pad ∷ left_pad ∷ []))
    × ((all is_returned batch_taken.0 ≡ true)
        ⊎ ((s' : List Thread × Shared) × Step small_client batch_taken s'))
Run-ends_example =
    Run-ends small_client (omega arith) quiet_world (left_pad ∷ left_pad ∷ []) [] two_ask
