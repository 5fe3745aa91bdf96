-- ===== src/Osv/Batch.antt =====
-- `_query_package_first_page` of policy-sync/policy_sync/osv.py and what it calls: the cache of package
-- pages, and the batches in which the threads send their queries. A thread takes a step at a time, from
-- one lock, wait or request to the next; each step has a clock and an OSV of its own.
pub mod Keeps
pub mod Progress
pub mod Cost
pub mod Ends
use mathlib.Core.Option.{get_or}
use artea.Base.{
  ℕ, zero, suc, ◌+◌, ◌-◌, ◌≡◌, Bool, true, false, Option, none, some, List, [], ◌∷◌, ◌++◌, map,
  Text, codes, eq_text, eq_pair, eq_nat, leb, nat_eq, if◌then◌else◌, Result, ok, err, ◌>>=◌,
}
use artea.Base.Dict.{Dict, get, put, remove, keys}
use artea.Base.Lists.{length, take, drop}
use artea.Base.Sort.{sort_by}
use artea.Osv.{OsvError, package_shape, batch_shape, batch_result_shape}
use artea.Osv.Json.{Json, array, object, Members, member, end, array_of, items, at}
use artea.Osv.Records.{page_has_malicious_record}
use artea.Osv.Records.Pages.{package_member}

-- The ecosystem of OSV and the name
abbrev pub Key : Type 0
Key = Text × Text

-- `_CachedPackagePage`
pub record CachedPage : Type 0 where
  pub stored_at : ℕ
  pub page : Members
  pub has_malicious : Bool

abbrev pub PageCache : Type 0
PageCache = Dict Key CachedPage

-- What the constructor of `OsvClient` sets
pub record Client : Type 0 where
  pub batch_size : ℕ
  pub max_entries : ℕ
  pub positive_ttl : ℕ
  pub negative_ttl : ℕ

-- `now - stored_at >= ttl`, the subtraction moved to the other side
unfoldable pub is_stale : Client → ℕ → CachedPage → Bool
is_stale client now entry =
    leb
      ((if entry.has_malicious then client.positive_ttl else client.negative_ttl) + entry.stored_at)
      now

-- `_get_cached_package_page`: an entry that is stale is deleted.
unfoldable pub cached_page : Client → ℕ → Key → PageCache → PageCache × Option Members
unfolding is_stale get remove
cached_page client now key pages = elim (get key pages) [
  | none ↦ (pages, none)
  | some entry ↦
      if is_stale client now entry then (remove key pages, none) else (pages, some entry.page)
]

abbrev older : Key × CachedPage → Key × CachedPage → Bool
older (k, a) (j, b) = leb a.stored_at b.stored_at

unfoldable pub remove_pages : List Key → PageCache → PageCache
unfolding remove
remove_pages [] pages = pages
remove_pages (k ∷ ks) pages = remove_pages ks (remove k pages)

unfoldable pub trim_pages : Client → PageCache → PageCache
unfolding remove_pages sort_by
trim_pages client pages =
    if leb (length pages) client.max_entries
    then pages
    else remove_pages (keys (take (length pages - client.max_entries) (sort_by older pages))) pages

-- `_store_package_page`
unfoldable pub store_page : Client → ℕ → Key → Members → PageCache → PageCache
unfolding trim_pages page_has_malicious_record put
store_page client now key page pages = trim_pages client (
    put key
      (record { stored_at = now; page = page; has_malicious = page_has_malicious_record page })
      pages)

-- Pending queries by their keys; each is an object, named by a number.
abbrev pub Batch : Type 0
Batch = Dict Key ℕ

-- The results that the objects of a batch have
abbrev pub Found : Type 0
Found = Dict ℕ Members

-- The outcomes of the objects whose event is set
abbrev pub Outcomes : Type 0
Outcomes = Dict ℕ (Result OsvError Members)

pub record World : Type 0 where
  pub now : ℕ
  pub post : Members → Result OsvError Members

abbrev package_query : Key × ℕ → Json
package_query ((osv_ecosystem, name), o) = object (package_member osv_ecosystem name end)

unfoldable pub chunk_payload : Batch → Members
chunk_payload chunk = member (codes "queries") (array (array_of (map package_query chunk))) end

-- The loop over the results of a chunk
unfoldable pub take_results :
    Client → ℕ → Batch → List Json → PageCache → Found → PageCache × Result OsvError Found
unfolding store_page put
take_results client now [] [] pages found = (pages, ok found)
take_results client now [] (j ∷ js) pages found = (pages, err batch_shape)
take_results client now (q ∷ qs) [] pages found = (pages, err batch_shape)
take_results client now ((key, o) ∷ qs) (object page ∷ js) pages found =
    take_results client now qs js (store_page client now key page pages) (put o page found)
take_results client now (q ∷ qs) (j ∷ js) pages found = (pages, err batch_result_shape)

unfoldable pub chunk_results : Batch → Json → Result OsvError (List Json)
unfolding items
chunk_results chunk (array js) =
    if nat_eq (length (items js)) (length chunk) then ok (items js) else err batch_shape
chunk_results chunk j = err batch_shape

unfoldable pub take_answer :
    Client
    → ℕ
    → Batch
    → PageCache
    → Found
    → Result OsvError (List Json)
    → PageCache × Result OsvError Found
unfolding take_results
take_answer client now chunk pages found (err e) = (pages, err e)
take_answer client now chunk pages found (ok results) =
    take_results client now chunk results pages found

-- One turn of the loop over the chunks
unfoldable pub resolve_chunk :
    Client → World → Batch → PageCache → Found → PageCache × Result OsvError Found
unfolding chunk_payload chunk_results take_answer at
resolve_chunk client w chunk pages found =
    take_answer client w.now chunk pages found
      (do answer ← w.post (chunk_payload chunk); chunk_results chunk (at (codes "results") answer))

-- What a thread finds in an object whose event is set
unfoldable pub object_outcome : Result OsvError Found → ℕ → Result OsvError Members
unfolding get
object_outcome (err e) o = err e
object_outcome (ok found) o = elim (get o found) [ none ↦ err package_shape | some page ↦ ok page ]

-- The events of the batch are set.
unfoldable pub set_events : Result OsvError Found → Batch → Outcomes → Outcomes
unfolding object_outcome put
set_events found [] outcomes = outcomes
set_events found ((key, o) ∷ batch) outcomes =
    set_events found batch (put o (object_outcome found o) outcomes)

-- Where a thread stands: it asks the cache; it has missed it; it leads and sleeps; it resolves a
-- batch, of which some is still to do; it waits for the event of an object; it has returned.
pub data Thread : Type 0 where
  asks missed : Key → Thread
  sleeps waits : ℕ → Thread
  resolves : ℕ → Batch → Batch → Found → Thread
  returned : Result OsvError Members → Thread

pub record Shared : Type 0 where
  pub pages : PageCache
  pub pending : Batch
  pub active : Bool
  -- The number of objects made so far
  pub objects : ℕ
  pub outcomes : Outcomes

unfoldable pub after_cache : Key → Shared → PageCache × Option Members → Thread × Shared
after_cache key sh (pages, some page) = (returned (ok page), record sh { pages = pages })
after_cache key sh (pages, none) = (missed key, record sh { pages = pages })

-- The first thread to join a batch leads it.
unfoldable pub lead_or_wait : ℕ → Shared → Thread × Shared
lead_or_wait o sh = if sh.active then (waits o, sh) else (sleeps o, record sh { active = true })

unfoldable pub join : Key → Shared → Thread × Shared
unfolding lead_or_wait get put
join key sh = elim (get key sh.pending) [
  | some o ↦ lead_or_wait o sh
  | none ↦
      lead_or_wait sh.objects
        (record sh { pending = put key sh.objects sh.pending; objects = suc sh.objects })
]

unfoldable pub finish : ℕ → Batch → Result OsvError Found → Shared → Thread × Shared
unfolding set_events get
finish own batch found sh =
    let outcomes = set_events found batch sh.outcomes in
    (returned (get_or (get own outcomes) (err package_shape)), record sh { outcomes = outcomes })

unfoldable pub after_chunk :
    ℕ → Batch → Batch → Shared → PageCache × Result OsvError Found → Thread × Shared
unfolding finish
after_chunk own batch todo sh (pages, err e) =
    finish own batch (err e) (record sh { pages = pages })
after_chunk own batch todo sh (pages, ok found) =
    (resolves own batch todo found, record sh { pages = pages })

-- The next step of a thread, if it has one now
unfoldable pub run : Client → World → Thread → Shared → Option (Thread × Shared)
unfolding cached_page after_cache join finish after_chunk resolve_chunk get
run client w (asks key) sh = some (after_cache key sh (cached_page client w.now key sh.pages))
run client w (missed key) sh = some (join key sh)
run client w (sleeps own) sh =
    some (resolves own sh.pending sh.pending [], record sh { pending = []; active = false })
run client w (resolves own batch [] found) sh = some (finish own batch (ok found) sh)
run client w (resolves own batch (q ∷ todo) found) sh = some (
    after_chunk own batch (drop client.batch_size (q ∷ todo)) sh
      (resolve_chunk client w (take client.batch_size (q ∷ todo)) sh.pages found))
run client w (waits o) sh = elim (get o sh.outcomes) [
  | none ↦ none
  | some outcome ↦ some (returned outcome, sh)
]
run client w (returned outcome) sh = none

-- One thread of several takes a step.
pub data Step (client : Client) : List Thread × Shared → List Thread × Shared → Type 0 where
  turn :
      (w : World) (before after : List Thread) (t t' : Thread) (sh sh' : Shared)
      → run client w t sh ≡ some (t', sh')
      → Step client (before ++ t ∷ after, sh) (before ++ t' ∷ after, sh')

-- A run of a number of steps
pub data Run (client : Client) (start : List Thread × Shared)
    : ℕ → List Thread × Shared → Type 0 where
  here : Run client start zero start
  next :
      {n : ℕ} {s t : List Thread × Shared}
      → Run client start n s
      → Step client s t
      → Run client start (suc n) t

-- The threads that ask for a list of keys, before any batch
abbrev pub start : List Key → PageCache → List Thread × Shared
start asked pages = (
  map asks asked,
  record { pages = pages; pending = []; active = false; objects = 0; outcomes = [] },
)
