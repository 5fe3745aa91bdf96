-- ===== src/Devpi/Plugin/Query.antt =====
-- `query_osv_blocked_versions` of devpi/artea_devpi_policy/src/artea_devpi_policy/main.py. One clock
-- value serves the whole call.
pub mod Honest
use artea.Base.{
  ℕ, Bool, true, false, not, ◌&&◌, ◌||◌, Option, none, some, List, [], ◌∷◌, Text, codes, eq_text,
  eq_texts, eq_pair, ◌==◌, if◌then◌else◌, Result, ok, err,
}
use artea.Base.Dict.{get, remove, add}
use artea.Base.Sort.{sorted}
use artea.Osv.Json.{Json, null, boolean, string, array, object, Members, at, items}
use artea.Devpi.Plugin.{PluginError, attribute_error}
use artea.Devpi.Plugin.OsvCache.{Key, Entry, OsvCache, is_fresh, move_to_end, store_osv_cache_entry}

-- What a request gives: a failure, or the JSON value of the body
pub data Answer : Type 0 where
  unavailable : Answer
  answered : Json → Answer

-- What the plugin asks for outside devpi. An answer depends on the request.
pub record World : Type 0 where
  pub now : ℕ
  -- `time.time()` and the OSV endpoint: the URL, the project and the versions
  pub osv : Text → Text → List Text → Answer
  -- The project's JSON of pypi.org: the URL and the project
  pub pypi : Text → Text → Answer

unfoldable pub is_blank : Text → Bool
is_blank [] = true
is_blank (c ∷ s) = false

-- `{s for s in versions if s}`
unfoldable pub nonblank : List Text → List Text → List Text
unfolding is_blank add
nonblank [] set = set
nonblank (v ∷ vs) set = nonblank vs (if is_blank v then set else add v set)

-- The versions of a query, sorted
unfoldable pub unique_versions : List Text → List Text
unfolding nonblank
unique_versions versions = sorted (nonblank versions [])

-- `item.get("blocked") is True`
unfoldable pub is_true : Json → Bool
is_true (boolean b) = b
is_true j = false

unfoldable pub add_result : Members → Json → List Text → List Text
unfolding is_true add at
add_result item (string version) blocked =
    if is_true (at (codes "blocked") item) then add version blocked else blocked
add_result item j blocked = blocked

-- The loop over the results
unfoldable pub blocked_of : List Json → List Text → List Text
unfolding add_result at
blocked_of [] blocked = blocked
blocked_of (object item ∷ js) blocked =
    blocked_of js (add_result item (at (codes "version") item) blocked)
blocked_of (j ∷ js) blocked = blocked_of js blocked

unfoldable pub is_status_ok : Json → Bool
is_status_ok (string s) = s == codes "ok"
is_status_ok j = false

-- Only an answer whose status is `ok` is stored.
unfoldable pub read_results : OsvCache → Key → ℕ → Members → Json → OsvCache × List Text
unfolding blocked_of is_status_ok store_osv_cache_entry at items
read_results cache key now answer (array results) =
    let blocked = blocked_of (items results) [] in
    if is_status_ok (at (codes "status") answer)
    then (store_osv_cache_entry cache key now blocked, blocked)
    else (cache, blocked)
read_results cache key now answer j = (cache, [])

-- A request that fails blocks nothing.
unfoldable pub read_answer : OsvCache → Key → ℕ → Answer → OsvCache × Result PluginError (List Text)
unfolding read_results at
read_answer cache key now unavailable = (cache, ok [])
read_answer cache key now (answered (object answer)) =
    let r = read_results cache key now answer (at (codes "results") answer) in (r.0, ok r.1)
read_answer cache key now (answered j) = (cache, err attribute_error)

unfoldable pub ask : World → OsvCache → Key → OsvCache × Result PluginError (List Text)
unfolding read_answer
ask w cache (osv_url, (project, unique)) =
    read_answer cache (osv_url, (project, unique)) w.now (w.osv osv_url project unique)

-- The cached answer, if it is fresh
unfoldable pub ask_cached : World → OsvCache → Key → OsvCache × Result PluginError (List Text)
unfolding ask get remove is_fresh move_to_end
ask_cached w cache key = elim (get key cache) [
  | none ↦ ask w cache key
  | some entry ↦
      if is_fresh w.now entry
      then (move_to_end key cache, ok entry.1)
      else ask w (remove key cache) key
]

-- `query_osv_blocked_versions`
unfoldable pub query_osv_blocked_versions :
    World → OsvCache → Text → Text → List Text → OsvCache × Result PluginError (List Text)
unfolding ask_cached unique_versions is_blank
query_osv_blocked_versions w cache osv_url project versions =
    if is_blank osv_url then (cache, ok []) else elim (unique_versions versions) [
      | [] ↦ (cache, ok [])
      | v ∷ vs ↦ ask_cached w cache (osv_url, (project, v ∷ vs))
    ]
