-- ===== src/Osv/Cache/Persist.antt =====
-- `persist` and `_load` of `_VerdictCache` in policy-sync/policy_sync/osv.py. What `persist` writes
-- is the payload that it returns; a failed write is logged and changes nothing here.
pub mod Load
pub mod Roundtrip
use artea.Base.{
  ℕ, zero, suc, ◌+◌, Bool, true, false, not, ◌&&◌, ◌||◌, Option, none, some, List, [], ◌∷◌, Text,
  codes, eq_text, eq_pair, text_eq, ltb, leb, if◌then◌else◌, map,
}
use artea.Base.Dict.{Dict, put, keys}
use artea.Base.Lists.{keep}
use artea.Osv.{Verdict}
use artea.Osv.Json.{
  Json, null, boolean, number, string, array, object, nil, cons, end, member, items, array_of, at,
}
use artea.Osv.Cache.{CachedVerdict, VerdictCache, Key, Entries, is_expired, sweep}

unfoldable pub entry_json : Key × CachedVerdict → Json
unfolding array_of
entry_json ((ecosystem, (name, version)), entry) = object (
    member (codes "key") (array (array_of (string ecosystem ∷ string name ∷ string version ∷ []))) (
      member (codes "stored_at") (number entry.stored_at) (
        member (codes "blocked") (boolean entry.verdict.blocked)
          (member (codes "ids") (array (array_of (map string entry.verdict.ids))) end))))

unfoldable pub payload : List (Key × CachedVerdict) → Json
unfolding array_of entry_json
payload entries = object (member (codes "entries") (array (array_of (map entry_json entries))) end)

-- `_VerdictCache.persist`: the cache after it, and the payload, if it wrote one.
unfoldable pub persist : VerdictCache → ℕ → VerdictCache × Option Json
unfolding payload keep is_expired sweep
persist c now =
    if text_eq c.cache_file_path []
    then (c, none)
    else if ltb now (c.persist_min_interval + c.last_persist)
    then (c, none)
    else (
      record c { last_persist = now; entries = sweep c now c.entries },
      some (payload (keep (λ kv. not (is_expired c kv.1 now)) c.entries)),
    )

-- The three parts of a key, each a string that is not empty.
unfoldable pub read_key : List Json → Option Key
read_key (string (a ∷ s) ∷ string (b ∷ t) ∷ string (c ∷ u) ∷ []) = some (a ∷ s, (b ∷ t, c ∷ u))
read_key js = none

unfoldable pub strings : List Json → List Text
strings [] = []
strings (string s ∷ js) = s ∷ strings js
strings (j ∷ js) = strings js

-- A `bool` is an `int`.
unfoldable pub read_time : Json → Option ℕ
read_time (number n) = some n
read_time (boolean true) = some 1
read_time (boolean false) = some 0
read_time j = none

unfoldable pub read_fields : Option Key → Option ℕ → Json → Json → Option (Key × CachedVerdict)
unfolding strings items
read_fields (some (e, (n, v))) (some t) (boolean blocked) (array ids) = some (
  (e, (n, v)),
  record {
    stored_at = t;
    verdict = record { version = v; blocked = blocked; ids = strings (items ids) };
  },
)
read_fields k t b i = none

unfoldable pub read_array : Json → Option (List Json)
unfolding items
read_array (array js) = some (items js)
read_array j = none

unfoldable pub key_of : Option (List Json) → Option Key
unfolding read_key
key_of (some js) = read_key js
key_of none = none

unfoldable pub read_entry : Json → Option (Key × CachedVerdict)
unfolding read_fields key_of read_array read_time at
read_entry (object ms) =
    read_fields (key_of (read_array (at (codes "key") ms))) (read_time (at (codes "stored_at") ms))
      (at (codes "blocked") ms) (at (codes "ids") ms)
read_entry j = none

-- The loop of `_load`, with the count of the entries loaded so far.
unfoldable pub load_from : VerdictCache → ℕ → ℕ → List Json → Entries → Entries
unfolding read_entry is_expired put
load_from c now loaded [] d = d
load_from c now loaded (raw ∷ rest) d = elim (read_entry raw) [
  | none ↦ load_from c now loaded rest d
  | some (k, entry) ↦
      if is_expired c entry now
      then load_from c now loaded rest d
      else if leb c.max_entries (suc loaded)
      then put k entry d
      else load_from c now (suc loaded) rest (put k entry d)
]

unfoldable pub entries_of : Json → Option (List Json)
unfolding read_array at
entries_of (object ms) = read_array (at (codes "entries") ms)
entries_of j = none

-- `_VerdictCache._load`, of what the file holds
unfoldable pub load : VerdictCache → ℕ → Json → VerdictCache
unfolding entries_of load_from
load c now file = elim (entries_of file) [
  | none ↦ c
  | some raws ↦ record c { entries = load_from c now 0 raws c.entries }
]
