-- ===== src/Devpi/Plugin/OsvCache.antt =====
-- `osv_cache` of devpi/artea_devpi_policy/src/artea_devpi_policy/main.py, an `OrderedDict`: the last
-- entry is the one that was used last.
pub mod Bounds
use artea.Base.{
  ℕ, Eq, zero, suc, ◌+◌, ◌-◌, Bool, true, false, List, [], ◌∷◌, ◌++◌, Text, eq_text, eq_texts,
  eq_pair, ltb, leb, if◌then◌else◌,
}
use artea.Base.Dict.{Dict, get, put, remove, items_at}
use artea.Base.Lists.{length, keep}
use mathlib.Core.Option.{Option, none, some}

-- The URL, the project and the sorted versions
abbrev pub Key : Type 0
Key = Text × (Text × List Text)

-- When the answer came, and the blocked versions
abbrev pub Entry : Type 0
Entry = ℕ × List Text

abbrev pub OsvCache : Type 0
OsvCache = Dict Key Entry

-- `OSV_CACHE_SECONDS` and `OSV_CACHE_MAX_ENTRIES`
abbrev pub osv_cache_seconds : ℕ
osv_cache_seconds = 300

abbrev pub osv_cache_max_entries : ℕ
osv_cache_max_entries = 4096

-- `stamp - stored_at < OSV_CACHE_SECONDS`
unfoldable pub is_fresh : ℕ → Entry → Bool
is_fresh stamp entry = ltb stamp (entry.0 + osv_cache_seconds)

module _ {K V : Type 0} ⦃e : Eq K⦄ where
  -- `d.move_to_end(key)`
  unfoldable pub move_to_end : K → Dict K V → Dict K V
  unfolding get remove
  move_to_end key d = elim (get key d) [ none ↦ d | some entry ↦ remove key d ++ (key, entry) ∷ [] ]

  -- `while len(d) > n: d.popitem(last=False)`
  unfoldable pub pop_first : ℕ → Dict K V → Dict K V
  pop_first n [] = []
  pop_first n (p ∷ d) = let rest = pop_first n d in if ltb n (length (p ∷ d)) then rest else p ∷ d

-- The loop that deletes the entries that are too old
unfoldable pub drop_stale : ℕ → OsvCache → OsvCache
unfolding keep is_fresh
drop_stale stamp d = keep (λ e. is_fresh stamp e.1) d

-- `store_osv_cache_entry`
unfoldable pub store_osv_cache_entry : OsvCache → Key → ℕ → List Text → OsvCache
unfolding put move_to_end drop_stale pop_first
store_osv_cache_entry cache key fetched_at blocked =
    pop_first osv_cache_max_entries
      (drop_stale fetched_at (move_to_end key (put key (fetched_at, blocked) cache)))
