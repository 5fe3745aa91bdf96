-- ===== src/Osv/Cache.antt =====
-- `_VerdictCache` of policy-sync/policy_sync/osv.py. The clock's value is an argument of each
-- operation; times are natural numbers. The lock makes each operation one step.
pub mod Evict
pub mod Bounds
pub mod Lookup
pub mod Persist
use artea.Base.{
  ℕ, zero, suc, ◌+◌, ◌-◌, Bool, true, false, not, ◌&&◌, ◌||◌, Option, none, some, List, [], ◌∷◌,
  Text, eq_text, eq_pair, ltb, leb, nat_eq, if◌then◌else◌,
}
use artea.Base.Dict.{Dict, get, put, remove, keys}
use artea.Base.Lists.{length, keep, take}
use artea.Base.Sort.{sort_by}
use artea.Osv.{Verdict}

-- `_CachedVerdict`
pub record CachedVerdict : Type 0 where
  pub stored_at : ℕ
  pub verdict : Verdict

-- The ecosystem, the name and the version.
abbrev pub Key : Type 0
Key = Text × (Text × Text)

abbrev pub Entries : Type 0
Entries = Dict Key CachedVerdict

-- `_VerdictCache`
pub record VerdictCache : Type 0 where
  pub positive_ttl : ℕ
  pub negative_ttl : ℕ
  pub max_entries : ℕ
  pub cache_file_path : Text
  pub persist_min_interval : ℕ
  pub last_persist : ℕ
  pub entries : Entries

-- `_is_expired`: `now - stored_at >= ttl`, the subtraction moved to the other side
unfoldable pub is_expired : VerdictCache → CachedVerdict → ℕ → Bool
is_expired c entry now =
    let ttl = if entry.verdict.blocked then c.positive_ttl else c.negative_ttl in
    leb (ttl + entry.stored_at) now

unfoldable pub unless_expired : VerdictCache → ℕ → Option CachedVerdict → Option Verdict
unfolding is_expired
unless_expired c now none = none
unless_expired c now (some entry) = if is_expired c entry now then none else some entry.verdict

-- `_VerdictCache.get`
unfoldable pub lookup : VerdictCache → ℕ → Key → Option Verdict
unfolding unless_expired get
lookup c now key = unless_expired c now (get key c.entries)

-- `del self._data[key]` for each of the keys
unfoldable pub remove_all : List Key → Entries → Entries
unfolding remove
remove_all [] d = d
remove_all (k ∷ ks) d = remove_all ks (remove k d)

-- The order of the tuples `(blocked, stored_at)`, False before True.
unfoldable pub evict_leb : Key × CachedVerdict → Key × CachedVerdict → Bool
evict_leb (k, a) (j, b) =
    not a.verdict.blocked && b.verdict.blocked
    || ((if a.verdict.blocked then b.verdict.blocked else not b.verdict.blocked)
        && leb a.stored_at b.stored_at)

unfoldable pub sweep : VerdictCache → ℕ → Entries → Entries
unfolding is_expired remove_all keep
sweep c now d = remove_all (keys (keep (λ kv. is_expired c kv.1 now) d)) d

-- The first `overflow` entries of the order are deleted.
unfoldable pub evict : ℕ → Entries → Entries
unfolding remove_all sort_by evict_leb
evict overflow d = remove_all (keys (take overflow (sort_by evict_leb d))) d

-- `_VerdictCache.set`
unfoldable pub stored : VerdictCache → ℕ → Key → Verdict → Entries
unfolding put
stored c now key v = put key (record { stored_at = now; verdict = v }) c.entries

unfoldable pub trim : VerdictCache → ℕ → Entries → Entries
unfolding sweep evict
trim c now d =
    if leb (length d) c.max_entries
    then d
    else evict (length (sweep c now d) - c.max_entries) (sweep c now d)

unfoldable pub set : VerdictCache → ℕ → Key → Verdict → VerdictCache
unfolding stored trim
set c now key v = record c { entries = trim c now (stored c now key v) }
