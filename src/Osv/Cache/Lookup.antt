-- ===== src/Osv/Cache/Lookup.antt =====
-- What `get` answers after `set`.
use artea.Base.{
  ℕ, ◌+◌, ◌-◌, ◌<◌, ◌≡◌, refl, Bool, true, false, Option, none, some, List, eq_text, eq_pair, ◌==◌,
  leb, if◌then◌else◌, contains, arith, Bool-cases, inl, inr,
}
use artea.Base.Dict.{IsDict, get, put, keys, put-IsDict, get-put, length-put-le}
use artea.Base.Lists.{length, keep, take}
use artea.Base.Sort.{sort_by}
use artea.Osv.{Verdict}
use artea.Osv.Cache.{
  CachedVerdict, VerdictCache, Key, Entries, is_expired, lookup, unless_expired, remove_all,
  evict_leb, sweep, evict, trim, stored, set,
}
use artea.Osv.Cache.Evict.{get-remove_all}
use artea.Osv.Cache.Bounds.{sweep-IsDict}

-- An entry that a step keeps is the one that was there.
abbrev Keeps : Entries → Entries → Type 0
Keeps d e = (k : Key) (v : CachedVerdict) → get k e ≡ some v → get k d ≡ some v

only_removed :
    (b : Bool) (o : Option CachedVerdict) {v : CachedVerdict}
    → (if b then none else o) ≡ some v
    → o ≡ some v
only_removed true o h = absurd (cc h)
only_removed false o h = h

remove_all-Keeps : (ks : List Key) (d : Entries) → IsDict d → Keeps d (remove_all ks d)
remove_all-Keeps ks d u =
    λ k v h. only_removed (contains k ks) (get k d) (rw (get-remove_all ks d k u) at h)

trim-Keeps : (c : VerdictCache) (now : ℕ) (d : Entries) → IsDict d → Keeps d (trim c now d)
unfolding trim evict sweep
trim-Keeps c now d u = elim (Bool-cases (leb (length d) c.max_entries)) [
  | inl h ↦ rw h (λ k v e. e)
  | inr h ↦ rw h (λ k v e. remove_all-Keeps (keys (keep (λ kv. is_expired c kv.1 now) d)) d u k v (
      remove_all-Keeps
        (keys (take (length (sweep c now d) - c.max_entries) (sort_by evict_leb (sweep c now d))))
        (sweep c now d) (sweep-IsDict c now d u) k v e))
]

-- A lookup that answers has found an entry that has not expired.
unless_expired-some :
    (c : VerdictCache) (now : ℕ) (o : Option CachedVerdict) {w : Verdict}
    → unless_expired c now o ≡ some w
    → (v : CachedVerdict) × ((o ≡ some v) × ((is_expired c v now ≡ false) × (v.verdict ≡ w)))
unfolding unless_expired
unless_expired-some c now none h = absurd (cc h)
unless_expired-some c now (some v) h = elim (Bool-cases (is_expired c v now)) [
  | inl e ↦ absurd (cc (rw e at h))
  | inr e ↦ (v, (refl, (e, verdict_of (rw e at h))))
]
  where
    verdict_of : {a b : Verdict} → ◌≡◌ {A = Option Verdict} (some a) (some b) → a ≡ b
    verdict_of h = cc

unless_expired-fresh :
    (c : VerdictCache) (now : ℕ) (v : CachedVerdict)
    → is_expired c v now ≡ false
    → unless_expired c now (some v) ≡ some v.verdict
unfolding unless_expired
unless_expired-fresh c now v h = rw h refl

set_entry :
    (c : VerdictCache) (now later : ℕ) (key k : Key) (verdict : Verdict) (v : CachedVerdict)
    → IsDict c.entries
    → get k (set c now key verdict).entries ≡ some v
    → is_expired c v later ≡ false
    → (if key == k then some verdict else lookup c later k) ≡ some v.verdict
unfolding set stored lookup
set_entry c now later key k verdict v u h fresh =
    let p = put-IsDict key (record { stored_at = now; verdict = verdict }) c.entries u in
    let e = trim-Keeps c now _ p k v h in
    elim (Bool-cases (key == k)) [
      | inl same ↦ rw same (own (rw (get-put key k, same) at e))
      | inr ne ↦ rw (ne, rw (get-put key k, ne) at e) (unless_expired-fresh c later v fresh)
    ]
  where
    own :
        ◌≡◌ {A = Option CachedVerdict}
          (some (record { stored_at = now; verdict = verdict }))
          (some v)
        → ◌≡◌ {A = Option Verdict} (some verdict) (some v.verdict)
    own h = cc

-- A cache with one verdict for each key answers only what it was told: an answer after `set` is the verdict set under the key,
-- or, under any other key, what the cache would have answered at that time before `set`.
pub lookup-set :
    (c : VerdictCache) (now later : ℕ) (key k : Key) (verdict : Verdict) {answer : Verdict}
    → IsDict c.entries
    → lookup (set c now key verdict) later k ≡ some answer
    → (if key == k then some verdict else lookup c later k) ≡ some answer
unfolding lookup
lookup-set c now later key k verdict {answer} u h =
    let (v, (found, (fresh, same))) =
      unless_expired-some (set c now key verdict) later (get k (set c now key verdict).entries) h in
    rw (← same) (set_entry c now later key k verdict v u found (unfold set is_expired in fresh))

-- A verdict is answered until its time to live is over, if the cache had room for it.
pub lookup-set_self :
    (c : VerdictCache) (now later : ℕ) (key : Key) (verdict : Verdict)
    → length c.entries < c.max_entries
    → later < (if verdict.blocked then c.positive_ttl else c.negative_ttl) + now
    → lookup (set c now key verdict) later key ≡ some verdict
unfolding lookup set trim stored
lookup-set_self c now later key verdict room fresh =
    let small : leb (length (put key (record { stored_at = now; verdict = verdict }) c.entries))
          c.max_entries
        ≡ true =
      ground (arith, length-put-le key (record { stored_at = now; verdict = verdict }) c.entries) in
    rw (small, get-put key key, (eq_pair.beq_iff key key).1 refl)
      (unless_expired-fresh (record c { entries = stored c now key verdict }) later
        (record { stored_at = now; verdict = verdict }) (unfold is_expired in ground arith))
