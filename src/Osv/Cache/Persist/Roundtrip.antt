-- ===== src/Osv/Cache/Persist/Roundtrip.antt =====
-- What `persist` wrote, `_load` reads.
use artea.Base.{
  ℕ, ◌+◌, ◌≤◌, ◌≡◌, refl, ◌∙◌, Bool, true, false, not, ◌||◌, Option, none, some, [], ◌∷◌, eq_text,
  text_eq, ltb, if◌then◌else◌, map, arith, contains, Bool-cases, inl, inr, eq_pair, ◌==◌,
}
use artea.Base.Dict.{IsDict, get, keys, contains-keys}
use artea.Base.Lists.{keep, length, All, length-keep-le}
use artea.Osv.Json.{Json, at}
use artea.Osv.Cache.{CachedVerdict, VerdictCache, Key, Entries, is_expired, lookup, unless_expired}
use artea.Osv.Cache.Persist.{entry_json, payload, persist, read_array, load_from, entries_of, load}
use artea.Osv.Cache.Persist.Load.{IsKeyed, load_from-entries, items-array_of}

module _ (c : VerdictCache) (now : ℕ) where
  abbrev kept : Entries → Entries
  kept = keep (λ kv. not (is_expired c kv.1 now))

  contains-kept :
      (k : Key) (d : Entries) → contains k (keys (kept d)) ≡ true → contains k (keys d) ≡ true
  unfolding keep contains
  contains-kept k [] h = h
  contains-kept k ((j, v) ∷ d) h = elim (Bool-cases (is_expired c v now)) [
    | inl e ↦ or_right (j == k) (contains-kept k d (rw e at h))
    | inr e ↦ or_mono (j == k) (contains-kept k d) (rw e at h)
  ]
    where
      or_right : (a : Bool) {b : Bool} → b ≡ true → (a || b) ≡ true
      or_right a h = ground arith

      or_mono :
          (a : Bool) {b b' : Bool} → (b ≡ true → b' ≡ true) → (a || b) ≡ true → (a || b') ≡ true
      or_mono a f h = ground arith

  kept-IsDict : (d : Entries) → IsDict d → IsDict (kept d)
  unfolding keep
  kept-IsDict [] u = tt
  kept-IsDict ((j, v) ∷ d) u = elim (Bool-cases (is_expired c v now)) [
    | inl e ↦ rw e (kept-IsDict d u.1)
    | inr e ↦ rw e (absent (contains-kept j d) u.0, kept-IsDict d u.1)
  ]
    where
      absent : {a b : Bool} → (a ≡ true → b ≡ true) → b ≡ false → a ≡ false
      absent f h = ground arith

  kept-All : (d : Entries) → All IsKeyed d → All IsKeyed (kept d)
  unfolding keep
  kept-All [] w = tt
  kept-All (x ∷ d) w = elim (Bool-cases (is_expired c x.1 now)) [
    | inl e ↦ rw e (kept-All d w.1)
    | inr e ↦ rw e (w.0, kept-All d w.1)
  ]

  -- An entry that has expired stays so.
  expired_later :
      (v : CachedVerdict) (later : ℕ)
      → now ≤ later
      → is_expired c v now ≡ true
      → is_expired c v later ≡ true
  unfolding is_expired
  expired_later v later le h = ground arith

  absent :
      (j k : Key) (d : Entries) → contains j (keys d) ≡ false → (j == k) ≡ true → get k d ≡ none
  absent j k d h m =
      let n : contains k (keys d) ≡ false = rw ((eq_pair.beq_iff j k).0 m) at h in
      ground (arith, contains-keys k d)

  gone_later :
      (v : CachedVerdict) (later : ℕ) (mine : Bool) (o : Option CachedVerdict)
      → is_expired c v later ≡ true
      → (mine ≡ true → o ≡ none)
      → unless_expired c later o ≡ unless_expired c later (if mine then some v else o)
  unfolding unless_expired
  gone_later v later true o e h = rw (h refl, e) refl
  gone_later v later false o e h = refl

  get-kept :
      (k : Key) (d : Entries) (later : ℕ)
      → IsDict d
      → now ≤ later
      → unless_expired c later (get k (kept d)) ≡ unless_expired c later (get k d)
  unfolding keep get
  get-kept k [] later u le = refl
  get-kept k ((j, v) ∷ d) later u le =
      let rest = get-kept k d later u.1 le in
      elim (Bool-cases (is_expired c v now)) [
        | inl old ↦ rw old (
            rest
            ∙ gone_later v later (j == k) (get k d) (expired_later v later le old)
                (absent j k d u.0))
        | inr fresh ↦
            rw fresh (elim (Bool-cases (j == k)) [ inl e ↦ rw e refl | inr e ↦ rw e rest ])
      ]

-- Only the times to live matter.
same_ttl :
    (c : VerdictCache) (later : ℕ) (o : Option CachedVerdict)
    → unless_expired (record c { entries = [] }) later o ≡ unless_expired c later o
unfolding unless_expired is_expired
same_ttl c later none = refl
same_ttl c later (some v) = refl

zero_le_add : {a b : ℕ} → a ≤ b → 0 + a ≤ b
zero_le_add h = omega arith

absent_none : (k : Key) (es : Entries) → contains k (keys es) ≡ false → get k es ≡ none
absent_none k es h = ground (arith, contains-keys k es)

lookup-load :
    (c : VerdictCache) (later : ℕ) (k : Key) (es : Entries)
    → IsDict es
    → All IsKeyed es
    → length es ≤ c.max_entries
    → lookup (load (record c { entries = [] }) later (payload es)) later k
      ≡ unless_expired c later (get k es)
unfolding lookup load entries_of payload read_array at text_eq
lookup-load c later k es u w room =
    let e =
      load_from-entries (record c { entries = [] }) later 0 es [] k u w (zero_le_add room)
        (λ _. unfold get in refl) in
    rw (items-array_of (map entry_json es)) (
      moved (get k (load_from (record c { entries = [] }) later 0 (map entry_json es) []))
      ∙ (e
          ∙ (both (contains k (keys es)) (get k es) (absent_none k es)
              ∙ same_ttl c later (get k es))))
  where
    same_ttl_any :
        (d d' : Entries) (o : Option CachedVerdict)
        → unless_expired (record c { entries = d }) later o
          ≡ unless_expired (record c { entries = d' }) later o
    same_ttl_any d d' none = unfold unless_expired in refl
    same_ttl_any d d' (some v) = unfold unless_expired is_expired in refl

    moved :
        (o : Option CachedVerdict)
        → unless_expired
            (record c {
              entries = load_from (record c { entries = [] }) later 0 (map entry_json es) [];
            })
            later
            o
          ≡ unless_expired (record c { entries = [] }) later o
    moved o =
        same_ttl_any (load_from (record c { entries = [] }) later 0 (map entry_json es) []) [] o

    both :
        (b : Bool) (o : Option CachedVerdict)
        → (b ≡ false → o ≡ none)
        → (if b
            then unless_expired (record c { entries = [] }) later o
            else unless_expired (record c { entries = [] }) later (get k []))
          ≡ unless_expired (record c { entries = [] }) later o
    both true o h = refl
    both false o h = rw (h refl) (unfold get in refl)

-- Let a cache with a file hold one verdict for each key and `max_entries` of them at most, each on
-- the version of its key, no part of which is empty. If it is not too early to write, `persist`
-- writes, and what it writes gives a new cache, with the same times to live and the same bound,
-- every answer that the old one would give at the time of the load.
pub lookup-load-persist :
    (c : VerdictCache) (now later : ℕ) (k : Key)
    → IsDict c.entries
    → All IsKeyed c.entries
    → length c.entries ≤ c.max_entries
    → text_eq c.cache_file_path [] ≡ false
    → c.persist_min_interval + c.last_persist ≤ now
    → now ≤ later
    → (file : Json) × ((persist c now).1 ≡ some file)
      × (lookup (load (record c { entries = [] }) later file) later k ≡ lookup c later k)
unfolding persist
lookup-load-persist c now later k u w room path early le = (
  payload (kept c now c.entries),
  rw (path, not_early c.persist_min_interval c.last_persist now early) refl,
  lookup-load c later k (kept c now c.entries) (kept-IsDict c now c.entries u)
        (kept-All c now c.entries w)
        (le_trans (length-keep-le (λ kv. not (is_expired c kv.1 now)) c.entries) room)
      ∙ (get-kept c now k c.entries later u le ∙ unfold lookup in refl),
)
  where
    not_early : (a b n : ℕ) → a + b ≤ n → ltb n (a + b) ≡ false
    not_early a b n h = ground arith

    le_trans : {a b n : ℕ} → a ≤ b → b ≤ n → a ≤ n
    le_trans h g = omega arith
