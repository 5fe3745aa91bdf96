-- ===== src/Devpi/Plugin/OsvCache/Bounds.antt =====
-- The cache of the devpi plugin's OSV answers is bounded, and keeps the answer that it has just taken.
use artea.Base.{
  ℕ, Eq, ◌≤◌, ◌<◌, ◌≡◌, refl, ◌∙◌, ap, Bool, true, false, ◌||◌, none, some, List, [], ◌∷◌, ◌++◌,
  Text, eq_text, eq_texts, eq_pair, ◌==◌, contains, arith, Option-cases, inl, inr,
}
use artea.Base.Dict.{
  Dict, IsDict, get, put, remove, keys, get-put, put-IsDict, remove-IsDict, contains-remove,
  contains-keys,
}
use artea.Base.Lists.{length, keep}
use artea.Devpi.Plugin.OsvCache.{
  Key, Entry, OsvCache, osv_cache_max_entries, is_fresh, move_to_end, drop_stale, pop_first,
  store_osv_cache_entry,
}

module _ {K V : Type 0} ⦃e : Eq K⦄ where
  length-pop_first : (n : ℕ) (d : Dict K V) → length (pop_first n d) ≤ n
  unfolding pop_first
  length-pop_first n [] = omega arith
  length-pop_first n (p ∷ d) = ground (arith, length-pop_first n d)

  contains-pop_first :
      (n : ℕ) (k : K) (d : Dict K V)
      → contains k (keys d) ≡ false
      → contains k (keys (pop_first n d)) ≡ false
  unfolding pop_first contains
  contains-pop_first n k [] h = refl
  contains-pop_first n k ((j, v) ∷ d) h = ground (arith, contains-pop_first n k d)

  pop_first-IsDict : (n : ℕ) (d : Dict K V) → IsDict d → IsDict (pop_first n d)
  unfolding pop_first
  pop_first-IsDict n [] u = tt
  pop_first-IsDict n ((j, v) ∷ d) u = ground (arith, pop_first-IsDict n d u.1)

  get-snoc : (k : K) (v : V) (d : Dict K V) → get k d ≡ none → get k (d ++ (k, v) ∷ []) ≡ some v
  unfolding get
  get-snoc k v [] g = ground (arith, e.beq_iff k k)
  get-snoc k v ((j, w) ∷ d) g = ground (arith, get-snoc k v d, e.beq_iff j k)

  -- The last entry is never the one that is popped.
  pop_first-last :
      (n : ℕ) (k : K) (v : V) (d : Dict K V)
      → 0 < n
      → get k d ≡ none
      → get k (pop_first n (d ++ (k, v) ∷ [])) ≡ some v
  unfolding pop_first get
  pop_first-last n k v [] h g = ground (arith, e.beq_iff k k)
  pop_first-last n k v ((j, w) ∷ d) h g =
      ground (arith, pop_first-last n k v d, get-snoc k v d, e.beq_iff j k)

  contains-keys-snoc :
      (j k : K) (v : V) (d : Dict K V)
      → contains j (keys (d ++ (k, v) ∷ [])) ≡ (contains j (keys d) || k == j)
  unfolding contains
  contains-keys-snoc j k v [] = ground arith
  contains-keys-snoc j k v ((i, w) ∷ d) = ground (arith, contains-keys-snoc j k v d)

  snoc-IsDict :
      (k : K) (v : V) (d : Dict K V)
      → contains k (keys d) ≡ false
      → IsDict d
      → IsDict (d ++ (k, v) ∷ [])
  unfolding contains
  snoc-IsDict k v [] h u = ground arith
  snoc-IsDict k v ((i, w) ∷ d) h u = ground (
    arith,
    snoc-IsDict k v d (ground arith) u.1,
    contains-keys-snoc i k v d,
    e.beq_iff i k,
    e.beq_iff k i,
  )

  move_to_end-IsDict : (k : K) (d : Dict K V) → IsDict d → IsDict (move_to_end k d)
  unfolding move_to_end
  move_to_end-IsDict k d u = elim (Option-cases (get k d)) [
    | inl h ↦ rw (move_to_end, h) u
    | inr (v, h) ↦
        rw (move_to_end, h)
          (snoc-IsDict k v (remove k d)
            (rw (contains-remove k k d u) (ground (arith, e.beq_iff k k))) (remove-IsDict k d u))
  ]

  get-none-contains : (k : K) (d : Dict K V) → contains k (keys d) ≡ false → get k d ≡ none
  get-none-contains k d h = ground (arith, contains-keys k d, h)

  contains-keys-keep :
      (p : K × V → Bool) (k : K) (d : Dict K V)
      → contains k (keys d) ≡ false
      → contains k (keys (keep p d)) ≡ false
  unfolding contains keep
  contains-keys-keep p k [] h = refl
  contains-keys-keep p k ((j, v) ∷ d) h = ground (arith, contains-keys-keep p k d)

  keep-IsDict : (p : K × V → Bool) (d : Dict K V) → IsDict d → IsDict (keep p d)
  unfolding keep
  keep-IsDict p [] u = tt
  keep-IsDict p ((j, v) ∷ d) u = ground (arith, keep-IsDict p d u.1, contains-keys-keep p j d)

  keep-snoc :
      (p : K × V → Bool) (k : K) (v : V) (d : Dict K V)
      → p (k, v) ≡ true
      → keep p (d ++ (k, v) ∷ []) ≡ keep p d ++ (k, v) ∷ []
  unfolding keep
  keep-snoc p k v [] h = rw h refl
  keep-snoc p k v ((j, w) ∷ d) h = ground (arith, keep-snoc p k v d)

  get-put_self : (k : K) (v : V) (d : Dict K V) → get k (put k v d) ≡ some v
  get-put_self k v d = ground (arith, get-put k k v d, e.beq_iff k k)

  move_to_end-some :
      (k : K) (v : V) (d : Dict K V)
      → get k d ≡ some v
      → move_to_end k d ≡ remove k d ++ (k, v) ∷ []
  unfolding move_to_end
  move_to_end-some k v d h = rw (move_to_end, h) refl

-- The entry stands last before entries are popped.
stored_last :
    (cache : OsvCache) (key : Key) (now : ℕ) (blocked : List Text)
    → drop_stale now (move_to_end key (put key (now, blocked) cache))
      ≡ drop_stale now (remove key (put key (now, blocked) cache)) ++ (key, (now, blocked)) ∷ []
unfolding drop_stale
stored_last cache key now blocked =
    ap (drop_stale now)
      (move_to_end-some key (now, blocked) _ (get-put_self key (now, blocked) cache))
    ∙ keep-snoc (λ e. is_fresh now e.1) key (now, blocked)
        (remove key (put key (now, blocked) cache)) (unfold is_fresh in ground arith)

not_removed :
    (cache : OsvCache) (key : Key) (now : ℕ) (entry : Entry)
    → IsDict cache
    → get key (drop_stale now (remove key (put key entry cache))) ≡ none
unfolding drop_stale
not_removed cache key now entry u = get-none-contains key _ (
    contains-keys-keep _ key (remove key (put key entry cache)) (
      rw
        (
          contains-remove key key (put key entry cache) (put-IsDict key entry cache u),
          (eq_pair.beq_iff key key).1 refl,
        )
        refl))

-- Storing an answer keeps one entry for each key, `OSV_CACHE_MAX_ENTRIES` at most, and the answer that
-- is stored is there afterwards: what makes room is an older one.
pub store_osv_cache_entry-bounded :
    (cache : OsvCache) (key : Key) (now : ℕ) (blocked : List Text)
    → IsDict cache
    → (length (store_osv_cache_entry cache key now blocked) ≤ osv_cache_max_entries)
      × IsDict (store_osv_cache_entry cache key now blocked)
      × (get key (store_osv_cache_entry cache key now blocked) ≡ some (now, blocked))
unfolding store_osv_cache_entry
store_osv_cache_entry-bounded cache key now blocked u = (
  length-pop_first osv_cache_max_entries
      (drop_stale now (move_to_end key (put key (now, blocked) cache))),
  pop_first-IsDict osv_cache_max_entries _ (
      keep-IsDict _ (move_to_end key (put key (now, blocked) cache))
        (move_to_end-IsDict key _ (put-IsDict key _ cache u))),
  rw (stored_last cache key now blocked) (
      pop_first-last osv_cache_max_entries key (now, blocked) _ (omega arith)
        (not_removed cache key now (now, blocked) u)),
)
