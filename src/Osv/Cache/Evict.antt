-- ===== src/Osv/Cache/Evict.antt =====
-- Deleting a list of entries, and the entries that an order puts first.
use artea.Base.{
  ℕ, zero, suc, ◌+◌, ◌≤◌, ◌≡◌, refl, ◌∙◌, Bool, true, false, ◌||◌, none, some, List, [], ◌∷◌,
  eq_text, eq_pair, Eq, ◌==◌, if◌then◌else◌, contains, arith,
}
use artea.Base.Dict.{
  Dict, IsDict, get, remove, keys, get-remove, remove-IsDict, length-remove, contains-remove,
}
use artea.Base.Lists.{length, take, IsUnique, All}
use artea.Base.Sort.{insert, sort_by}
use artea.Osv.Cache.{Key, Entries, remove_all}

pub remove_all-IsDict : (ks : List Key) (d : Entries) → IsDict d → IsDict (remove_all ks d)
unfolding remove_all
remove_all-IsDict [] d u = u
remove_all-IsDict (k ∷ ks) d u = remove_all-IsDict ks (remove k d) (remove-IsDict k d u)

pub get-remove_all :
    (ks : List Key) (d : Entries) (j : Key)
    → IsDict d
    → get j (remove_all ks d) ≡ (if contains j ks then none else get j d)
unfolding remove_all contains
get-remove_all [] d j u = refl
get-remove_all (k ∷ ks) d j u =
    ground (arith, get-remove_all ks (remove k d) j (remove-IsDict k d u), get-remove k j d u)

module _ {ℓ} {K V : Type ℓ} ⦃e : Eq K⦄ where
  still_there :
      (k : K) (d : Dict K V)
      → IsDict d
      → (js : List K) → contains k js ≡ false
      → All (λ j. contains j (keys d) ≡ true) js
      → All (λ j. contains j (keys (remove k d)) ≡ true) js
  unfolding contains
  still_there k d u [] ne a = tt
  still_there k d u (j ∷ js) ne a = (
    contains-remove j k d u ∙ ground (arith, a.0, e.beq_iff k j, e.beq_iff j k),
    still_there k d u js (ground arith) a.1,
  )

-- Each key that is there is one entry less.
pub length-remove_all :
    (ks : List Key) (d : Entries)
    → IsDict d
    → IsUnique ks
    → All (λ k. contains k (keys d) ≡ true) ks
    → length (remove_all ks d) + length ks ≡ length d
unfolding remove_all
length-remove_all [] d u w h = ground arith
length-remove_all (k ∷ ks) d u w h = ground (
  arith,
  length-remove_all ks (remove k d) (remove-IsDict k d u) w.1 (still_there k d u ks w.0 h.1),
  length-remove k d,
  h.0,
)

module _ {ℓ} {K V : Type ℓ} ⦃e : Eq K⦄ (le : K × V → K × V → Bool) where
  contains-keys-insert :
      (k j : K) (v : V) (d : Dict K V)
      → contains k (keys (insert le (j, v) d)) ≡ (j == k || contains k (keys d))
  unfolding insert contains
  contains-keys-insert k j v [] = refl
  contains-keys-insert k j v ((i, w) ∷ d) = ground (arith, contains-keys-insert k j v d)

  insert-IsDict :
      (j : K) (v : V) (d : Dict K V)
      → contains j (keys d) ≡ false
      → IsDict d
      → IsDict (insert le (j, v) d)
  unfolding insert contains
  insert-IsDict j v [] h u = ground arith
  insert-IsDict j v ((i, w) ∷ d) h u =
      ground
        (arith, insert-IsDict j v d, contains-keys-insert i j v d, e.beq_iff i j, e.beq_iff j i)

  pub contains-keys-sort :
      (k : K) (d : Dict K V) → contains k (keys (sort_by le d)) ≡ contains k (keys d)
  unfolding sort_by contains
  contains-keys-sort k [] = refl
  contains-keys-sort k ((j, v) ∷ d) =
      ground (arith, contains-keys-insert k j v (sort_by le d), contains-keys-sort k d)

  pub sort_by-IsDict : (d : Dict K V) → IsDict d → IsDict (sort_by le d)
  unfolding sort_by
  sort_by-IsDict [] u = tt
  sort_by-IsDict ((j, v) ∷ d) u =
      insert-IsDict j v (sort_by le d) (contains-keys-sort j d ∙ u.0) (sort_by-IsDict d u.1)

  get-insert :
      (k j : K) (v : V) (d : Dict K V)
      → contains j (keys d) ≡ false
      → get k (insert le (j, v) d) ≡ (if j == k then some v else get k d)
  unfolding insert get contains
  get-insert k j v [] h = refl
  get-insert k j v ((i, w) ∷ d) h =
      ground (arith, get-insert k j v d, e.beq_iff i k, e.beq_iff j k, e.beq_iff i j)

  pub get-sort_by : (k : K) (d : Dict K V) → IsDict d → get k (sort_by le d) ≡ get k d
  unfolding sort_by get
  get-sort_by k [] u = refl
  get-sort_by k ((j, v) ∷ d) u =
      ground
        (arith, get-insert k j v (sort_by le d), contains-keys-sort j d, u.0, get-sort_by k d u.1)

module _ {ℓ} {K V : Type ℓ} ⦃e : Eq K⦄ where
  pub contains-keys-take :
      (n : ℕ) (k : K) (d : Dict K V)
      → contains k (keys (take n d)) ≡ true
      → contains k (keys d) ≡ true
  unfolding contains
  contains-keys-take zero k d h = cc
  contains-keys-take (suc n) k [] h = h
  contains-keys-take (suc n) k ((j, v) ∷ d) h = ground (arith, contains-keys-take n k d)

  pub take-IsDict : (n : ℕ) (d : Dict K V) → IsDict d → IsDict (take n d)
  unfolding contains
  take-IsDict zero d u = tt
  take-IsDict (suc n) [] u = tt
  take-IsDict (suc n) ((j, v) ∷ d) u = ground (arith, take-IsDict n d u.1, contains-keys-take n j d)

  pub keys-All_contained :
      (c d : Dict K V)
      → ((k : K) → contains k (keys c) ≡ true → contains k (keys d) ≡ true)
      → All (λ k. contains k (keys d) ≡ true) (keys c)
  unfolding contains
  keys-All_contained [] d h = tt
  keys-All_contained ((k, v) ∷ c) d h =
      (h k (ground (arith, e.beq_iff k k)), keys-All_contained c d (λ j m. h j (ground arith)))

pub length-keys-take :
    {K V : Type 0} (n : ℕ) (d : Dict K V) → n ≤ length d → length (keys (take n d)) ≡ n
length-keys-take zero d h = refl
length-keys-take (suc n) [] h = ground arith
length-keys-take (suc n) ((k, v) ∷ d) h = ground (arith, length-keys-take n d)
