-- ===== src/Osv/Cache/Persist/Load.antt =====
-- `_load` of entries in the form that `persist` gives them.
use artea.Base.{
  ℕ, suc, ◌+◌, ◌≤◌, ◌≡◌, ◌≢◌, refl, ◌∙◌, Bool, true, false, ◌||◌, Option, none, some, List, [], ◌∷◌,
  Text, eq_text, text_eq, leb, if◌then◌else◌, map, arith, contains, Bool-cases, inl, inr, eq_pair,
  ◌==◌,
}
use artea.Base.Dict.{IsDict, get, put, keys, get-put}
use artea.Base.Lists.{length, All}
use artea.Osv.Json.{Json, string, items, array_of, at}
use artea.Osv.Cache.{CachedVerdict, VerdictCache, Key, Entries, is_expired, unless_expired}
use artea.Osv.Cache.Persist.{
  entry_json, read_key, strings, read_time, read_fields, read_array, key_of, read_entry, load_from,
}

-- The entries that `decide` makes: no part of a key is empty, and the verdict is on its version.
abbrev pub IsKeyed : Key × CachedVerdict → Type 0
IsKeyed ((ecosystem, (name, version)), entry) =
    (ecosystem ≢ []) × ((name ≢ []) × ((version ≢ []) × (entry.verdict.version ≡ version)))

pub items-array_of : (js : List Json) → items (array_of js) ≡ js
unfolding items array_of
items-array_of [] = refl
items-array_of (j ∷ js) = rw (items-array_of js) refl

strings-map : (ts : List Text) → strings (map string ts) ≡ ts
unfolding strings
strings-map [] = refl
strings-map (t ∷ ts) = rw (strings-map ts) refl

read_entry-entry_json :
    (kv : Key × CachedVerdict) → IsKeyed kv → read_entry (entry_json kv) ≡ some kv
unfolding read_entry entry_json at read_fields key_of read_key read_array read_time text_eq items
    array_of
read_entry-entry_json (([], (n, v)), entry) h = absurd (h.0 refl)
read_entry-entry_json ((a ∷ s, ([], v)), entry) h = absurd (h.1.0 refl)
read_entry-entry_json ((a ∷ s, (b ∷ t, [])), entry) h = absurd (h.1.1.0 refl)
read_entry-entry_json ((a ∷ s, (b ∷ t, c ∷ u)), entry) (_, (_, (_, same))) =
    rw (items-array_of (map string entry.verdict.ids), strings-map entry.verdict.ids, ← same) refl

-- One entry of the file that has expired, or that is put into the cache.
old_step :
    (c : VerdictCache) (now : ℕ) (entry : CachedVerdict) (mine later : Bool)
    (found there before : Option CachedVerdict)
    → is_expired c entry now ≡ true
    → (mine ≡ true → later ≡ false)
    → ((mine || later) ≡ true → before ≡ none)
    → unless_expired c now found
      ≡ (if later then unless_expired c now there else unless_expired c now before)
    → unless_expired c now found ≡ (
        if mine || later
        then unless_expired c now (if mine then some entry else there)
        else unless_expired c now before)
unfolding unless_expired
old_step c now entry true true found there before old once apart h = absurd (cc (once refl))
old_step c now entry true false found there before old once apart h = h ∙ rw (old, apart refl) refl
old_step c now entry false later found there before old once apart h = h

fresh_step :
    (c : VerdictCache) (now : ℕ) (entry : CachedVerdict) (mine later : Bool)
    (found there before : Option CachedVerdict)
    → (mine ≡ true → later ≡ false)
    → unless_expired c now found ≡ (
        if later
        then unless_expired c now there
        else unless_expired c now (if mine then some entry else before))
    → unless_expired c now found ≡ (
        if mine || later
        then unless_expired c now (if mine then some entry else there)
        else unless_expired c now before)
fresh_step c now entry true true found there before once h = absurd (cc (once refl))
fresh_step c now entry true false found there before once h = h
fresh_step c now entry false later found there before once h = h

once :
    (j k : Key) (es : Entries)
    → contains j (keys es) ≡ false
    → (j == k) ≡ true
    → contains k (keys es) ≡ false
once j k es h m = rw ((eq_pair.beq_iff j k).0 m) at h

no_more :
    (es : Entries) (n m : ℕ) → n + length ((es)) + 1 ≤ m → leb m (suc n) ≡ true → length es ≡ 0
no_more es n m h l = ground arith

put_apart :
    (j k : Key) (entry : CachedVerdict) (es d : Entries)
    → contains j (keys es) ≡ false
    → ((j == k || contains k (keys es)) ≡ true → get k d ≡ none)
    → contains k (keys es) ≡ true
    → get k (put j entry d) ≡ none
put_apart j k entry es d h apart m = rw (get-put j k) (elim (Bool-cases (j == k)) [
  | inl e ↦ absurd (cc (once j k es h e, m))
  | inr e ↦ rw e (apart (rw (e, m) refl))
])

-- A lookup among the entries of `es`, and then in `d`.
pub load_from-entries :
    (c : VerdictCache) (now loaded : ℕ) (es : Entries) (d : Entries) (k : Key)
    → IsDict es
    → All IsKeyed es
    → loaded + length es ≤ c.max_entries
    → (contains k (keys es) ≡ true → get k d ≡ none)
    → unless_expired c now (get k (load_from c now loaded (map entry_json es) d)) ≡ (
        if contains k (keys es)
        then unless_expired c now (get k es)
        else unless_expired c now (get k d))
unfolding load_from contains get unless_expired text_eq entry_json
load_from-entries c now loaded [] d k u w room apart = refl
load_from-entries c now loaded ((j, entry) ∷ es) d k u w room apart =
    rw (read_entry-entry_json (j, entry) w.0) (elim (Bool-cases (is_expired c entry now)) [
      | inl old ↦ rw old (
          old_step c now entry (j == k) (contains k (keys es)) _ (get k es) (get k d) old
            (once j k es u.0) apart
            (load_from-entries c now loaded es d k u.1 w.1 (ground arith)
              (λ m. apart (ground arith))))
      | inr fresh ↦ rw fresh (
          fresh_step c now entry (j == k) (contains k (keys es)) _ (get k es) (get k d)
            (once j k es u.0)
            (elim (Bool-cases (leb c.max_entries (suc loaded))) [
              | inl full ↦ rw full (last es (ground arith))
              | inr more ↦ rw more (
                  load_from-entries c now (suc loaded) es (put j entry d) k u.1 w.1 (ground arith)
                    (put_apart j k entry es d u.0 apart)
                  ∙ rw (get-put j k) refl)
            ]))
    ])
  where
    last :
        (es : Entries)
        → length es ≡ 0
        → unless_expired c now (get k (put j entry d)) ≡ (
            if contains k (keys es)
            then unless_expired c now (get k es)
            else unless_expired c now (if j == k then some entry else get k d))
    last [] h = rw (get-put j k) refl
    last (x ∷ es) h = ground arith
