-- ===== src/Devpi/Plugin/Query/Honest.antt =====
-- What `query_osv_blocked_versions` of devpi/artea_devpi_policy/src/artea_devpi_policy/main.py returns
-- where the endpoint tells which of the versions are malicious.
use artea.Base.{
  ◌≡◌, refl, ◌∙◌, Bool, false, not, ◌&&◌, ◌||◌, some, List, [], ◌∷◌, Text, codes, text_leb, eq_text,
  text_eq_iff, ℕ, eq_texts, eq_pair, contains, ok, arith, Bool-cases, Option-cases, inl, inr, ◌⊎◌,
}
use artea.Base.Dict.{get, remove, add, contains-add}
use artea.Base.Sort.{contains-sort_by}
use artea.Osv.Json.{Jsons, Members, array, object, at, items}
use artea.Devpi.Plugin.OsvCache.{Key, Entry, OsvCache, is_fresh}
use artea.Devpi.Plugin.Query.{
  World, answered, is_blank, nonblank, unique_versions, blocked_of, is_status_ok, read_results,
  read_answer, ask, ask_cached, query_osv_blocked_versions,
}

nonblank_head : (c : ℕ) (w v : Text) → (c ∷ w) ≡ v → is_blank v ≡ false
unfolding is_blank
nonblank_head c w v e = rw (← e) refl

contains-nonblank :
    (v : Text) (vs set : List Text)
    → contains v (nonblank vs set) ≡ (contains v set || not (is_blank v) && contains v vs)
unfolding nonblank contains is_blank
contains-nonblank v [] set = ground arith
contains-nonblank [] ([] ∷ vs) set = contains-nonblank [] vs set
contains-nonblank (c ∷ v) ([] ∷ vs) set =
    ground (arith, contains-nonblank (c ∷ v) vs set, text_eq_iff [] (c ∷ v))
contains-nonblank v ((c ∷ w) ∷ vs) set = ground (
  arith,
  contains-nonblank v vs (add (c ∷ w) set),
  contains-add (c ∷ w) v set,
  contains-nonblank v vs set,
  text_eq_iff (c ∷ w) v,
  nonblank_head c w v,
)

pub contains-unique_versions :
    (v : Text) (vs : List Text)
    → contains v (unique_versions vs) ≡ (not (is_blank v) && contains v vs)
unfolding unique_versions contains
contains-unique_versions v vs =
    contains-sort_by text_leb v (nonblank vs []) ∙ contains-nonblank v vs []

Text-cases : (ss : List Text) → (ss ≡ []) ⊎ ((s : Text) × (rest : List Text) × (ss ≡ s ∷ rest))
Text-cases [] = inl refl
Text-cases (s ∷ rest) = inr (s, rest, refl)

read_answer-array :
    (cache : OsvCache) (key : Key) (now : ℕ) (answer : Members) (results : Jsons)
    → at (codes "results") answer ≡ array results
    → (read_answer cache key now (answered (object answer))).1 ≡ ok (blocked_of (items results) [])
unfolding read_answer read_results
read_answer-array cache key now answer results found =
    rw found elim (Bool-cases (is_status_ok (at (codes "status") answer))) [
      | inl e ↦ rw e refl
      | inr e ↦ rw e refl
    ]

module _ (bad : Text → Bool) where
  -- The blocked versions are the malicious ones of those that were asked for.
  abbrev pub IsExact : List Text → List Text → Type 0
  IsExact versions blocked = (v : Text) → contains v blocked ≡ (contains v versions && bad v)

  -- The endpoint answers each request for the project with the malicious versions of the request.
  abbrev pub IsHonest : World → Text → Text → Type 0
  IsHonest w osv_url project =
      (versions : List Text)
      → (answer : Members) × (results : Jsons) × (w.osv osv_url project versions
          ≡ answered (object answer))
        × (at (codes "results") answer ≡ array results)
        × IsExact versions (blocked_of (items results) [])

  -- So do the answers in the cache.
  abbrev pub IsCoherent : OsvCache → Text → Text → Type 0
  IsCoherent cache osv_url project =
      (versions : List Text) (entry : Entry)
      → get (osv_url, (project, versions)) cache ≡ some entry
      → IsExact versions entry.1

  ask-IsExact :
      (w : World) (cache : OsvCache) (osv_url project : Text) (versions : List Text)
      → IsHonest w osv_url project
      → (blocked : List Text) × ((ask w cache (osv_url, (project, versions))).1 ≡ ok blocked)
        × IsExact versions blocked
  unfolding ask
  ask-IsExact w cache osv_url project versions honest =
      let (answer, results, asked, found, exact) = honest versions in
      (
        blocked_of (items results) [],
        rw asked (read_answer-array cache _ w.now answer results found),
        exact,
      )

  ask_cached-IsExact :
      (w : World) (cache : OsvCache) (osv_url project : Text) (versions : List Text)
      → IsHonest w osv_url project
      → IsCoherent cache osv_url project
      → (blocked : List Text) × ((ask_cached w cache (osv_url, (project, versions))).1 ≡ ok blocked)
        × IsExact versions blocked
  unfolding ask_cached
  ask_cached-IsExact w cache osv_url project versions honest coherent =
      elim (Option-cases (get (osv_url, (project, versions)) cache)) [
        | inl e ↦
            let (blocked, asked, exact) = ask-IsExact w cache osv_url project versions honest in
            (blocked, rw (ask_cached, e) asked, exact)
        | inr (entry, e) ↦ elim (Bool-cases (is_fresh w.now entry)) [
          | inl f ↦ (entry.1, rw (ask_cached, e, f) refl, coherent versions entry e)
          | inr f ↦
              let (blocked, asked, exact) =
                ask-IsExact w (remove (osv_url, (project, versions)) cache) osv_url project versions
                  honest in
              (blocked, rw (ask_cached, e, f) asked, exact)
        ]
      ]

  -- With an honest endpoint and such a cache, a query blocks the malicious ones of its versions.
  pub query_osv_blocked_versions-exact :
      (w : World) (cache : OsvCache) (osv_url project : Text) (versions : List Text)
      → is_blank osv_url ≡ false
      → IsHonest w osv_url project
      → IsCoherent cache osv_url project
      → (blocked : List Text) × ((query_osv_blocked_versions w cache osv_url project versions).1
          ≡ ok blocked)
        × ((v : Text) → contains v blocked ≡ (contains v versions && (not (is_blank v) && bad v)))
  unfolding query_osv_blocked_versions
  query_osv_blocked_versions-exact w cache osv_url project versions url honest coherent =
      elim (Text-cases (unique_versions versions)) [
        | inl e ↦ (
          [],
          rw (query_osv_blocked_versions, url, e) refl,
          λ v. joined v versions (unique_versions versions) [] refl (rw e (none_in v)),
        )
        | inr (x, xs, e) ↦
            let (blocked, asked, exact) =
              ask_cached-IsExact w cache osv_url project (x ∷ xs) honest coherent in
            (
              blocked,
              rw (query_osv_blocked_versions, url, e) asked,
              λ v. joined v versions (unique_versions versions) blocked refl (rw e (exact v)),
            )
      ]
    where
      none_in : (v : Text) → contains v [] ≡ (contains v [] && bad v)
      none_in v = unfold contains in refl

      joined :
          (v : Text) (vs unique blocked : List Text)
          → unique ≡ unique_versions vs
          → contains v blocked ≡ (contains v unique && bad v)
          → contains v blocked ≡ (contains v vs && (not (is_blank v) && bad v))
      joined v vs unique blocked same h =
          ground (arith, rw same at h, contains-unique_versions v vs)
