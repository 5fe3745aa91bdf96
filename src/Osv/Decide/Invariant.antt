-- ===== src/Osv/Decide/Invariant.antt =====
-- `decide` keeps the cache bounded.
use mathlib.Core.Path.{subst}
use artea.Base.{
  ℕ, ◌+◌, ◌≤◌, ◌≡◌, Option, none, some, List, [], ◌∷◌, Text, eq_text, eq_pair, text_eq, Result, ok,
  err, >>=-eq-ok, ok-injective, arith, Bool-cases, inl, inr, ltb,
}
use artea.Base.Dict.{Dict, IsDict, keys, remove, length-remove}
use artea.Base.Lists.{length, keep}
use artea.Policy.{Policy}
use artea.Adapters.{Adapter}
use artea.Osv.{Verdict, OsvError}
use artea.Osv.Json.{Json}
use artea.Osv.Cache.{VerdictCache, Key, Entries, set, sweep, remove_all, is_expired}
use artea.Osv.Cache.Bounds.{set-bounded, sweep-IsDict}
use artea.Osv.Cache.Persist.{persist}
use artea.Osv.Decide.{
  adapter_for, unique_versions, allowed_versions, Outcome, Fetched, store_all, store_fetched,
  decide_with, decide_parsed, decide,
}

-- At most `max_entries` verdicts, one for each key.
abbrev pub IsBounded : VerdictCache → Type 0
IsBounded c = IsDict c.entries × (length c.entries ≤ c.max_entries)

length-remove_all-le : (ks : List Key) (d : Entries) → length (remove_all ks d) ≤ length d
unfolding remove_all
length-remove_all-le [] d = omega arith
length-remove_all-le (k ∷ ks) d =
    ground (arith, length-remove_all-le ks (remove k d), length-remove k d)

set-IsBounded :
    (c : VerdictCache) (now : ℕ) (key : Key) (verdict : Verdict)
    → IsBounded c
    → IsBounded (set c now key verdict)
set-IsBounded c now key verdict b =
    let (l, u) = set-bounded c now key verdict b.0 in (u, unfold set in l)

store_all-IsBounded :
    (c : VerdictCache) (now : ℕ) (key : Text → Key) (fetched : Dict Text Verdict)
    → IsBounded c
    → IsBounded (store_all c now key fetched)
unfolding store_all
store_all-IsBounded c now key [] b = b
store_all-IsBounded c now key ((version, verdict) ∷ rest) b =
    store_all-IsBounded (set c now (key version) verdict) now key rest
      (set-IsBounded c now (key version) verdict b)

persist-IsBounded : (c : VerdictCache) (now : ℕ) → IsBounded c → IsBounded (persist c now).0
unfolding persist sweep
persist-IsBounded c now b = elim (Bool-cases (text_eq c.cache_file_path [])) [
  | inl e ↦ rw e b
  | inr e ↦ elim (Bool-cases (ltb now (c.persist_min_interval + c.last_persist))) [
    | inl f ↦ rw (e, f) b
    | inr f ↦
        rw (e, f)
          (unfold sweep in
            (
              sweep-IsDict c now c.entries b.0,
              le_trans
                  (length-remove_all-le (keys (keep (λ kv. is_expired c kv.1 now) c.entries))
                    c.entries)
                  b.1,
            ))
  ]
]
  where
    le_trans : {a b n : ℕ} → a ≤ b → b ≤ n → a ≤ n
    le_trans h g = omega arith

store_fetched-IsBounded :
    (c : VerdictCache) (now : ℕ) (key : Text → Key) (misses : List Text)
    (fetched : Result OsvError (Dict Text Verdict))
    → IsBounded c
    → IsBounded (store_fetched c now key misses fetched).0
unfolding store_fetched
store_fetched-IsBounded c now key [] fetched b = b
store_fetched-IsBounded c now key (v ∷ vs) (err e) b = b
store_fetched-IsBounded c now key (v ∷ vs) (ok fetched) b =
    persist-IsBounded (store_all c now key fetched) now (store_all-IsBounded c now key fetched b)

module _ {ℓ} {S : Type ℓ} (query : S → Text → Text → List Text → Fetched S) (c : VerdictCache)
    (s : S) (now later : ℕ) where
  decide_parsed-IsBounded :
      (policy : Option Policy) (adapter : Adapter) (n : Text) (versions : List Text)
      {out : Outcome S}
      → decide_parsed query c s now later policy adapter n versions ≡ ok out
      → IsBounded c
      → IsBounded out.cache
  unfolding decide_parsed decide_with
  decide_parsed-IsBounded none adapter n versions h b =
      subst (λ (x : Outcome S). IsBounded x.cache) (ok-injective h) b
  decide_parsed-IsBounded (some policy) adapter n versions h b =
      elim (Bool-cases policy.osv_malicious_packages) [
        | inl on ↦
            let (allowed, w, h) =
              >>=-eq-ok (allowed_versions adapter n policy.rules versions) _ (rw on at h) in
            subst (λ (x : Outcome S). IsBounded x.cache) (ok-injective h)
              (store_fetched-IsBounded c later _ _ _ b)
        | inr off ↦ subst (λ (x : Outcome S). IsBounded x.cache) (ok-injective (rw off at h)) b
      ]

  -- Whatever the query answers, after a `decide` that returns the cache holds one verdict for each
  -- key and `max_entries` of them at most, if it did before.
  pub decide-IsBounded :
      (policy : Option Policy) (ecosystem name : Text) (request : List Json) {out : Outcome S}
      → decide query c s now later policy ecosystem name request ≡ ok out
      → IsBounded c
      → IsBounded out.cache
  unfolding decide
  decide-IsBounded policy ecosystem name request h b =
      let (adapter, a, h) = >>=-eq-ok (adapter_for ecosystem) _ h in
      let (n, _, h) = >>=-eq-ok (adapter.normalize_name name) _ h in
      let (versions, _, h) = >>=-eq-ok (unique_versions request) _ h in
      decide_parsed-IsBounded policy adapter n versions h b
