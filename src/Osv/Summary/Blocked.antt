-- ===== src/Osv/Summary/Blocked.antt =====
-- What `summarize_package` of policy-sync/policy_sync/osv.py lists.
use artea.Base.{
  ℕ, ◌≡◌, ◌<◌, refl, true, false, Option, none, some, List, [], ◌∷◌, map, Text, eq_text, text_leb,
  Result, ok, arith, inl, inr, ok-injective, Bool-cases, >>=-eq-ok,
}
use artea.Base.Lists.{length, All}
use artea.Base.Sort.{length-sort_by, sort_by, sorted, All-sort_by}
use artea.Policy.{Policy, Rule}
use artea.Adapters.{Adapter}
use artea.Osv.{Verdict, OsvError, Decision}
use artea.Osv.Json.{Members}
use artea.Osv.Records.Verdicts.{IdsByVersion, is_blocked}
use artea.Osv.Records.Pages.{max_pages}
use artea.Osv.Decide.{adapter_for, override_applies}
use artea.Osv.Summary.{
  refused, raises, summary_pages, version_leb, blocked_verdict, summary_of, summarize_parsed,
  summarize_package,
}
use artea.Osv.Summary.Listed.{IsMal, raises-eq-ok, IsListed, AllListed, summary_pages-AllListed}

-- A verdict that blocks a version, of which no allow holds, by the ids of malicious packages
abbrev pub Blocks : Adapter → Text → List Rule → Verdict → Type 0
Blocks adapter name rules v =
    (override_applies adapter name v.version adapter.ecosystem rules ≡ ok false)
    × (v.blocked ≡ true)
    × (is_blocked v.ids ≡ true)
    × All IsMal v.ids

is_blocked-length : (ids : List Text) → is_blocked ids ≡ true → 0 < length ids
unfolding is_blocked
is_blocked-length [] h = cc
is_blocked-length (i ∷ ids) h = omega arith

length-is_blocked : (ids : List Text) → 0 < length ids → is_blocked ids ≡ true
unfolding is_blocked
length-is_blocked [] h = absurd (omega arith)
length-is_blocked (i ∷ ids) h = refl

is_blocked-sorted : (ids : List Text) → is_blocked ids ≡ true → is_blocked (sorted ids) ≡ true
unfolding is_blocked
is_blocked-sorted ids h =
    length-is_blocked (sorted ids)
      (omega (arith, length-sort_by text_leb ids, is_blocked-length ids h))

module _ (adapter : Adapter) (name : Text) (rules : List Rule) where
  map-Blocks :
      (entries : IdsByVersion)
      → All (IsListed adapter name rules) entries
      → All (Blocks adapter name rules) (map blocked_verdict entries)
  map-Blocks [] a = tt
  map-Blocks ((version, ids) ∷ entries) ((free, some_id, mal), a) = (
    (free, refl, is_blocked-sorted ids some_id, All-sort_by text_leb IsMal ids mal),
    map-Blocks entries a,
  )

  summary_of-Blocks :
      (found : Option IdsByVersion)
      → AllListed adapter name rules found
      → All (Blocks adapter name rules) (summary_of found).verdicts
  unfolding summary_of
  summary_of-Blocks none a = tt
  summary_of-Blocks (some ids) a =
      map-Blocks (sort_by version_leb ids)
        (All-sort_by version_leb (IsListed adapter name rules) ids a)

module _ (first : Text → Text → Result OsvError Members)
    (post : ℕ → Members → Result OsvError Members) where
  summarize_parsed-Blocks :
      (policy : Policy) (adapter : Adapter) (name : Text) {d : Decision}
      → summarize_parsed first post (some policy) adapter name ≡ ok d
      → All (Blocks adapter name policy.rules) d.verdicts
  unfolding summarize_parsed
  summarize_parsed-Blocks policy adapter name returned =
      elim (Bool-cases policy.osv_malicious_packages) [
        | inl t ↦
            let (found, paged, rest) =
              >>=-eq-ok
                (summary_pages adapter name policy.rules (first adapter.osv_ecosystem name) post
                  max_pages [] [])
                _ (rw (summarize_parsed, t) at returned) in
            rw (← ok-injective rest) (
              summary_of-Blocks adapter name policy.rules found (
                summary_pages-AllListed adapter name policy.rules (first adapter.osv_ecosystem name)
                  post max_pages [] [] paged tt))
        | inr t ↦ rw (← ok-injective (rw (summarize_parsed, t) at returned)) tt
      ]

  -- Where `summarize_package` returns for a policy, the ecosystem has an adapter, which takes the name,
  -- and every verdict that is listed blocks a version that no allow of the policy covers, with one id or
  -- more, each that of a malicious package.
  pub summarize_package-Blocks :
      (policy : Policy) (ecosystem name : Text) {d : Decision}
      → summarize_package first post (some policy) ecosystem name ≡ ok d
      → (adapter : Adapter) × (normalized_name : Text) × (adapter_for ecosystem ≡ ok adapter)
        × (adapter.normalize_name name ≡ ok normalized_name)
        × All (Blocks adapter normalized_name policy.rules) d.verdicts
  unfolding summarize_package
  summarize_package-Blocks policy ecosystem name returned =
      let (adapter, found, then_name) =
        >>=-eq-ok (raises refused (adapter_for ecosystem)) _ returned in
      let (normalized_name, named, rest) =
        >>=-eq-ok (raises refused (adapter.normalize_name name)) _ then_name in
      (
        adapter,
        normalized_name,
        raises-eq-ok refused (adapter_for ecosystem) found,
        raises-eq-ok refused (adapter.normalize_name name) named,
        summarize_parsed-Blocks policy adapter normalized_name rest,
      )
