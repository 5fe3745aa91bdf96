-- ===== src/Osv/Decide.antt =====
-- `OsvClient.decide` of policy-sync/policy_sync/osv.py. `query`, with a state of its own, is
-- `_query_osv`; the clock is read once for the lookups and once for the stores.
pub mod Unique
pub mod Verdicts
pub mod Invariant
use artea.Base.{
  ℕ, Bool, true, false, not, ◌&&◌, ◌||◌, Option, none, some, List, [], ◌∷◌, ◌++◌, map, Text, codes,
  eq_text, ◌==◌, contains, Result, ok, err, ◌>>=◌, ◌>>◌, raise_if, is_some, if◌then◌else◌,
}
use artea.Base.Dict.{Dict, get, put, keys}
use artea.Base.Lists.{keep}
use artea.Policy.{
  PolicyError, Policy, Rule, Action, deny, allow, osv_unknown_ecosystem, bad_osv_version,
}
use artea.Adapters.{Adapter, npm_adapter, pypi_adapter}
use artea.Osv.{
  Verdict, OsvError, Status, decided, degraded, policy_unavailable, disabled, Reason, no_policy,
  osv_disabled, failed, Decision,
}
use artea.Osv.Json.{Json, string}
use artea.Osv.Cache.{VerdictCache, Key, lookup, set}
use artea.Osv.Cache.Persist.{persist}

-- `ADAPTERS`
abbrev pub adapters : Dict Text Adapter
adapters =
    (codes "npm", npm_adapter) ∷ (codes "pypi", pypi_adapter) ∷ (codes "PyPI", pypi_adapter) ∷ []

unfoldable pub adapter_for : Text → Result PolicyError Adapter
unfolding get
adapter_for ecosystem = elim (get ecosystem adapters) [
  | none ↦ err (osv_unknown_ecosystem ecosystem)
  | some a ↦ ok a
]

-- A version of the request, if it is a string that is not empty.
unfoldable pub read_version : Json → Result PolicyError Text
read_version (string (c ∷ s)) = ok (c ∷ s)
read_version j = err bad_osv_version

-- `_unique_versions`; `seen` has what `out` has.
unfoldable pub unique_from : List Text → List Json → Result PolicyError (List Text)
unfolding contains
unique_from out [] = ok out
unique_from out (j ∷ js) = do
  v ← read_version j
  unique_from (if contains v out then out else out ++ v ∷ []) js

unfoldable pub unique_versions : List Json → Result PolicyError (List Text)
unique_versions = unique_from []

module _ (adapter : Adapter) (normalized_name version : Text) where
  -- An allow of the package, for all versions or for one.
  unfoldable pub covers : Option Text → Result PolicyError Bool
  covers none = ok true
  covers (some range) =
      if adapter.is_exact range then adapter.exact_allows range version else ok false

  unfoldable pub override_named : Text → Option Text → Result PolicyError Bool
  override_named name versions = do
    n ← adapter.normalize_name name
    if not (n == normalized_name) then ok false else covers versions

  unfoldable pub override_rule : Text → Rule → Result PolicyError Bool
  override_rule ecosystem rule =
      if not (rule.ecosystem == ecosystem) then ok false else elim rule.action [
        | deny ↦ ok false
        | allow ↦ elim rule.name [ none ↦ ok false | some name ↦ override_named name rule.versions ]
      ]

  -- `_allow_override_applies`, over the rules of the policy
  unfoldable pub override_applies : Text → List Rule → Result PolicyError Bool
  override_applies ecosystem [] = ok false
  override_applies ecosystem (rule ∷ rules) = do
    applies ← override_rule ecosystem rule
    if applies then ok true else override_applies ecosystem rules

-- The versions that an allow overrides, in order.
unfoldable pub allowed_versions :
    Adapter → Text → List Rule → List Text → Result PolicyError (List Text)
allowed_versions adapter name rules [] = ok []
allowed_versions adapter name rules (v ∷ vs) = do
  applies ← override_applies adapter name v adapter.ecosystem rules
  rest ← allowed_versions adapter name rules vs
  ok (if applies then v ∷ rest else rest)

unfoldable pub clean : Text → Verdict
clean version = record { version = version; blocked = false; ids = [] }

-- `_all_allowed`
unfoldable pub all_allowed : Status → List Text → Reason → Decision
unfolding clean
all_allowed status versions reason = record {
  status = status;
  verdicts = map clean versions;
  reason = some reason;
}

abbrev pub key_for : Adapter → Text → Text → Key
key_for adapter name version = (adapter.ecosystem, (name, version))

-- The cached verdicts of the versions, and the versions without one.
unfoldable pub cached_of : VerdictCache → ℕ → (Text → Key) → List Text → Dict Text Verdict
unfolding lookup
cached_of c now key [] = []
cached_of c now key (v ∷ vs) =
    let rest = cached_of c now key vs in
    elim (lookup c now (key v)) [ none ↦ rest | some verdict ↦ (v, verdict) ∷ rest ]

unfoldable pub misses_of : VerdictCache → ℕ → (Text → Key) → List Text → List Text
unfolding lookup
misses_of c now key vs = keep (λ v. not (is_some (lookup c now (key v)))) vs

-- `for version, verdict in fetched.items(): self.cache.set(…)`
unfoldable pub store_all : VerdictCache → ℕ → (Text → Key) → Dict Text Verdict → VerdictCache
unfolding set
store_all c now key [] = c
store_all c now key ((version, verdict) ∷ rest) =
    store_all (set c now (key version) verdict) now key rest

-- The verdict on one version.
unfoldable pub verdict_for : List Text → Dict Text Verdict → Dict Text Verdict → Text → Verdict
unfolding contains get clean
verdict_for allowed cached fetched v = if contains v allowed then clean v else elim (get v cached) [
  | some verdict ↦ verdict
  | none ↦ elim (get v fetched) [ some verdict ↦ verdict | none ↦ clean v ]
]

-- What a call changes, writes and returns.
pub record Outcome {ℓ} (S : Type ℓ) : Type ℓ where
  pub cache : VerdictCache
  pub source : S
  pub written : Option Json
  pub decision : Decision

-- The answer of OSV on the versions that are not in the cache.
abbrev pub Fetched {ℓ} : Type ℓ → Type ℓ
Fetched S = S × Result OsvError (Dict Text Verdict)

-- The new cache, and what `persist` writes, if there was a version to ask for.
unfoldable pub store_fetched :
    VerdictCache
    → ℕ
    → (Text → Key)
    → List Text
    → Result OsvError (Dict Text Verdict)
    → VerdictCache × Option Json
unfolding store_all persist
store_fetched c now key [] fetched = (c, none)
store_fetched c now key (v ∷ vs) (err e) = (c, none)
store_fetched c now key (v ∷ vs) (ok fetched) = persist (store_all c now key fetched) now

unfoldable pub status_of : Result OsvError (Dict Text Verdict) → Status
status_of (ok fetched) = decided
status_of (err e) = degraded

unfoldable pub reason_of : Result OsvError (Dict Text Verdict) → Option Reason
reason_of (ok fetched) = none
reason_of (err e) = some (failed e)

unfoldable pub fetched_of : Result OsvError (Dict Text Verdict) → Dict Text Verdict
fetched_of (ok fetched) = fetched
fetched_of (err e) = []

module _ {ℓ} {S : Type ℓ} (query : S → Text → Text → List Text → Fetched S) where
  unfoldable pub fetch : S → Text → Text → List Text → Fetched S
  fetch s osv_ecosystem name [] = (s, ok [])
  fetch s osv_ecosystem name (v ∷ vs) = query s osv_ecosystem name (v ∷ vs)

  -- The decision on the versions, once the allowed ones are known.
  unfoldable pub decide_with :
      VerdictCache → S → ℕ → ℕ → Adapter → Text → List Text → List Text → Outcome S
  unfolding fetch store_fetched status_of reason_of fetched_of verdict_for misses_of cached_of keep
      contains
  decide_with c s now later adapter name versions allowed =
      let key = key_for adapter name in
      let asked = keep (λ v. not (contains v allowed)) versions in
      let cached = cached_of c now key asked in
      let misses = misses_of c now key asked in
      let answer = fetch s adapter.osv_ecosystem name misses in
      let stored = store_fetched c later key misses answer.1 in
      record {
        cache = stored.0;
        source = answer.0;
        written = stored.1;
        decision = record {
          status = status_of answer.1;
          verdicts = map (verdict_for allowed cached (fetched_of answer.1)) versions;
          reason = reason_of answer.1;
        };
      }

  -- `OsvClient.decide`
  unfoldable pub decide_parsed :
      VerdictCache
      → S
      → ℕ
      → ℕ
      → Option Policy
      → Adapter
      → Text
      → List Text
      → Result PolicyError (Outcome S)
  decide_parsed c s now later none adapter name versions = ok (record {
    cache = c;
    source = s;
    written = none;
    decision = all_allowed policy_unavailable versions no_policy;
  })
  decide_parsed c s now later (some policy) adapter name versions =
      if not policy.osv_malicious_packages
      then ok (record {
        cache = c;
        source = s;
        written = none;
        decision = all_allowed disabled versions osv_disabled;
      })
      else do
        allowed ← allowed_versions adapter name policy.rules versions
        ok (decide_with c s now later adapter name versions allowed)

  unfoldable pub decide :
      VerdictCache
      → S
      → ℕ
      → ℕ
      → Option Policy
      → Text
      → Text
      → List Json
      → Result PolicyError (Outcome S)
  decide c s now later policy ecosystem name versions = do
    adapter ← adapter_for ecosystem
    normalized_name ← adapter.normalize_name name
    ordered ← unique_versions versions
    decide_parsed c s now later policy adapter normalized_name ordered
