-- ===== src/Osv/Decide/Verdicts.antt =====
-- The verdict that `decide` gives on each version.
use mathlib.Core.Path.{subst}
use mathlib.Core.Option.{get_or}
use artea.Base.{
  ℕ, ◌≡◌, refl, sym, ◌∙◌, Bool, true, false, not, ◌&&◌, ◌||◌, Option, none, some, List, [], ◌∷◌,
  map, Text, eq_text, text_eq_iff, ◌==◌, contains, Result, ok, err, >>=-eq-ok, ok-injective,
  if◌then◌else◌, arith, Bool-cases, Option-cases, inl, inr,
}
use artea.Base.Dict.{Dict, get}
use artea.Base.Lists.{keep, contains-keep}
use artea.Policy.{PolicyError, Policy, Rule}
use artea.Adapters.{Adapter}
use artea.Osv.{Verdict, OsvError}
use artea.Osv.Json.{Json, string}
use artea.Osv.Decide.Unique.{first_occurrences, unique_versions-first_occurrences}
use artea.Osv.Cache.{VerdictCache, Key, lookup}
use artea.Osv.Decide.{
  adapter_for, unique_versions, override_applies, allowed_versions, clean, key_for, cached_of,
  misses_of, verdict_for, Outcome, Fetched, fetch, fetched_of, decide_with, decide_parsed, decide,
}

contains-next :
    (applies : Bool) (u v : Text) (rest : List Text)
    → contains v (if applies then u ∷ rest else rest) ≡ (applies && u == v || contains v rest)
unfolding contains
contains-next true u v rest = refl
contains-next false u v rest = refl

module _ (adapter : Adapter) (name : Text) (rules : List Rule) where
  override : Text → Result PolicyError Bool
  override v = override_applies adapter name v adapter.ecosystem rules

  only_own :
      (applies : Bool) (u v : Text) (rest : Bool)
      → override u ≡ ok applies
      → (rest ≡ true → override v ≡ ok true)
      → (applies && u == v || rest) ≡ true
      → override v ≡ ok true
  only_own true u v rest o h m = elim (Bool-cases (u == v)) [
    | inl e ↦ subst (λ x. override x ≡ ok true) ((text_eq_iff u v).0 e) o
    | inr e ↦ h (rw e at m)
  ]
  only_own false u v rest o h m = h m

  allowed_sound :
      (versions : List Text) {allowed : List Text} (v : Text)
      → allowed_versions adapter name rules versions ≡ ok allowed
      → contains v allowed ≡ true
      → override v ≡ ok true
  unfolding allowed_versions contains override
  allowed_sound [] v h m = absurd (cc (ok-injective h, m))
  allowed_sound (u ∷ us) {allowed} v h m =
      let (applies, one, h) =
        >>=-eq-ok (override_applies adapter name u adapter.ecosystem rules) _ h in
      let (rest, later, h) = >>=-eq-ok (allowed_versions adapter name rules us) _ h in
      let e : (if applies then u ∷ rest else rest) ≡ allowed = ok-injective h in
      only_own applies u v (contains v rest) one (allowed_sound us v later)
        (sym (contains-next applies u v rest) ∙ rw e m)

  exact_own :
      (applies : Bool) (u v : Text) (rest inside : Bool)
      → override u ≡ ok applies
      → (rest ≡ true → override v ≡ ok true)
      → (inside ≡ true → override v ≡ ok rest)
      → (u == v || inside) ≡ true
      → override v ≡ ok (applies && u == v || rest)
  exact_own applies u v rest inside o h k m = elim (Bool-cases (u == v)) [
    | inl e ↦
        let ov = subst (λ x. override x ≡ ok applies) ((text_eq_iff u v).0 e) o in
        rw e (own applies rest ov h)
    | inr e ↦ rw e (other applies (k (rw e at m)))
  ]
    where
      own :
          (applies rest : Bool)
          → override v ≡ ok applies
          → (rest ≡ true → override v ≡ ok true)
          → override v ≡ ok (applies && true || rest)
      own true rest o h = o
      own false true o h = h refl
      own false false o h = o

      other : (applies : Bool) → override v ≡ ok rest → override v ≡ ok (applies && false || rest)
      other true h = h
      other false h = h

  -- What an allow says of each version is what the set of allowed versions holds.
  override-allowed :
      (versions : List Text) {allowed : List Text} (v : Text)
      → allowed_versions adapter name rules versions ≡ ok allowed
      → contains v versions ≡ true
      → override v ≡ ok (contains v allowed)
  unfolding allowed_versions contains override
  override-allowed [] v h m = absurd (cc m)
  override-allowed (u ∷ us) {allowed} v h m =
      let (applies, one, h) =
        >>=-eq-ok (override_applies adapter name u adapter.ecosystem rules) _ h in
      let (rest, later, h) = >>=-eq-ok (allowed_versions adapter name rules us) _ h in
      let e : (if applies then u ∷ rest else rest) ≡ allowed = ok-injective h in
      subst (λ x. override v ≡ ok (contains v x)) e
        (rw (contains-next applies u v rest) (
          exact_own applies u v (contains v rest) (contains v us) one (allowed_sound us v later)
            (override-allowed us v later) m))

cached_step :
    (o : Option Verdict) (u v : Text) (rest : Dict Text Verdict)
    → get v
        (elim o as (λ _. Dict Text Verdict) [ none ↦ rest | some verdict ↦ (u, verdict) ∷ rest ])
      ≡ (if u == v
          then (elim o [ none ↦ get v rest | some verdict ↦ some verdict ])
          else get v rest)
unfolding get
cached_step none u v rest = ground arith
cached_step (some x) u v rest = refl

first_or :
    (o g : Option Verdict) (b : Bool)
    → g ≡ (if b then o else none)
    → elim o as (λ _. Option Verdict) [ none ↦ g | some x ↦ some x ] ≡ o
first_or none g true h = h
first_or none g false h = h
first_or (some x) g b h = refl

get-cached_of :
    (c : VerdictCache) (now : ℕ) (key : Text → Key) (vs : List Text) (v : Text)
    → get v (cached_of c now key vs) ≡ (if contains v vs then lookup c now (key v) else none)
unfolding cached_of contains
get-cached_of c now key [] v = unfold get in refl
get-cached_of c now key (u ∷ us) v =
    cached_step (lookup c now (key u)) u v (cached_of c now key us) ∙ elim (Bool-cases (u == v)) [
      | inl e ↦ rw e (
          subst
            (λ x.
              elim (lookup c now (key x)) as (λ _. Option Verdict) [
                | none ↦ get v (cached_of c now key us)
                | some y ↦ some y
              ]
              ≡ lookup c now (key v))
            (sym ((text_eq_iff u v).0 e))
            (first_or (lookup c now (key v)) _ (contains v us) (get-cached_of c now key us v)))
      | inr e ↦ rw e (get-cached_of c now key us v)
    ]

-- The answer on a version that was asked for, or that it is not blocked.
unfoldable pub answered : Result OsvError (Dict Text Verdict) → Text → Verdict
unfolding get clean
answered (err e) v = clean v
answered (ok fetched) v = get_or (get v fetched) (clean v)

module _ {ℓ} {S : Type ℓ} (query : S → Text → Text → List Text → Fetched S) where
  -- The answer to the one query on the versions that no allow overrides and the cache has not.
  unfoldable pub answer_of :
      VerdictCache → S → ℕ → Adapter → Text → List Text → List Text → Fetched S
  unfolding fetch misses_of keep contains
  answer_of c s now adapter name versions allowed =
      fetch query s adapter.osv_ecosystem name
        (misses_of c now (key_for adapter name) (keep (λ v. not (contains v allowed)) versions))

-- What the verdict on a version is: an allow wins over all else; then the cache decides, then the
-- answer of OSV, and without one the version is not blocked.
unfoldable pub judged : Result PolicyError Bool → Option Verdict → Verdict → Text → Verdict
unfolding clean
judged (err e) cached asked v = clean v
judged (ok true) cached asked v = clean v
judged (ok false) (some verdict) asked v = verdict
judged (ok false) none asked v = asked

unfoldable pub expected :
    VerdictCache
    → ℕ
    → Adapter
    → Text
    → List Rule
    → Result OsvError (Dict Text Verdict)
    → Text
    → Verdict
unfolding judged override_applies lookup answered
expected c now adapter name rules answer v =
    judged (override_applies adapter name v adapter.ecosystem rules)
      (lookup c now (key_for adapter name v)) (answered answer v) v

verdict_for-judged :
    (allowed : List Text) (cached : Dict Text Verdict)
    (answer : Result OsvError (Dict Text Verdict)) (v : Text) (found : Option Verdict)
    → get v cached ≡ (if not (contains v allowed) then found else none)
    → verdict_for allowed cached (fetched_of answer) v
      ≡ judged (ok (contains v allowed)) found (answered answer v) v
unfolding verdict_for judged answered fetched_of
verdict_for-judged allowed cached answer v found h = elim (Bool-cases (contains v allowed)) [
  | inl e ↦ rw e refl
  | inr e ↦ rw (e, rw e at h) (either found answer)
]
  where
    either :
        (found : Option Verdict) (answer : Result OsvError (Dict Text Verdict))
        → elim found as (λ _. Verdict) [
          | some verdict ↦ verdict
          | none ↦ elim (get v (fetched_of answer)) as (λ _. Verdict) [
            | some verdict ↦ verdict
            | none ↦ clean v
          ]
        ]
          ≡ judged (ok false) found (answered answer v) v
    either (some x) answer = refl
    either none (err e) = unfold get in refl
    either none (ok d) = elim (Option-cases (get v d)) [
      | inl e ↦ rw e refl
      | inr (x, e) ↦ rw e refl
    ]

map-ext_on :
    (f g : Text → Verdict) (vs : List Text)
    → ((v : Text) → contains v vs ≡ true → f v ≡ g v)
    → map f vs ≡ map g vs
unfolding contains
map-ext_on f g [] h = refl
map-ext_on f g (v ∷ vs) h =
    rw (h v (ground (arith, text_eq_iff v v)), map-ext_on f g vs (λ u m. h u (ground arith))) refl

contains-asked :
    (allowed versions : List Text) (v : Text)
    → contains v versions ≡ true
    → contains v (keep (λ u. not (contains u allowed)) versions) ≡ not (contains v allowed)
contains-asked allowed versions v m =
    contains-keep (λ u. not (contains u allowed)) v versions ∙ rw m refl

module _ {ℓ} {S : Type ℓ} (query : S → Text → Text → List Text → Fetched S) (c : VerdictCache)
    (s : S) (now later : ℕ) where
  decide_with-expected :
      (adapter : Adapter) (name : Text) (rules : List Rule) (versions : List Text)
      {allowed : List Text}
      → allowed_versions adapter name rules versions ≡ ok allowed
      → (decide_with query c s now later adapter name versions allowed).decision.verdicts
        ≡ map
            (expected c now adapter name rules
              (answer_of query c s now adapter name versions allowed).1)
            versions
  unfolding decide_with answer_of expected override
  decide_with-expected adapter name rules versions {allowed} h = map-ext_on _ _ versions (λ v m.
      verdict_for-judged allowed
        (cached_of c now (key_for adapter name) (keep (λ u. not (contains u allowed)) versions))
        (answer_of query c s now adapter name versions allowed).1 v
        (lookup c now (key_for adapter name v))
        (get-cached_of c now (key_for adapter name) _ v
          ∙ rw (contains-asked allowed versions v m) refl)
      ∙ rw (← override-allowed adapter name rules versions v h m) refl)

  decide_parsed-expected :
      (policy : Policy) (adapter : Adapter) (n : Text) (versions : List Text) {out : Outcome S}
      → decide_parsed query c s now later (some policy) adapter n versions ≡ ok out
      → policy.osv_malicious_packages ≡ true
      → (allowed : List Text) × ((allowed_versions adapter n policy.rules versions ≡ ok allowed)
          × (out.decision.verdicts
              ≡ map
                  (expected c now adapter n policy.rules
                    (answer_of query c s now adapter n versions allowed).1)
                  versions))
  unfolding decide_parsed
  decide_parsed-expected policy adapter n versions h on =
      let (allowed, w, h) =
        >>=-eq-ok (allowed_versions adapter n policy.rules versions) _ (rw on at h) in
      (
        allowed,
        (
          w,
          subst
              (λ (x : Outcome S).
                x.decision.verdicts
                ≡ map
                    (expected c now adapter n policy.rules
                      (answer_of query c s now adapter n versions allowed).1)
                    versions)
              (ok-injective h) (decide_with-expected adapter n policy.rules versions w),
        ),
      )

  -- Where `decide` returns and the policy has the check enabled, the request is a list of texts, and
  -- there is one verdict for each different one, in the order in which they first stand there. An allow of the
  -- package or of the version wins; else the cache decides; else the answer of OSV, and a version
  -- that no answer covers, since the query failed or left it out, is not blocked.
  pub decide-expected :
      (policy : Policy) (ecosystem name : Text) (request : List Json) {out : Outcome S}
      → decide query c s now later (some policy) ecosystem name request ≡ ok out
      → policy.osv_malicious_packages ≡ true
      → (adapter : Adapter) × ((n : Text) × ((versions : List Text) × ((allowed : List Text)
              × ((adapter_for ecosystem ≡ ok adapter)
                  × ((adapter.normalize_name name ≡ ok n)
                      × (((texts : List Text) × (request ≡ map string texts)
                            × (versions ≡ first_occurrences texts))
                          × ((allowed_versions adapter n policy.rules versions ≡ ok allowed)
                              × (out.decision.verdicts
                                  ≡ map
                                      (expected c now adapter n policy.rules
                                        (answer_of query c s now adapter n versions allowed).1)
                                      versions))))))))
  unfolding decide
  decide-expected policy ecosystem name request {out} h on =
      let (adapter, a, h) = >>=-eq-ok (adapter_for ecosystem) _ h in
      let (n, b, h) = >>=-eq-ok (adapter.normalize_name name) _ h in
      let (versions, v, h) = >>=-eq-ok (unique_versions request) _ h in
      let (allowed, e) = decide_parsed-expected policy adapter n versions h on in
      (
        adapter,
        (n, (versions, (allowed, (a, (b, (unique_versions-first_occurrences request v, e)))))),
      )
