-- ===== src/Compiler/Laws.antt =====
-- The classified rules are dictionaries and sets.
use mathlib.Core.Path.{subst}
use artea.Base.{
  ℕ, suc, ◌≡◌, ◌≢◌, Option, none, some, List, [], ◌∷◌, Text, eq_text, ◌==◌, ok, >>=-eq-ok,
  ok-injective, arith, Bool-cases, inl, inr, contains,
}
use artea.Base.Dict.{IsDict, get, add, items_at, put-IsDict, push-IsDict, get-put}
use artea.Policy.{Action, deny, allow, Rule}
use artea.Adapters.{Adapter}
use artea.Compiler.{
  EcosystemRules, no_rules, add_exact, add_namespace, add_whole, classify_namespace, classify_range,
  check_range, classify_name, classify_target, classify_rule, classify_from, classify,
}

-- A package has one whole-package deny, one list of ranges and one set of exact versions at most,
-- and such a set is not empty.
pub record IsClassified (eco : EcosystemRules) : Type 0 where
  pub whole : IsDict eco.whole_denies
  pub ranges : IsDict eco.range_denies
  pub exact : IsDict eco.exact_allows
  pub some_version : (n : Text) → get n eco.exact_allows ≢ some []

no_rules-IsClassified : IsClassified no_rules
no_rules-IsClassified = record {
  whole = tt;
  ranges = tt;
  exact = tt;
  some_version = λ n. unfold get in λ e. cc;
}

add-ne-nil : (v : Text) (s : List Text) → add v s ≢ []
unfolding add contains
add-ne-nil v [] = λ e. cc
add-ne-nil v (w ∷ s) = λ e. ground arith

add_exact-IsClassified :
    (name v : Text) (eco : EcosystemRules)
    → IsClassified eco
    → IsClassified (record eco { exact_allows = add_exact name v eco.exact_allows })
unfolding add_exact
add_exact-IsClassified name v eco c = record {
  whole = c.whole;
  ranges = c.ranges;
  exact = put-IsDict name _ eco.exact_allows c.exact;
  some_version = λ n. elim (Bool-cases (name == n)) [
    | inl e ↦ rw (get-put, e) (λ h. add-ne-nil v (items_at name eco.exact_allows) (cc))
    | inr e ↦ rw (get-put, e) (c.some_version n)
  ];
}

add_namespace-IsClassified :
    (a : Action) (ns : Text) (eco : EcosystemRules)
    → IsClassified eco
    → IsClassified (add_namespace a ns eco)
unfolding add_namespace
add_namespace-IsClassified deny ns eco c = record {
  whole = c.whole;
  ranges = c.ranges;
  exact = c.exact;
  some_version = c.some_version;
}
add_namespace-IsClassified allow ns eco c = record {
  whole = c.whole;
  ranges = c.ranges;
  exact = c.exact;
  some_version = c.some_version;
}

add_whole-IsClassified :
    (a : Action) (name : Text) (reason : Option Text) (eco : EcosystemRules)
    → IsClassified eco
    → IsClassified (add_whole a name reason eco)
unfolding add_whole
add_whole-IsClassified deny name reason eco c = record {
  whole = put-IsDict name reason eco.whole_denies c.whole;
  ranges = c.ranges;
  exact = c.exact;
  some_version = c.some_version;
}
add_whole-IsClassified allow name reason eco c = record {
  whole = c.whole;
  ranges = c.ranges;
  exact = c.exact;
  some_version = c.some_version;
}

module _ (adapter : Adapter) (ecosystem : Text) where
  classify_namespace-IsClassified :
      (i : ℕ) (rule : Rule) (ns : Text) (eco : EcosystemRules) {out : EcosystemRules}
      → classify_namespace adapter ecosystem i rule ns eco ≡ ok out
      → IsClassified eco
      → IsClassified out
  unfolding classify_namespace
  classify_namespace-IsClassified i rule ns eco h c = elim (Bool-cases adapter.supports_namespace) [
    | inl e ↦
        let (n, _, h) = >>=-eq-ok (adapter.normalize_namespace ns) _ (rw e at h) in
        subst IsClassified (ok-injective h) (add_namespace-IsClassified rule.action n eco c)
    | inr e ↦ absurd (cc (rw e at h))
  ]

  classify_range-IsClassified :
      (a : Action) (i : ℕ) (name range : Text) (reason : Option Text) (eco : EcosystemRules)
      {out : EcosystemRules}
      → classify_range adapter ecosystem a i name range reason eco ≡ ok out
      → IsClassified eco
      → IsClassified out
  unfolding classify_range
  classify_range-IsClassified deny i name range reason eco h c =
      subst IsClassified (ok-injective h) (record {
        whole = c.whole;
        ranges = push-IsDict name (range, reason) eco.range_denies c.ranges;
        exact = c.exact;
        some_version = c.some_version;
      })
  classify_range-IsClassified allow i name range reason eco h c =
      elim (Bool-cases (adapter.is_exact range)) [
        | inl e ↦
            let (v, _, h) = >>=-eq-ok (adapter.exact_value range) _ (rw e at h) in
            subst IsClassified (ok-injective h) (add_exact-IsClassified name v eco c)
        | inr e ↦ absurd (cc (rw e at h))
      ]

  classify_name-IsClassified :
      (i : ℕ) (rule : Rule) (vs : Option Text) (name : Text) (eco : EcosystemRules)
      {out : EcosystemRules}
      → classify_name adapter ecosystem i rule vs name eco ≡ ok out
      → IsClassified eco
      → IsClassified out
  unfolding classify_name
  classify_name-IsClassified i rule none name eco h c =
      subst IsClassified (ok-injective h)
        (add_whole-IsClassified rule.action name rule.reason eco c)
  classify_name-IsClassified i rule (some range) name eco h c =
      let (_, _, h) = >>=-eq-ok (check_range adapter ecosystem i name range) _ h in
      classify_range-IsClassified rule.action i name range rule.reason eco h c

  classify_target-IsClassified :
      (i : ℕ) (rule : Rule) (ns name : Option Text) (eco : EcosystemRules) {out : EcosystemRules}
      → classify_target adapter ecosystem i rule ns name eco ≡ ok out
      → IsClassified eco
      → IsClassified out
  unfolding classify_target
  classify_target-IsClassified i rule (some ns) name eco h c =
      classify_namespace-IsClassified i rule ns eco h c
  classify_target-IsClassified i rule none none eco h c = cc
  classify_target-IsClassified i rule none (some raw) eco h c =
      let (name, _, h) = >>=-eq-ok (adapter.normalize_name raw) _ h in
      classify_name-IsClassified i rule rule.versions name eco h c

  classify_rule-IsClassified :
      (i : ℕ) (rule : Rule) (eco : EcosystemRules) {out : EcosystemRules}
      → classify_rule adapter ecosystem i rule eco ≡ ok out
      → IsClassified eco
      → IsClassified out
  unfolding classify_rule
  classify_rule-IsClassified i rule eco h c = elim (Bool-cases (rule.ecosystem == ecosystem)) [
    | inl e ↦ classify_target-IsClassified i rule rule.namespace rule.name eco (rw e at h) c
    | inr e ↦ subst IsClassified (ok-injective (rw e at h)) c
  ]

  classify_from-IsClassified :
      (i : ℕ) (rules : List Rule) (eco : EcosystemRules) {out : EcosystemRules}
      → classify_from adapter ecosystem i rules eco ≡ ok out
      → IsClassified eco
      → IsClassified out
  unfolding classify_from
  classify_from-IsClassified i [] eco h c = subst IsClassified (ok-injective h) c
  classify_from-IsClassified i (rule ∷ rules) eco h c =
      let (eco', one, h) = >>=-eq-ok (classify_rule adapter ecosystem i rule eco) _ h in
      classify_from-IsClassified (suc i) rules eco' h (classify_rule-IsClassified i rule eco one c)

pub classify-IsClassified :
    (rules : List Rule) (ecosystem : Text) (adapter : Adapter) {eco : EcosystemRules}
    → classify rules ecosystem adapter ≡ ok eco
    → IsClassified eco
unfolding classify
classify-IsClassified rules ecosystem adapter h =
    classify_from-IsClassified adapter ecosystem 0 rules no_rules h no_rules-IsClassified
