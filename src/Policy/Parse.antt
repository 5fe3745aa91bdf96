-- ===== src/Policy/Parse.antt =====
-- policy-sync/policy_sync/policy_model.py: the parser of the unified policy.
pub mod Validity
pub mod Expiry
pub mod Allowed
use mathlib.Core.Option.{get_or}
use artea.Base.{
  ℕ, zero, suc, Bool, true, false, not, ◌&&◌, ◌||◌, Option, none, some, List, [], ◌∷◌, Text, codes,
  eq_text, ◌==◌, contains, Result, ok, err, ◌>>=◌, ◌>>◌, raise_if, traverse, if◌then◌else◌,
}
use artea.Base.Dict.{Dict, get, put, keys}
use artea.Base.Lists.{keep}
use artea.Base.Sort.{sorted, sort_by}
use artea.Base.Int.{ℤ, leb_ℤ}
use artea.Value.{
  Value, Fields, DateTime, null, bool, str, datetime, list, dict, items, fields, instant, is_one,
}
use artea.Policy.{
  PolicyError, Place, at_rule, at_defaults, at_upstream, at_osv, at_ecosystem, not_utf8, not_toml,
  unknown_top_level, bad_schema, bad_upstream, bad_osv, bad_malicious, bad_rules, bad_defaults,
  bad_ecosystems, bad_override, bad_action, unknown_key, rule_type, ecosystem_required,
  unknown_ecosystem, name_or_namespace, bad_name, bad_namespace, reserved_name,
  versions_with_namespace, bad_versions, bad_reason, bad_source, bad_expires, Action, deny, allow,
  Rule, Defaults, Policy, known_ecosystems,
}
use artea.Policy.MinAge.{validate_min_age, default_min_age}

-- What the parser takes from the standard library, and the clock at the time of the call.
pub record Reader : Type 0 where
  pub decode : List ℕ → Option Text
  pub loads : Text → Option Fields
  pub fromisoformat : Text → Option DateTime
  pub now : ℤ

abbrev pub Parsed : Type 0 → Type 0
Parsed A = Result PolicyError A

-- `d.get(k)`, with `None` for a missing key
unfoldable pub get_value : Text → Dict Text Value → Value
unfolding get
get_value k d = get_or (get k d) null

unfoldable pub is_null : Value → Bool
is_null null = true
is_null _ = false

unfoldable pub parse_action : Place → Value → Parsed Action
parse_action place (str s) =
    if s == codes "deny"
    then ok deny
    else if s == codes "allow"
    then ok allow
    else err (bad_action place)
parse_action place _ = err (bad_action place)

unfoldable pub raise_unknown : (List Text → PolicyError) → List Text → Parsed (Unit {0})
raise_unknown e [] = ok tt
raise_unknown e (k ∷ ks) = err (e (sorted (k ∷ ks)))

-- `set(raw) - allowed`
unfoldable pub unknown_keys : List Text → Dict Text Value → List Text
unfolding keep contains
unknown_keys allowed raw = keep (λ k. not (contains k allowed)) (keys raw)

unfoldable pub reject_unknown_keys : Place → List Text → Dict Text Value → Parsed (Unit {0})
unfolding unknown_keys raise_unknown sort_by
reject_unknown_keys place allowed raw = raise_unknown (unknown_key place) (unknown_keys allowed raw)

abbrev pub allowed_defaults_keys : List Text
allowed_defaults_keys = codes "action" ∷ codes "ecosystems" ∷ []

abbrev pub allowed_ecosystem_override_keys : List Text
allowed_ecosystem_override_keys = codes "action" ∷ []

abbrev pub allowed_rule_keys : List Text
allowed_rule_keys =
    codes "ecosystem"
    ∷ codes "name"
    ∷ codes "namespace"
    ∷ codes "versions"
    ∷ codes "action"
    ∷ codes "reason"
    ∷ codes "source"
    ∷ codes "expires"
    ∷ []

abbrev pub allowed_top_level : List Text
allowed_top_level =
    codes "schema" ∷ codes "defaults" ∷ codes "rules" ∷ codes "upstream" ∷ codes "osv" ∷ []

unfoldable pub parse_override : Text → Value → Parsed Action
parse_override eco (dict fs) = do
  reject_unknown_keys (at_ecosystem eco) allowed_ecosystem_override_keys (fields fs)
  parse_action (at_ecosystem eco) (get_or (get (codes "action") (fields fs)) (str (codes "allow")))
parse_override eco _ = err (bad_override eco)

unfoldable pub parse_overrides : Dict Text Value → Dict Text Action → Parsed (Dict Text Action)
parse_overrides [] out = ok out
parse_overrides ((eco, override) ∷ rest) out = do
  action ← parse_override eco override
  parse_overrides rest (put eco action out)

unfoldable pub parse_ecosystems : Value → Parsed (Dict Text Action)
parse_ecosystems null = ok []
parse_ecosystems (dict fs) = parse_overrides (fields fs) []
parse_ecosystems _ = err bad_ecosystems

unfoldable pub parse_defaults : Value → Parsed Defaults
parse_defaults null = ok (record { action = allow; ecosystems = [] })
parse_defaults (dict fs) = do
  reject_unknown_keys at_defaults allowed_defaults_keys (fields fs)
  action ←
      parse_action at_defaults (get_or (get (codes "action") (fields fs)) (str (codes "allow")))
  ecosystems ← parse_ecosystems (get_value (codes "ecosystems") (fields fs))
  ok (record { action = action; ecosystems = ecosystems })
parse_defaults _ = err bad_defaults

-- A value that is absent, or a string that is not empty.
unfoldable pub optional_text : PolicyError → Value → Parsed (Option Text)
optional_text e null = ok none
optional_text e (str []) = err e
optional_text e (str (c ∷ s)) = ok (some (c ∷ s))
optional_text e _ = err e

unfoldable pub parse_ecosystem : ℕ → Value → Parsed Text
unfolding contains
parse_ecosystem i (str []) = err (ecosystem_required i)
parse_ecosystem i (str (c ∷ s)) =
    if contains (c ∷ s) known_ecosystems then ok (c ∷ s) else err (unknown_ecosystem i (c ∷ s))
parse_ecosystem i _ = err (ecosystem_required i)

-- `x == "*"`
unfoldable pub is_star : Option Text → Bool
is_star none = false
is_star (some s) = s == codes "*"

-- `(name is None) == (namespace is None)`
unfoldable pub both_or_neither : Value → Value → Bool
both_or_neither name namespace =
    is_null name && is_null namespace || not (is_null name) && not (is_null namespace)

unfoldable pub parse_versions : ℕ → Option Text → Value → Parsed (Option Text)
unfolding optional_text
parse_versions i namespace null = ok none
parse_versions i (some ns) v = err (versions_with_namespace i)
parse_versions i none v = optional_text (bad_versions i) v

unfoldable pub parse_reason : ℕ → Value → Parsed (Option Text)
parse_reason i null = ok none
parse_reason i (str s) = ok (some s)
parse_reason i _ = err (bad_reason i)

unfoldable pub parse_source : ℕ → Value → Parsed Text
parse_source i (str s) = ok s
parse_source i _ = err (bad_source i)

-- The time that `expires` names, and the text that the rule keeps of it.
unfoldable pub parse_expires :
    (Text → Option DateTime) → ℕ → Value → Parsed (Option (DateTime × Text))
parse_expires read i null = ok none
parse_expires read i (datetime t) = ok (some (t, t.iso))
parse_expires read i (str s) = elim (read s) [
  | none ↦ err (bad_expires i)
  | some t ↦ ok (some (t, s))
]
parse_expires read i _ = err (bad_expires i)

-- `expires_dt <= datetime.now(timezone.utc)`
unfoldable pub is_expired : Reader → Option (DateTime × Text) → Bool
unfolding instant
is_expired r none = false
is_expired r (some (t, s)) = leb_ℤ (instant t) r.now

unfoldable pub expires_text : Option (DateTime × Text) → Option Text
expires_text none = none
expires_text (some (t, s)) = some s

-- An expired rule is dropped.
unfoldable pub unless_expired : Bool → Rule → Option Rule
unless_expired true rule = none
unless_expired false rule = some rule

-- The checks of a table, in their order: the time at which the rule expires, and the rule.
unfoldable pub read_table :
    (Text → Option DateTime) → Dict Text Value → ℕ → Parsed (Option (DateTime × Text) × Rule)
read_table read raw i = do
  reject_unknown_keys (at_rule i) allowed_rule_keys raw
  ecosystem ← parse_ecosystem i (get_value (codes "ecosystem") raw)
  let name_value = get_value (codes "name") raw
  let namespace_value = get_value (codes "namespace") raw
  raise_if (both_or_neither name_value namespace_value) (name_or_namespace i)
  name ← optional_text (bad_name i) name_value
  namespace ← optional_text (bad_namespace i) namespace_value
  raise_if (is_star name || is_star namespace) (reserved_name i)
  versions ← parse_versions i namespace (get_value (codes "versions") raw)
  action ← parse_action (at_rule i) (get_or (get (codes "action") raw) (str (codes "deny")))
  reason ← parse_reason i (get_value (codes "reason") raw)
  source ← parse_source i (get_or (get (codes "source") raw) (str (codes "curated")))
  expires ← parse_expires read i (get_value (codes "expires") raw)
  ok (
    expires,
    record {
      ecosystem = ecosystem;
      name = name;
      namespace = namespace;
      versions = versions;
      action = action;
      reason = reason;
      source = source;
      expires = expires_text expires;
    },
  )

unfoldable pub parse_rule_table : Reader → Dict Text Value → ℕ → Parsed (Option Rule)
parse_rule_table r raw i = do
  (expires, rule) ← read_table r.fromisoformat raw i
  ok (unless_expired (is_expired r expires) rule)

unfoldable pub parse_rule : Reader → Value → ℕ → Parsed (Option Rule)
parse_rule r (dict fs) i = parse_rule_table r (fields fs) i
parse_rule r _ i = err (rule_type i)

unfoldable pub cons_some : Option Rule → List Rule → List Rule
cons_some none rules = rules
cons_some (some rule) rules = rule ∷ rules

-- The loop over the rules, from the index `i` on.
unfoldable pub parse_rules : Reader → ℕ → List Value → Parsed (List Rule)
parse_rules r i [] = ok []
parse_rules r i (raw ∷ raws) = do
  rule ← parse_rule r raw i
  rules ← parse_rules r (suc i) raws
  ok (cons_some rule rules)

unfoldable pub parse_upstream : Value → Parsed Text
parse_upstream null = ok default_min_age
parse_upstream (dict fs) = do
  reject_unknown_keys at_upstream (codes "min_age" ∷ []) (fields fs)
  validate_min_age (get_value (codes "min_age") (fields fs))
parse_upstream _ = err bad_upstream

unfoldable pub parse_malicious : Value → Parsed Bool
parse_malicious (bool b) = ok b
parse_malicious _ = err bad_malicious

unfoldable pub parse_osv : Value → Parsed Bool
parse_osv null = ok false
parse_osv (dict fs) = do
  reject_unknown_keys at_osv (codes "malicious_packages" ∷ []) (fields fs)
  parse_malicious (get_or (get (codes "malicious_packages") (fields fs)) (bool false))
parse_osv _ = err bad_osv

unfoldable pub parse_rule_array : Reader → Option Value → Parsed (List Rule)
parse_rule_array r none = ok []
parse_rule_array r (some (list vs)) = parse_rules r 0 (items vs)
parse_rule_array r (some _) = err bad_rules

unfoldable pub parse_document : Reader → Dict Text Value → Parsed Policy
parse_document r doc = do
  raise_unknown unknown_top_level (unknown_keys allowed_top_level doc)
  let schema = get_value (codes "schema") doc
  raise_if (not (is_one schema)) (bad_schema schema)
  defaults ← parse_defaults (get_value (codes "defaults") doc)
  min_age ← parse_upstream (get_value (codes "upstream") doc)
  malicious ← parse_osv (get_value (codes "osv") doc)
  rules ← parse_rule_array r (get (codes "rules") doc)
  ok (record {
    schema = schema;
    defaults = defaults;
    rules = rules;
    min_age = min_age;
    osv_malicious_packages = malicious;
  })

unfoldable pub parse_loaded : Reader → Option Fields → Parsed Policy
parse_loaded r none = err not_toml
parse_loaded r (some doc) = parse_document r (fields doc)

unfoldable pub parse_decoded : Reader → Option Text → Parsed Policy
parse_decoded r none = err not_utf8
parse_decoded r (some text) = parse_loaded r (r.loads text)

unfoldable pub parse_policy : Reader → List ℕ → Parsed Policy
parse_policy r content = parse_decoded r (r.decode content)
